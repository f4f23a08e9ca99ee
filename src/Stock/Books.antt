-- ===== src/Stock/Books.antt =====
-- The agreement of the books, and the operations of src/services and src/workers on them.
pub mod Posting
pub mod Flags
pub mod Reserve
pub mod End
pub mod Release
pub mod Copies
pub mod Loops
pub mod Valid
pub mod Settle
pub mod Cancel
pub mod Process
pub mod Create
pub mod Place
pub mod Claim
pub mod Expire
pub mod Adjust
pub mod Threshold
