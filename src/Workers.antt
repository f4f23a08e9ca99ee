-- ===== src/Workers.antt =====
-- src/workers/*.py: the asynchronous parts, each a transaction or a few of its own.
pub mod Processor
pub mod Cleanup
pub mod Relay
