-- ===== src/Migrations/Paths.antt =====
-- Migrations up and down, one after the other, as the revisions of src/migrations/versions and their
-- `down_revision` let them follow. Alembic's own table of the revision is left out.
use inventory_reservation_or.Prelude.{
  ◌≡◌, refl, ap, ◌∙◌, Bool, true, false, Option, none, some, List, [], ◌∷◌,
}
use inventory_reservation_or.Migrations.Ddl.{Operation, Schema, empty}
use inventory_reservation_or.Migrations.Apply.{apply}
use inventory_reservation_or.Migrations.Initial
use inventory_reservation_or.Migrations.LowStock

-- Before the first migration, and after each.
pub data Revision : Type 0 where
  base : Revision
  revision_0001 : Revision
  revision_0002 : Revision

pub data Migration : Revision → Revision → Type 0 where
  upgrade_0001 : Migration Revision.base Revision.revision_0001
  downgrade_0001 : Migration Revision.revision_0001 Revision.base
  upgrade_0002 : Migration Revision.revision_0001 Revision.revision_0002
  downgrade_0002 : Migration Revision.revision_0002 Revision.revision_0001

pub data Migrations (a : Revision) : Revision → Type 0 where
  nothing : Migrations a a
  followed : {b c : Revision} → Migrations a b → Migration b c → Migrations a c

abbrev pub script : {a b : Revision} → Migration a b → List Operation
script upgrade_0001 = Initial.upgrade
script downgrade_0001 = Initial.downgrade
script upgrade_0002 = LowStock.upgrade
script downgrade_0002 = LowStock.downgrade

-- The operations of a script, up to one that is refused.
unfoldable pub run : List Operation → Option Schema → Option Schema
run operations none = none
run [] (some s) = some s
run (operation ∷ operations) (some s) = run operations (apply operation s)

unfoldable pub migrate : {a b : Revision} → Migrations a b → Schema → Option Schema
migrate nothing s = some s
migrate (followed migrations m) s = run (script m) (migrate migrations s)

-- What the upgrades alone make of an empty database.
abbrev pub built : Revision → Option Schema
built Revision.base = some empty
built Revision.revision_0001 = run Initial.upgrade (some empty)
built Revision.revision_0002 = run LowStock.upgrade (run Initial.upgrade (some empty))

abbrev pub is_done : Option Schema → Bool
is_done none = false
is_done (some s) = true

built_done : (a : Revision) → is_done (built a) ≡ true
unfolding run apply Initial.upgrade LowStock.upgrade
built_done Revision.base = refl
built_done Revision.revision_0001 = refl
built_done Revision.revision_0002 = refl

run-built : {a b : Revision} (m : Migration a b) → run (script m) (built a) ≡ built b
unfolding run apply Initial.upgrade Initial.downgrade LowStock.upgrade LowStock.downgrade
run-built upgrade_0001 = refl
run-built downgrade_0001 = refl
run-built upgrade_0002 = refl
run-built downgrade_0002 = refl

migrate-built :
    {a : Revision} (migrations : Migrations Revision.base a) → migrate migrations empty ≡ built a
unfolding migrate
migrate-built nothing = refl
migrate-built (followed migrations m) = ap (run (script m)) (migrate-built migrations) ∙ run-built m

-- Whatever migrations are run up and down one after the other from an empty database, each from
-- the revision that the one before it led to, no operation of theirs is refused, and the schema is
-- the one that the upgrades alone make of an empty database: the empty one again after the
-- downgrade of the first.
pub migrate_builds :
    {a : Revision} (migrations : Migrations Revision.base a)
    → (migrate migrations empty ≡ built a) × (is_done (migrate migrations empty) ≡ true)
migrate_builds {a} migrations = let e = migrate-built migrations in (e, ap is_done e ∙ built_done a)
