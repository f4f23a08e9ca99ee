-- ===== src/Tests/Migrated.antt =====
-- The schema, migrated up to its last revision, down to none, and up to the first one again.
use inventory_reservation_or.Prelude.{◌≡◌, true}
use inventory_reservation_or.Migrations.Ddl.{empty}
use inventory_reservation_or.Migrations.Paths.{
  Revision, Migrations, nothing, followed, upgrade_0001, upgrade_0002, downgrade_0001,
  downgrade_0002, migrate, built, is_done, migrate_builds,
}

abbrev up_down_up : Migrations Revision.base Revision.revision_0001
up_down_up =
    followed
      (followed (followed (followed (followed nothing upgrade_0001) upgrade_0002) downgrade_0002)
        downgrade_0001)
      upgrade_0001

migrate_builds_example :
    (migrate up_down_up empty ≡ built Revision.revision_0001)
    × (is_done (migrate up_down_up empty) ≡ true)
migrate_builds_example = migrate_builds up_down_up
