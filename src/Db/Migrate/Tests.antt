-- ===== src/Db/Migrate/Tests.antt =====
-- `migrate` on tables that record the scripts which made them.
use oraja_traning.Prelude.{◌≡◌, refl, Option, none, some, List, [], ◌∷◌, ◌++◌}
use oraja_traning.Prelude.Int.{pos}
use oraja_traning.Prelude.Result.{ok, err}
use oraja_traning.Db.Migrate.{Script, v2, v3, v4, MigrateError, migrate, run_scripts}
use oraja_traning.Db.Migrate.Paths.{scripts, migrate_paths}

abbrev recorded : Script → List Script → Option (List Script)
recorded x made = some (made ++ x ∷ [])

abbrev made_by_v4 : List Script
made_by_v4 = v2 ∷ v3 ∷ v4 ∷ []

migrated :
    migrate recorded (record { version_table = some (pos 4 ∷ []); schema = made_by_v4 })
    ≡ ok (record { version_table = some (pos 11 ∷ []); schema = scripts })
unfolding migrate
migrated = refl

refused :
    migrate recorded (record { version_table = some (pos 1 ∷ []); schema = [] })
    ≡ err MigrateError.unsafe_version
unfolding migrate
refused = refl

made : run_scripts recorded made_by_v4 [] ≡ some made_by_v4
unfolding run_scripts
made = refl

migrate_paths_example :
    migrate recorded (record { version_table = some (pos 4 ∷ []); schema = made_by_v4 })
    ≡ migrate recorded (record { version_table = none; schema = [] })
migrate_paths_example = migrate_paths recorded v4 [] made_by_v4 made
