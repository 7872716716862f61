-- ===== src/Db/Migrate.antt =====
-- `migrate` of db/store.py: the schema versions of the assistant database. What a script does to
-- the tables is SQLite's; a script that fails leaves the transaction to be rolled back.
pub mod Paths
mod Tests
use oraja_traning.Prelude.{ℕ, Bool, Option, none, some, List, [], ◌∷◌, ◌++◌, map, if◌then◌else◌}
use oraja_traning.Prelude.Int.{ℤ, pos, ltb_ℤ}
use oraja_traning.Prelude.Eq.{◌==◌, int_eq}
use oraja_traning.Prelude.Result.{Result, ok, err, ◌>>=◌}

-- `SCHEMA_V2` to `SCHEMA_V11`.
pub data Script : Type 0 where
  v2 v3 v4 v5 v6 v7 v8 v9 v10 v11 : Script

-- `SCHEMA_VERSION`
abbrev pub schema_version : ℤ
schema_version = pos 11

-- The rows of the table `schema_version`, if it exists, and the other tables.
pub record Database (S : Type 0) : Type 0 where
  pub version_table : Option (List ℤ)
  pub schema : S

pub data MigrateError : Type 0 where
  no_version too_new unsafe_version script_failed unsupported : MigrateError

-- The scripts one after the other, until one fails.
unfoldable pub run_scripts : {S : Type 0} → (Script → S → Option S) → List Script → S → Option S
run_scripts apply [] s = some s
run_scripts apply (x ∷ xs) s = elim (apply x s) [ none ↦ none | some s' ↦ run_scripts apply xs s' ]

-- `_schema_version`
pub current_version : Option (List ℤ) → Result MigrateError ℤ
current_version none = ok (pos 0)
current_version (some []) = err MigrateError.no_version
current_version (some (v ∷ vs)) = ok v

-- `INSERT INTO schema_version(version) VALUES (?)`, of the table that SCHEMA_V2 creates.
pub insert_version : Option (List ℤ) → Option (List ℤ)
insert_version none = some (schema_version ∷ [])
insert_version (some vs) = some (vs ++ schema_version ∷ [])

-- `UPDATE schema_version SET version = ?`
pub update_version : Option (List ℤ) → Option (List ℤ)
update_version none = none
update_version (some vs) = some (map (λ v. schema_version) vs)

-- `executescript`, then the version, then `commit`; or `rollback` and the exception.
unfoldable pub upgrade :
    {S : Type 0}
    → (Script → S → Option S)
    → List Script
    → Option (List ℤ)
    → S
    → Result MigrateError (Database S)
unfolding run_scripts
upgrade apply scripts version_table s = elim (run_scripts apply scripts s) [
  | none ↦ err MigrateError.script_failed
  | some s' ↦ ok (record { version_table = version_table; schema = s' })
]

unfoldable pub migrate :
    {S : Type 0} → (Script → S → Option S) → Database S → Result MigrateError (Database S)
unfolding upgrade current_version insert_version update_version
migrate apply db =
    let inserted = insert_version db.version_table in
    let updated = update_version db.version_table in
    current_version db.version_table >>= λ current.
    if ltb_ℤ schema_version current
    then err MigrateError.too_new
    else if current == schema_version
    then ok db
    else if current == pos 1
    then err MigrateError.unsafe_version
    else if current == pos 0
    then upgrade apply (v2 ∷ v3 ∷ v4 ∷ v5 ∷ v6 ∷ v7 ∷ v8 ∷ v9 ∷ v10 ∷ v11 ∷ []) inserted db.schema
    else if current == pos 2
    then upgrade apply (v3 ∷ v4 ∷ v5 ∷ v6 ∷ v7 ∷ v8 ∷ v9 ∷ v10 ∷ v11 ∷ []) updated db.schema
    else if current == pos 3
    then upgrade apply (v4 ∷ v5 ∷ v6 ∷ v7 ∷ v8 ∷ v9 ∷ v10 ∷ v11 ∷ []) updated db.schema
    else if current == pos 4
    then upgrade apply (v5 ∷ v6 ∷ v7 ∷ v8 ∷ v9 ∷ v10 ∷ v11 ∷ []) updated db.schema
    else if current == pos 5
    then upgrade apply (v6 ∷ v7 ∷ v8 ∷ v9 ∷ v10 ∷ v11 ∷ []) updated db.schema
    else if current == pos 6
    then upgrade apply (v7 ∷ v8 ∷ v9 ∷ v10 ∷ v11 ∷ []) updated db.schema
    else if current == pos 7
    then upgrade apply (v8 ∷ v9 ∷ v10 ∷ v11 ∷ []) updated db.schema
    else if current == pos 8
    then upgrade apply (v9 ∷ v10 ∷ v11 ∷ []) updated db.schema
    else if current == pos 9
    then upgrade apply (v10 ∷ v11 ∷ []) updated db.schema
    else if current == pos 10
    then upgrade apply (v11 ∷ []) updated db.schema
    else err MigrateError.unsupported
