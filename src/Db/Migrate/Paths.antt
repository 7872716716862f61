-- ===== src/Db/Migrate/Paths.antt =====
-- Every path of `migrate` leads to the same schema.
use oraja_traning.Prelude.{
  ℕ, ◌≡◌, sym, Option, none, some, List, [], ◌∷◌, ◌++◌, arith, take, drop, ap, inl, inr,
  Option-cases, ◌-◌,
}
use mathlib.Core.Option.{some-injective}
use oraja_traning.Prelude.Int.{ℤ, pos}
use oraja_traning.Db.Migrate.{
  Script, v2, v3, v4, v5, v6, v7, v8, v9, v10, v11, schema_version, run_scripts, upgrade, migrate,
}

-- Every script, in the order of the versions.
abbrev pub scripts : List Script
scripts = v2 ∷ v3 ∷ v4 ∷ v5 ∷ v6 ∷ v7 ∷ v8 ∷ v9 ∷ v10 ∷ v11 ∷ []

abbrev pub number_of : Script → ℕ
number_of v2 = 2
number_of v3 = 3
number_of v4 = 4
number_of v5 = 5
number_of v6 = 6
number_of v7 = 7
number_of v8 = 8
number_of v9 = 9
number_of v10 = 10
number_of v11 = 11

module _ {S : Type 0} (apply : Script → S → Option S) where
  upgrade-append :
      (xs ys : List Script) (table : Option (List ℤ)) (s s' : S)
      → run_scripts apply xs s ≡ some s'
      → upgrade apply (xs ++ ys) table s ≡ upgrade apply ys table s'
  unfolding run_scripts upgrade
  upgrade-append [] ys table s s' h = ap (upgrade apply ys table) (some-injective s s' h)
  upgrade-append (x ∷ xs) ys table s s' h = elim (Option-cases (apply x s)) [
    | inl failed ↦ absurd (ground arith)
    | inr (next, done) ↦ rw (done, run_scripts) (upgrade-append xs ys table next s' (ground arith))
  ]

  -- A database that the scripts up to a version from 2 to 11 made, and that names that version,
  -- migrates to the same result as the database that those scripts began with and that has no
  -- version yet: the same tables and version, or the same failure.
  pub migrate_paths :
      (x : Script) (s s' : S)
      → run_scripts apply (take (number_of x - 1) scripts) s ≡ some s'
      → migrate apply (record { version_table = some (pos (number_of x) ∷ []); schema = s' })
        ≡ migrate apply (record { version_table = none; schema = s })
  unfolding migrate
  migrate_paths v2 s s' h =
      sym (upgrade-append (take 1 scripts) (drop 1 scripts) (some (schema_version ∷ [])) s s' h)
  migrate_paths v3 s s' h =
      sym (upgrade-append (take 2 scripts) (drop 2 scripts) (some (schema_version ∷ [])) s s' h)
  migrate_paths v4 s s' h =
      sym (upgrade-append (take 3 scripts) (drop 3 scripts) (some (schema_version ∷ [])) s s' h)
  migrate_paths v5 s s' h =
      sym (upgrade-append (take 4 scripts) (drop 4 scripts) (some (schema_version ∷ [])) s s' h)
  migrate_paths v6 s s' h =
      sym (upgrade-append (take 5 scripts) (drop 5 scripts) (some (schema_version ∷ [])) s s' h)
  migrate_paths v7 s s' h =
      sym (upgrade-append (take 6 scripts) (drop 6 scripts) (some (schema_version ∷ [])) s s' h)
  migrate_paths v8 s s' h =
      sym (upgrade-append (take 7 scripts) (drop 7 scripts) (some (schema_version ∷ [])) s s' h)
  migrate_paths v9 s s' h =
      sym (upgrade-append (take 8 scripts) (drop 8 scripts) (some (schema_version ∷ [])) s s' h)
  migrate_paths v10 s s' h =
      sym (upgrade-append (take 9 scripts) (drop 9 scripts) (some (schema_version ∷ [])) s s' h)
  migrate_paths v11 s s' h =
      sym (upgrade-append (take 10 scripts) (drop 10 scripts) (some (schema_version ∷ [])) s s' h)
