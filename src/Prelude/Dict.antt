-- ===== src/Prelude/Dict.antt =====
-- A Python dict, or a table with a primary key: an association list in insertion order.
use mathlib.Core.Path.{◌≡◌, refl}
use mathlib.Core.Logic.{◌≢◌}
use mathlib.Core.Bool.{Bool, true, false, not}
use mathlib.Core.Option.{Option, none, some}
use mathlib.Core.List.{List, [], ◌∷◌}
use native.Mathlib.Omega.{arith}
use oraja_traning.Prelude.Tests.{if◌then◌else◌, is_some}
use oraja_traning.Prelude.Lists.{any}
use oraja_traning.Prelude.Eq.{Eq, ◌==◌, beq_refl}

abbrev pub Dict {ℓ κ} : Type ℓ → Type κ → Type (ℓ ⊔ κ)
Dict K V = List (K × V)

module _ {ℓ κ} {K : Type ℓ} {V : Type κ} ⦃e : Eq K⦄ where
  -- `d.get(k)`
  unfoldable pub lookup : K → Dict K V → Option V
  lookup k [] = none
  lookup k ((j, v) ∷ d) = if k == j then some v else lookup k d

  -- `d[k] = v`
  unfoldable pub insert : K → V → Dict K V → Dict K V
  insert k v [] = (k, v) ∷ []
  insert k v ((j, w) ∷ d) = if k == j then (j, v) ∷ d else (j, w) ∷ insert k v d

  pub lookup-insert :
      (j k : K) (v : V) (d : Dict K V)
      → lookup j (insert k v d) ≡ (if j == k then some v else lookup j d)
  unfolding lookup insert
  lookup-insert j k v [] = refl
  lookup-insert j k v ((i, w) ∷ d) =
      ground (arith, e.beq_iff j k, e.beq_iff k i, e.beq_iff j i, lookup-insert j k v d)

  pub lookup-insert_self : (k : K) (v : V) (d : Dict K V) → lookup k (insert k v d) ≡ some v
  lookup-insert_self k v d = ground (arith, lookup-insert k k v d, beq_refl k)

  pub lookup-insert_ne :
      (j k : K) (v : V) (d : Dict K V) → j ≢ k → lookup j (insert k v d) ≡ lookup j d
  lookup-insert_ne j k v d h = ground (arith, lookup-insert j k v d, e.beq_iff j k)

  -- `d.get(k) is not None`
  abbrev pub has_key : K → Dict K V → Bool
  has_key k d = is_some (lookup k d)

  -- A test of the keys that fails for no key that is found fails for no entry, and conversely.
  pub any-keys :
      (q : K → Bool) (d : Dict K V)
      → ((k : K) → has_key k d ≡ true → q k ≡ true)
      → any (λ entry. not (q entry.0)) d ≡ false
  unfolding lookup
  any-keys q [] h = refl
  any-keys q ((j, w) ∷ d) h =
      ground (arith, h j, beq_refl j, any-keys q d (λ k found. h k (ground (arith, e.beq_iff k j))))

  pub key_of_any :
      (q : K → Bool) (d : Dict K V) (k : K)
      → any (λ entry. not (q entry.0)) d ≡ false
      → has_key k d ≡ true
      → q k ≡ true
  unfolding lookup
  key_of_any q [] k h found = cc
  key_of_any q ((j, w) ∷ d) k h found = ground (arith, e.beq_iff k j, key_of_any q d k)
