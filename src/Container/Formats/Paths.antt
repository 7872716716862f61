-- ===== src/Container/Formats/Paths.antt =====
-- The parts of an object key between its slashes.
use oraja_traning.Prelude.{
  ℕ, String, ◌≡◌, refl, ap, ◌∙◌, append_assoc, Bool, true, false, not, ◌&&◌, ◌||◌, List, [], ◌∷◌,
  ◌++◌, arith, if◌then◌else◌, nat_beq, nat_beq_iff, and-eq-true, all, any, Bool-cases, inl, inr,
}
use oraja_traning.Prelude.Text.{codes}
use oraja_traning.Container.Formats.{
  fits, is_uuid, uuid_shape, parent_here, parent_later, has_parent, starts_with, is_object_key,
}

-- The parts of a path, of which there is at least one.
abbrev pub cons_head : ℕ → List (List ℕ) → List (List ℕ)
cons_head c [] = (c ∷ []) ∷ []
cons_head c (p ∷ ps) = (c ∷ p) ∷ ps

abbrev pub grow : ℕ → List (List ℕ) → List (List ℕ)
grow c ps = if nat_beq c 47 then [] ∷ ps else cons_head c ps

unfoldable pub parts : List ℕ → List (List ℕ)
parts [] = [] ∷ []
parts (c ∷ cs) = grow c (parts cs)

-- `..`
abbrev pub is_parent : List ℕ → Bool
is_parent (a ∷ b ∷ []) = nat_beq a 46 && nat_beq b 46
is_parent _ = false

abbrev first_is : List (List ℕ) → Bool
first_is [] = false
first_is (p ∷ ps) = is_parent p

abbrev others_are : List (List ℕ) → Bool
others_are [] = false
others_are (p ∷ ps) = any is_parent ps

grow_three :
    (a b c : ℕ) (ps : List (List ℕ))
    → nat_beq a 46 && nat_beq b 46 && nat_beq c 47 ≡ first_is (grow a (grow b (grow c ps)))
grow_three a b c [] = ground arith
grow_three a b c (p ∷ ps) = ground arith

here-first_is : (cs : List ℕ) → parent_here cs ≡ first_is (parts cs)
unfolding parent_here parts
here-first_is [] = refl
here-first_is (a ∷ []) = ground arith
here-first_is (a ∷ b ∷ []) = ground arith
here-first_is (a ∷ b ∷ c ∷ cs) = grow_three a b c (parts cs)

any-grow :
    (c : ℕ) (ps : List (List ℕ))
    → nat_beq c 47 && first_is ps || others_are ps ≡ others_are (grow c ps)
any-grow c [] = ground arith
any-grow c (p ∷ ps) = ground arith

later-others_are : (cs : List ℕ) → parent_later cs ≡ others_are (parts cs)
unfolding parent_later parts
later-others_are [] = refl
later-others_are (c ∷ cs) = rw (here-first_is cs, later-others_are cs) (any-grow c (parts cs))

any_split : (ps : List (List ℕ)) → first_is ps || others_are ps ≡ any is_parent ps
any_split [] = refl
any_split (p ∷ ps) = refl

pub has_parent-parts : (cs : List ℕ) → has_parent cs ≡ any is_parent (parts cs)
unfolding has_parent
has_parent-parts cs = rw (here-first_is cs, later-others_are cs) (any_split (parts cs))

-- The text before a first slash is the first part.
pub parts_slash :
    (xs ys : List ℕ) → any (nat_beq 47) xs ≡ false → parts (xs ++ 47 ∷ ys) ≡ xs ∷ parts ys
unfolding parts
parts_slash [] ys h = refl
parts_slash (x ∷ xs) ys h =
    let shorter = parts_slash xs ys (ground arith) in rw shorter (ground arith)

pub starts_with-append :
    (ps cs : List ℕ) → starts_with ps cs ≡ true → (rest : List ℕ) × (cs ≡ ps ++ rest)
unfolding starts_with
starts_with-append [] cs h = (cs, refl)
starts_with-append (p ∷ ps) [] h = cc
starts_with-append (p ∷ ps) (c ∷ cs) h =
    let (rest, e) = starts_with-append ps cs (ground arith) in (rest, ground arith)

-- A shape whose classes all refuse a character fits no text that has it.
fits_without :
    (x : ℕ) (shape : List (ℕ → Bool)) (cs : List ℕ)
    → all (λ (p : ℕ → Bool). not (p x)) shape ≡ true
    → fits shape cs ≡ true
    → any (nat_beq x) cs ≡ false
unfolding fits
fits_without x [] [] refused h = refl
fits_without x [] (c ∷ cs) refused h = cc
fits_without x (p ∷ ps) [] refused h = cc
fits_without x (p ∷ ps) (c ∷ cs) refused h =
    let (here, later) = and-eq-true (p c) (fits ps cs) h in
    let (now, then_on) = and-eq-true (not (p x)) _ refused in
    elim (Bool-cases (nat_beq x c)) [
      | inl same ↦ let e : x ≡ c = (nat_beq_iff x c).0 same in cc
      | inr other ↦ rw other (fits_without x ps cs then_on later)
    ]

pub uuid_no_slash : (cs : List ℕ) → is_uuid cs ≡ true → any (nat_beq 47) cs ≡ false
unfolding is_uuid uuid_shape
uuid_no_slash cs h = fits_without 47 uuid_shape cs refl h

-- A key that is accepted below a profile's prefix: its parts are "profiles", the profile and the
-- rest, and no part is "..".
pub record IsInside (profile_id key : String) : Type 0 where
  pub rest : List (List ℕ)
  pub below : parts (codes key) ≡ codes "profiles" ∷ codes profile_id ∷ rest
  pub stays : any is_parent (parts (codes key)) ≡ false

pub object_key-IsInside :
    (profile_id key : String)
    → is_uuid (codes profile_id) ≡ true
    → is_object_key (codes key) ≡ true
    → starts_with (codes "profiles/" ++ codes profile_id ++ codes "/") (codes key) ≡ true
    → IsInside profile_id key
unfolding is_object_key
object_key-IsInside profile_id key uuid shape inside =
    let (rest, e) = starts_with-append _ (codes key) inside in
    let split : codes key ≡ codes "profiles" ++ 47 ∷ codes profile_id ++ 47 ∷ rest =
      e ∙ ap (λ cs. codes "profiles/" ++ cs) (append_assoc (codes profile_id) (codes "/") rest) in
    let outer = parts_slash (codes "profiles") (codes profile_id ++ 47 ∷ rest) refl in
    let inner = parts_slash (codes profile_id) rest (uuid_no_slash (codes profile_id) uuid) in
    record {
      rest = parts rest;
      below = ap parts split ∙ outer ∙ ap (λ ps. codes "profiles" ∷ ps) inner;
      stays = ground (arith, has_parent-parts (codes key));
    }
