-- ===== src/Prelude/Members.antt =====
-- Python's `in` on sequences, and sequences without repetition.

use mathlib.Core.Path.{◌≡◌, refl, sym, subst}
use mathlib.Core.Bool.{Bool, true, false, ◌&&◌, ◌||◌}
use mathlib.Core.List.{List, [], ◌∷◌, ◌++◌}
use mathlib.Core.Logic.{inl, inr}
use native.Mathlib.Omega.{arith}
use ai_agents.Prelude.Tests.{Bool-cases}
use ai_agents.Prelude.Equality.{Eq, ◌==◌}
use ai_agents.Prelude.Lists.{select, All}

module _ {ℓ} {A : Type ℓ} ⦃e : Eq A⦄ where
  -- `a in l`
  abbrev pub contains : A → List A → Bool
  contains a [] = false
  contains a (x ∷ xs) = a == x || contains a xs

  -- No element occurs twice.
  abbrev pub IsNodup : List A → Type 0
  IsNodup [] = Unit
  IsNodup (x ∷ xs) = (contains x xs ≡ false) × IsNodup xs

  -- Every element of the first list is in the second.
  abbrev pub IsSubset : List A → List A → Type 0
  IsSubset [] ys = Unit
  IsSubset (x ∷ xs) ys = (contains x ys ≡ true) × IsSubset xs ys

  pub contains-append :
      (a : A) (xs ys : List A) → contains a (xs ++ ys) ≡ (contains a xs || contains a ys)
  contains-append a [] ys = refl
  contains-append a (x ∷ xs) ys = ground (arith, contains-append a xs ys)

  pub contains-select :
      (p : A → Bool) (a : A) (xs : List A) → contains a (select p xs) ≡ (contains a xs && p a)
  contains-select p a [] = refl
  contains-select p a (x ∷ xs) = ground (arith, e.beq_iff a x, contains-select p a xs)

  pub All-contains : (P : A → Type 0) (a : A) (xs : List A) → All P xs → contains a xs ≡ true → P a
  All-contains P a [] h c = absurd (ground arith)
  All-contains P a (x ∷ xs) h c = elim (Bool-cases (a == x)) [
    | inl same ↦ subst P (sym ((e.beq_iff a x).0 same)) h.0
    | inr other ↦ All-contains P a xs h.1 (ground arith)
  ]

  pub IsSubset-contains :
      (a : A) (xs ys : List A) → IsSubset xs ys → contains a xs ≡ true → contains a ys ≡ true
  IsSubset-contains a [] ys h c = absurd (ground arith)
  IsSubset-contains a (x ∷ xs) ys h c = ground (arith, e.beq_iff a x, IsSubset-contains a xs ys h.1)

  pub IsSubset-intro :
      (xs ys : List A) → ((a : A) → contains a xs ≡ true → contains a ys ≡ true) → IsSubset xs ys
  IsSubset-intro [] ys h = tt
  IsSubset-intro (x ∷ xs) ys h =
      (h x (ground (arith, e.beq_iff x x)), IsSubset-intro xs ys (λ a i. h a (ground arith)))
