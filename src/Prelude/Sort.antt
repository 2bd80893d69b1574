-- ===== src/Prelude/Sort.antt =====
-- Python's stable `sorted` by a numeric key, in either order.
use Prim.Native.Nat.{ℕ}
use mathlib.Core.Path.{◌≡◌, refl}
use mathlib.Core.Bool.{Bool, true, false}
use mathlib.Core.Logic.{inl, inr}
use mathlib.Core.List.{List, [], ◌∷◌, Perm}
use mathlib.Core.List.Perm
use native.Mathlib.Omega.{arith}
use ai_agents.Prelude.Tests.{leb, if◌then◌else◌, Bool-cases}
use ai_agents.Prelude.Lists.{length, All}

module _ {ℓ} {A : Type ℓ} (key : A → ℕ) where
  -- `x` goes before `y`: by the key, or by the key with `reverse=True`. Ties keep their order
  -- both ways.
  abbrev pub before : Bool → A → A → Bool
  before reverse x y = if reverse then leb (key y) (key x) else leb (key x) (key y)

  abbrev pub insert_sorted : Bool → A → List A → List A
  insert_sorted reverse x [] = x ∷ []
  insert_sorted reverse x (y ∷ ys) =
      if before reverse x y then x ∷ y ∷ ys else y ∷ insert_sorted reverse x ys

  -- `sorted(l, key=key, reverse=reverse)`
  unfoldable pub sort_by : Bool → List A → List A
  sort_by reverse [] = []
  sort_by reverse (x ∷ xs) = insert_sorted reverse x (sort_by reverse xs)

  -- Every element goes before all that follow it.
  abbrev pub IsOrdered : Bool → List A → Type ℓ
  IsOrdered reverse [] = Unit
  IsOrdered reverse (x ∷ xs) = All (λ y. before reverse x y ≡ true) xs × IsOrdered reverse xs

  before_trans :
      (r : Bool) (x y z : A) → before r x y ≡ true → before r y z ≡ true → before r x z ≡ true
  before_trans true x y z h k = ground arith
  before_trans false x y z h k = ground arith

  before_total : (r : Bool) (x y : A) → before r x y ≡ false → before r y x ≡ true
  before_total true x y h = ground arith
  before_total false x y h = ground arith

  All-before :
      (r : Bool) (x y : A) (zs : List A)
      → before r x y ≡ true
      → All (λ z. before r y z ≡ true) zs
      → All (λ z. before r x z ≡ true) zs
  All-before r x y [] h k = tt
  All-before r x y (z ∷ zs) h k = (before_trans r x y z h k.0, All-before r x y zs h k.1)

  All-insert_sorted :
      (P : A → Type 0) (r : Bool) (x : A) (ys : List A)
      → P x
      → All P ys
      → All P (insert_sorted r x ys)
  All-insert_sorted P r x [] p h = (p, tt)
  All-insert_sorted P r x (y ∷ ys) p h = elim (Bool-cases (before r x y)) [
    | inl first ↦ rw first (p, h)
    | inr later ↦ rw later (h.0, All-insert_sorted P r x ys p h.1)
  ]

  insert_sorted-IsOrdered :
      (r : Bool) (x : A) (ys : List A) → IsOrdered r ys → IsOrdered r (insert_sorted r x ys)
  insert_sorted-IsOrdered r x [] h = (tt, tt)
  insert_sorted-IsOrdered r x (y ∷ ys) h = elim (Bool-cases (before r x y)) [
    | inl first ↦ rw first ((first, All-before r x y ys first h.0), h)
    | inr later ↦ rw later (
      All-insert_sorted _ r x ys (before_total r x y later) h.0,
      insert_sorted-IsOrdered r x ys h.1,
    )
  ]

  pub sort_by-IsOrdered : (r : Bool) (xs : List A) → IsOrdered r (sort_by r xs)
  unfolding sort_by
  sort_by-IsOrdered r [] = tt
  sort_by-IsOrdered r (x ∷ xs) = insert_sorted-IsOrdered r x (sort_by r xs) (sort_by-IsOrdered r xs)

  insert_sorted-perm : (r : Bool) (x : A) (ys : List A) → Perm (insert_sorted r x ys) (x ∷ ys)
  insert_sorted-perm r x [] = Perm.rfl
  insert_sorted-perm r x (y ∷ ys) = elim (Bool-cases (before r x y)) [
    | inl first ↦ rw first Perm.rfl
    | inr later ↦ rw later (Perm.trans (Perm.cons y (insert_sorted-perm r x ys)) (Perm.swap x y ys))
  ]

  pub sort_by-perm : (r : Bool) (xs : List A) → Perm (sort_by r xs) xs
  unfolding sort_by
  sort_by-perm r [] = Perm.rfl
  sort_by-perm r (x ∷ xs) =
      Perm.trans (insert_sorted-perm r x (sort_by r xs)) (Perm.cons x (sort_by-perm r xs))

  length-insert_sorted :
      (r : Bool) (x : A) (ys : List A) → length (insert_sorted r x ys) ≡ length (x ∷ ys)
  length-insert_sorted r x [] = refl
  length-insert_sorted r x (y ∷ ys) = ground (arith, length-insert_sorted r x ys)

  pub length-sort_by : (r : Bool) (xs : List A) → length (sort_by r xs) ≡ length xs
  unfolding sort_by
  length-sort_by r [] = refl
  length-sort_by r (x ∷ xs) =
      ground (arith, length-insert_sorted r x (sort_by r xs), length-sort_by r xs)

  pub All-sort_by : (P : A → Type 0) (r : Bool) (xs : List A) → All P xs → All P (sort_by r xs)
  unfolding sort_by
  All-sort_by P r [] h = tt
  All-sort_by P r (x ∷ xs) h = All-insert_sorted P r x (sort_by r xs) h.0 (All-sort_by P r xs h.1)

-- Python's stable `sorted` by an order given as a test.
module _ {ℓ} {A : Type ℓ} (le : A → A → Bool) where
  abbrev insert_below : A → List A → List A
  insert_below x [] = x ∷ []
  insert_below x (y ∷ ys) = if le x y then x ∷ y ∷ ys else y ∷ insert_below x ys

  unfoldable pub sort_with : List A → List A
  sort_with [] = []
  sort_with (x ∷ xs) = insert_below x (sort_with xs)

  insert_below-perm : (x : A) (ys : List A) → Perm (insert_below x ys) (x ∷ ys)
  insert_below-perm x [] = Perm.rfl
  insert_below-perm x (y ∷ ys) = elim (Bool-cases (le x y)) [
    | inl first ↦ rw first Perm.rfl
    | inr later ↦ rw later (Perm.trans (Perm.cons y (insert_below-perm x ys)) (Perm.swap x y ys))
  ]

  pub sort_with-perm : (xs : List A) → Perm (sort_with xs) xs
  unfolding sort_with
  sort_with-perm [] = Perm.rfl
  sort_with-perm (x ∷ xs) =
      Perm.trans (insert_below-perm x (sort_with xs)) (Perm.cons x (sort_with-perm xs))

  length-insert_below : (x : A) (ys : List A) → length (insert_below x ys) ≡ length (x ∷ ys)
  length-insert_below x [] = refl
  length-insert_below x (y ∷ ys) = ground (arith, length-insert_below x ys)

  pub length-sort_with : (xs : List A) → length (sort_with xs) ≡ length xs
  unfolding sort_with
  length-sort_with [] = refl
  length-sort_with (x ∷ xs) =
      ground (arith, length-insert_below x (sort_with xs), length-sort_with xs)

  All-insert_below :
      (P : A → Type 0) (x : A) (ys : List A) → P x → All P ys → All P (insert_below x ys)
  All-insert_below P x [] p h = (p, tt)
  All-insert_below P x (y ∷ ys) p h = elim (Bool-cases (le x y)) [
    | inl first ↦ rw first (p, h)
    | inr later ↦ rw later (h.0, All-insert_below P x ys p h.1)
  ]

  pub All-sort_with : (P : A → Type 0) (xs : List A) → All P xs → All P (sort_with xs)
  unfolding sort_with
  All-sort_with P [] h = tt
  All-sort_with P (x ∷ xs) h = All-insert_below P x (sort_with xs) h.0 (All-sort_with P xs h.1)

  -- Every element stands before all that follow it, by the test.
  abbrev pub IsSortedWith : List A → Type ℓ
  IsSortedWith [] = Unit
  IsSortedWith (x ∷ xs) = All (λ y. le x y ≡ true) xs × IsSortedWith xs

  module _ (total : (x y : A) → le x y ≡ false → le y x ≡ true)
      (trans : (x y z : A) → le x y ≡ true → le y z ≡ true → le x z ≡ true) where
    All-le :
        (x y : A) (zs : List A)
        → le x y ≡ true
        → All (λ z. le y z ≡ true) zs
        → All (λ z. le x z ≡ true) zs
    All-le x y [] h k = tt
    All-le x y (z ∷ zs) h k = (trans x y z h k.0, All-le x y zs h k.1)

    insert_below-IsSortedWith :
        (x : A) (ys : List A) → IsSortedWith ys → IsSortedWith (insert_below x ys)
    insert_below-IsSortedWith x [] h = (tt, tt)
    insert_below-IsSortedWith x (y ∷ ys) h = elim (Bool-cases (le x y)) [
      | inl first ↦ rw first ((first, All-le x y ys first h.0), h)
      | inr later ↦ rw later (
        All-insert_below (λ z. le y z ≡ true) x ys (total x y later) h.0,
        insert_below-IsSortedWith x ys h.1,
      )
    ]

    pub sort_with-IsSortedWith : (xs : List A) → IsSortedWith (sort_with xs)
    unfolding sort_with
    sort_with-IsSortedWith [] = tt
    sort_with-IsSortedWith (x ∷ xs) =
        insert_below-IsSortedWith x (sort_with xs) (sort_with-IsSortedWith xs)
