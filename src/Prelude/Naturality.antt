-- ===== src/Prelude/Naturality.antt =====
-- Functions on lists that commute with `map`, and what `All` elements keep.
use Prim.Native.Nat.{ℕ, zero, suc}
use mathlib.Core.Path.{◌≡◌, refl, ◌∙◌, ap}
use mathlib.Core.Bool.{Bool, true, false}
use mathlib.Core.Logic.{inl, inr}
use mathlib.Core.List.{List, [], ◌∷◌, ◌++◌, map}
use ai_agents.Prelude.Tests.{Bool-cases}
use ai_agents.Prelude.Lists.{take, select, any, All}
use ai_agents.Prelude.Sort.{before, insert_sorted, sort_by}

module _ {A B : Type 0} (f : A → B) where
  pub take-map : (n : ℕ) (xs : List A) → take n (map f xs) ≡ map f (take n xs)
  take-map zero xs = refl
  take-map (suc n) [] = refl
  take-map (suc n) (x ∷ xs) = ap (◌∷◌ (f x)) (take-map n xs)

  pub map-append : (xs ys : List A) → map f (xs ++ ys) ≡ map f xs ++ map f ys
  map-append [] ys = refl
  map-append (x ∷ xs) ys = ap (◌∷◌ (f x)) (map-append xs ys)

  -- A test on the images, and the same test on the elements.
  module _ (q : B → Bool) (p : A → Bool) (same : (x : A) → q (f x) ≡ p x) where
    pub select-map : (xs : List A) → select q (map f xs) ≡ map f (select p xs)
    select-map [] = refl
    select-map (x ∷ xs) = elim (Bool-cases (p x)) [
      | inl kept ↦ rw (same x, kept) (ap (◌∷◌ (f x)) (select-map xs))
      | inr out ↦ rw (same x, out) (select-map xs)
    ]

    pub any-map : (xs : List A) → any q (map f xs) ≡ any p xs
    any-map [] = refl
    any-map (x ∷ xs) = rw (same x, any-map xs) refl

  -- A key of the images, and the same key of the elements.
  module _ (h : B → ℕ) (k : A → ℕ) (same : (x : A) → h (f x) ≡ k x) where
    before-map : (r : Bool) (x y : A) → before h r (f x) (f y) ≡ before k r x y
    before-map true x y = rw (same x, same y) refl
    before-map false x y = rw (same x, same y) refl

    insert_sorted-map :
        (r : Bool) (x : A) (ys : List A)
        → insert_sorted h r (f x) (map f ys) ≡ map f (insert_sorted k r x ys)
    insert_sorted-map r x [] = refl
    insert_sorted-map r x (y ∷ ys) = elim (Bool-cases (before k r x y)) [
      | inl first ↦ rw (before-map r x y, first) refl
      | inr later ↦ rw (before-map r x y, later) (ap (◌∷◌ (f y)) (insert_sorted-map r x ys))
    ]

    pub sort_by-map : (r : Bool) (xs : List A) → sort_by h r (map f xs) ≡ map f (sort_by k r xs)
    unfolding sort_by
    sort_by-map r [] = refl
    sort_by-map r (x ∷ xs) =
        ap (insert_sorted h r (f x)) (sort_by-map r xs) ∙ insert_sorted-map r x (sort_by k r xs)

-- What all elements have, those that are kept have.
pub All-take : {A : Type 0} (P : A → Type 0) (n : ℕ) (xs : List A) → All P xs → All P (take n xs)
All-take P zero xs h = tt
All-take P (suc n) [] h = tt
All-take P (suc n) (x ∷ xs) h = (h.0, All-take P n xs h.1)

pub All-select_from :
    {A : Type 0} (P : A → Type 0) (p : A → Bool) (xs : List A) → All P xs → All P (select p xs)
All-select_from P p [] h = tt
All-select_from P p (x ∷ xs) h = elim (Bool-cases (p x)) [
  | inl hit ↦ rw hit (h.0, All-select_from P p xs h.1)
  | inr miss ↦ rw miss (All-select_from P p xs h.1)
]

pub All-map :
    {A B : Type 0} (f : A → B) (P : A → Type 0) (Q : B → Type 0) (xs : List A)
    → ((x : A) → P x → Q (f x))
    → All P xs
    → All Q (map f xs)
All-map f P Q [] h all_ = tt
All-map f P Q (x ∷ xs) h all_ = (h x all_.0, All-map f P Q xs h all_.1)
