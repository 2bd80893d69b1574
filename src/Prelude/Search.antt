-- ===== src/Prelude/Search.antt =====
-- A loop that counts up to the first free name, and why it ends: no list holds all of more
-- distinct names than it is long.
use Prim.Native.Nat.{ℕ, zero, suc, ◌+◌, ◌<◌}
use mathlib.Core.Path.{◌≡◌, sym, ap, ◌∙◌}
use mathlib.Core.Bool.{Bool, true, false, not}
use mathlib.Core.Logic.{◌≢◌, inl, inr}
use mathlib.Core.List.{List, [], ◌∷◌}
use native.Mathlib.Omega.{arith}
use ai_agents.Prelude.Tests.{if◌then◌else◌, Bool-cases}
use ai_agents.Prelude.Equality.{Eq, ◌==◌}
use ai_agents.Prelude.Lists.{length, select, length-select}
use ai_agents.Prelude.Members.{contains, contains-select}

-- `while taken(s): s += 1`, for at most `fuel` rounds.
unfoldable pub first_free : ℕ → (ℕ → Bool) → ℕ → ℕ
first_free zero taken s = s
first_free (suc fuel) taken s =
    let rest = first_free fuel taken (s + 1) in if taken s then rest else s

-- If one of the numbers in reach is free, the loop ends at a free one.
first_free_lem :
    (fuel : ℕ) (taken : ℕ → Bool) (s i : ℕ)
    → i < fuel
    → taken (s + i) ≡ false
    → taken (first_free fuel taken s) ≡ false
unfolding first_free
first_free_lem zero taken s i h free = absurd (omega arith)
first_free_lem (suc fuel) taken s zero h free =
    let here : taken s ≡ false = subst_sum free in rw here here
  where
    subst_sum : taken (s + 0) ≡ false → taken s ≡ false
    subst_sum e = ap taken (omega arith) ∙ e
first_free_lem (suc fuel) taken s (suc i) h free = elim (Bool-cases (taken s)) [
  | inl busy ↦
      rw busy (first_free_lem fuel taken (s + 1) i (omega arith) (ap taken (omega arith) ∙ free))
  | inr here ↦ rw here here
]

module _ {ℓ} {K : Type ℓ} ⦃e : Eq K⦄ where
  without : K → List K → List K
  without k = select (λ x. not (x == k))

  length-without : (k : K) (ks : List K) → contains k ks ≡ true → length (without k ks) < length ks
  unfolding without
  length-without k [] h = absurd (ground arith)
  length-without k (x ∷ ks) h = ground (
    arith,
    e.beq_iff k x,
    e.beq_iff x k,
    length-without k ks,
    length-select (λ y. not (y == k)) ks,
  )

  contains-without : (k j : K) (ks : List K) → j ≢ k → contains j (without k ks) ≡ contains j ks
  unfolding without
  contains-without k j ks ne =
      ground (arith, contains-select (λ x. not (x == k)) j ks, e.beq_iff j k)

  module _ (name : ℕ → K) (inj : (m n : ℕ) → name m ≡ name n → m ≡ n) where
    apart : (s i : ℕ) → name (s + 1 + i) ≢ name s
    apart s i same = absurd (omega (arith, inj (s + 1 + i) s same))

    -- Among more names than the list is long, one is not in it.
    free_within :
        (fuel s : ℕ) (ks : List K)
        → length ks < fuel
        → (i : ℕ) × (i < fuel) × (contains (name (s + i)) ks ≡ false)
    free_within zero s ks h = absurd (omega arith)
    free_within (suc fuel) s ks h = elim (Bool-cases (contains (name s) ks)) [
      | inl busy ↦
          let (i, below, free) =
            free_within fuel (s + 1) (without (name s) ks)
              (omega (arith, length-without (name s) ks busy)) in
          (
            suc i,
            omega arith,
            ap (λ k. contains (name k) ks) (omega arith)
                ∙ sym (contains-without (name s) (name (s + 1 + i)) ks (apart s i))
                ∙ free,
          )
      | inr free ↦ (0, omega arith, ap (λ k. contains (name k) ks) (omega arith) ∙ free)
    ]

    -- With more rounds than the list is long, the loop ends at a name that is not in it.
    pub first_free-not_taken :
        (fuel s : ℕ) (ks : List K)
        → length ks < fuel
        → contains (name (first_free fuel (λ i. contains (name i) ks) s)) ks ≡ false
    first_free-not_taken fuel s ks h =
        let (i, below, free) = free_within fuel s ks h in
        first_free_lem fuel (λ i. contains (name i) ks) s i below free
