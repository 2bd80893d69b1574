-- ===== src/Protocol/Earliest.antt =====
-- `min` of the positions at which codes were found.
use ai_agents.Prelude.{
  ℕ, ◌<◌, ◌≡◌, ◌⊎◌, inl, inr, sym, ap, subst, true, false, some, List, [], ◌∷◌, arith, nat_eq,
  string_eq, if◌then◌else◌, Bool-cases, All,
}
use ai_agents.Protocol.{Codes, precedes, least_from, least}

module _ {C : Type 0} ⦃k : Codes C⦄ where
  -- An occurrence is the wanted one, or a later one.
  abbrev pub IsFirst : ℕ × C → ℕ × C → Type 0
  IsFirst t x = (x ≡ t) ⊎ (t.0 < x.0)

  abbrev pub Has : ℕ × C → List (ℕ × C) → Type 0
  Has t [] = ⊥
  Has t (x ∷ xs) = (x ≡ t) ⊎ Has t xs

  precedes_ne : (x y : ℕ × C) → y.0 < x.0 → precedes x y ≡ false
  precedes_ne (i, c) (j, d) h = ground arith

  precedes_lt : (x y : ℕ × C) → x.0 < y.0 → precedes x y ≡ true
  precedes_lt (i, c) (j, d) h = ground arith

  -- The winner of one comparison.
  abbrev winner : ℕ × C → ℕ × C → ℕ × C
  winner x best = if precedes x best then x else best

  winner-IsFirst : (t x best : ℕ × C) → IsFirst t x → IsFirst t best → IsFirst t (winner x best)
  winner-IsFirst t x best h b = elim (Bool-cases (precedes x best)) [
    | inl won ↦ rw won h
    | inr lost ↦ rw lost b
  ]

  winner-wanted :
      (t x best : ℕ × C) → IsFirst t x → IsFirst t best → (best ≡ t) ⊎ (x ≡ t) → winner x best ≡ t
  winner-wanted t x best (inl h) (inl b) m = elim (Bool-cases (precedes x best)) [
    | inl won ↦ rw won h
    | inr lost ↦ rw lost b
  ]
  winner-wanted t x best (inl h) (inr b) m =
      rw (precedes_lt x best (subst (λ (y : ℕ × C). y.0 < best.0) (sym h) b)) h
  winner-wanted t x best (inr h) (inl b) m =
      rw (precedes_ne x best (subst (λ (y : ℕ × C). y.0 < x.0) (sym b) h)) b
  winner-wanted t x best (inr h) (inr b) (inl m) = absurd (omega (arith, ap (λ (y : ℕ × C). y.0) m))
  winner-wanted t x best (inr h) (inr b) (inr m) = absurd (omega (arith, ap (λ (y : ℕ × C). y.0) m))

  still_wanted :
      (t x best : ℕ × C) (xs : List (ℕ × C))
      → IsFirst t x
      → IsFirst t best
      → (best ≡ t) ⊎ Has t (x ∷ xs)
      → (winner x best ≡ t) ⊎ Has t xs
  still_wanted t x best xs h b (inl m) = inl (winner-wanted t x best h b (inl m))
  still_wanted t x best xs h b (inr (inl m)) = inl (winner-wanted t x best h b (inr m))
  still_wanted t x best xs h b (inr (inr m)) = inr m

  least_from-first :
      (t best : ℕ × C) (xs : List (ℕ × C))
      → IsFirst t best
      → All (IsFirst t) xs
      → (best ≡ t) ⊎ Has t xs
      → least_from best xs ≡ t
  least_from-first t best [] b h (inl m) = m
  least_from-first t best [] b h (inr m) = absurd m
  least_from-first t best (x ∷ xs) b h m =
      least_from-first t (winner x best) xs (winner-IsFirst t x best h.0 b) h.1
        (still_wanted t x best xs h.0 b m)

  pub least-first :
      (t : ℕ × C) (xs : List (ℕ × C)) → All (IsFirst t) xs → Has t xs → least xs ≡ some t
  least-first t [] h m = absurd m
  least-first t (x ∷ xs) h m = ap some (least_from-first t x xs h.0 h.1 m)
