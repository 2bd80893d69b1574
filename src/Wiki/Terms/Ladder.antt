-- ===== src/Wiki/Terms/Ladder.antt =====
-- The queries of a ladder: the reduced question, then shorter and shorter prefixes of it.
use ai_agents.Prelude.{
  ℕ, zero, suc, ◌+◌, ◌-◌, ◌≤◌, ◌≡◌, refl, sym, ◌∙◌, ap, String, true, false, not, List, [], ◌∷◌,
  ◌++◌, arith, ◌==◌, nat_eq, if◌then◌else◌, length, length-append, take, is_nonempty, nat_beq_iff,
}
use mathlib.Core.List.{append-nil, append_assoc}
use ai_agents.Text.{Unicode, join, strip_by, is_space}
use ai_agents.Wiki.Terms.{terms, query_of, climb, ladder}

-- `k` queries at most: the first `n` words, then the first `n - 1`, and so on down to one.
pub rungs : ℕ → List String → ℕ → List String
rungs zero ts n = []
rungs (suc k) ts zero = []
rungs (suc k) ts (suc n) = join " " (take (suc n) ts) ∷ rungs k ts n

length-rungs : (k : ℕ) (ts : List String) (n : ℕ) → length (rungs k ts n) ≤ k
unfolding rungs
length-rungs zero ts n = omega arith
length-rungs (suc k) ts zero = omega arith
length-rungs (suc k) ts (suc n) = omega (arith, length-rungs k ts n)

take-all : (ts : List String) → take (length ts) ts ≡ ts
take-all [] = refl
take-all (t ∷ ts) = ap (◌∷◌ t) (take-all ts)

climb_lem :
    (attempts k : ℕ) (ts : List String) (n : ℕ) (queries : List String)
    → length queries + suc k ≡ attempts
    → climb attempts ts n queries ≡ queries ++ rungs (suc k) ts n
unfolding climb rungs
climb_lem attempts k ts zero queries h = sym (append-nil queries)
climb_lem attempts zero ts (suc n) queries h =
    let full : (length (queries ++ join " " (take (suc n) ts) ∷ []) == attempts) ≡ true =
      (nat_beq_iff (length (queries ++ join " " (take (suc n) ts) ∷ [])) attempts).1
        (omega (arith, h, length-append queries (join " " (take (suc n) ts) ∷ []))) in
    rw full refl
climb_lem attempts (suc k) ts (suc n) queries h =
    let more : List String = queries ++ join " " (take (suc n) ts) ∷ [] in
    let count : length more ≡ length queries + 1 =
      omega (arith, length-append queries (join " " (take (suc n) ts) ∷ [])) in
    let room : (length more == attempts) ≡ false =
      ground (arith, count, h, nat_beq_iff (length more) attempts) in
    rw room (
      climb_lem attempts k ts n more (omega (arith, h, count))
      ∙ append_assoc queries (join " " (take (suc n) ts) ∷ []) (rungs (suc k) ts n))

module _ (un : Unicode) (max_terms : ℕ) (question : String) (k : ℕ) where
  abbrev found : List String
  found = terms un max_terms question

  -- With at least one attempt, the ladder starts with the query that the question becomes, goes on
  -- with the shorter and shorter prefixes of the words, and ends with one word or at the number of
  -- attempts, which it does not exceed.
  pub ladder_lem :
      (ladder un max_terms question (suc k)
        ≡ query_of un max_terms question ∷ rungs k found (length found - 1))
      × (length (ladder un max_terms question (suc k)) ≤ suc k)
  unfolding ladder query_of rungs
  ladder_lem =
      (go found, omega (arith, ap length (go found), length-rungs k found (length found - 1)))
    where
      rungs-nil : (n : ℕ) → rungs n [] (0 - 1) ≡ []
      rungs-nil zero = refl
      rungs-nil (suc n) = refl

      shorter : (n : ℕ) → n ≡ suc n - 1
      shorter n = omega arith

      go :
          (ts : List String)
          → (if not (is_nonempty ts)
              then strip_by is_space question ∷ []
              else climb (suc k) ts (length ts) [])
            ≡ (if is_nonempty ts then join " " ts else strip_by is_space question)
              ∷ rungs k ts (length ts - 1)
      go [] = ap (◌∷◌ (strip_by is_space question)) (sym (rungs-nil k))
      go (t ∷ ts) =
          climb_lem (suc k) k (t ∷ ts) (suc (length ts)) [] (omega arith)
          ∙ ap (λ ws. join " " ws ∷ rungs k (t ∷ ts) (length ts)) (take-all (t ∷ ts))
          ∙ ap (λ n. join " " (t ∷ ts) ∷ rungs k (t ∷ ts) n) (shorter (length ts))
