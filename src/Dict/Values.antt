-- ===== src/Dict/Values.antt =====
-- Predicates on the entries of a dict, dicts whose keys are a field of their values, and the
-- loops that build and rewrite them.
use ai_agents.Prelude.{
  ◌∙◌, ◌≡◌, refl, sym, subst, ap, Bool, false, none, some, List, [], ◌∷◌, ◌++◌, arith, inl, inr, Eq,
  ◌==◌, if◌then◌else◌, Bool-cases, contains, IsNodup, contains-append, beq_refl,
}
use ai_agents.Dict.{has_key-eq-contains, Dict, keys, values, lookup, insert, erase, IsNodup-insert}
use mathlib.Core.List.{append_assoc}

-- A predicate on every entry.
abbrev pub EachEntry {ℓ κ} : {K : Type ℓ} {V : Type κ} → (K → V → Type 0) → Dict K V → Type 0
EachEntry P [] = Unit
EachEntry P ((k, v) ∷ d) = P k v × EachEntry P d

module _ {ℓ κ} {K : Type ℓ} {V : Type κ} ⦃e : Eq K⦄ (P : K → V → Type 0) where
  pub EachEntry-insert :
      (k : K) (v : V) (d : Dict K V) → P k v → EachEntry P d → EachEntry P (insert k v d)
  unfolding insert
  EachEntry-insert k v [] p h = (p, tt)
  EachEntry-insert k v ((j, w) ∷ d) p h = elim (Bool-cases (k == j)) [
    | inl same ↦ rw same (p, h.1)
    | inr other ↦ rw other (h.0, EachEntry-insert k v d p h.1)
  ]

  pub EachEntry-erase : (k : K) (d : Dict K V) → EachEntry P d → EachEntry P (erase k d)
  unfolding erase
  EachEntry-erase k [] h = tt
  EachEntry-erase k ((j, w) ∷ d) h = elim (Bool-cases (k == j)) [
    | inl same ↦ rw same h.1
    | inr other ↦ rw other (h.0, EachEntry-erase k d h.1)
  ]

  pub EachEntry-lookup :
      (k : K) (v : V) (d : Dict K V) → EachEntry P d → lookup k d ≡ some v → P k v
  unfolding lookup
  EachEntry-lookup k v [] h found = absurd (ground arith)
  EachEntry-lookup k v ((j, w) ∷ d) h found = elim (Bool-cases (k == j)) [
    | inl same ↦
        let here : some w ≡ some v = rw same at found in
        subst (λ x. P x v) (sym ((e.beq_iff k j).0 same)) (subst (P j) (ground arith) h.0)
    | inr other ↦ EachEntry-lookup k v d h.1 (rw other at found)
  ]

pub EachEntry-map {ℓ κ} :
    {K : Type ℓ} {V : Type κ} (P Q : K → V → Type 0) (d : Dict K V)
    → ((k : K) (v : V) → P k v → Q k v)
    → EachEntry P d
    → EachEntry Q d
EachEntry-map P Q [] f h = tt
EachEntry-map P Q ((k, v) ∷ d) f h = (f k v h.0, EachEntry-map P Q d f h.1)

module _ {ℓ} {K : Type ℓ} {V : Type 0} ⦃e : Eq K⦄ where
  lookup-later :
      (j k : K) (w v : V) (d : Dict K V)
      → contains j (keys d) ≡ false
      → lookup k d ≡ some v
      → lookup k ((j, w) ∷ d) ≡ some v
  unfolding lookup
  lookup-later j k w v d fresh found = elim (Bool-cases (k == j)) [
    | inl same ↦
        let at : lookup j d ≡ some v =
          ap (λ i. lookup i d) (sym ((e.beq_iff k j).0 same)) ∙ found in
        absurd (ground (arith, has_key-eq-contains j d, fresh, at))
    | inr other ↦ rw other found
  ]

  -- Every entry of a dict is found under its key.
  pub EachEntry-found : (d : Dict K V) → IsNodup (keys d) → EachEntry (λ k v. lookup k d ≡ some v) d
  unfolding lookup
  EachEntry-found [] h = tt
  EachEntry-found ((j, w) ∷ d) h = (
    rw (beq_refl j) refl,
    EachEntry-map _ _ d (λ k v found. lookup-later j k w v d h.0 found) (EachEntry-found d h.1),
  )

module _ {ℓ κ} {K : Type ℓ} {V : Type κ} where
  abbrev pub map_values : (V → V) → Dict K V → Dict K V
  map_values f [] = []
  map_values f ((k, v) ∷ d) = (k, f v) ∷ map_values f d

  pub keys-map_values : (f : V → V) (d : Dict K V) → keys (map_values f d) ≡ keys d
  keys-map_values f [] = refl
  keys-map_values f ((k, v) ∷ d) = ap (◌∷◌ k) (keys-map_values f d)

  pub keys-append : (c d : Dict K V) → keys (c ++ d) ≡ keys c ++ keys d
  keys-append [] d = refl
  keys-append ((k, v) ∷ c) d = ap (◌∷◌ k) (keys-append c d)

  pub values-append : (c d : Dict K V) → values (c ++ d) ≡ values c ++ values d
  values-append [] d = refl
  values-append ((k, v) ∷ c) d = ap (◌∷◌ v) (values-append c d)

pub lookup-map_values {ℓ κ} :
    {K : Type ℓ} {V : Type κ} ⦃e : Eq K⦄ (f : V → V) (k : K) (d : Dict K V)
    → lookup k (map_values f d) ≡ elim (lookup k d) [ none ↦ none | some v ↦ some (f v) ]
unfolding lookup
lookup-map_values f k [] = refl
lookup-map_values f k ((j, v) ∷ d) = elim (Bool-cases (k == j)) [
  | inl same ↦ rw same refl
  | inr other ↦ rw other (lookup-map_values f k d)
]

IsNodup-middle {ℓ} :
    {K : Type ℓ} ⦃e : Eq K⦄ (k : K) (xs ys : List K)
    → IsNodup (xs ++ k ∷ ys)
    → contains k xs ≡ false
IsNodup-middle k [] ys h = refl
IsNodup-middle ⦃e⦄ k (x ∷ xs) ys h =
    ground (
      arith,
      IsNodup-middle k xs ys h.1,
      contains-append x xs (k ∷ ys),
      e.beq_iff k x,
      e.beq_iff x k,
    )

module _ {ℓ κ} {K : Type ℓ} {V : Type κ} ⦃e : Eq K⦄ (key : V → K) where
  -- Every value stands under its own key.
  abbrev pub IsKeyed : Dict K V → Type ℓ
  IsKeyed [] = Unit
  IsKeyed ((k, v) ∷ d) = (key v ≡ k) × IsKeyed d

  -- `for v in items: d[key(v)] = v`
  abbrev pub insert_all : List V → Dict K V → Dict K V
  insert_all [] d = d
  insert_all (v ∷ vs) d = insert_all vs (insert (key v) v d)

  pub IsKeyed-insert : (v : V) (d : Dict K V) → IsKeyed d → IsKeyed (insert (key v) v d)
  unfolding insert
  IsKeyed-insert v [] h = (refl, tt)
  IsKeyed-insert v ((j, w) ∷ d) h = ground (arith, e.beq_iff (key v) j, IsKeyed-insert v d h.1)

  pub IsKeyed-erase : (k : K) (d : Dict K V) → IsKeyed d → IsKeyed (erase k d)
  unfolding erase
  IsKeyed-erase k [] h = tt
  IsKeyed-erase k ((j, w) ∷ d) h = ground (arith, IsKeyed-erase k d h.1)

  pub IsKeyed-lookup : (k : K) (v : V) (d : Dict K V) → IsKeyed d → lookup k d ≡ some v → key v ≡ k
  unfolding lookup
  IsKeyed-lookup k v [] h found = absurd (ground arith)
  IsKeyed-lookup k v ((j, w) ∷ d) h found = ground (arith, e.beq_iff k j, IsKeyed-lookup k v d h.1)

  pub IsNodup-insert_all :
      (vs : List V) (d : Dict K V) → IsNodup (keys d) → IsNodup (keys (insert_all vs d))
  IsNodup-insert_all [] d h = h
  IsNodup-insert_all (v ∷ vs) d h =
      IsNodup-insert_all vs (insert (key v) v d) (IsNodup-insert (key v) v d h)

  pub IsKeyed-insert_all : (vs : List V) (d : Dict K V) → IsKeyed d → IsKeyed (insert_all vs d)
  IsKeyed-insert_all [] d h = h
  IsKeyed-insert_all (v ∷ vs) d h =
      IsKeyed-insert_all vs (insert (key v) v d) (IsKeyed-insert v d h)

  -- A write under a key that stands only at the head of the second part.
  insert-append_middle :
      (c d : Dict K V) (k : K) (v w : V)
      → contains k (keys c) ≡ false
      → insert k v (c ++ (k, w) ∷ d) ≡ c ++ (k, v) ∷ d
  unfolding insert
  insert-append_middle [] d k v w h = rw (beq_refl k) refl
  insert-append_middle ((j, u) ∷ c) d k v w h = ground (arith, insert-append_middle c d k v w)

  regroup :
      (k : K) (v : V) (c d : Dict K V) → keys (c ++ (k, v) ∷ []) ++ keys d ≡ keys c ++ k ∷ keys d
  regroup k v c d = rw keys-append (append_assoc (keys c) (k ∷ []) (keys d))

  -- `for v in items: if test(v): d[key(v)] = f(v)`
  abbrev pub rewrite_where : (V → Bool) → (V → V) → List V → Dict K V → Dict K V
  rewrite_where test f [] d = d
  rewrite_where test f (v ∷ vs) d =
      rewrite_where test f vs (if test v then insert (key (f v)) (f v) d else d)

  -- What one round of the loop leaves under the key of `v`.
  abbrev pub rewritten : (V → Bool) → (V → V) → V → V
  rewritten test f v = if test v then f v else v

  module _ (test : V → Bool) (f : V → V) (keeps : (v : V) → key (f v) ≡ key v) where
    round :
        (v : V) (k : K) (c d : Dict K V)
        → key v ≡ k
        → contains k (keys c) ≡ false
        → (if test v then insert (key (f v)) (f v) (c ++ (k, v) ∷ d) else c ++ (k, v) ∷ d)
          ≡ (c ++ (k, rewritten test f v) ∷ []) ++ d
    round v k c d same fresh = elim (Bool-cases (test v)) [
      | inl hit ↦
          rw (hit, keeps v, same, insert-append_middle c d k (f v) v fresh)
            (sym (append_assoc c ((k, f v) ∷ []) d))
      | inr miss ↦ rw miss (sym (append_assoc c ((k, v) ∷ []) d))
    ]

    rewrite_where-append :
        (d c : Dict K V)
        → IsNodup (keys c ++ keys d)
        → IsKeyed d
        → rewrite_where test f (values d) (c ++ d) ≡ c ++ map_values (rewritten test f) d
    rewrite_where-append [] c h keyed = refl
    rewrite_where-append ((k, v) ∷ d) c h keyed =
        let c' : Dict K V = c ++ (k, rewritten test f v) ∷ [] in
        ap (rewrite_where test f (values d))
          (round v k c d keyed.0 (IsNodup-middle k (keys c) (keys d) h))
        ∙ rewrite_where-append d c' (subst IsNodup (sym (regroup k (rewritten test f v) c d)) h)
            keyed.1
        ∙ append_assoc c ((k, rewritten test f v) ∷ []) (map_values (rewritten test f) d)

    -- The loop over all the values of a dict rewrites each of them in place.
    pub rewrite_where-values :
        (d : Dict K V)
        → IsNodup (keys d)
        → IsKeyed d
        → rewrite_where test f (values d) d ≡ map_values (rewritten test f) d
    rewrite_where-values d h keyed = rewrite_where-append d [] h keyed
