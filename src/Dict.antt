-- ===== src/Dict.antt =====
-- Python's `dict`, in insertion order: a write to a key that is there keeps its place.
pub mod Values
pub mod Mapping
use ai_agents.Prelude.{
  ◌≡◌, refl, sym, ap, ◌∙◌, not, ◌&&◌, Bool, true, false, ◌||◌, Option, none, some, List, [], ◌∷◌,
  ◌++◌, map, arith, Eq, ◌==◌, if◌then◌else◌, contains, is_some, IsNodup, Bool-cases, inl, inr,
}

abbrev pub Dict {ℓ κ} : Type ℓ → Type κ → Type (ℓ ⊔ κ)
Dict K V = List (K × V)

module _ {ℓ κ} {K : Type ℓ} {V : Type κ} where
  abbrev pub keys : Dict K V → List K
  keys [] = []
  keys ((k, v) ∷ d) = k ∷ keys d

  abbrev pub values : Dict K V → List V
  values [] = []
  values ((k, v) ∷ d) = v ∷ values d

module _ {ℓ κ} {K : Type ℓ} {V : Type κ} ⦃e : Eq K⦄ where
  -- `d.get(k)`
  unfoldable pub lookup : K → Dict K V → Option V
  lookup k [] = none
  lookup k ((j, v) ∷ d) = if k == j then some v else lookup k d

  -- `k in d`
  abbrev pub has_key : K → Dict K V → Bool
  has_key k d = is_some (lookup k d)

  -- `d[k] = v`
  unfoldable pub insert : K → V → Dict K V → Dict K V
  insert k v [] = (k, v) ∷ []
  insert k v ((j, w) ∷ d) = if k == j then (k, v) ∷ d else (j, w) ∷ insert k v d

  -- `d.setdefault(k, v)`
  unfoldable pub set_default : K → V → Dict K V → Dict K V
  unfolding lookup insert
  set_default k v d = if has_key k d then d else insert k v d

  -- `del d[k]`
  unfoldable pub erase : K → Dict K V → Dict K V
  erase k [] = []
  erase k ((j, w) ∷ d) = if k == j then d else (j, w) ∷ erase k d

  pub has_key-eq-contains : (k : K) (d : Dict K V) → has_key k d ≡ contains k (keys d)
  unfolding lookup
  has_key-eq-contains k [] = refl
  has_key-eq-contains k ((j, w) ∷ d) = ground (arith, has_key-eq-contains k d)

  pub lookup-insert :
      (k j : K) (v : V) (d : Dict K V)
      → lookup j (insert k v d) ≡ (if j == k then some v else lookup j d)
  unfolding lookup insert
  lookup-insert k j v [] = refl
  lookup-insert k j v ((i, w) ∷ d) =
      ground (arith, e.beq_iff j k, e.beq_iff k i, e.beq_iff j i, lookup-insert k j v d)

  pub lookup-insert_same : (k : K) (v : V) (d : Dict K V) → lookup k (insert k v d) ≡ some v
  lookup-insert_same k v d = lookup-insert k k v d ∙ rw ((e.beq_iff k k).1 refl) refl

  pub contains-keys-insert :
      (k j : K) (v : V) (d : Dict K V)
      → contains j (keys (insert k v d)) ≡ (j == k || contains j (keys d))
  unfolding insert
  contains-keys-insert k j v [] = refl
  contains-keys-insert k j v ((i, w) ∷ d) =
      ground (arith, e.beq_iff j k, e.beq_iff k i, e.beq_iff j i, contains-keys-insert k j v d)

  pub IsNodup-insert :
      (k : K) (v : V) (d : Dict K V) → IsNodup (keys d) → IsNodup (keys (insert k v d))
  unfolding insert
  IsNodup-insert k v [] h = (refl, tt)
  IsNodup-insert k v ((i, w) ∷ d) h =
      ground (
        arith,
        e.beq_iff k i,
        e.beq_iff i k,
        contains-keys-insert k i v d,
        IsNodup-insert k v d h.1,
      )

  -- A fresh key goes to the end.
  pub insert-eq-append :
      (k : K) (v : V) (d : Dict K V) → contains k (keys d) ≡ false → insert k v d ≡ d ++ (k, v) ∷ []
  unfolding insert
  insert-eq-append k v [] h = refl
  insert-eq-append k v ((i, w) ∷ d) h = ground (arith, insert-eq-append k v d)

  -- A write to a key that is there keeps the keys and their order.
  pub keys-insert_present :
      (k : K) (v : V) (d : Dict K V) → contains k (keys d) ≡ true → keys (insert k v d) ≡ keys d
  unfolding insert
  keys-insert_present k v [] h = absurd (ground arith)
  keys-insert_present k v ((i, w) ∷ d) h = ground (arith, e.beq_iff k i, keys-insert_present k v d)

  pub lookup-erase :
      (k j : K) (d : Dict K V)
      → IsNodup (keys d)
      → lookup j (erase k d) ≡ (if j == k then none else lookup j d)
  unfolding lookup erase
  lookup-erase k j [] h = ground arith
  lookup-erase k j ((i, w) ∷ d) h = ground (
    arith,
    e.beq_iff j k,
    e.beq_iff k i,
    e.beq_iff j i,
    lookup-erase k j d h.1,
    has_key-eq-contains i d,
  )

  pub contains-keys-erase :
      (k j : K) (d : Dict K V) → contains j (keys d) ≡ false → contains j (keys (erase k d)) ≡ false
  unfolding erase
  contains-keys-erase k j [] h = refl
  contains-keys-erase k j ((i, w) ∷ d) h = ground (arith, contains-keys-erase k j d)

  pub IsNodup-erase : (k : K) (d : Dict K V) → IsNodup (keys d) → IsNodup (keys (erase k d))
  unfolding erase
  IsNodup-erase k [] h = tt
  IsNodup-erase k ((i, w) ∷ d) h = ground (arith, contains-keys-erase k i d, IsNodup-erase k d h.1)

  pub contains-keys-set_default :
      (k j : K) (v : V) (d : Dict K V)
      → contains j (keys (set_default k v d)) ≡ (j == k || contains j (keys d))
  unfolding set_default
  contains-keys-set_default k j v d =
      ground (arith, has_key-eq-contains k d, e.beq_iff j k, contains-keys-insert k j v d)

  pub IsNodup-set_default :
      (k : K) (v : V) (d : Dict K V) → IsNodup (keys d) → IsNodup (keys (set_default k v d))
  unfolding set_default
  IsNodup-set_default k v d h = elim (Bool-cases (has_key k d)) [
    | inl old ↦ rw old h
    | inr new ↦ rw new (IsNodup-insert k v d h)
  ]

  -- The keys that are left after `del`.
  pub contains-keys-erase_of_IsNodup :
      (k j : K) (d : Dict K V)
      → IsNodup (keys d)
      → contains j (keys (erase k d)) ≡ (not (j == k) && contains j (keys d))
  contains-keys-erase_of_IsNodup k j d h =
      sym (has_key-eq-contains j (erase k d))
      ∙ ap is_some (lookup-erase k j d h)
      ∙ ground (arith, has_key-eq-contains j d)
