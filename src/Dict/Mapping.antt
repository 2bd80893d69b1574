-- ===== src/Dict/Mapping.antt =====
-- A dict with a function applied to its values: what the other operations make of it.
use ai_agents.Prelude.{
  ◌≡◌, refl, ap, ◌∙◌, Option, none, some, [], ◌∷◌, map, Eq, ◌==◌, Bool-cases, inl, inr,
}
use ai_agents.Dict.{Dict, keys, values, lookup, insert}
use ai_agents.Dict.Values.{map_values, IsKeyed}

module _ {V W : Type 0} (f : V → W) where
  abbrev pub map_option : Option V → Option W
  map_option none = none
  map_option (some v) = some (f v)

module _ {K V W : Type 0} (f : V → W) where
  abbrev pub map_entries : Dict K V → Dict K W
  map_entries [] = []
  map_entries ((k, v) ∷ d) = (k, f v) ∷ map_entries d

  pub keys-map_entries : (d : Dict K V) → keys (map_entries d) ≡ keys d
  keys-map_entries [] = refl
  keys-map_entries ((k, v) ∷ d) = ap (◌∷◌ k) (keys-map_entries d)

  pub values-map_entries : (d : Dict K V) → values (map_entries d) ≡ map f (values d)
  values-map_entries [] = refl
  values-map_entries ((k, v) ∷ d) = ap (◌∷◌ (f v)) (values-map_entries d)

  -- An update of the images that follows an update of the values.
  pub map_values-map_entries :
      (g : W → W) (h : V → V)
      → ((v : V) → g (f v) ≡ f (h v))
      → (d : Dict K V) → map_values g (map_entries d) ≡ map_entries (map_values h d)
  map_values-map_entries g h same [] = refl
  map_values-map_entries g h same ((k, v) ∷ d) =
      rw (same v) (ap (◌∷◌ (k, f (h v))) (map_values-map_entries g h same d))

module _ {K V W : Type 0} ⦃e : Eq K⦄ (f : V → W) where
  pub lookup-map_entries :
      (k : K) (d : Dict K V) → lookup k (map_entries f d) ≡ map_option f (lookup k d)
  unfolding lookup
  lookup-map_entries k [] = refl
  lookup-map_entries k ((j, v) ∷ d) = elim (Bool-cases (k == j)) [
    | inl same ↦ rw same refl
    | inr other ↦ rw other (lookup-map_entries k d)
  ]

  pub insert-map_entries :
      (k : K) (v : V) (d : Dict K V)
      → insert k (f v) (map_entries f d) ≡ map_entries f (insert k v d)
  unfolding insert
  insert-map_entries k v [] = refl
  insert-map_entries k v ((j, w) ∷ d) = elim (Bool-cases (k == j)) [
    | inl same ↦ rw same refl
    | inr other ↦ rw other (ap (◌∷◌ (j, f w)) (insert-map_entries k v d))
  ]

module _ {K V W : Type 0} (f : V → W) (key : V → K) (key' : W → K) ⦃e : Eq K⦄ where
  pub IsKeyed-map_entries :
      ((v : V) → key' (f v) ≡ key v)
      → (d : Dict K V) → IsKeyed key d
      → IsKeyed key' (map_entries f d)
  IsKeyed-map_entries same [] h = tt
  IsKeyed-map_entries same ((k, v) ∷ d) h = (same v ∙ h.0, IsKeyed-map_entries same d h.1)
