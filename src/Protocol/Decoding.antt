-- ===== src/Protocol/Decoding.antt =====
-- What a caller reads back out of a reported failure.
use ai_agents.Prelude.{
  ℕ, ◌+◌, ◌≡◌, ◌≢◌, ◌⊎◌, inl, inr, refl, sym, ◌∙◌, ap, subst, String, true, false, ◌||◌, Option,
  none, some, List, [], ◌∷◌, arith, nat_eq, string_eq, Bool-cases, contains, All, ◌==◌,
}
use ai_agents.Text.{is_prefix}
use ai_agents.Text.Find.{
  find, drop, size, drop-append, drop_add, is_prefix-append, is_prefix-comparable,
}
use ai_agents.Protocol.{
  Codes, separator, marker, encode, decode, with_position, positions, first_code, detail_from,
  strip, or_else,
}
use Prim.Native.String.{◌++◌ as str_append}
use text.Mathlib.TextLemmas.{append_assoc}
use ai_agents.Text.Occurrence.{
  is_silent, shift, find_silent, find_here, IsBeyond, IsBeyond-shift, find-IsBeyond, shift-zero,
}
use ai_agents.Protocol.Earliest.{IsFirst, Has, least-first}

-- No code starts in `p`, in the text `p` followed by `r`.
abbrev pub AreSilent : (C : Type 0) ⦃k : Codes C⦄ → String → String → Type 0
AreSilent C p r = (c : C) → is_silent (marker c) p r ≡ true

module _ {C : Type 0} ⦃k : Codes C⦄ where
  marker-encode : (c : C) (detail : String) → is_prefix (marker c) (encode c detail) ≡ true
  unfolding encode
  marker-encode c detail =
      subst (λ s. is_prefix (marker c) s ≡ true) (append_assoc (k.value c) separator detail)
        (is_prefix-append (marker c) detail)

  comparable :
      (c d : C)
      → (is_prefix (marker d) (marker c) || is_prefix (marker c) (marker d)) ≡ true
      → c ≡ d
  comparable c d h = elim (Bool-cases (is_prefix (marker d) (marker c))) [
    | inl one ↦ sym (k.apart d c one)
    | inr none_of_it ↦ k.apart c d (ground arith)
  ]

  others : (c d : C) (detail : String) → c ≢ d → is_prefix (marker d) (encode c detail) ≡ false
  unfolding encode
  others c d detail different = elim (Bool-cases (is_prefix (marker d) (encode c detail))) [
    | inr h ↦ h
    | inl h ↦ absurd (
        different (
          comparable c d (
            is_prefix-comparable (marker d) (marker c) detail (
              subst (λ s. is_prefix (marker d) s ≡ true)
                (sym (append_assoc (k.value c) separator detail)) h))))
  ]

  -- Where the code of another failure than the reported one may stand.
  module _ (p : String) (c : C) (detail : String) (quiet : AreSilent C p (encode c detail)) where
    abbrev wanted : ℕ × C
    wanted = (size p, c)

    found_wanted : find (marker c) (str_append p (encode c detail)) ≡ some (size p)
    found_wanted =
        find_silent (marker c) p (encode c detail) (quiet c)
        ∙ ap (shift (size p)) (find_here (marker c) (encode c detail) (marker-encode c detail))
        ∙ shift-zero (size p)

    found_other :
        (d : C) → c ≢ d → IsBeyond (size p) (find (marker d) (str_append p (encode c detail)))
    found_other d different = rw (find_silent (marker d) p (encode c detail) (quiet d)) (
        IsBeyond-shift (size p) (find (marker d) (encode c detail))
          (find-IsBeyond (marker d) (encode c detail) (others c d detail different)))

    All-with_position :
        (d : C) (o : Option ℕ) (rest : List (ℕ × C))
        → IsBeyond (size p) o
        → All (IsFirst wanted) rest
        → All (IsFirst wanted) (with_position d o rest)
    All-with_position d none rest b h = h
    All-with_position d (some i) rest b h = (inr b, h)

    -- A code is the reported one or it is not.
    same_code : (d : C) → (c ≡ d) ⊎ (c ≢ d)
    same_code d = elim (Bool-cases (k.same.beq c d)) [
      | inl h ↦ inl ((k.same.beq_iff c d).0 h)
      | inr h ↦ inr (λ e. ground (arith, (k.same.beq_iff c d).1 e))
    ]

    at_wanted :
        (d : C) (rest : List (ℕ × C))
        → c ≡ d
        → with_position d (find (marker d) (str_append p (encode c detail))) rest ≡ wanted ∷ rest
    at_wanted d rest e =
        subst
          (λ d.
            with_position d (find (marker d) (str_append p (encode c detail))) rest ≡ wanted ∷ rest)
          e (ap (λ o. with_position c o rest) found_wanted)

    positions-IsFirst :
        (cs : List C) → All (IsFirst wanted) (positions (str_append p (encode c detail)) cs)
    unfolding positions
    positions-IsFirst [] = tt
    positions-IsFirst (d ∷ cs) = elim (same_code d) [
      | inl e ↦
          rw (at_wanted d (positions (str_append p (encode c detail)) cs) e)
            (inl refl, positions-IsFirst cs)
      | inr different ↦
          All-with_position d (find (marker d) (str_append p (encode c detail)))
            (positions (str_append p (encode c detail)) cs) (found_other d different)
            (positions-IsFirst cs)
    ]

    Has-with_position :
        (d : C) (o : Option ℕ) (rest : List (ℕ × C))
        → Has wanted rest
        → Has wanted (with_position d o rest)
    Has-with_position d none rest h = h
    Has-with_position d (some i) rest h = inr h

    positions-Has :
        (cs : List C)
        → contains ⦃e = k.same⦄ c cs ≡ true
        → Has wanted (positions (str_append p (encode c detail)) cs)
    unfolding positions
    positions-Has [] h = absurd (ground arith)
    positions-Has (d ∷ cs) h = elim (same_code d) [
      | inl e ↦ rw (at_wanted d (positions (str_append p (encode c detail)) cs) e) (inl refl)
      | inr different ↦
          Has-with_position d (find (marker d) (str_append p (encode c detail)))
            (positions (str_append p (encode c detail)) cs)
            (positions-Has cs (ground (arith, k.same.beq_iff c d)))
    ]

    first_code-encode : first_code (str_append p (encode c detail)) ≡ some wanted
    unfolding first_code
    first_code-encode =
        least-first wanted (positions (str_append p (encode c detail)) k.members)
          (positions-IsFirst k.members) (positions-Has k.members (k.listed c))

  after_marker :
      (p : String) (c : C) (detail : String)
      → drop (size p + size (k.value c) + size separator) (str_append p (encode c detail)) ≡ detail
  unfolding encode
  after_marker p c detail =
      drop_add (size p + size (k.value c)) (size separator) (str_append p (encode c detail))
      ∙ ap (drop (size separator)) (
          drop_add (size p) (size (k.value c)) (str_append p (encode c detail))
          ∙ ap (drop (size (k.value c))) (drop-append p (encode c detail))
          ∙ drop-append (k.value c) (str_append separator detail))
      ∙ drop-append separator detail

  -- A failure that a server reports is read back as it was meant, whatever context stands before
  -- it, as long as no code starts in that context: the code is the one encoded, and the detail is
  -- the encoded one without the white space around it, or the whole report where nothing is left.
  pub decode-encode :
      (context : String) (c : C) (detail : String)
      → AreSilent C context (encode c detail)
      → decode (str_append context (encode c detail))
        ≡ (c, or_else (strip detail) (str_append context (encode c detail)))
  unfolding decode
  decode-encode context c detail quiet =
      ap (detail_from (str_append context (encode c detail)))
        (first_code-encode context c detail quiet)
      ∙ ap (λ s. (c, or_else (strip s) (str_append context (encode c detail))))
          (after_marker context c detail)

pub or_else-nonempty : (s t : String) → (t == "") ≡ false → (or_else s t == "") ≡ false
or_else-nonempty s t h = ground arith
