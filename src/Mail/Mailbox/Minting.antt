-- ===== src/Mail/Mailbox/Minting.antt =====
-- `mint_label_id` returns an identifier that no label of the mailbox has.
use ai_agents.Prelude.{
  ℕ, suc, ◌≡◌, refl, sym, ◌∙◌, ap, String, false, [], ◌∷◌, arith, length, contains, string_eq,
  Bool-cases, inl, inr,
}
use ai_agents.Prelude.Search.{first_free, first_free-not_taken}
use ai_agents.Dict.{Dict, keys, has_key, has_key-eq-contains}
use ai_agents.Text.{Unicode, concat}
use ai_agents.Text.Decimal.{decimal, decimal_inj}
use ai_agents.Mail.Mailbox.{Mailbox, candidate, suffixed, mint_label_id}
use text.Mathlib.TextLemmas.{append_cancel_left, append_cancel_right}
use mathlib.Core.Path.{fun_ext}

pub suffixed_inj : (c : String) (m n : ℕ) → suffixed c m ≡ suffixed c n → m ≡ n
unfolding suffixed
suffixed_inj c m n same = decimal_inj m n (
    append_cancel_right (decimal m) (decimal n) "" (
      append_cancel_left "_" (concat (decimal m ∷ [])) (concat (decimal n ∷ [])) (
        append_cancel_left c (concat ("_" ∷ decimal m ∷ [])) (concat ("_" ∷ decimal n ∷ [])) same)))

length-keys : {V : Type 0} (d : Dict String V) → length (keys d) ≡ length d
length-keys [] = refl
length-keys ((k, v) ∷ d) = ap suc (length-keys d)

module _ {U : Type 0} (un : Unicode) (name : String) (box : Mailbox U) where
  free_suffix :
      (c : String)
      → contains
          (suffixed c
            (first_free (suc (length box.labels)) (λ s. has_key (suffixed c s) box.labels) 2))
          (keys box.labels)
        ≡ false
  free_suffix c = rw (fun_ext (λ s. has_key-eq-contains (suffixed c s) box.labels)) (
      first_free-not_taken (suffixed c) (suffixed_inj c) (suc (length box.labels)) 2
        (keys box.labels) (omega (arith, length-keys box.labels)))

  -- The minted identifier is no key of the labels, for every name and every mailbox: the loop over
  -- the suffixes always ends at a free one.
  pub mint_label_id-is_new : contains (mint_label_id un name box) (keys box.labels) ≡ false
  unfolding mint_label_id
  mint_label_id-is_new = elim (Bool-cases (has_key (candidate un name) box.labels)) [
    | inl taken ↦ rw taken (free_suffix (candidate un name))
    | inr free ↦ rw free (sym (has_key-eq-contains (candidate un name) box.labels) ∙ free)
  ]
