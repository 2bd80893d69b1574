-- ===== src/Reference/Refinement/Labelling.antt =====
-- Labels: making, deleting, attaching and detaching.
use ai_agents.Prelude.{
  ◌≡◌, refl, sym, ap, subst, ◌∙◌, ℕ, suc, String, Bool, true, false, not, Option, none, some, List,
  [], ◌∷◌, ◌++◌, map, ◌==◌, string_eq, if◌then◌else◌, select, length, arith, Bool-cases, inl, inr,
  contains, IsNodup, eq_iff,
}
use ai_agents.Prelude.Exec.{ok}
use ai_agents.Prelude.Search.{first_free}
use ai_agents.Dict.{
  Dict, keys, values, lookup, insert, erase, has_key, has_key-eq-contains, insert-eq-append,
}
use ai_agents.Dict.Mapping.{map_option}
use mathlib.Core.Path.{fun_ext}
use ai_agents.Text.{Unicode}
use ai_agents.Runtime.{Untrusted}
use ai_agents.Protocol.MailCodes.{not_found_error}
use ai_agents.Mail.Models.{MailLabel}
use ai_agents.Mail.Mailbox as M
use ai_agents.Mail.Mailbox.Minting.{mint_label_id-is_new}
use ai_agents.Mail.Tools as T
use ai_agents.Wire.{Label}
use ai_agents.Wire.Mapping.{label, label_outcome}
use ai_agents.Reference as R
use ai_agents.Reference.{InMemoryMailbox}
use ai_agents.Reference.Refinement.{label_dict, view, shown, shown-or_raise}

module _ (U : Type 0) ⦃u : Untrusted U⦄ where
  keys-label_dict : (ls : List Label) → keys (label_dict {U = U} ls) ≡ map R.label_key ls
  keys-label_dict [] = refl
  keys-label_dict (l ∷ ls) = ap (◌∷◌ l.label_id) (keys-label_dict ls)

  pub values-label_dict : (ls : List Label) → values (label_dict {U = U} ls) ≡ map label ls
  values-label_dict [] = refl
  values-label_dict (l ∷ ls) = ap (◌∷◌ (label l)) (values-label_dict ls)

  length-label_dict : (ls : List Label) → length (label_dict {U = U} ls) ≡ length ls
  length-label_dict [] = refl
  length-label_dict (l ∷ ls) = ap suc (length-label_dict ls)

  pub lookup-label_dict :
      (i : String) (ls : List Label)
      → lookup i (label_dict {U = U} ls) ≡ map_option label (R.first_with_id i ls)
  unfolding lookup
  lookup-label_dict i [] = refl
  lookup-label_dict i (l ∷ ls) =
      ground (arith, eq_iff i l.label_id, eq_iff l.label_id i, lookup-label_dict i ls)

  label_dict-append :
      (ls : List Label) (l : Label)
      → label_dict {U = U} (ls ++ l ∷ []) ≡ label_dict ls ++ (l.label_id, label l) ∷ []
  label_dict-append [] l = refl
  label_dict-append (x ∷ ls) l = ap (◌∷◌ (x.label_id, label x)) (label_dict-append ls l)

  select_all :
      (i : String) (ls : List Label)
      → contains i (map R.label_key ls) ≡ false
      → select (λ (l : Label). not (l.label_id == i)) ls ≡ ls
  select_all i [] h = refl
  select_all i (l ∷ ls) h =
      ground (arith, eq_iff i l.label_id, eq_iff l.label_id i, select_all i ls)

  pub erase-label_dict :
      (i : String) (ls : List Label)
      → IsNodup (map R.label_key ls)
      → erase i (label_dict {U = U} ls)
        ≡ label_dict (select (λ (l : Label). not (l.label_id == i)) ls)
  unfolding erase
  erase-label_dict i [] h = refl
  erase-label_dict i (l ∷ ls) h = elim (Bool-cases (l.label_id == i)) [
    | inl same ↦
        let here : l.label_id ≡ i = (eq_iff l.label_id i).0 same in
        rw (same, (eq_iff i l.label_id).1 (sym here))
          (ap label_dict
            (sym (select_all i ls (subst (λ j. contains j (map R.label_key ls) ≡ false) here h.0))))
    | inr other ↦
        let away : (i == l.label_id) ≡ false =
          ground (arith, eq_iff i l.label_id, eq_iff l.label_id i) in
        rw (other, away) (ap (◌∷◌ (l.label_id, label l)) (erase-label_dict i ls h.1))
  ]

  named_lem :
      (un : Unicode) (folded : String) (ls : List Label)
      → M.first_named {U = U} un folded (map label ls)
        ≡ map_option label (R.first_called un folded ls)
  unfolding label
  named_lem un folded [] = refl
  named_lem un folded (l ∷ ls) =
      rw (u.expose-untrusted l.name ("mail", "label"))
        (elim (Bool-cases (un.casefold l.name == folded)) [
          | inl same ↦ rw same refl
          | inr other ↦ rw other (named_lem un folded ls)
        ])

  has_key-label_dict :
      (i : String) (ls : List Label)
      → has_key i (label_dict {U = U} ls) ≡ contains i (map R.label_key ls)
  has_key-label_dict i ls =
      has_key-eq-contains i (label_dict ls) ∙ ap (contains i) (keys-label_dict ls)

  -- Minting, with the number of rounds and the test of what is taken left open.
  abbrev mint_with : Unicode → String → ℕ → (String → Bool) → String
  mint_with un name n taken =
      let c = R.label_id_of un name in
      let free = first_free n (λ s. taken (R.numbered c s)) 2 in
      if taken c then R.numbered c free else c

  mint_lem :
      (un : Unicode) (name owner : String) (box : InMemoryMailbox)
      → M.mint_label_id {U = U} un name (view owner box) ≡ R.mint un name box
  unfolding M.mint_label_id R.mint M.candidate R.label_id_of M.suffixed R.numbered
  mint_lem un name owner box =
      ap (λ (n : ℕ). mint_with un name (suc n) (λ i. has_key i (label_dict {U = U} box.labels)))
        (length-label_dict box.labels)
      ∙ ap (mint_with un name (suc (length box.labels)))
          (fun_ext (λ i. has_key-label_dict i box.labels))

  called_lem :
      (un : Unicode) (name owner : String) (box : InMemoryMailbox)
      → M.label_named {U = U} un name (view owner box)
        ≡ map_option label (R.label_called un name box)
  unfolding M.label_named R.label_called
  called_lem un name owner box =
      ap (M.first_named un (un.casefold name)) (values-label_dict box.labels)
      ∙ named_lem un (un.casefold name) box.labels

  -- The label that the server makes, and the mailbox with it at the end.
  abbrev new_label : Unicode → String → InMemoryMailbox → Label
  new_label un name box = record { label_id = R.mint un name box; name = name; is_system = false }

  mint-is_free :
      (un : Unicode) (name owner : String) (box : InMemoryMailbox)
      → contains (R.mint un name box) (keys (label_dict {U = U} box.labels)) ≡ false
  mint-is_free un name owner box =
      subst (λ i. contains i (keys (label_dict {U = U} box.labels)) ≡ false)
        (mint_lem un name owner box) (mint_label_id-is_new un name (view {U = U} owner box))

  insert_new :
      (un : Unicode) (name owner : String) (box : InMemoryMailbox)
      → insert (R.mint un name box) (label (new_label un name box)) (label_dict {U = U} box.labels)
        ≡ label_dict (box.labels ++ new_label un name box ∷ [])
  insert_new un name owner box =
      insert-eq-append (R.mint un name box) (label (new_label un name box)) (label_dict box.labels)
        (mint-is_free un name owner box)
      ∙ sym (label_dict-append box.labels (new_label un name box))

  give_or_make_lem :
      (un : Unicode) (name owner : String) (o : Option Label) (box : InMemoryMailbox)
      → T.existing_or_new {U = U} un name (map_option label o) (view owner box)
        ≡ shown label_outcome owner (R.give_or_make un name o box)
  unfolding label label_outcome M.add_label
  give_or_make_lem un name owner (some l) box = refl
  give_or_make_lem un name owner none box = rw (mint_lem un name owner box) (
      ap
        (λ (d : Dict String (MailLabel U)). (
          ok (label_outcome (record { label = new_label un name box; created = true })),
          record (view owner box) { labels = d },
        ))
        (insert_new un name owner box))

  -- Making a label in the reference server is making it in the contract: the same label is found,
  -- or one is added under the same identifier.
  pub create_label-refines :
      (un : Unicode) (name owner : String) (box : InMemoryMailbox)
      → T.create_label {U = U} un name (view owner box)
        ≡ shown label_outcome owner (R.create_label un name box)
  unfolding T.create_label R.create_label
  create_label-refines un name owner box =
      ap (λ o. T.existing_or_new un name o (view owner box)) (called_lem un name owner box)
      ∙ give_or_make_lem un name owner (R.label_called un name box) box

  pub require_label-refines :
      (i owner : String) (box : InMemoryMailbox)
      → M.require_label {U = U} i (view owner box) ≡ shown label owner (R.require_label i box)
  unfolding M.require_label R.require_label
  require_label-refines i owner box =
      rw (lookup-label_dict i box.labels)
        (shown-or_raise label owner (R.first_with_id i box.labels) (not_found_error "label" i) box)
