-- ===== src/Mail/Tools/State.antt =====
-- Read state and archiving: what changes, what does not, and which calls fail.
use ai_agents.Prelude.{
  ◌≡◌, refl, ◌∙◌, ap, String, Bool, true, none, some, arith, ◌==◌, string_eq, if◌then◌else◌,
  Bool-cases, Option-cases, inl, inr, eq_iff, is_some,
}
use ai_agents.Prelude.Exec.{Result, ok, err, ◌>>=◌, >>=-ok, >>=-err}
use ai_agents.Dict.{lookup, insert, lookup-insert}
use ai_agents.Dict.Values.{IsKeyed-lookup}
use ai_agents.Mail.Error.{MailError, not_found}
use ai_agents.Mail.Models.{MailMessage}
use ai_agents.Mail.Mailbox.{Mailbox, message_key, message, replace}
use ai_agents.Mail.Mailbox.Valid.{IsValid}
use ai_agents.Mail.Mailbox.Access.{message_found, message_missing}
use ai_agents.Mail.Tools.{set_read_state, archive}

module _ {U : Type 0} where
  -- `box'` is `box` with one message changed by `f`, and nothing else.
  pub record IsEdited (f : MailMessage U → MailMessage U) (i : String) (box box' : Mailbox U)
      : Type 0 where
    pub messages :
        (j : String)
        → lookup j box'.messages
          ≡ elim (lookup j box.messages) [ none ↦ none | some m ↦ some (if j == i then f m else m) ]
    pub labels : box'.labels ≡ box.labels
    pub drafts : box'.drafts ≡ box.drafts
    pub sent : box'.sent ≡ box.sent
    pub owner : box'.owner_id ≡ box.owner_id

  -- How an edit of one message may end: the message is there and only it changes, or it is
  -- missing, which the error says, and nothing changes.
  abbrev pub IsEdit :
      (MailMessage U → MailMessage U)
      → String
      → Mailbox U
      → Result MailError (Unit {0}) × Mailbox U
      → Type 0
  IsEdit f i box (ok _, box') = (is_some (lookup i box.messages) ≡ true) × IsEdited f i box box'
  IsEdit f i box (err e, box') =
      (lookup i box.messages ≡ none) × (e ≡ not_found "message" i) × (box' ≡ box)

  pub replace-IsEdited :
      (f : MailMessage U → MailMessage U) (i : String) (m : MailMessage U) (box : Mailbox U)
      → (f m).message_id ≡ i
      → lookup i box.messages ≡ some m
      → IsEdited f i box (replace (f m) box).1
  unfolding replace
  replace-IsEdited f i m box same found = record {
    messages = λ j.
        ap (λ k. lookup j (insert k (f m) box.messages)) same
        ∙ lookup-insert i j (f m) box.messages
        ∙ written j;
    labels = refl;
    drafts = refl;
    sent = refl;
    owner = refl;
  }
    where
      written :
          (j : String)
          → (if j == i then some (f m) else lookup j box.messages) ≡ elim (lookup j box.messages) [
            | none ↦ none
            | some x ↦ some (if j == i then f x else x)
          ]
      written j = elim (Bool-cases (j == i)) [
        | inl here ↦
            let e : lookup j box.messages ≡ some m =
              ap (λ k. lookup k box.messages) ((eq_iff j i).0 here) ∙ found in
            rw e (rw (here) refl)
        | inr there ↦ ground (arith, there)
      ]

  pub edit_lem :
      (f : MailMessage U → MailMessage U) (i : String) (box : Mailbox U)
      → IsValid box
      → ((m : MailMessage U) → (f m).message_id ≡ m.message_id)
      → IsEdit f i box ((message i >>= λ m. replace (f m)) box)
  unfolding replace
  edit_lem f i box v keeps = elim (Option-cases (lookup i box.messages)) [
    | inl missing ↦
        rw (>>=-err (message i) (λ m. replace (f m)) box _ box (message_missing i box missing))
          (missing, refl, refl)
    | inr (m, found) ↦
        rw (>>=-ok (message i) (λ m. replace (f m)) box m box (message_found i m box found)) (
          ap is_some found,
          replace-IsEdited f i m box
              (keeps m ∙ IsKeyed-lookup message_key i m box.messages v.messages_keyed found) found,
        )
  ]

  -- In a well-formed mailbox, marking sets the read state of the named message and changes
  -- nothing else; if there is no such message, and only then, the call fails, says so, and
  -- changes nothing.
  pub set_read_state-IsEdit :
      (i : String) (is_read : Bool) (box : Mailbox U)
      → IsValid box
      → IsEdit (λ m. record m { is_read = is_read }) i box (set_read_state i is_read box)
  unfolding set_read_state
  set_read_state-IsEdit i is_read box v =
      edit_lem (λ m. record m { is_read = is_read }) i box v (λ m. refl)

  -- In a well-formed mailbox, archiving sets the archived flag of the named message and changes
  -- nothing else; if there is no such message, and only then, the call fails, says so, and
  -- changes nothing.
  pub archive-IsEdit :
      (i : String) (box : Mailbox U)
      → IsValid box
      → IsEdit (λ m. record m { is_archived = true }) i box (archive i box)
  unfolding archive
  archive-IsEdit i box v = edit_lem (λ m. record m { is_archived = true }) i box v (λ m. refl)
