-- ===== src/Mail/Tools/Isolation.antt =====
-- What one user calls neither reads nor changes the mailbox of another.
use ai_agents.Prelude.{
  ◌≡◌, refl, sym, ◌∙◌, ap, String, Bool, true, Option, none, some, List, [], ◌∷◌, arith, ◌==◌,
  string_eq, if◌then◌else◌, Bool-cases, Option-cases, inl, inr, eq_iff, select,
}
use ai_agents.Prelude.Exec.{err}
use ai_agents.Dict.{lookup, lookup-insert}
use ai_agents.Dict.Values.{EachEntry, EachEntry-lookup, EachEntry-insert}
use ai_agents.Text.{Unicode, concat}
use ai_agents.Runtime.{Untrusted}
use ai_agents.Mail.Error.{Method, access_denied}
use ai_agents.Mail.Mailbox.{Mailbox}
use ai_agents.Mail.Mailbox.Valid.{IsValid}
use ai_agents.Mail.Tools.{Mailboxes, Call, perform, on_found, with_mailbox, serve, run}
use ai_agents.Mail.Tools.Valid.{perform-IsValid}

abbrev after : {U A : Type 0} → Method (Mailbox U) A → Option (Mailbox U) → Option (Mailbox U)
after action none = none
after action (some box) = some (action box).1

-- What every user finds after an action of one user.
lookup-with_mailbox :
    {U A : Type 0} (user other : String) (action : Method (Mailbox U) A) (boxes : Mailboxes U)
    → lookup other (with_mailbox user action boxes).1
      ≡ (if other == user then after action (lookup user boxes) else lookup other boxes)
unfolding with_mailbox
lookup-with_mailbox user other action boxes = elim (Option-cases (lookup user boxes)) [
  | inl unknown ↦
      ap (λ o. lookup other (on_found user action boxes o).1) unknown
      ∙ rw unknown (ground (arith, unknown, eq_iff other user))
  | inr (box, known) ↦
      ap (λ o. lookup other (on_found user action boxes o).1) known
      ∙ lookup-insert user other (action box).1 boxes
      ∙ rw known refl
]

-- Is it a call of this user?
abbrev pub by : {U : Type 0} → String → String × Call U → Bool
by user (caller, call) = user == caller

module _ {U : Type 0} ⦃u : Untrusted U⦄ (un : Unicode) where
  lookup-serve :
      (user other : String) (call : Call U) (boxes : Mailboxes U)
      → lookup other (serve un user call boxes).1 ≡ (
          if other == user then after (perform un call) (lookup user boxes) else lookup other boxes)
  unfolding serve
  lookup-serve user other call boxes = lookup-with_mailbox user other (perform un call) boxes

  own_call :
      (user caller : String)
      → (user == caller) ≡ true
      → (call : Call U) (boxes : Mailboxes U)
      → lookup user (serve un caller call boxes).1 ≡ after (perform un call) (lookup caller boxes)
  own_call user caller own call boxes = lookup-serve caller user call boxes ∙ rw own refl

  lookup-run :
      (user : String) (calls : List (String × Call U)) (boxes seen : Mailboxes U)
      → lookup user boxes ≡ lookup user seen
      → lookup user (run un calls boxes) ≡ lookup user (run un (select (by user) calls) seen)
  unfolding run
  lookup-run user [] boxes seen same = same
  lookup-run user ((caller, call) ∷ calls) boxes seen same = elim (Bool-cases (user == caller)) [
    | inl own ↦ rw own (
        lookup-run user calls (serve un caller call boxes).1 (serve un caller call seen).1 (
          own_call user caller own call boxes
          ∙ ap (after (perform un call)) (at_caller own same)
          ∙ sym (own_call user caller own call seen)))
    | inr other ↦ rw other (
        lookup-run user calls (serve un caller call boxes).1 seen
          (lookup-serve caller user call boxes ∙ rw other same))
  ]
    where
      at_caller :
          (user == caller) ≡ true
          → lookup user boxes ≡ lookup user seen
          → lookup caller boxes ≡ lookup caller seen
      at_caller own h = rw (← (eq_iff user caller).0 own) h

  -- Whatever the others call and in whatever order, a user's mailbox is the one that the user's own
  -- calls alone lead to.
  pub run_isolated :
      (user : String) (calls : List (String × Call U)) (boxes : Mailboxes U)
      → lookup user (run un calls boxes) ≡ lookup user (run un (select (by user) calls) boxes)
  run_isolated user calls boxes = lookup-run user calls boxes boxes refl

  -- A user without a mailbox is refused, and nothing changes.
  pub serve_denied :
      (user : String) (call : Call U) (boxes : Mailboxes U)
      → lookup user boxes ≡ none
      → serve un user call boxes ≡ (err (access_denied (concat ("mailbox of " ∷ user ∷ []))), boxes)
  unfolding serve with_mailbox
  serve_denied user call boxes unknown = ap (on_found user (perform un call) boxes) unknown

  serve-IsValid :
      (user : String) (call : Call U) (boxes : Mailboxes U)
      → EachEntry (λ k box. IsValid box) boxes
      → EachEntry (λ k box. IsValid box) (serve un user call boxes).1
  unfolding serve with_mailbox
  serve-IsValid user call boxes v = elim (Option-cases (lookup user boxes)) [
    | inl unknown ↦ rw (unknown, on_found) v
    | inr (box, known) ↦
        rw (known, on_found)
          (EachEntry-insert (λ k b. IsValid b) user (perform un call box).1 boxes
            (perform-IsValid un call box
              (EachEntry-lookup (λ k b. IsValid b) user box boxes v known))
            v)
  ]

  -- After any calls by any users, every mailbox is well formed if every one was: messages and
  -- labels stand once and under their own identifiers, and a message carries only labels of the
  -- mailbox, each once.
  pub run-IsValid :
      (calls : List (String × Call U)) (boxes : Mailboxes U)
      → EachEntry (λ k box. IsValid box) boxes
      → EachEntry (λ k box. IsValid box) (run un calls boxes)
  unfolding run
  run-IsValid [] boxes v = v
  run-IsValid ((user, call) ∷ calls) boxes v =
      run-IsValid calls (serve un user call boxes).1 (serve-IsValid user call boxes v)
