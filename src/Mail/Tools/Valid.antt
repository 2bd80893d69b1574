-- ===== src/Mail/Tools/Valid.antt =====
-- Every call of the contract keeps the invariant of the mailbox, whether it returns or raises.
use ai_agents.Prelude.{
  ℕ, ◌≡◌, refl, sym, ◌∙◌, ap, String, Bool, true, false, some, List, [], ◌∷◌, ◌++◌, arith,
  string_eq, contains, contains-append, IsNodup, IsSubset-intro, IsSubset-contains, is_some,
  Bool-cases, Option-cases, inl, inr, eq_iff,
}
use ai_agents.Prelude.Exec.{Result, ok, err, ◌>>=◌, >>=-ok, >>=-err}
use ai_agents.Dict.{keys, lookup, has_key-eq-contains}
use ai_agents.Dict.Values.{EachEntry-lookup}
use ai_agents.Text.{Unicode}
use ai_agents.Runtime.{Untrusted}
use ai_agents.Mail.Error.{MailError, Method}
use ai_agents.Mail.Models.{MailMessage, MailLabel, MailDraft}
use ai_agents.Mail.Mailbox.{
  Mailbox, message, thread, replace, require_label, add_label, label_named, carries, without_label,
  record_sent,
}
use ai_agents.Mail.Mailbox.Access.{
  message_found, message_missing, require_label_found, require_label_missing,
}
use ai_agents.Mail.Mailbox.Valid.{
  IsFiled, IsValid, replace-IsValid, add_label-IsValid, store_draft-IsValid, without_label-IsFiled,
}
use ai_agents.Mail.Mailbox.Detach.{drop_label_lem, dropped-IsValid}
use ai_agents.Mail.Tools.{
  Call, search_for, get_message, get_thread, list_labels, create_draft, send_draft, mark,
  archive_message, attach, detach, add_named, delete, Reply, reply_with, perform, search_mail,
  set_read_state, archive, apply_label, remove_label, with_label, attach_to, delete_found,
  create_label, delete_label, send,
}

module _ {U : Type 0} where
  -- A stored message is filed.
  stored-IsFiled :
      (i : String) (m : MailMessage U) (box : Mailbox U)
      → IsValid box
      → lookup i box.messages ≡ some m
      → IsFiled (keys box.labels) m
  stored-IsFiled i m box v found = EachEntry-lookup _ i m box.messages v.filed found

  with_label-IsFiled :
      (l : String) (ids : List String) (m : MailMessage U)
      → contains l ids ≡ true
      → carries l m ≡ false
      → IsFiled ids m
      → IsFiled ids (with_label l m)
  with_label-IsFiled l ids m known fresh f = record {
    known = IsSubset-intro (m.label_ids ++ l ∷ []) ids (λ a i. ground (
      arith,
      contains-append a m.label_ids (l ∷ []),
      eq_iff a l,
      IsSubset-contains a m.label_ids ids f.known,
    ));
    once = IsNodup-snoc l m.label_ids fresh f.once;
  }
    where
      IsNodup-snoc :
          (x : String) (xs : List String)
          → contains x xs ≡ false
          → IsNodup xs
          → IsNodup (xs ++ x ∷ [])
      IsNodup-snoc x [] out h = (refl, tt)
      IsNodup-snoc x (y ∷ ys) out h = (
        contains-append y ys (x ∷ []) ∙ ground (arith, h.0, eq_iff x y, eq_iff y x),
        IsNodup-snoc x ys (ground arith) h.1,
      )

  -- What follows a look-up of a message, or of a label, starts from the same mailbox.
  after_message :
      {A : Type 0} (f : MailMessage U → Method (Mailbox U) A) (i : String) (box : Mailbox U)
      → IsValid box
      → ((m : MailMessage U) → lookup i box.messages ≡ some m → IsValid (f m box).1)
      → IsValid ((message i >>= f) box).1
  after_message f i box v h = elim (Option-cases (lookup i box.messages)) [
    | inl missing ↦ rw (>>=-err (message i) f box _ box (message_missing i box missing)) v
    | inr (m, found) ↦ rw (>>=-ok (message i) f box m box (message_found i m box found)) (h m found)
  ]

  after_label :
      {A : Type 0} (f : MailLabel U → Method (Mailbox U) A) (i : String) (box : Mailbox U)
      → IsValid box
      → ((l : MailLabel U) → lookup i box.labels ≡ some l → IsValid (f l box).1)
      → IsValid ((require_label i >>= f) box).1
  after_label f i box v h = elim (Option-cases (lookup i box.labels)) [
    | inl missing ↦
        rw (>>=-err (require_label i) f box _ box (require_label_missing i box missing)) v
    | inr (l, known) ↦
        rw (>>=-ok (require_label i) f box l box (require_label_found i l box known)) (h l known)
  ]

  -- `message`, then a write of what `f` makes of it.
  edit-IsValid :
      (f : MailMessage U → MailMessage U) (i : String) (box : Mailbox U)
      → IsValid box
      → ((m : MailMessage U) → IsFiled (keys box.labels) m → IsFiled (keys box.labels) (f m))
      → IsValid ((message i >>= λ m. replace (f m)) box).1
  edit-IsValid f i box v h =
      after_message (λ m. replace (f m)) i box v
        (λ m found. replace-IsValid (f m) box v (h m (stored-IsFiled i m box v found)))

  set_read_state-IsValid :
      (i : String) (b : Bool) (box : Mailbox U) → IsValid box → IsValid (set_read_state i b box).1
  unfolding set_read_state
  set_read_state-IsValid i b box v =
      edit-IsValid (λ m. record m { is_read = b }) i box v
        (λ m f. record { known = f.known; once = f.once })

  archive-IsValid : (i : String) (box : Mailbox U) → IsValid box → IsValid (archive i box).1
  unfolding archive
  archive-IsValid i box v =
      edit-IsValid (λ m. record m { is_archived = true }) i box v
        (λ m f. record { known = f.known; once = f.once })

  known_label :
      (l : String) (x : MailLabel U) (box : Mailbox U)
      → lookup l box.labels ≡ some x
      → contains l (keys box.labels) ≡ true
  known_label l x box h = sym (has_key-eq-contains l box.labels) ∙ ap is_some h

  apply_label-IsValid :
      (i l : String) (box : Mailbox U) → IsValid box → IsValid (apply_label i l box).1
  unfolding apply_label
  apply_label-IsValid i l box v =
      after_label (λ _. message i >>= attach_to l) l box v
        (λ x known. after_message (attach_to l) i box v (λ m found.
          elim (Bool-cases (carries l m)) [
            | inl carried ↦ rw carried v
            | inr absent ↦ rw absent (
                replace-IsValid (with_label l m) box v (
                  with_label-IsFiled l (keys box.labels) m (known_label l x box known) absent
                    (stored-IsFiled i m box v found)))
          ]))

  remove_label-IsValid :
      (i l : String) (box : Mailbox U) → IsValid box → IsValid (remove_label i l box).1
  unfolding remove_label
  remove_label-IsValid i l box v =
      after_label (λ _. message i >>= λ m. replace (without_label l m)) l box v
        (λ x known.
          edit-IsValid (without_label l) i box v
            (λ m f. without_label-IsFiled l (keys box.labels) (keys box.labels) m (λ a h _. h) f))

  -- Reading a message changes nothing.
  reads : (i : String) (box : Mailbox U) → IsValid box → IsValid (message i box).1
  reads i box v = elim (Option-cases (lookup i box.messages)) [
    | inl missing ↦ rw (message_missing i box missing) v
    | inr (m, found) ↦ rw (message_found i m box found) v
  ]

  sends :
      (fresh : String) (now : ℕ) (d : MailDraft U) (box : Mailbox U)
      → IsValid box
      → IsValid (send fresh now d box).1
  unfolding send record_sent
  sends fresh now d box v = record {
    messages_nodup = v.messages_nodup;
    messages_keyed = v.messages_keyed;
    labels_nodup = v.labels_nodup;
    labels_keyed = v.labels_keyed;
    drafts_nodup = v.drafts_nodup;
    filed = v.filed;
  }

module _ {U : Type 0} ⦃u : Untrusted U⦄ (un : Unicode) where
  delete_label-IsValid :
      (l : String) (box : Mailbox U) → IsValid box → IsValid (delete_label un l box).1
  unfolding delete_label
  delete_label-IsValid l box v = after_label (delete_found un l) l box v (λ x known.
      elim (Bool-cases x.is_system) [
        | inl system ↦ rw system v
        | inr user_made ↦
            rw (user_made, drop_label_lem l box v (ap is_some known)) (dropped-IsValid l box v)
      ])

  create_label-IsValid :
      (name : String) (box : Mailbox U) → IsValid box → IsValid (create_label un name box).1
  unfolding create_label add_label
  create_label-IsValid name box v = elim (Option-cases (label_named un name box)) [
    | inl new ↦ rw new (add_label-IsValid _ box v)
    | inr (l, old) ↦ rw old v
  ]

  reply_with-state :
      {A : Type 0} (f : A → Reply U) (m : Method (Mailbox U) A) (box : Mailbox U)
      → (reply_with f m box).1 ≡ (m box).1
  reply_with-state {A} f m box = go (m box)
    where
      go : (p : Result MailError A × Mailbox U) → (reply_with f (λ (b : Mailbox U). p) box).1 ≡ p.1
      go (ok a, s) = refl
      go (err e, s) = refl

  -- A call of the contract, whether it returns or raises, leaves a mailbox in which the keys of
  -- messages, labels and drafts are unique, messages and labels stand under their own identifiers,
  -- and every label of a message is a label of the mailbox and is carried once, if it found such a
  -- mailbox.
  pub perform-IsValid :
      (call : Call U) (box : Mailbox U) → IsValid box → IsValid (perform un call box).1
  unfolding perform
  perform-IsValid (search_for r) box v = rw reply_with-state (unfold search_mail in v)
  perform-IsValid (get_message i) box v = rw reply_with-state (reads i box v)
  perform-IsValid (get_thread i) box v = rw reply_with-state (unfold thread in v)
  perform-IsValid list_labels box v = v
  perform-IsValid (create_draft fresh d) box v =
      rw reply_with-state (store_draft-IsValid fresh d box v)
  perform-IsValid (send_draft fresh now d) box v = rw reply_with-state (sends fresh now d box v)
  perform-IsValid (mark i b) box v = rw reply_with-state (set_read_state-IsValid i b box v)
  perform-IsValid (archive_message i) box v = rw reply_with-state (archive-IsValid i box v)
  perform-IsValid (attach i l) box v = rw reply_with-state (apply_label-IsValid i l box v)
  perform-IsValid (detach i l) box v = rw reply_with-state (remove_label-IsValid i l box v)
  perform-IsValid (add_named name) box v = rw reply_with-state (create_label-IsValid name box v)
  perform-IsValid (delete l) box v = rw reply_with-state (delete_label-IsValid l box v)
