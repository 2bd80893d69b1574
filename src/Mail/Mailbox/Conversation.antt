-- ===== src/Mail/Mailbox/Conversation.antt =====
-- `Mailbox.thread`: a conversation, oldest message first.
use ai_agents.Prelude.{
  ◌≡◌, ◌≢◌, refl, ap, String, Bool, true, false, List, [], ◌∷◌, arith, string_eq, Bool-cases, inl,
  inr, select, All, length,
}
use ai_agents.Prelude.Exec.{ok, err}
use ai_agents.Prelude.Sort.{
  sort_by, IsOrdered, sort_by-IsOrdered, sort_by-perm, length-sort_by, All-sort_by,
}
use ai_agents.Dict.{values}
use ai_agents.Mail.Error.{Checked, not_found}
use ai_agents.Mail.Models.{MailMessage}
use ai_agents.Mail.Models.Thread.{MailThread, make_thread, foreign}
use ai_agents.Mail.Mailbox.{Mailbox, sent_key, head_or, thread_of, in_thread, thread}
use mathlib.Core.List.{Perm}

pub All-select : {A : Type 0} (p : A → Bool) (xs : List A) → All (λ x. p x ≡ true) (select p xs)
All-select p [] = tt
All-select p (x ∷ xs) = elim (Bool-cases (p x)) [
  | inl kept ↦ rw kept (kept, All-select p xs)
  | inr out ↦ rw out (All-select p xs)
]

module _ {U : Type 0} (i : String) where
  foreign-none :
      (ms : List (MailMessage U)) → All (λ m. in_thread i m ≡ true) ms → foreign i ms ≡ []
  foreign-none [] h = refl
  foreign-none (m ∷ ms) h = rw h.0 (foreign-none ms h.1)

  pub make_thread_ok :
      (subject : U) (m : MailMessage U) (ms : List (MailMessage U))
      → All (λ x. in_thread i x ≡ true) (m ∷ ms)
      → make_thread i subject (m ∷ ms)
        ≡ ok (record { thread_id = i; subject = subject; messages = m ∷ ms })
  unfolding make_thread
  make_thread_ok subject m ms h = rw (foreign-none (m ∷ ms) h) refl

  -- The messages of a mailbox that belong to the conversation.
  abbrev pub members : Mailbox U → List (MailMessage U)
  members box = select (in_thread i) (values box.messages)

  -- A conversation as it should be: the messages of the mailbox that belong to it, oldest first,
  -- under the subject of the first.
  pub record IsConversation (of : List (MailMessage U)) (t : MailThread U) : Type 0 where
    pub named : t.thread_id ≡ i
    pub all_of_it : Perm t.messages of
    pub ordered : IsOrdered sent_key false t.messages
    pub titled :
        (m : MailMessage U) × (rest : List (MailMessage U)) × (t.messages ≡ m ∷ rest)
        × (t.subject ≡ m.subject)

  abbrev pub IsThread : List (MailMessage U) → Checked (MailThread U) → Type 0
  IsThread of (ok t) = IsConversation of t
  IsThread of (err e) = (of ≡ []) × (e ≡ not_found "thread" i)

  ordered-IsThread :
      (m : MailMessage U) (of sorted : List (MailMessage U))
      → sorted ≢ []
      → All (λ x. in_thread i x ≡ true) sorted
      → Perm sorted of
      → IsOrdered sent_key false sorted
      → IsThread of (make_thread i (head_or m sorted).subject sorted)
  ordered-IsThread m of [] some_ h p o = absurd (some_ refl)
  ordered-IsThread m of (x ∷ xs) some_ h p o =
      rw (make_thread_ok x.subject x xs h)
        (record { named = refl; all_of_it = p; ordered = o; titled = (x, xs, refl, refl) })

  thread_of-IsThread :
      (of : List (MailMessage U))
      → All (λ x. in_thread i x ≡ true) of
      → IsThread of (thread_of i of)
  thread_of-IsThread [] h = (refl, refl)
  thread_of-IsThread (m ∷ ms) h =
      ordered-IsThread m (m ∷ ms) (sort_by sent_key false (m ∷ ms)) nonempty
        (All-sort_by sent_key (λ x. in_thread i x ≡ true) false (m ∷ ms) h)
        (sort_by-perm sent_key false (m ∷ ms)) (sort_by-IsOrdered sent_key false (m ∷ ms))
    where
      nonempty : sort_by sent_key false (m ∷ ms) ≢ []
      nonempty e = absurd (omega (arith, ap length e, length-sort_by sent_key false (m ∷ ms)))

  -- Reading a conversation returns exactly the messages of the mailbox that belong to it, oldest
  -- first, titled by the oldest, and changes nothing; it fails only where no message belongs to it,
  -- and then says so. The checks of the thread model never refuse what the mailbox collects.
  pub thread-IsThread :
      (box : Mailbox U) → IsThread (members box) (thread i box).0 × ((thread i box).1 ≡ box)
  unfolding thread
  thread-IsThread box =
      (thread_of-IsThread (members box) (All-select (in_thread i) (values box.messages)), refl)
