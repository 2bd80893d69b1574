-- ===== src/Mail/Models/Thread.antt =====
-- `MailThread` of domain/models.py.
use ai_agents.Prelude.{
  String, not, false, List, [], ◌∷◌, ◌++◌, map, Option, none, some, ◌==◌, string_eq, if◌then◌else◌,
  ltb, select,
}
use ai_agents.Prelude.Exec.{ok, err}
use ai_agents.Prelude.Sort.{sort_by}
use ai_agents.Dict.{Dict, values, set_default}
use ai_agents.Mail.Error.{Checked, invalid, no_messages, foreign_messages}
use ai_agents.Mail.Models.{MailParticipant, MailMessage}

pub record MailThread (U : Type 0) : Type 0 where
  pub thread_id : String
  pub subject : U
  pub messages : List (MailMessage U)

module _ {U : Type 0} where
  -- The identifiers of the messages of another thread.
  abbrev pub foreign : String → List (MailMessage U) → List String
  foreign thread_id ms =
      map (λ (m : MailMessage U). m.message_id)
        (select (λ (m : MailMessage U). not (m.thread_id == thread_id)) ms)

  abbrev require_no_foreign : List String → MailThread U → Checked (MailThread U)
  require_no_foreign [] t = ok t
  require_no_foreign (i ∷ is) t = err (invalid (foreign_messages (i ∷ is) t.thread_id))

  -- `MailThread(...)`: `min_length=1`, then `_validate_consistency`.
  unfoldable pub make_thread : String → U → List (MailMessage U) → Checked (MailThread U)
  make_thread thread_id subject [] = err (invalid no_messages)
  make_thread thread_id subject (m ∷ ms) =
      require_no_foreign (foreign thread_id (m ∷ ms))
        (record { thread_id = thread_id; subject = subject; messages = m ∷ ms })

  abbrev pub see :
      List (MailParticipant U) → Dict String (MailParticipant U) → Dict String (MailParticipant U)
  see [] seen = seen
  see (p ∷ ps) seen = see ps (set_default p.address.value p seen)

  abbrev pub see_messages :
      List (MailMessage U) → Dict String (MailParticipant U) → Dict String (MailParticipant U)
  see_messages [] seen = seen
  see_messages (m ∷ ms) seen = see_messages ms (see (m.sender ∷ m.to ++ m.cc) seen)

  -- `participants`
  unfoldable pub participants : MailThread U → List (MailParticipant U)
  unfolding set_default
  participants t = values (see_messages t.messages [])

  abbrev pub latest_from : MailMessage U → List (MailMessage U) → MailMessage U
  latest_from best [] = best
  latest_from best (m ∷ ms) = latest_from (if ltb best.sent_at m.sent_at then m else best) ms

  abbrev pub latest_of : List (MailMessage U) → Option (MailMessage U)
  latest_of [] = none
  latest_of (m ∷ ms) = some (latest_from m ms)

  -- `max(messages, key=...)`: the first of the latest; `none` is the `ValueError` of no message.
  unfoldable pub latest_message : MailThread U → Option (MailMessage U)
  latest_message t = latest_of t.messages

  unfoldable pub in_chronological_order : MailThread U → List (MailMessage U)
  unfolding sort_by
  in_chronological_order t = sort_by (λ (m : MailMessage U). m.sent_at) false t.messages
