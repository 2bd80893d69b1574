-- ===== src/Mail/Recipients/Plan.antt =====
-- Whom a reply reaches.
use ai_agents.Prelude.{
  ◌≡◌, refl, ◌∙◌, Bool, true, false, not, ◌&&◌, ◌||◌, List, [], ◌∷◌, ◌++◌, arith, ◌==◌, contains,
  IsNodup, is_nonempty, if◌then◌else◌, contains-append,
}
use mathlib.Core.List.{append-nil}
use ai_agents.Prelude.Exec.{ok, err, and_then}
use ai_agents.Mail.Error.{Checked, no_reply_recipient}
use ai_agents.Mail.Models.{EmailAddress, MailParticipant, MailMessage, address_eq, address_beq_iff}
use ai_agents.Mail.Recipients.{unique, require_recipients, alone, plan}
use ai_agents.Mail.Recipients.Unique.{addresses, contains-unique, unique-IsNodup}

module _ {U : Type 0} (m : MailMessage U) (owner : EmailAddress) (reply_all : Bool) where
  -- Whether an address takes part in the conversation that is answered, and is not the owner's.
  abbrev pub is_candidate : EmailAddress → Bool
  is_candidate a =
      (a == m.sender.address || (reply_all && contains a (addresses (m.to ++ m.cc))))
      && not (a == owner)

  -- What a reply may reach: no address twice, the candidates and nobody else, somebody in `to`.
  pub record IsPlan (to cc : List EmailAddress) : Type 0 where
    pub nodup : IsNodup (to ++ cc)
    pub somebody : is_nonempty to ≡ true
    pub reached : (a : EmailAddress) → contains a (to ++ cc) ≡ is_candidate a

  -- How planning may end.
  abbrev pub IsPlanned : Checked (List EmailAddress × List EmailAddress) → Type 0
  IsPlanned (ok (to, cc)) = IsPlan to cc
  IsPlanned (err e) =
      (e ≡ no_reply_recipient m.message_id) × ((a : EmailAddress) → is_candidate a ≡ false)

-- Disjoint lists without repetition.
pub IsNodup-append :
    (xs ys : List EmailAddress)
    → IsNodup xs
    → IsNodup ys
    → ((a : EmailAddress) → contains a xs ≡ true → contains a ys ≡ false)
    → IsNodup (xs ++ ys)
IsNodup-append [] ys h k apart = k
IsNodup-append (x ∷ xs) ys h k apart = (
  contains-append x xs ys ∙ ground (arith, apart x, address_beq_iff x x),
  IsNodup-append xs ys h.1 k (λ a i. apart a (ground arith)),
)

module _ {U : Type 0} (m : MailMessage U) (owner : EmailAddress) where
  abbrev sender_only : List (MailParticipant U)
  sender_only = m.sender ∷ []

  abbrev primary : List EmailAddress
  primary = unique sender_only (owner ∷ [])

  abbrev others : List EmailAddress
  others = unique (m.to ++ m.cc) (owner ∷ primary)

  -- The choice that `plan` makes once both lists are collected.
  abbrev chosen :
      Bool → List EmailAddress → List EmailAddress → Checked (List EmailAddress × List EmailAddress)
  chosen all ps os =
      if not all
      then and_then (require_recipients ps m) alone
      else if is_nonempty ps
      then ok (ps, os)
      else and_then (require_recipients os m) alone

  -- What the two lists hold, and that they do not meet.
  record IsCollected (ps os : List EmailAddress) : Type 0 where
    ps_nodup : IsNodup ps
    os_nodup : IsNodup os
    in_ps : (a : EmailAddress) → contains a ps ≡ (a == m.sender.address && not (a == owner))
    in_os :
        (a : EmailAddress)
        → contains a os
          ≡ (contains a (addresses (m.to ++ m.cc)) && not (a == owner || contains a ps))

  collected : IsCollected primary others
  collected = record {
    ps_nodup = unique-IsNodup sender_only (owner ∷ []);
    os_nodup = unique-IsNodup (m.to ++ m.cc) (owner ∷ primary);
    in_ps = λ a. contains-unique a sender_only (owner ∷ []) ∙ ground arith;
    in_os = λ a. contains-unique a (m.to ++ m.cc) (owner ∷ primary);
  }

  chosen-IsPlanned :
      (all : Bool) (ps os : List EmailAddress)
      → IsCollected ps os
      → IsPlanned m owner all (chosen all ps os)
  chosen-IsPlanned false [] os c = (refl, λ a. ground (arith, c.in_ps a))
  chosen-IsPlanned false (p ∷ ps) os c = record {
    nodup = rw append-nil c.ps_nodup;
    somebody = refl;
    reached = λ a. rw append-nil (c.in_ps a ∙ ground arith);
  }
  chosen-IsPlanned true (p ∷ ps) os c = record {
    nodup = IsNodup-append (p ∷ ps) os c.ps_nodup c.os_nodup (λ a i. c.in_os a ∙ ground arith);
    somebody = refl;
    reached = λ a. contains-append a (p ∷ ps) os ∙ ground (arith, c.in_ps a, c.in_os a);
  }
  chosen-IsPlanned true [] [] c = (refl, λ a. ground (arith, c.in_ps a, c.in_os a))
  chosen-IsPlanned true [] (o ∷ os) c = record {
    nodup = rw append-nil c.os_nodup;
    somebody = refl;
    reached = λ a. rw append-nil (c.in_os a ∙ ground (arith, c.in_ps a));
  }

  -- A reply reaches every candidate exactly once, in `to` or in `cc`, and nobody else, and `to` is
  -- not empty; if there is no candidate, and only then, planning fails and names the message.
  -- The candidates are the sender and, for a reply to all, the other recipients, without the owner.
  pub plan-IsPlanned : (reply_all : Bool) → IsPlanned m owner reply_all (plan m owner reply_all)
  unfolding plan
  plan-IsPlanned reply_all = chosen-IsPlanned reply_all primary others collected
