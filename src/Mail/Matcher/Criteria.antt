-- ===== src/Mail/Matcher/Criteria.antt =====
-- What a message satisfies when the matcher accepts it: state, labels, dates, attachments.
use ai_agents.Prelude.{
  ℕ, ◌≤◌, ◌≡◌, ◌↔◌, refl, String, Bool, true, false, not, ◌&&◌, Option, none, some, List, [], ◌∷◌,
  arith, string_eq, if◌then◌else◌, contains, IsSubset, all,
}
use ai_agents.Mail.Models.{MailMessage, address_eq, has_attachments}
use ai_agents.Mail.Models.Search.{MailSearchRequest}
use ai_agents.Mail.Matcher.{matches_metadata, is_before, is_after, attachments_differ}

-- A criterion that is left out holds.
abbrev pub Given : {A : Type 0} → (A → Type 0) → Option A → Type 0
Given P none = Unit
Given P (some a) = P a

all-IsSubset : (xs ys : List String) → (all (λ i. contains i ys) xs ≡ true) ↔ IsSubset xs ys
all-IsSubset [] ys = (λ h. tt, λ h. refl)
all-IsSubset (x ∷ xs) ys = (
  λ h. (ground arith, (all-IsSubset xs ys).0 (ground arith)),
  λ h. ground (arith, h.0, (all-IsSubset xs ys).1 h.1),
)

-- Nested early returns, as the equations of their tests.
returns_true :
    (a b c d e : Bool)
    → ((if a
          then false
          else if not b
          then false
          else if c
          then false
          else if d
          then false
          else not e)
        ≡ true)
      ↔ ((a ≡ false) × (b ≡ true) × (c ≡ false) × (d ≡ false) × (e ≡ false))
returns_true a b c d e = ground arith

module _ {U : Type 0} where
  pub record MeetsMetadata (m : MailMessage U) (r : MailSearchRequest) : Type 0 where
    pub unread : r.unread_only ≡ true → m.is_read ≡ false
    pub labels : IsSubset r.label_ids m.label_ids
    pub from : Given (λ (bound : ℕ). bound ≤ m.sent_at) r.date_from
    pub until : Given (λ (bound : ℕ). m.sent_at ≤ bound) r.date_to
    pub attached : Given (λ (wanted : Bool). has_attachments m ≡ wanted) r.has_attachments

  module _ (m : MailMessage U) where
    before_iff : (o : Option ℕ) → (is_before m o ≡ false) ↔ Given (λ (b : ℕ). b ≤ m.sent_at) o
    before_iff none = (λ h. tt, λ h. refl)
    before_iff (some b) = ground arith

    after_iff : (o : Option ℕ) → (is_after m o ≡ false) ↔ Given (λ (b : ℕ). m.sent_at ≤ b) o
    after_iff none = (λ h. tt, λ h. refl)
    after_iff (some b) = ground arith

    attached_iff :
        (o : Option Bool)
        → (attachments_differ m o ≡ false) ↔ Given (λ (w : Bool). has_attachments m ≡ w) o
    attached_iff none = (λ h. tt, λ h. refl)
    attached_iff (some true) = ground arith
    attached_iff (some false) = ground arith

  -- The metadata part of the matcher accepts a message exactly if it meets every criterion on state,
  -- labels, dates and attachments that the request gives.
  pub matches_metadata_iff :
      (m : MailMessage U) (r : MailSearchRequest)
      → (matches_metadata m r ≡ true) ↔ MeetsMetadata m r
  unfolding matches_metadata
  matches_metadata_iff m r = (
    λ h.
        let e = (tests.0 h) in
        record {
          unread = λ on. ground (arith, e.0, on);
          labels = (all-IsSubset r.label_ids m.label_ids).0 e.1;
          from = (before_iff m r.date_from).0 e.2;
          until = (after_iff m r.date_to).0 e.3;
          attached = (attached_iff m r.has_attachments).0 e.4;
        },
    λ c. tests.1 (
      ground (arith, c.unread),
      (all-IsSubset r.label_ids m.label_ids).1 c.labels,
      (before_iff m r.date_from).1 c.from,
      (after_iff m r.date_to).1 c.until,
      (attached_iff m r.has_attachments).1 c.attached,
    ),
  )
    where
      tests : (matches_metadata m r ≡ true) ↔ (
          ((r.unread_only && m.is_read) ≡ false)
          × (all (λ i. contains i m.label_ids) r.label_ids ≡ true)
          × (is_before m r.date_from ≡ false)
          × (is_after m r.date_to ≡ false)
          × (attachments_differ m r.has_attachments ≡ false))
      tests =
          returns_true (r.unread_only && m.is_read) (all (λ i. contains i m.label_ids) r.label_ids)
            (is_before m r.date_from) (is_after m r.date_to)
            (attachments_differ m r.has_attachments)
