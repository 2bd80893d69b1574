-- ===== src/Mail/Tools/Search.antt =====
-- What a search returns.
use ai_agents.Prelude.{
  ℕ, ◌+◌, select, is_nonempty, ◌≤◌, ◌≡◌, refl, ◌∙◌, ap, Bool, true, false, List, map, arith, ltb,
  take, length, length-take, length-map,
}
use Prim.Native.Nat.{min}
use ai_agents.Prelude.Exec.{ok}
use ai_agents.Prelude.Sort.{sort_by, IsOrdered, sort_by-IsOrdered, sort_by-perm, length-sort_by}
use ai_agents.Text.{Unicode}
use ai_agents.Runtime.{Untrusted}
use ai_agents.Mail.Models.{
  MailMessage, MailHeader, MailSortOrder, newest_first, oldest_first, to_header,
}
use ai_agents.Mail.Matcher.{matches}
use ai_agents.Dict.{values}
use ai_agents.Mail.Models.Search.{MailSearchRequest, MailSearchResult, make_result}
use ai_agents.Mail.Mailbox.{Mailbox, sent_key}
use ai_agents.Mail.Tools.{is_newest_first, matching, found, page, search_mail}
use mathlib.Core.List.{Perm}

ltb-min : (a b : ℕ) → ltb (min a b) b ≡ ltb a b
ltb-min a b = grind arith

-- The check of the result model passes where the headers are no more than the total.
make_result_ok :
    {U : Type 0} (headers : List (MailHeader U)) (total : ℕ) (truncated : Bool)
    → length headers ≤ total
    → make_result headers total truncated
      ≡ ok (record { headers = headers; total_count = total; truncated = truncated })
unfolding make_result
make_result_ok headers total truncated h = ground arith

module _ {U : Type 0} ⦃u : Untrusted U⦄ (un : Unicode) (r : MailSearchRequest)
    (box : Mailbox U) where
  -- The messages of the mailbox that the matcher accepts.
  abbrev pub accepted : List (MailMessage U)
  accepted = select (λ m. matches un m r) (values box.messages)

  -- What the page shows of a message.
  abbrev pub preview : MailMessage U → MailHeader U
  preview m = record {
    message_id = m.message_id;
    thread_id = m.thread_id;
    subject = m.subject;
    sender = m.sender;
    recipient_count = length m.to + length m.cc;
    sent_at = m.sent_at;
    is_read = m.is_read;
    is_archived = m.is_archived;
    has_attachments = is_nonempty m.attachments;
    importance = m.importance;
    label_ids = m.label_ids;
  }

  -- No message stands before one that the order asked for puts before it.
  abbrev pub InOrder : MailSortOrder → List (MailMessage U) → Type 0
  InOrder newest_first s = IsOrdered (λ (m : MailMessage U). m.sent_at) true s
  InOrder oldest_first s = IsOrdered (λ (m : MailMessage U). m.sent_at) false s

  found-InOrder :
      (o : MailSortOrder) (ms : List (MailMessage U))
      → InOrder o (sort_by sent_key (is_newest_first o) ms)
  found-InOrder newest_first ms = sort_by-IsOrdered sent_key true ms
  found-InOrder oldest_first ms = sort_by-IsOrdered sent_key false ms

  -- The first page of the matching messages.
  pub record IsPage (res : MailSearchResult U) : Type 0 where
    pub ranked :
        (s : List (MailMessage U)) × Perm s accepted
        × InOrder r.sort_order s
        × (res.headers ≡ map preview (take r.limit s))
    pub total : res.total_count ≡ length accepted
    pub size : length res.headers ≡ min r.limit (length accepted)
    pub truncated : res.truncated ≡ ltb r.limit (length accepted)

  length-found : length (found un r box) ≡ length (matching un r box)
  length-found = length-sort_by sent_key (is_newest_first r.sort_order) (matching un r box)

  length-page : length (page un r box) ≡ min r.limit (length (matching un r box))
  length-page =
      length-map (take r.limit (found un r box)) to_header
      ∙ length-take r.limit (found un r box)
      ∙ ap (min r.limit) length-found

  abbrev result_page : MailSearchResult U
  result_page = record {
    headers = page un r box;
    total_count = length (found un r box);
    truncated = ltb (length (page un r box)) (length (found un r box));
  }

  -- Every search succeeds and changes nothing: its headers are those of the first `limit` matching
  -- messages in the order asked for, its count that of all matching messages, and it is marked
  -- truncated exactly if there are more than `limit` of them.
  pub search_mail-IsPage :
      (res : MailSearchResult U) × (search_mail un r box ≡ (ok res, box)) × IsPage res
  unfolding search_mail to_header
  search_mail-IsPage = (
    result_page,
    ap (λ x. (x, box))
        (make_result_ok (page un r box) (length (found un r box))
          (ltb (length (page un r box)) (length (found un r box)))
          (omega (arith, length-page, length-found))),
    record {
      ranked = (
        found un r box,
        sort_by-perm sent_key (is_newest_first r.sort_order) (matching un r box),
        found-InOrder r.sort_order (matching un r box),
        refl,
      );
      total = length-found;
      size = length-page;
      truncated =
          ap (λ n. ltb n (length (found un r box))) length-page
          ∙ ap (ltb (min r.limit (length (matching un r box)))) length-found
          ∙ ltb-min r.limit (length (matching un r box));
    },
  )
