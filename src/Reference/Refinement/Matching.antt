-- ===== src/Reference/Refinement/Matching.antt =====
-- A search of the reference server finds what the in-memory tools find.
use ai_agents.Prelude.{
  ◌≡◌, refl, sym, ap, ◌∙◌, ℕ, String, Bool, false, not, Option, none, some, List, [], ◌∷◌, ◌++◌,
  map, ◌==◌, string_eq, select, take, any, length, length-map, length-take, ltb, arith, is_nonempty,
}
use ai_agents.Prelude.Naturality.{take-map, map-append, select-map, any-map, sort_by-map}
use ai_agents.Prelude.Exec.{ok}
use ai_agents.Prelude.Sort.{sort_by}
use ai_agents.Dict.{values}
use ai_agents.Dict.Mapping.{values-map_entries, map_option}
use ai_agents.Text.{Unicode}
use ai_agents.Runtime.{Untrusted}
use ai_agents.Mail.Models.{
  EmailAddress, MailParticipant, MailMessage, MailSortOrder, address_eq, has_attachments, to_header,
}
use ai_agents.Mail.Models as Domain
use ai_agents.Mail.Models.Search.{MailSearchRequest, make_result}
use ai_agents.Mail.Matcher.{
  matches, matches_envelope, matches_metadata, matches_sender, matches_recipient, matches_subject,
  matches_keywords, contains_keywords, is_before, is_after, attachments_differ,
}
use ai_agents.Mail.Mailbox as M
use ai_agents.Mail.Tools.{matching, found, page, search_mail}
use ai_agents.Mail.Tools as T
use ai_agents.Wire.{Header, Message, Participant, newest_first, oldest_first, SortOrder}
use ai_agents.Wire.Mapping.{message}
use ai_agents.Client.{asked, address_text, order_text}
use ai_agents.Wire.Fencing.{
  IsCleanMessage, message_ok, ok_unique, address_as, fenced_attachment, fenced_participant,
  fenced_message, fenced_header, fenced_result,
}
use ai_agents.Reference.Query as Q
use ai_agents.Reference.Query.{Query, Search, satisfies}
use ai_agents.Reference as R
use ai_agents.Reference.{InMemoryMailbox, search, header_of, ordered_matches}
use ai_agents.Reference.Refinement.{view, shown, request_as, order_as}

is_nonempty-map : {A B : Type 0} (f : A → B) (xs : List A) → is_nonempty (map f xs) ≡ is_nonempty xs
is_nonempty-map f [] = refl
is_nonempty-map f (x ∷ xs) = refl

module _ (U : Type 0) ⦃u : Untrusted U⦄ (un : Unicode) where
  sender_lem :
      (o : Option String) (m : Message)
      → not (matches_sender {U = U} un (map_option address_as o) (fenced_message m))
        ≡ Q.other_sender o m
  unfolding fenced_message
  sender_lem none m = refl
  sender_lem (some a) m = refl

  recipient_lem :
      (o : Option String) (m : Message)
      → not (matches_recipient {U = U} un (map_option address_as o) (fenced_message m))
        ≡ Q.no_recipient o m
  unfolding fenced_message
  recipient_lem none m = refl
  recipient_lem (some a) m = ap not (
      ap (any (λ (p : MailParticipant U). p.address == address_as a))
        (sym (map-append fenced_participant m.to m.cc))
      ∙ any-map fenced_participant _ (λ (p : Participant). p.address == a) (λ p. refl)
          (m.to ++ m.cc))

  subject_lem :
      (o : Option String) (m : Message)
      → not (matches_subject {U = U} un o (fenced_message m)) ≡ Q.other_subject un o m
  unfolding fenced_message
  subject_lem none m = refl
  subject_lem (some s) m = rw (u.expose-untrusted m.subject ("mail", "subject")) (ground arith)

  keywords_lem :
      (o : Option String) (m : Message)
      → matches_keywords {U = U} un o (fenced_message m) ≡ not (Q.lacks_keywords un o m)
  unfolding fenced_message contains_keywords Q.contains_keywords
  keywords_lem none m = refl
  keywords_lem (some s) m =
      rw
        (
          u.expose-untrusted m.subject ("mail", "subject"),
          u.expose-untrusted m.body ("mail", "body"),
        )
        (ground arith)

  envelope_lem :
      (s : Search) (m : Message)
      → matches_envelope {U = U} un (fenced_message m) (request_as s)
        ≡ Q.matches_envelope un s.query m
  unfolding matches_envelope Q.matches_envelope
  envelope_lem s m =
      rw
        (
          sender_lem s.query.sender m,
          recipient_lem s.query.recipient m,
          subject_lem s.query.subject_contains m,
          keywords_lem s.query.keywords m,
        )
        refl

  early_lem :
      (o : Option ℕ) (m : Message) → is_before {U = U} (fenced_message m) o ≡ Q.too_early m o
  unfolding fenced_message
  early_lem none m = refl
  early_lem (some b) m = refl

  late_lem : (o : Option ℕ) (m : Message) → is_after {U = U} (fenced_message m) o ≡ Q.too_late m o
  unfolding fenced_message
  late_lem none m = refl
  late_lem (some b) m = refl

  has_attachments_lem :
      (m : Message) → has_attachments {U = U} (fenced_message m) ≡ is_nonempty m.attachments
  unfolding fenced_message
  has_attachments_lem m = is_nonempty-map fenced_attachment m.attachments

  attachments_lem :
      (o : Option Bool) (m : Message)
      → attachments_differ {U = U} (fenced_message m) o ≡ Q.other_attachments m o
  attachments_lem none m = refl
  attachments_lem (some wanted) m = rw (has_attachments_lem m) refl

  metadata_lem :
      (s : Search) (m : Message)
      → matches_metadata {U = U} (fenced_message m) (request_as s) ≡ Q.matches_metadata s.query m
  unfolding matches_metadata Q.matches_metadata fenced_message
  metadata_lem s m =
      rw
        (
          early_lem s.query.date_from m,
          late_lem s.query.date_to m,
          attachments_lem s.query.has_attachments m,
        )
        refl

  matches_lem :
      (s : Search) (m : Message)
      → matches {U = U} un (fenced_message m) (request_as s) ≡ satisfies un s.query m
  unfolding matches satisfies
  matches_lem s m = rw (envelope_lem s m, metadata_lem s m) refl

  address_lem : (o : Option EmailAddress) → map_option address_as (address_text o) ≡ o
  address_lem none = refl
  address_lem (some a) = refl

  order_lem : (o : MailSortOrder) → order_as (order_text o) ≡ o
  order_lem Domain.newest_first = refl
  order_lem Domain.oldest_first = refl

  asked_lem : (r : MailSearchRequest) → request_as (asked r) ≡ r
  unfolding asked
  asked_lem r = rw (address_lem r.sender, address_lem r.recipient, order_lem r.sort_order) refl

  -- Of a message whose addresses are valid and in normal form and whose date carries a time zone, let
  -- the agent's mapper make the agent's model. The server's query, for the arguments that the client
  -- sends of a request, accepts the message exactly if the agent's matcher accepts the model for the
  -- request.
  pub matches-eq-satisfies :
      (r : MailSearchRequest) (m : Message) (m' : MailMessage U)
      → IsCleanMessage un m
      → message un m ≡ ok m'
      → matches un m' r ≡ satisfies un (asked r).query m
  matches-eq-satisfies r m m' clean mapped =
      ap (λ x. matches un x r) (ok_unique (message un m) mapped (message_ok un m clean))
      ∙ ap (matches un (fenced_message m)) (sym (asked_lem r))
      ∙ matches_lem (asked r) m

  newest_lem : (o : SortOrder) → T.is_newest_first (order_as o) ≡ R.is_newest_first o
  newest_lem newest_first = refl
  newest_lem oldest_first = refl

  sent_lem : (m : Message) → M.sent_key {U = U} (fenced_message m) ≡ R.sent_key m
  unfolding fenced_message
  sent_lem m = refl

  found_lem :
      (owner : String) (s : Search) (box : InMemoryMailbox)
      → found {U = U} un (request_as s) (view owner box)
        ≡ map fenced_message (ordered_matches un s box)
  found_lem owner s box =
      rw (newest_lem s.sort_order, values-map_entries fenced_message box.messages)
        (ap (sort_by M.sent_key (R.is_newest_first s.sort_order)) (
            select-map fenced_message _ (satisfies un s.query) (matches_lem s)
              (values box.messages))
          ∙ sort_by-map fenced_message M.sent_key R.sent_key sent_lem
              (R.is_newest_first s.sort_order)
              (select (satisfies un s.query) (values box.messages)))

  header_lem : (m : Message) → to_header {U = U} (fenced_message m) ≡ fenced_header (header_of m)
  unfolding fenced_message fenced_header to_header header_of
  header_lem m =
      rw
        (
          has_attachments_lem m,
          length-map m.to (fenced_participant {U = U}),
          length-map m.cc (fenced_participant {U = U}),
        )
        refl

  headers_lem :
      (ms : List Message)
      → map to_header (map (fenced_message {U = U}) ms) ≡ map fenced_header (map header_of ms)
  headers_lem [] = refl
  headers_lem (m ∷ ms) = rw (header_lem m, headers_lem ms) refl

  -- A result whose total is not smaller than the number of its headers is accepted.
  made_of :
      (headers : List Header) (total : ℕ) (truncated : Bool)
      → ltb total (length headers) ≡ false
      → make_result (map (fenced_header {U = U}) headers) total truncated
        ≡ ok (
            fenced_result
              (record { headers = headers; total_count = total; truncated = truncated }))
  unfolding make_result fenced_result
  made_of headers total truncated h = rw (length-map headers (fenced_header {U = U}), h) refl

  page_fits :
      (n : ℕ) (ms : List Message) → ltb (length ms) (length (map header_of (take n ms))) ≡ false
  page_fits n ms = rw (length-map (take n ms) header_of, length-take n ms) (ground arith)

  -- A search of the reference server answers with the headers, the total and the truncation that a
  -- search of the in-memory tools returns on the mailbox that the server's one is shown as, and
  -- never fails.
  pub search-refines :
      (owner : String) (s : Search) (box : InMemoryMailbox)
      → search_mail {U = U} un (request_as s) (view owner box)
        ≡ shown fenced_result owner (search un s box)
  unfolding search_mail search
  search-refines owner s box =
      let ms = ordered_matches un s box in
      rw
        (
          found_lem owner s box,
          take-map (fenced_message {U = U}) s.limit ms,
          headers_lem (take s.limit ms),
          length-map ms (fenced_message {U = U}),
          length-map (map header_of (take s.limit ms)) (fenced_header {U = U}),
        )
        (ap (λ r. (r, view owner box)) (made_of _ _ _ (page_fits s.limit ms)))
