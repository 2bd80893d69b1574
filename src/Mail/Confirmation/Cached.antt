-- ===== src/Mail/Confirmation/Cached.antt =====
-- What the resolver remembers.
use ai_agents.Prelude.{
  ◌≡◌, ◌≤◌, ◌⊎◌, inl, inr, refl, ap, String, Option, none, some, List, [], ◌∷◌, leb, leb→le, ◌==◌,
  string_eq, Bool-cases, arith,
}
use ai_agents.Prelude.Exec.{Result, ok, err}
use ai_agents.Dict.{Dict, lookup, insert}
use ai_agents.Dict.Values.{EachEntry, EachEntry-insert}
use ai_agents.Text.{join, split}
use Prim.Native.String.{◌++◌ as str_append}
use ai_agents.Text.Find.{size}
use ai_agents.Text.Slice.{keep, size-keep, size-append}
use ai_agents.Drafts.{DraftStore, DraftError, get, draft_not_found}
use ai_agents.Runtime.{Untrusted}
use ai_agents.Mail.Models.{MailMessage, MailDraft}
use ai_agents.Mail.Operations.{
  MailToolName, send_mail, mark_read, archive_mail, apply_label, remove_label, create_label,
  delete_label, tool_named,
}
use ai_agents.Mail.Confirmation.{
  Arguments, with_draft, named_label, present, present_tool, present_all, present_send,
  present_housekeeping, present_creation, present_deletion, required_text,
}
use ai_agents.Mail.Confirmation.Subjects.{
  MailSubject, subject_limit, shortened, Reads, Resolver, subject_of, describe, known_or_read,
  describe_message, listed_names, cached_or_listed, label_names, label_name,
}

with_ellipsis : (t : String) → size t ≤ 79 → size (str_append t "…") ≤ subject_limit
unfolding size
with_ellipsis t h = omega (arith, size-append t "…")

-- A shortened subject has at most 80 characters.
size-shortened : (s : String) → size (shortened s) ≤ subject_limit
unfolding shortened
size-shortened s = elim (Bool-cases (leb (size (join " " (split s))) subject_limit)) [
  | inl short ↦ rw short (leb→le (size (join " " (split s))) subject_limit short)
  | inr long ↦
      rw long (with_ellipsis (keep 79 (join " " (split s))) (size-keep 79 (join " " (split s))))
]

abbrev pub IsShort : Option MailSubject → Type 0
IsShort none = Unit
IsShort (some d) = size d.subject ≤ subject_limit

module _ {U : Type 0} ⦃u : Untrusted U⦄ (reads : Reads U) where
  -- The labels were never listed, or once, and then that listing is what is remembered.
  abbrev pub IsListed : Resolver → Type 0
  IsListed r =
      ((r.labels ≡ none) × (r.listings ≡ 0))
      ⊎ ((r.labels ≡ some (listed_names reads (reads.labels_at 0))) × (r.listings ≡ 1))

  pub record IsCached (r : Resolver) : Type 0 where
    pub short : EachEntry (λ i d. IsShort d) r.messages
    pub listed : IsListed r

  subject_of-IsShort : (o : Option (MailMessage U)) → IsShort (subject_of reads o)
  subject_of-IsShort none = tt
  subject_of-IsShort (some m) = size-shortened (u.expose m.subject)

  describe-IsCached :
      (i : String) (r : Resolver)
      → IsCached r
      → IsCached (describe reads i r).1 × IsShort (describe reads i r).0
  unfolding describe
  describe-IsCached i r v = elim (Bool-cases (i == "")) [
    | inl blank ↦ rw blank (v, tt)
    | inr named ↦ rw named (
      record { short = v.short; listed = v.listed },
      subject_of-IsShort (reads.message_at r.readings i),
    )
  ]

  known_or_read-IsCached :
      (i : String) (o : Option (Option MailSubject)) (r : Resolver)
      → IsCached r
      → IsCached (known_or_read reads i o r).1
  unfolding insert
  known_or_read-IsCached i (some d) r v = v
  known_or_read-IsCached i none r v =
      let (v', short) = describe-IsCached i r v in
      record {
        short = EachEntry-insert (λ i d. IsShort d) i _ _ short v'.short;
        listed = v'.listed;
      }

  describe_message-IsCached :
      (i : String) (r : Resolver) → IsCached r → IsCached (describe_message reads i r).1
  unfolding describe_message
  describe_message-IsCached i r v = known_or_read-IsCached i (lookup i r.messages) r v

  first_listing :
      (r : Resolver) → r.labels ≡ none → IsListed r → IsListed (cached_or_listed reads none r).1
  first_listing r e (inl (h, zero_times)) = inr (
    ap (λ n. some (listed_names reads (reads.labels_at n))) zero_times,
    omega (arith, zero_times),
  )
  first_listing r e (inr (h, once)) = absurd cc

  cached_or_listed-IsCached :
      (o : Option (Dict String String)) (r : Resolver)
      → r.labels ≡ o
      → IsCached r
      → IsCached (cached_or_listed reads o r).1
  cached_or_listed-IsCached (some names) r e v = v
  cached_or_listed-IsCached none r e v = record {
    short = v.short;
    listed = first_listing r e v.listed;
  }

  label_name-IsCached : (l : String) (r : Resolver) → IsCached r → IsCached (label_name reads l r).1
  unfolding label_name label_names
  label_name-IsCached l r v = cached_or_listed-IsCached r.labels r refl v

  listed_lem :
      (o : Option (Dict String String)) (r : Resolver)
      → r.labels ≡ o
      → IsListed r
      → (cached_or_listed reads o r).0 ≡ listed_names reads (reads.labels_at 0)
  listed_lem none r e (inl (h, zero_times)) =
      ap (λ n. listed_names reads (reads.labels_at n)) zero_times
  listed_lem none r e (inr (h, once)) = absurd cc
  listed_lem (some names) r e (inl (h, zero_times)) = absurd cc
  listed_lem (some names) r e (inr (h, once)) = ground (arith, e, h)

  label_name_lem :
      (l : String) (r : Resolver)
      → IsCached r
      → (label_name reads l r).0 ≡ lookup l (listed_names reads (reads.labels_at 0))
  unfolding label_name label_names
  label_name_lem l r v = ap (lookup l) (listed_lem r.labels r refl v.listed)

  named_label-IsCached :
      (o : Option String) (r : Resolver) → IsCached r → IsCached (named_label reads o r).1
  named_label-IsCached none r v = v
  named_label-IsCached (some l) r v = label_name-IsCached l r v

  present_housekeeping-IsCached :
      (t : MailToolName) (arguments : Arguments) (r : Resolver)
      → IsCached r
      → IsCached (present_housekeeping reads t arguments r).1
  unfolding present_housekeeping
  present_housekeeping-IsCached t arguments r v =
      named_label-IsCached _ _ (describe_message-IsCached _ r v)

  with_draft-IsCached :
      (reference : String) (found : Result DraftError (MailDraft U)) (r : Resolver)
      → IsCached r
      → IsCached (with_draft reference found r).1
  unfolding with_draft
  with_draft-IsCached reference (ok d) r v = v
  with_draft-IsCached reference (err (draft_not_found missing)) r v = v

  present_deletion-IsCached :
      (arguments : Arguments) (r : Resolver)
      → IsCached r
      → IsCached (present_deletion reads arguments r).1
  unfolding present_deletion
  present_deletion-IsCached arguments r v =
      label_name-IsCached (required_text (lookup "label_id" arguments)) r v

  module _ (drafts : DraftStore (MailDraft U)) (user_id : String) where
    present_tool-IsCached :
        (name : String) (o : Option MailToolName) (arguments : Arguments) (r : Resolver)
        → IsCached r
        → IsCached (present_tool reads drafts user_id name o arguments r).1
    unfolding present_creation present_send
    present_tool-IsCached name (some send_mail) arguments r v =
        with_draft-IsCached _ (get _ user_id drafts) r v
    present_tool-IsCached name (some mark_read) arguments r v =
        present_housekeeping-IsCached mark_read arguments r v
    present_tool-IsCached name (some archive_mail) arguments r v =
        present_housekeeping-IsCached archive_mail arguments r v
    present_tool-IsCached name (some apply_label) arguments r v =
        present_housekeeping-IsCached apply_label arguments r v
    present_tool-IsCached name (some remove_label) arguments r v =
        present_housekeeping-IsCached remove_label arguments r v
    present_tool-IsCached name (some create_label) arguments r v = v
    present_tool-IsCached name (some delete_label) arguments r v =
        present_deletion-IsCached arguments r v
    present_tool-IsCached name _ arguments r v = v

    present_all_keeps :
        (calls : List (String × Arguments)) (r : Resolver)
        → IsCached r
        → IsCached (present_all reads drafts user_id calls r)
    unfolding present
    present_all_keeps [] r v = v
    present_all_keeps ((name, arguments) ∷ calls) r v =
        present_all_keeps calls (present reads drafts user_id name arguments r).1
          (present_tool-IsCached name (tool_named name) arguments r v)

    -- However many suspended calls are presented one after the other, starting from a resolver that
    -- has listed the labels at most once, the labels of the mailbox are listed at most once in all,
    -- every remembered subject has at most 80 characters, and the name that the resolver then gives a
    -- label is the one that the first listing gives it, if any.
    pub present_all-IsCached :
        (calls : List (String × Arguments)) (r : Resolver)
        → IsCached r
        → IsCached (present_all reads drafts user_id calls r)
          × ((l : String)
              → (label_name reads l (present_all reads drafts user_id calls r)).0
                ≡ lookup l (listed_names reads (reads.labels_at 0)))
    present_all-IsCached calls r v =
        let after = present_all_keeps calls r v in
        (after, λ l. label_name_lem l (present_all reads drafts user_id calls r) after)
