-- ===== src/Drafts.antt =====
-- The stores of prepared drafts: agents/mail/src/ai_agent_lab/mail/infrastructure/inmemory/draft_store.py and
-- agents/wiki/src/ai_agent_lab/wiki/infrastructure/inmemory/draft_store.py, which differ in the drafts that
-- they keep and in the prefix of a reference.
mod Tests
use ai_agents.Prelude.{
  ◌≡◌, refl, sym, ◌∙◌, ap, String, Bool, true, false, not, ◌&&◌, Option, none, some, List, [], ◌∷◌,
  arith, ◌==◌, string_eq, pair_eq, if◌then◌else◌, Bool-cases, inl, inr, all, eq_iff,
}
use ai_agents.Prelude.Exec.{Result, ok, err}
use ai_agents.Dict.{Dict, lookup, insert, lookup-insert}
use ai_agents.Text.{concat}

-- `DraftNotFoundError` and `WikiDraftNotFoundError`
pub data DraftError : Type 0 where
  draft_not_found : String → DraftError

abbrev pub DraftStore : Type 0 → Type 0
DraftStore D = Dict (String × String) D

abbrev pub same_key : String × String → String × String → Bool
same_key a b = a == b

same_key_refl : (a : String × String) → same_key a a ≡ true
same_key_refl (u, r) = ground (arith, eq_iff u u, eq_iff r r)

-- The reference of a draft: `fresh` is `uuid4().hex[:12]`.
abbrev pub mail_reference : String → String
mail_reference fresh = concat ("draft-" ∷ fresh ∷ [])

abbrev pub wiki_reference : String → String
wiki_reference fresh = concat ("wiki-draft-" ∷ fresh ∷ [])

module _ {D : Type 0} (reference_of : String → String) where
  -- `put`: the reference, and the store with the draft.
  unfoldable pub put : String → D → String → DraftStore D → String × DraftStore D
  unfolding insert
  put fresh draft user_id drafts =
      let reference = reference_of fresh in (reference, insert (user_id, reference) draft drafts)

module _ {D : Type 0} where
  abbrev or_unknown : String → Option D → Result DraftError D
  or_unknown reference none = err (draft_not_found reference)
  or_unknown reference (some draft) = ok draft

  -- `get`
  unfoldable pub get : String → String → DraftStore D → Result DraftError D
  unfolding lookup
  get reference user_id drafts = or_unknown reference (lookup (user_id, reference) drafts)

module _ {D : Type 0} (reference_of : String → String) where
  -- The store after several `put`s, each by a user.
  abbrev pub put_all : List (String × (String × D)) → DraftStore D → DraftStore D
  put_all [] drafts = drafts
  put_all ((user, (fresh, draft)) ∷ puts) drafts =
      put_all puts (put reference_of fresh draft user drafts).1

  get-put :
      (fresh : String) (draft : D) (user : String) (drafts : DraftStore D)
      (reference user' : String)
      → get reference user' (put reference_of fresh draft user drafts).1 ≡ (
          if same_key (user', reference) (user, reference_of fresh)
          then ok draft
          else get reference user' drafts)
  unfolding get put
  get-put fresh draft user drafts reference user' =
      ap (or_unknown reference)
        (lookup-insert (user, reference_of fresh) (user', reference) draft drafts)
      ∙ pushed (same_key (user', reference) (user, reference_of fresh))
    where
      pushed :
          (b : Bool)
          → or_unknown reference (if b then some draft else lookup (user', reference) drafts)
            ≡ (if b then ok draft else or_unknown reference (lookup (user', reference) drafts))
      pushed true = refl
      pushed false = refl

  abbrev pub is_other : String → String → String × (String × D) → Bool
  is_other user reference (user', (fresh, draft)) =
      not (same_key (user, reference) (user', reference_of fresh))

  undisturbed :
      (puts : List (String × (String × D))) (user reference : String) (drafts : DraftStore D)
      → all (is_other user reference) puts ≡ true
      → get reference user (put_all puts drafts) ≡ get reference user drafts
  undisturbed [] user reference drafts h = refl
  undisturbed ((user', (fresh, draft)) ∷ puts) user reference drafts h =
      undisturbed puts user reference (put reference_of fresh draft user' drafts).1
        (ground (arith, h))
      ∙ get-put fresh draft user' drafts reference user
      ∙ rw (missed (same_key (user, reference) (user', reference_of fresh)) (ground (arith, h)))
          refl
    where
      missed : (b : Bool) → not b ≡ true → b ≡ false
      missed true k = absurd (ground (arith, k))
      missed false k = refl

  -- A draft is redeemed by the user who stored it, with the reference that storing it returned,
  -- whatever is stored in between, as long as that user is given no equal reference; and another
  -- user who is given no equal reference either gets with it what that user got before.
  pub get-put_all :
      (fresh : String) (draft : D) (user : String) (puts : List (String × (String × D)))
      (drafts : DraftStore D)
      → all (is_other user (reference_of fresh)) puts ≡ true
      → (other : String) → (other == user) ≡ false
      → all (is_other other (reference_of fresh)) puts ≡ true
      → (get
            (put reference_of fresh draft user drafts).0
            user
            (put_all puts (put reference_of fresh draft user drafts).1)
          ≡ ok draft)
        × (get
              (put reference_of fresh draft user drafts).0
              other
              (put_all puts (put reference_of fresh draft user drafts).1)
            ≡ get (reference_of fresh) other drafts)
  unfolding put
  get-put_all fresh draft user puts drafts own other different none_his = (
    undisturbed puts user (reference_of fresh) (put reference_of fresh draft user drafts).1 own
        ∙ get-put fresh draft user drafts (reference_of fresh) user
        ∙ rw (same_key_refl (user, reference_of fresh)) refl,
    undisturbed puts other (reference_of fresh) (put reference_of fresh draft user drafts).1
          none_his
        ∙ get-put fresh draft user drafts (reference_of fresh) other
        ∙ rw different refl,
  )
