-- ===== src/Mail/Categories.antt =====
-- agents/mail/src/ai_agent_lab/mail/domain/services/categories.py
use ai_agents.Prelude.{
  ◌≡◌, ◌↔◌, refl, ℕ, Bool, true, List, arith, Eq, nat_beq, contains, if◌then◌else◌, sym, ap, ◌∙◌,
  nat_beq_iff,
}
use ai_agents.Prelude.Exec.{ok, err}
use ai_agents.Mail.Error.{Checked, invalid, fallback_not_offered}
use ai_agents.Mail.Models.{
  MailCategory, important, action_required, fyi, newsletter, personal, financial, project, other,
}

-- The members of an enumeration are compared by identity.
abbrev rank : MailCategory → ℕ
rank important = 0
rank action_required = 1
rank fyi = 2
rank newsletter = 3
rank personal = 4
rank financial = 5
rank project = 6
rank other = 7

abbrev at_rank : ℕ → MailCategory
at_rank n =
    if nat_beq n 0
    then important
    else if nat_beq n 1
    then action_required
    else if nat_beq n 2
    then fyi
    else if nat_beq n 3
    then newsletter
    else if nat_beq n 4
    then personal
    else if nat_beq n 5
    then financial
    else if nat_beq n 6
    then project
    else other

at_rank-rank : (c : MailCategory) → at_rank (rank c) ≡ c
at_rank-rank important = refl
at_rank-rank _ = refl

pub category_beq_iff : (a b : MailCategory) → (nat_beq (rank a) (rank b) ≡ true) ↔ (a ≡ b)
category_beq_iff a b = (
  λ h. sym (at_rank-rank a) ∙ ap at_rank ((nat_beq_iff (rank a) (rank b)).0 h) ∙ at_rank-rank b,
  λ same. (nat_beq_iff (rank a) (rank b)).1 (ap rank same),
)

instance abbrev pub category_eq : Eq MailCategory
category_eq = record { beq = λ a b. nat_beq (rank a) (rank b); beq_iff = category_beq_iff }

pub record MailCategories : Type 0 where
  pub categories : List MailCategory
  pub fallback : MailCategory

-- `__init__`
unfoldable pub make_categories : List MailCategory → MailCategory → Checked MailCategories
make_categories categories fallback =
    if contains fallback categories
    then ok (record { categories = categories; fallback = fallback })
    else err (invalid fallback_not_offered)

-- `MailCategories.contains`
unfoldable pub is_offered : MailCategories → MailCategory → Bool
is_offered cs category = contains category cs.categories

unfoldable pub normalise : MailCategories → MailCategory → MailCategory
unfolding is_offered
normalise cs category = if is_offered cs category then category else cs.fallback

module _ (offered : List MailCategory) (fallback : MailCategory) {cs : MailCategories}
    (made : make_categories offered fallback ≡ ok cs) where
  -- In a catalogue that its constructor accepted, a normalised category is one of those it was
  -- given, an offered category is kept, any other becomes the fallback.
  pub normalise_lem :
      (c : MailCategory)
      → (contains (normalise cs c) offered ≡ true)
        × (normalise cs c ≡ (if contains c offered then c else fallback))
  unfolding make_categories normalise
  normalise_lem c = ground arith
