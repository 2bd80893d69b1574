-- ===== src/Wiki/Freshness.antt =====
-- `PageFreshnessDetector` of agents/wiki/src/ai_agent_lab/wiki/application/skills/freshness_skill.py. A
-- datetime is its number of microseconds in UTC; `now` is what the injected clock answers.
use ai_agents.Prelude.{
  ℕ, ◌+◌, ◌-◌, ◌*◌, ◌/◌, ◌≤◌, ◌<◌, ◌≡◌, ◌↔◌, refl, String, true, false, List, arith, ltb, leb,
  leb→le, if◌then◌else◌, Bool-cases, inl, inr,
}
use ai_agents.Prelude.Exec.{Result, ok, err}
use ai_agents.Prelude.Sort.{sort_by, sort_by-perm, sort_by-IsOrdered, IsOrdered}
use mathlib.Core.List.{Perm}
use ai_agents.Wiki.Models.{WikiPage, WikiPageReference, to_reference}

pub data WikiFreshness : Type 0 where
  fresh ageing stale : WikiFreshness

pub record WikiPageFreshness (U : Type 0) : Type 0 where
  pub page_id : String
  pub title : U
  pub freshness : WikiFreshness
  pub days_since_change : ℕ
  pub last_modified_at : ℕ
  pub version : ℕ

pub record WikiFreshnessReport (U : Type 0) : Type 0 where
  pub pages : List (WikiPageFreshness U)
  pub assessed_at : ℕ

pub record PageFreshnessDetector : Type 0 where
  pub ageing_after_days : ℕ
  pub stale_after_days : ℕ

-- `ValueError` of `__init__`.
pub data BadThreshold : Type 0 where
  ageing_before_it_exists stale_before_ageing : BadThreshold

-- `PageFreshnessDetector.__init__`
unfoldable pub make_detector : ℕ → ℕ → Result BadThreshold PageFreshnessDetector
make_detector ageing_after stale_after =
    if ltb ageing_after 1
    then err ageing_before_it_exists
    else if leb stale_after ageing_after
    then err stale_before_ageing
    else ok (record { ageing_after_days = ageing_after; stale_after_days = stale_after })

abbrev pub day : ℕ
day = 86400000000

-- `_days_since`: `timedelta.days` rounds down, so it is negative before the moment.
unfoldable pub days_since : ℕ → ℕ → ℕ
days_since now moment = if ltb now moment then 0 else (now - moment) / day

-- `_freshness`
unfoldable pub freshness_of : PageFreshnessDetector → ℕ → WikiFreshness
freshness_of d days =
    if leb d.stale_after_days days
    then stale
    else if leb d.ageing_after_days days
    then ageing
    else fresh

module _ {U : Type 0} where
  -- `judge`. Its facts are those of a page or a reference, whose model has checked them, so the
  -- result's model accepts them too.
  unfoldable pub judge : PageFreshnessDetector → ℕ → String → U → ℕ → ℕ → WikiPageFreshness U
  unfolding days_since freshness_of
  judge d now page_id title last_modified_at version = record {
    page_id = page_id;
    title = title;
    freshness = freshness_of d (days_since now last_modified_at);
    days_since_change = days_since now last_modified_at;
    last_modified_at = last_modified_at;
    version = version;
  }

  -- `assess`
  unfoldable pub assess : PageFreshnessDetector → ℕ → WikiPage U → WikiPageFreshness U
  unfolding judge
  assess d now p = judge d now p.page_id p.title p.last_modified_at p.version

  -- `assess_reference`
  unfoldable pub assess_reference :
      PageFreshnessDetector → ℕ → WikiPageReference U → WikiPageFreshness U
  unfolding judge
  assess_reference d now r = judge d now r.page_id r.title r.last_modified_at r.version

  abbrev pub age_key : WikiPageFreshness U → ℕ
  age_key f = f.days_since_change

  -- `report`
  unfoldable pub report : ℕ → List (WikiPageFreshness U) → WikiFreshnessReport U
  report now assessed = record { pages = sort_by age_key true assessed; assessed_at = now }

-- Whole days are counted exactly: at least `n` of them, for a positive `n`, if and only if `n` days
-- have passed.
days_since_iff : (now moment n : ℕ) → 1 ≤ n → (n ≤ days_since now moment) ↔ (moment + n * day ≤ now)
unfolding days_since
days_since_iff now moment n positive = ground arith

-- The dates between which a page is judged so.
abbrev pub IsJudged : PageFreshnessDetector → ℕ → ℕ → WikiFreshness → Type 0
IsJudged d now moment stale = moment + d.stale_after_days * day ≤ now
IsJudged d now moment ageing =
    (moment + d.ageing_after_days * day ≤ now) × (now < moment + d.stale_after_days * day)
IsJudged d now moment fresh = now < moment + d.ageing_after_days * day

made_thresholds :
    (a s : ℕ) (d : PageFreshnessDetector)
    → make_detector a s ≡ ok d
    → (1 ≤ d.ageing_after_days) × (d.ageing_after_days < d.stale_after_days)
unfolding make_detector
made_thresholds a s d made = ground (arith, made)

freshness_of-IsJudged :
    (d : PageFreshnessDetector) (now moment : ℕ)
    → 1 ≤ d.ageing_after_days
    → d.ageing_after_days < d.stale_after_days
    → IsJudged d now moment (freshness_of d (days_since now moment))
unfolding freshness_of
freshness_of-IsJudged d now moment positive apart =
    elim (Bool-cases (leb d.stale_after_days (days_since now moment))) [
      | inl old ↦ rw old (by_stale.0 (leb→le d.stale_after_days (days_since now moment) old))
      | inr not_stale ↦ elim (Bool-cases (leb d.ageing_after_days (days_since now moment))) [
        | inl older ↦
            rw (not_stale, older)
              (
                by_ageing.0 (leb→le d.ageing_after_days (days_since now moment) older),
                not_yet d.stale_after_days by_stale not_stale,
              )
        | inr young ↦ rw (not_stale, young) (not_yet d.ageing_after_days by_ageing young)
      ]
    ]
  where
    by_stale :
        (d.stale_after_days ≤ days_since now moment) ↔ (moment + d.stale_after_days * day ≤ now)
    by_stale = days_since_iff now moment d.stale_after_days (omega (arith, positive, apart))

    by_ageing :
        (d.ageing_after_days ≤ days_since now moment) ↔ (moment + d.ageing_after_days * day ≤ now)
    by_ageing = days_since_iff now moment d.ageing_after_days positive

    not_yet :
        (n : ℕ)
        → (n ≤ days_since now moment) ↔ (moment + n * day ≤ now)
        → leb n (days_since now moment) ≡ false
        → now < moment + n * day
    not_yet n iff h = grind (arith, iff, h)

module _ {U : Type 0} where
  -- A detector that its constructor accepted judges a page by dates alone: it is stale from
  -- `stale_after_days` full days after its last change on, ageing from `ageing_after_days` full days on
  -- and before it is stale, and fresh before that, also where the change lies in the future.
  pub judge-IsJudged :
      (a s : ℕ) (d : PageFreshnessDetector)
      → make_detector a s ≡ ok d
      → (now : ℕ) (page_id : String) (title : U) (moment version : ℕ)
      → IsJudged d now moment (judge d now page_id title moment version).freshness
  unfolding judge
  judge-IsJudged a s d made now page_id title moment version =
      let t = (made_thresholds a s d made) in freshness_of-IsJudged d now moment t.0 t.1

  -- A page and the reference that a search gives of it are judged alike.
  assess_reference-to_reference :
      (d : PageFreshnessDetector) (now : ℕ) (p : WikiPage U)
      → assess_reference d now (to_reference p) ≡ assess d now p
  unfolding assess_reference assess to_reference
  assess_reference-to_reference d now p = refl

  -- A report holds exactly the judged pages, the ones that changed longest ago first.
  report-IsOrdered :
      (now : ℕ) (fs : List (WikiPageFreshness U))
      → Perm (report now fs).pages fs × IsOrdered age_key true (report now fs).pages
  unfolding report
  report-IsOrdered now fs = (sort_by-perm age_key true fs, sort_by-IsOrdered age_key true fs)
