-- ===== src/Wiki/Store/Access.antt =====
-- Reading an entry of the wiki: the three answers of `Wiki._entry`.
use ai_agents.Prelude.{
  ◌≡◌, refl, ◌∙◌, ap, String, true, false, none, some, ◌⊎◌, inl, inr, Bool-cases, Option-cases,
  string_eq,
}
use ai_agents.Prelude.Exec.{ok, err}
use ai_agents.Dict.{lookup}
use ai_agents.Wiki.Error.{WikiError, not_found, access_denied}
use ai_agents.Wiki.Store.{Wiki, PageEntry, may_read, entry_of, resolve}

module _ {U : Type 0} (i user : String) (wiki : Wiki U) where
  -- The page is not there, or it is there and the account may not read it; the error says which.
  pub data IsRefused : WikiError → Type 0 where
    missing : lookup i wiki.pages ≡ none → IsRefused (not_found "page" i)
    denied :
        (e : PageEntry U)
        → lookup i wiki.pages ≡ some e
        → may_read wiki e user ≡ false
        → IsRefused (access_denied i)

  pub entry_of-cases :
      ((e : PageEntry U) × (lookup i wiki.pages ≡ some e)
        × (may_read wiki e user ≡ true)
        × (entry_of i user wiki ≡ (ok e, wiki)))
      ⊎ ((x : WikiError) × IsRefused x × (entry_of i user wiki ≡ (err x, wiki)))
  unfolding entry_of
  entry_of-cases = elim (Option-cases (lookup i wiki.pages)) [
    | inl gone ↦
        inr (not_found "page" i, missing gone, ap (λ o. (resolve i user wiki o, wiki)) gone)
    | inr (e, found) ↦ elim (Bool-cases (may_read wiki e user)) [
      | inl may ↦ inl (e, found, may, ap (λ o. (resolve i user wiki o, wiki)) found ∙ rw may refl)
      | inr not_his ↦ inr (
        access_denied i,
        denied e found not_his,
        ap (λ o. (resolve i user wiki o, wiki)) found ∙ rw not_his refl,
      )
    ]
  ]
