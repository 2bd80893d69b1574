-- ===== src/Drafts/Tests.antt =====
-- The draft stores at a concrete input: a user redeems a draft, another one does not.
use ai_agents.Prelude.{◌≡◌, refl, String, List, [], ◌∷◌}
use ai_agents.Prelude.Exec.{ok, err}
use ai_agents.Drafts.{
  draft_not_found, DraftStore, mail_reference, wiki_reference, put, get, put_all, get-put_all,
}

abbrev no_drafts : DraftStore String
no_drafts = []

-- `eve` is given the same random part as `bob`.
abbrev others : List (String × (String × String))
others = ("eve", ("a", "hers")) ∷ ("ann", ("b", "more")) ∷ []

refused :
    get {D = String} "draft-a" "ann" (put mail_reference "a" "his" "bob" no_drafts).1
    ≡ err (draft_not_found "draft-a")
unfolding get put
refused = refl

wiki_kept :
    get {D = String} "wiki-draft-a" "bob" (put wiki_reference "a" "his" "bob" no_drafts).1
    ≡ ok "his"
unfolding get put
wiki_kept = refl

get-put_all_example :
    (get
        (put mail_reference "a" "his" "bob" no_drafts).0
        "bob"
        (put_all mail_reference others (put mail_reference "a" "his" "bob" no_drafts).1)
      ≡ ok "his")
    × (get
          (put mail_reference "a" "his" "bob" no_drafts).0
          "ann"
          (put_all mail_reference others (put mail_reference "a" "his" "bob" no_drafts).1)
        ≡ get (mail_reference "a") "ann" no_drafts)
get-put_all_example =
    get-put_all mail_reference "a" "his" "bob" others no_drafts refl "ann" refl refl
