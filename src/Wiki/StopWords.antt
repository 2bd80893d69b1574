-- ===== src/Wiki/StopWords.antt =====
-- `_STOP_WORDS` of agents/wiki/src/ai_agent_lab/wiki/application/skills/question_terms.py: the English
-- and the French function words.
use ai_agents.Prelude.{String, List, [], ◌∷◌}

abbrev pub stop_words : List String
stop_words =
    "a" ∷ "about" ∷ "all" ∷ "am" ∷ "an" ∷ "and" ∷ "any" ∷ "are" ∷ "as" ∷ "at" ∷ "be" ∷ "been"
    ∷ "but" ∷ "by" ∷ "can" ∷ "did" ∷ "do" ∷ "does" ∷ "for" ∷ "from" ∷ "get" ∷ "give" ∷ "had" ∷ "has"
    ∷ "have" ∷ "how" ∷ "i" ∷ "if" ∷ "in" ∷ "into" ∷ "is" ∷ "it" ∷ "its" ∷ "me" ∷ "much" ∷ "must"
    ∷ "my" ∷ "of" ∷ "on" ∷ "or" ∷ "our" ∷ "please" ∷ "should" ∷ "so" ∷ "some" ∷ "tell" ∷ "than"
    ∷ "that" ∷ "the" ∷ "their" ∷ "them" ∷ "then" ∷ "there" ∷ "these" ∷ "they" ∷ "this" ∷ "those"
    ∷ "to" ∷ "us" ∷ "was" ∷ "we" ∷ "were" ∷ "what" ∷ "when" ∷ "where" ∷ "which" ∷ "who" ∷ "why"
    ∷ "will" ∷ "with" ∷ "would" ∷ "you" ∷ "your" ∷ "au" ∷ "aux" ∷ "avec" ∷ "ce" ∷ "ces" ∷ "comment"
    ∷ "dans" ∷ "de" ∷ "des" ∷ "du" ∷ "elle" ∷ "en" ∷ "est" ∷ "et" ∷ "il" ∷ "ils" ∷ "je" ∷ "la"
    ∷ "le" ∷ "les" ∷ "leur" ∷ "lui" ∷ "ma" ∷ "mais" ∷ "mes" ∷ "moi" ∷ "mon" ∷ "ne" ∷ "nos" ∷ "notre"
    ∷ "nous" ∷ "ou" ∷ "par" ∷ "pas" ∷ "peut" ∷ "pour" ∷ "pourquoi" ∷ "quand" ∷ "que" ∷ "quel"
    ∷ "quelle" ∷ "quelles" ∷ "quels" ∷ "qui" ∷ "quoi" ∷ "sa" ∷ "se" ∷ "ses" ∷ "son" ∷ "sont" ∷ "sur"
    ∷ "ta" ∷ "te" ∷ "tes" ∷ "toi" ∷ "ton" ∷ "tu" ∷ "un" ∷ "une" ∷ "vos" ∷ "votre" ∷ "vous" ∷ "y"
    ∷ []
