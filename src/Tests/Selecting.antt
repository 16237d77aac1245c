-- ===== src/Tests/Selecting.antt =====
-- A change of one worker, and a workspace of four packages.
use ai_chatbot.Base.{
  String, true, false, ◌||◌, some, [], ◌∷◌, ◌≡◌, refl, string_eq, ◌==◌, contains, is_some, is_empty,
  all, List,
}
use ai_chatbot.Base.Dict.{Dict, lookup}
use ai_chatbot.Scripts.ChangedPackages.{select, is_wanted, contains-select}
use ai_chatbot.Scripts.Boundaries.{composer, shared, allowed_table, violations}
use ai_chatbot.Scripts.Boundaries.Laws.{is_clean, violations-none, violations-empty}

abbrev folders : Dict String
folders = ("chatbot-w8", "workers/w8_gen/") ∷ ("chatbot-w3", "workers/w3_code/") ∷ []

contains-select_example :
    contains (select (some ("workers/w8_gen/src/app.py" ∷ [])) folders).0 "chatbot-w8"
    ≡ is_wanted (some ("workers/w8_gen/src/app.py" ∷ [])) (lookup "chatbot-w8" folders)
unfolding lookup string_eq
contains-select_example =
    contains-select (some ("workers/w8_gen/src/app.py" ∷ [])) folders "chatbot-w8"
      (refl, (refl, tt))

abbrev graph : Dict (List String)
graph =
    ("chatbot-api", "chatbot-w3" ∷ [])
    ∷ ("chatbot-w3", "chatbot-common" ∷ "chatbot-contracts" ∷ [])
    ∷ ("chatbot-common", "chatbot-contracts" ∷ [])
    ∷ ("chatbot-contracts", [])
    ∷ []

violations-none_example :
    (("chatbot-common" == composer) ≡ false)
    × (("chatbot-w3" == composer
          || is_some (lookup "chatbot-w3" allowed_table)
          || contains shared "chatbot-common")
        ≡ true)
unfolding lookup string_eq violations
violations-none_example =
    violations-none graph "chatbot-w3" "chatbot-common"
      ("chatbot-common" ∷ "chatbot-contracts" ∷ []) refl refl refl

violations-empty_example : is_empty (violations graph) ≡ all (is_clean graph) graph
violations-empty_example = violations-empty graph
