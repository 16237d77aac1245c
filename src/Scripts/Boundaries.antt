-- ===== src/Scripts/Boundaries.antt =====
-- scripts/check_boundaries.py: which packages of the workspace may depend on which. The graph that the
-- project files give is an argument.
pub mod Laws
use ai_chatbot.Base.{
  String, ◌<>◌, Bool, true, false, ◌&&◌, ◌||◌, not, Option, none, some, List, [], ◌∷◌, ◌++◌, map,
  if◌then◌else◌, ◌==◌, string_eq, contains, minus, contains-minus, contains-minus, sorted_set,
  place, ==_iff, is_empty, all, ◌≡◌, refl, ap, ◌∙◌, sym, arith, is_some, Option-cases, Bool-cases,
  inl, inr,
}
use ai_chatbot.Base.Dict.{Dict, lookup, keys}
use ai_chatbot.Base.Sorting.{sort_by, all-sort_by}
use ai_chatbot.Base.Texts.{text_before}

abbrev pub shared : List String
shared = "chatbot-contracts" ∷ "chatbot-common" ∷ "chatbot-platform" ∷ []

abbrev pub composer : String
composer = "chatbot-api"

abbrev pub not_composed : List String
not_composed = "chatbot-pipelines" ∷ "chatbot-eval" ∷ "chatbot-finetune" ∷ composer ∷ []

abbrev pub allowed_table : Dict (List String)
allowed_table =
    ("chatbot-contracts", [])
    ∷ ("chatbot-common", "chatbot-contracts" ∷ [])
    ∷ ("chatbot-platform", "chatbot-contracts" ∷ [])
    ∷ []

abbrev pub or_shared : Option (List String) → List String
or_shared none = shared
or_shared (some names) = names

unfoldable pub allowed_for : Dict (List String) → String → List String
unfolding lookup minus
allowed_for graph member =
    if member == composer
    then minus (keys graph) not_composed
    else or_shared (lookup member allowed_table)

abbrev pub problem : String → String → String
problem member dependency = member <> (" must not depend on " <> dependency)

abbrev pub package_problems : Dict (List String) → String → List String → List String
package_problems graph member internal =
    map (problem member) (sorted_set (minus internal (allowed_for graph member)))

-- The problems of the members in the order of the list, over the whole graph.
unfoldable pub problems_of : Dict (List String) → Dict (List String) → List String
unfolding allowed_for sorted_set minus
problems_of graph [] = []
problems_of graph ((member, internal) ∷ rest) =
    package_problems graph member internal ++ problems_of graph rest

-- `sorted(graph.items())`: the names are distinct, so they decide.
abbrev pub entry_before : String × List String → String × List String → Bool
entry_before a b = text_before a.0 b.0

unfoldable pub violations : Dict (List String) → List String
unfolding problems_of sort_by
violations graph = problems_of graph (sort_by entry_before graph)
