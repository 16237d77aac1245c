-- ===== src/Scripts/ChangedPackages.antt =====
-- scripts/changed_packages.py: which packages a change selects for testing. The files that git lists
-- and the folders of the packages are arguments.
use Prim.Native.String.{[] as []ˢ, ◌∷◌ as ◌∷ˢ◌}
use ai_chatbot.Base.{
  String, Bool, true, false, ◌&&◌, ◌||◌, not, Option, none, some, List, [], ◌∷◌, any, keep,
  if◌then◌else◌, ◌==◌, string_eq, contains, sorted_set, contains-sorted_set, ◌≡◌, ◌∙◌, arith,
  Bool-cases, inl, inr,
}
use ai_chatbot.Base.Dict.{Dict, lookup, keys, contains-keys, NodupKeys, contains-keys-keep}
use ai_chatbot.Base.Texts.{starts_with}

abbrev pub full_run : List String
full_run =
    "libs/" ∷ "scripts/" ∷ ".github/" ∷ "infra/docker/" ∷ "uv.lock" ∷ "pyproject.toml"
    ∷ ".python-version" ∷ []

abbrev pub postgres_paths : List String
postgres_paths = "libs/" ∷ "uv.lock" ∷ "scripts/" ∷ ".github/" ∷ "infra/local/grafana/" ∷ []

-- `path.startswith(prefixes)`, with a tuple.
abbrev pub starts_with_any : List String → String → Bool
starts_with_any prefixes path = any (λ prefix. starts_with prefix path) prefixes

-- `path.endswith(suffix)`
abbrev pub ends_with : String → String → Bool
ends_with suffix []ˢ = suffix == ""
ends_with suffix (c ∷ˢ s) = (c ∷ˢ s) == suffix || ends_with suffix s

-- A changed file of the folder that is no documentation.
abbrev pub touches : String → String → Bool
touches folder path = starts_with folder path && not (ends_with ".md" path)

abbrev pub chosen : List String → Dict String → List String
chosen changed folders = keys (keep (λ entry. any (touches entry.1) changed) folders)

unfoldable pub select : Option (List String) → Dict String → List String × Bool
unfolding sorted_set
select none folders = (sorted_set (keys folders), true)
select (some changed) folders =
    if any (starts_with_any full_run) changed
    then (sorted_set (keys folders), true)
    else (sorted_set (chosen changed folders), any (starts_with_any postgres_paths) changed)

-- A package that must be tested, by its folder.
abbrev pub is_wanted : Option (List String) → Option String → Bool
is_wanted changed none = false
is_wanted none (some folder) = true
is_wanted (some changed) (some folder) =
    any (starts_with_any full_run) changed || any (touches folder) changed

-- A package is selected exactly if it is in the workspace and the change is unknown, or a changed
-- path starts with one of the shared paths, or a changed path in the folder of the package is no
-- Markdown file. No package stands twice.
pub contains-select :
    (changed : Option (List String)) (folders : Dict String) (name : String)
    → NodupKeys folders
    → contains (select changed folders).0 name ≡ is_wanted changed (lookup name folders)
unfolding select
contains-select none folders name h =
    contains-sorted_set name (keys folders) ∙ contains-keys name folders ∙ ground arith
contains-select (some changed) folders name h =
    elim (Bool-cases (any (starts_with_any full_run) changed)) [
      | inl full ↦
          rw full
            (contains-sorted_set name (keys folders) ∙ contains-keys name folders ∙ ground arith)
      | inr part ↦ rw part (
          contains-sorted_set name (chosen changed folders)
          ∙ contains-keys-keep (λ entry. any (touches entry.1) changed) name folders h
          ∙ ground arith)
    ]
