-- ===== src/Scripts/Dashboards.antt =====
-- scripts/check_dashboards.py: the Grafana dashboards and the names that their queries use. The boards
-- are read from JSON outside of the model, and the names that the code, the migrations and the data
-- sources define, with the problems that Postgres reports, are arguments.
pub mod Laws
use Prim.Native.Char.{Char, code}
use Prim.Native.String.{[] as []ˢ, ◌∷◌ as ◌∷ˢ◌}
use ai_chatbot.Base.{
  ℕ, zero, suc, ◌+◌, ◌-◌, String, ◌<>◌, Bool, true, false, ◌&&◌, ◌||◌, not, Option, none, some,
  List, [], ◌∷◌, ◌++◌, map, flat_map, Result, ok, raise, key_error, ◌>>=◌, if◌then◌else◌, leb, ◌==◌,
  string_eq, nat_eq, contains, distinct, length, is_empty,
}
use ai_chatbot.Base.Dict.{Dict, lookup}
use ai_chatbot.Base.Texts.{after_prefix}
use ai_chatbot.Scripts.Codes.{with_code}
use ai_chatbot.Scripts.ChangedPackages.{ends_with}

abbrev pub suffixes : List String
suffixes = "_bucket" ∷ "_count" ∷ "_sum" ∷ "_created" ∷ []

-- What is read of a target, a panel and a board; a query that is missing is the empty text.
pub record Target : Type 0 where
  pub datasource : Option (Dict String)
  pub expr : String
  pub raw_sql : String

pub record Panel : Type 0 where
  pub title : Option String
  pub datasource : Option (Dict String)
  pub targets : List Target

pub record Board : Type 0 where
  pub file_name : String
  pub uid : Option String
  pub panels : List Panel

-- What the provisioned files define.
pub record Defined : Type 0 where
  pub metrics : List String
  pub objects : List String
  pub uids : List String

-- The characters of `[a-z_]`.
abbrev pub is_metric_char : Char → Bool
is_metric_char c = leb 97 (code c) && leb (code c) 122 || code c == 95

abbrev pub size : String → ℕ
size []ˢ = 0
size (c ∷ˢ s) = suc (size s)

-- The longest run of such characters that the text starts with.
unfoldable pub run_of : (Char → Bool) → String → String
run_of is_word []ˢ = ""
run_of is_word (c ∷ˢ s) = let rest = run_of is_word s in if is_word c then c ∷ˢ rest else ""

-- The prefix with at least one character after it.
unfoldable pub match_at : String → (Char → Bool) → String → Option String
unfolding after_prefix run_of
match_at prefix is_word s = elim (after_prefix prefix s) [
  | none ↦ none
  | some rest ↦ if run_of is_word rest == "" then none else some (run_of is_word rest)
]

-- `re.findall` of the prefix and a group of one or more such characters; so many characters of the
-- text belong to the last match.
unfoldable pub find_from : String → (Char → Bool) → ℕ → String → List String
unfolding match_at
find_from prefix is_word n []ˢ = []
find_from prefix is_word (suc n) (c ∷ˢ s) = find_from prefix is_word n s
find_from prefix is_word zero (c ∷ˢ s) = elim (match_at prefix is_word (c ∷ˢ s)) [
  | none ↦ find_from prefix is_word 0 s
  | some word ↦ word ∷ find_from prefix is_word (size prefix + size word - 1) s
]

-- `re.findall(r"chatbot_[a-z_]+", expr)`
abbrev pub metrics_in : String → List String
metrics_in expr = map (λ word. "chatbot_" <> word) (find_from "chatbot_" is_metric_char 0 expr)

-- `metric.removesuffix(suffix)`, of a metric that ends with it.
abbrev pub remove_suffix : String → String → String
remove_suffix suffix []ˢ = ""
remove_suffix suffix (c ∷ˢ s) =
    let rest = remove_suffix suffix s in if (c ∷ˢ s) == suffix then "" else c ∷ˢ rest

abbrev pub strip_first : List String → String → String
strip_first [] metric = metric
strip_first (suffix ∷ rest) metric =
    if ends_with suffix metric then remove_suffix suffix metric else strip_first rest metric

unfoldable pub base_name : String → String
base_name metric = strip_first suffixes metric

-- `a or b`, on dictionaries that may be missing.
abbrev pub or_other : Option (Dict String) → Option (Dict String) → Option (Dict String)
or_other none other = other
or_other (some []) other = other
or_other (some (entry ∷ d)) other = some (entry ∷ d)

abbrev pub uid_in : Option (Dict String) → Option String
uid_in none = none
uid_in (some d) = lookup "uid" d

unfoldable pub source_uid : Panel → Target → Option String
unfolding lookup
source_uid panel target = uid_in (or_other target.datasource panel.datasource)

abbrev pub is_known : List String → Option String → Bool
is_known uids none = false
is_known uids (some uid) = contains uids uid

abbrev pub show_uid : Option String → String
show_uid none = "None"
show_uid (some uid) = uid

abbrev pub problem_unless : Bool → String → List String
problem_unless true problem = []
problem_unless false problem = problem ∷ []

-- The characters of `\w`, and `!r` of a title.
module _ (is_word : Char → Bool) (show_title : Option String → String) (D : Defined) where
  unfoldable pub objects_in : String → List String
  unfolding find_from
  objects_in query = find_from "reporting." is_word 0 query

  unfoldable pub target_problems : String → Panel → Target → List String
  unfolding source_uid base_name objects_in find_from
  target_problems where_ panel target =
      problem_unless (is_known D.uids (source_uid panel target))
        (where_ <> (" uses unknown data source " <> show_uid (source_uid panel target)))
      ++ (flat_map
            (λ metric.
              problem_unless (contains D.metrics (base_name metric))
                (where_ <> (" uses undefined metric " <> metric)))
            (metrics_in target.expr)
          ++ flat_map
              (λ name.
                problem_unless (contains D.objects name)
                  (where_ <> (" reads missing reporting." <> name)))
              (objects_in target.raw_sql))

  unfoldable pub check_dashboard : Board → List String
  unfolding target_problems
  check_dashboard board =
      flat_map
        (λ panel.
          flat_map
            (target_problems (board.file_name <> (" panel " <> show_title panel.title)) panel)
            panel.targets)
        board.panels

  -- `json.loads(...)["uid"]` of every board.
  abbrev pub board_uids : List Board → Result (List String)
  board_uids [] = ok []
  board_uids (board ∷ boards) = elim board.uid [
    | none ↦ raise key_error
    | some uid ↦ board_uids boards >>= λ uids. ok (uid ∷ uids)
  ]

  abbrev pub all_problems : List Board → List String → List String → List String
  all_problems boards uids failed =
      flat_map check_dashboard boards
      ++ (problem_unless (length uids == length (distinct uids)) "two dashboards share a uid"
          ++ failed)

  -- What Postgres reports, where a database is given.
  abbrev pub asked : Option (Result (List String)) → Result (List String)
  asked none = ok []
  asked (some run) = run

  -- The problems that are printed, and the code that the script returns.
  unfoldable pub main : List Board → Option (Result (List String)) → Result (List String × ℕ)
  unfolding check_dashboard distinct
  main boards database = do
    uids ← board_uids boards
    failed ← asked database
    ok (with_code (all_problems boards uids failed))
