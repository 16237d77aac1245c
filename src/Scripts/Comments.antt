-- ===== src/Scripts/Comments.antt =====
-- scripts/check_comments.py: the rule on comments and docstrings. Parameters: paths and their files,
-- what tokenize and ast read from a Python file, and how Python shows numbers and lists. The files
-- that git lists are an argument.
pub mod Laws
use Prim.Native.Char.{Char, code}
use Prim.Native.String.{[] as []ˢ, ◌∷◌ as ◌∷ˢ◌}
use ai_chatbot.Base.{
  ℕ, suc, String, ◌<>◌, Bool, true, false, ◌&&◌, ◌||◌, not, Option, none, some, List, [], ◌∷◌, ◌++◌,
  Result, ok, ◌>>=◌, Eq, if◌then◌else◌, ◌==◌, string_eq, nat_eq, contains, sorted_set, any,
  is_empty,
}
use ai_chatbot.Base.Texts.{strip, strip_left, after_prefix, starts_with, splitlines}
use ai_chatbot.Scripts.Codes.{with_code}
use ai_chatbot.Scripts.ChangedPackages.{starts_with_any, ends_with}

-- The characters of `FORBIDDEN`: a hyphen, a semicolon, a colon, an arrow and two dashes.
abbrev pub is_forbidden : Char → Bool
is_forbidden c = contains (45 ∷ 59 ∷ 58 ∷ 8594 ∷ 8211 ∷ 8212 ∷ []) (code c)

abbrev pub pragmas : List String
pragmas = "noqa" ∷ "type:" ∷ "pragma:" ∷ "fmt:" ∷ "###" ∷ []

abbrev pub hash_comment_files : List String
hash_comment_files = ".toml" ∷ ".yaml" ∷ ".yml" ∷ ".ini" ∷ ".cfg" ∷ []

abbrev pub skip_parts : List String
skip_parts = ".venv" ∷ "node_modules" ∷ ".git" ∷ "docs" ∷ []

-- `FORBIDDEN.findall(text)`
abbrev pub find_forbidden : String → List String
find_forbidden []ˢ = []
find_forbidden (c ∷ˢ s) = if is_forbidden c then (c ∷ˢ []ˢ) ∷ find_forbidden s else find_forbidden s

unfoldable pub violations_in : String → List String
unfolding sorted_set
violations_in text = sorted_set (find_forbidden text)

-- What the checks read and show.
pub record Files (P : Type 0) : Type 0 where
  pub read_text : P → Result String
  pub is_file : P → Bool
  pub parts : P → List String
  pub suffix : P → String
  pub file_name : P → String
  pub show_path : P → String
  pub digits : ℕ → String
  pub show_list : List String → String
  pub comments : String → Result (List (ℕ × String))
  pub docstrings : String → Result (List (ℕ × String))

module _ {P : Type 0} (W : Files P) where
  abbrev pub problem_at : P → ℕ → String → List String → String
  problem_at path number what bad =
      W.show_path path <> (":" <> (W.digits number <> (what <> W.show_list bad)))

  -- `if bad := _violations(text)`
  unfoldable pub problem_if : P → ℕ → String → List String → List String
  problem_if path number what bad =
      if is_empty bad then [] else problem_at path number what bad ∷ []

  -- `token.string.lstrip("#").strip()`
  abbrev pub comment_body : String → String
  comment_body token = strip (strip_left (λ c. code c == 35) token)

  unfoldable pub comment_problems : P → List (ℕ × String) → List String
  unfolding strip violations_in problem_if
  comment_problems path [] = []
  comment_problems path ((number, token) ∷ tokens) =
      let body = comment_body token in
      let rest = comment_problems path tokens in
      if starts_with "!" body || starts_with_any pragmas body
      then rest
      else problem_if path number " comment uses " (violations_in body) ++ rest

  unfoldable pub docstring_problems : P → List (ℕ × String) → List String
  unfolding violations_in problem_if
  docstring_problems path [] = []
  docstring_problems path ((number, docstring) ∷ docstrings) =
      problem_if path number " docstring uses " (violations_in docstring)
      ++ docstring_problems path docstrings

  unfoldable pub check_python : P → Result (List String)
  unfolding comment_problems docstring_problems
  check_python path = do
    source ← W.read_text path
    comments ← W.comments source
    docstrings ← W.docstrings source
    ok (comment_problems path comments ++ docstring_problems path docstrings)

  -- One line, with its number.
  unfoldable pub line_problems : P → String → ℕ → String → List String
  unfolding strip violations_in problem_if
  line_problems path marker number line =
      let stripped = strip line in
      if starts_with "#!" stripped then [] else elim (after_prefix marker stripped) [
        | none ↦ []
        | some after ↦
            if starts_with_any pragmas (strip after)
            then []
            else problem_if path number " comment uses " (violations_in (strip after))
      ]

  -- `enumerate(lines, start=number)`
  unfoldable pub lines_problems : P → String → ℕ → List String → List String
  unfolding line_problems
  lines_problems path marker number [] = []
  lines_problems path marker number (line ∷ lines) =
      line_problems path marker number line ++ lines_problems path marker (suc number) lines

  unfoldable pub check_line_comments : P → String → Result (List String)
  unfolding lines_problems
  check_line_comments path marker =
      W.read_text path >>= λ text. ok (lines_problems path marker 1 (splitlines text))

  unfoldable pub check_file : P → Result (List String)
  unfolding check_python check_line_comments
  check_file path =
      if W.suffix path == ".py"
      then check_python path
      else if W.suffix path == ".sql"
      then check_line_comments path "--"
      else if contains hash_comment_files (W.suffix path)
          || ends_with "Dockerfile" (W.file_name path)
      then check_line_comments path "#"
      else ok []

  -- `SKIP_PARTS & set(path.parts) or not path.is_file()`
  abbrev pub is_skipped : P → Bool
  is_skipped path = any (contains skip_parts) (W.parts path) || not (W.is_file path)

  unfoldable pub all_problems : List P → Result (List String)
  unfolding check_file
  all_problems [] = ok []
  all_problems (path ∷ paths) =
      if is_skipped path
      then all_problems paths
      else check_file path >>= λ problems. all_problems paths >>= λ rest. ok (problems ++ rest)

  -- The problems that are printed, and the code that the script returns.
  unfoldable pub main : List P → List P → Result (List String × ℕ)
  unfolding all_problems
  main argv tracked =
      all_problems (if is_empty argv then tracked else argv) >>= λ problems. ok (with_code problems)
