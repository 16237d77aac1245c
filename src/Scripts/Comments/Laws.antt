-- ===== src/Scripts/Comments/Laws.antt =====
-- What the code 0 of check_comments.py means for the lines of a file.
use Prim.Native.String.{[] as []ˢ, ◌∷◌ as ◌∷ˢ◌}
use ai_chatbot.Base.{
  ℕ, suc, String, Bool, true, false, ◌&&◌, ◌||◌, not, Option, none, some, List, [], ◌∷◌, ◌++◌,
  Result, raise, ok, ok_injective, ◌>>=◌, Eq, if◌then◌else◌, ◌==◌, string_eq, ==_iff, contains,
  is_empty-sorted_set, is_empty-append, is_empty, all, ◌≡◌, refl, ap, sym, ◌∙◌, arith, Bool-cases,
  Option-cases, Result-cases, inl, inr, true_ne_false,
}
use ai_chatbot.Base.State.{raise_ne_ok}
use ai_chatbot.Base.Texts.{strip, after_prefix, starts_with, splitlines}
use ai_chatbot.Scripts.Codes.{with_code_zero}
use ai_chatbot.Scripts.ChangedPackages.{starts_with_any, ends_with}
use ai_chatbot.Scripts.Comments.{
  is_forbidden, find_forbidden, violations_in, pragmas, hash_comment_files, Files, problem_if,
  line_problems, lines_problems, check_line_comments, check_file, is_skipped, all_problems, main,
}

-- The text holds no forbidden character.
abbrev pub is_clean_text : String → Bool
is_clean_text []ˢ = true
is_clean_text (c ∷ˢ s) = not (is_forbidden c) && is_clean_text s

-- A comment is free of them, or starts with a pragma.
abbrev pub is_fine_comment : Option String → Bool
is_fine_comment none = true
is_fine_comment (some after) = starts_with_any pragmas (strip after) || is_clean_text (strip after)

-- The line starts with `#!`, is no comment of the marker, or a fine comment.
abbrev pub is_fine_line : String → String → Bool
is_fine_line marker line =
    starts_with "#!" (strip line) || is_fine_comment (after_prefix marker (strip line))

find_forbidden-empty : (s : String) → is_empty (find_forbidden s) ≡ is_clean_text s
find_forbidden-empty []ˢ = refl
find_forbidden-empty (c ∷ˢ s) = elim (Bool-cases (is_forbidden c)) [
  | inl bad ↦ rw bad refl
  | inr good ↦ rw good (find_forbidden-empty s)
]

violations_in-empty : (s : String) → is_empty (violations_in s) ≡ is_clean_text s
unfolding violations_in
violations_in-empty s = is_empty-sorted_set (find_forbidden s) ∙ find_forbidden-empty s

-- Two lists of problems, joined, are empty.
both_empty :
    (first second : Result (List String)) (found : List String)
    → (first >>= λ bad. second >>= λ rest. ok (bad ++ rest)) ≡ ok found
    → is_empty found ≡ true
    → ((bad : List String) × (first ≡ ok bad) × (is_empty bad ≡ true))
      × ((rest : List String) × (second ≡ ok rest) × (is_empty rest ≡ true))
both_empty (raise e) second found h none_ = cc
both_empty (ok bad) (raise e) found h none_ = cc
both_empty (ok bad) (ok rest) found h none_ =
    let both : (is_empty bad && is_empty rest) ≡ true =
      sym (is_empty-append bad rest) ∙ ap is_empty (ok_injective h) ∙ none_ in
    ((bad, refl, ground arith), (rest, refl, ground arith))

module _ {P : Type 0} (W : Files P) where
  problem_if-empty :
      (path : P) (number : ℕ) (what : String) (bad : List String)
      → is_empty (problem_if W path number what bad) ≡ is_empty bad
  unfolding problem_if
  problem_if-empty path number what [] = refl
  problem_if-empty path number what (x ∷ bad) = refl

  line_problems-empty :
      (path : P) (marker : String) (number : ℕ) (line : String)
      → is_empty (line_problems W path marker number line) ≡ is_fine_line marker line
  unfolding line_problems
  line_problems-empty path marker number line = elim (Bool-cases (starts_with "#!" (strip line))) [
    | inl first ↦ rw first refl
    | inr other ↦ elim (Option-cases (after_prefix marker (strip line))) [
      | inl code ↦ rw (other, code) refl
      | inr (after, found) ↦ elim (Bool-cases (starts_with_any pragmas (strip after))) [
        | inl pragma ↦ rw (other, found, pragma) refl
        | inr plain ↦
            rw (other, found, plain)
              (problem_if-empty path number " comment uses " (violations_in (strip after))
                ∙ violations_in-empty (strip after))
      ]
    ]
  ]

  lines_problems-empty :
      (path : P) (marker : String) (number : ℕ) (lines : List String)
      → is_empty (lines_problems W path marker number lines) ≡ all (is_fine_line marker) lines
  unfolding lines_problems
  lines_problems-empty path marker number [] = refl
  lines_problems-empty path marker number (line ∷ lines) =
      is_empty-append (line_problems W path marker number line)
        (lines_problems W path marker (suc number) lines)
      ∙ rw
          (
            line_problems-empty path marker number line,
            lines_problems-empty path marker (suc number) lines,
          )
          refl

  -- The marker of the comments of a file that is read line by line.
  abbrev pub line_marker : P → Option String
  line_marker path =
      if W.suffix path == ".py"
      then none
      else if W.suffix path == ".sql"
      then some "--"
      else if contains hash_comment_files (W.suffix path)
          || ends_with "Dockerfile" (W.file_name path)
      then some "#"
      else none

  check_file-marker :
      (path : P) (marker : String)
      → line_marker path ≡ some marker
      → check_file W path ≡ check_line_comments W path marker
  unfolding check_file
  check_file-marker path marker h = ground arith

  all_problems-ok :
      ⦃e : Eq P⦄ (paths : List P) (path : P) (found : List String)
      → all_problems W paths ≡ ok found
      → is_empty found ≡ true
      → contains paths path ≡ true
      → is_skipped W path ≡ false
      → (bad : List String) × (check_file W path ≡ ok bad) × (is_empty bad ≡ true)
  unfolding all_problems
  all_problems-ok [] path found run none_ there taken = cc
  all_problems-ok (p ∷ paths) path found run none_ there taken =
      elim (Bool-cases (is_skipped W p)) [
        | inl skipped ↦ elim (Bool-cases (path == p)) [
          | inl same ↦ absurd (
              true_ne_false
                (sym skipped ∙ ap (is_skipped W) (sym ((==_iff path p).0 same)) ∙ taken))
          | inr other ↦
              all_problems-ok paths path found (rw skipped at run) none_ (rw other at there) taken
        ]
        | inr read ↦
            let run2 = rw read at run in
            let (mine, (rest, left, none_left)) =
              both_empty (check_file W p) (all_problems W paths) found run2 none_ in
            elim (Bool-cases (path == p)) [
              | inl same ↦ rw ((==_iff path p).0 same) mine
              | inr other ↦ all_problems-ok paths path rest left none_left (rw other at there) taken
            ]
      ]

  -- The script returns 0 only if it finds no problem.
  main-found :
      (argv tracked : List P) (problems : List String)
      → main W argv tracked ≡ ok (problems, 0)
      → (found : List String) × (all_problems W (if is_empty argv then tracked else argv)
          ≡ ok found)
        × (is_empty found ≡ true)
  unfolding main
  main-found argv tracked problems run =
      elim (Result-cases (all_problems W (if is_empty argv then tracked else argv))) [
        | inl (found, good) ↦ (found, good, with_code_zero found problems (rw good at run))
        | inr (e, bad) ↦ absurd (raise_ne_ok (rw bad at run))
      ]

  -- Where the script returns 0, every line of a file that it was given, did not skip, and reads line
  -- by line, starts with `#!` after its spaces, does not start with the marker of a comment after
  -- them, or is a comment that starts with a pragma or holds no forbidden character.
  pub main_clean :
      ⦃e : Eq P⦄ (argv tracked : List P) (path : P) (marker text : String) (problems : List String)
      → main W argv tracked ≡ ok (problems, 0)
      → contains (if is_empty argv then tracked else argv) path ≡ true
      → is_skipped W path ≡ false
      → line_marker path ≡ some marker
      → W.read_text path ≡ ok text
      → all (is_fine_line marker) (splitlines text) ≡ true
  unfolding check_line_comments
  main_clean argv tracked path marker text problems run there taken kind read =
      let (found, good, none_) = main-found argv tracked problems run in
      let (bad, checked, clean) =
        all_problems-ok (if is_empty argv then tracked else argv) path found good none_ there
          taken in
      let lines : ok (lines_problems W path marker 1 (splitlines text)) ≡ ok bad =
        rw (check_file-marker path marker kind, read) at checked in
      sym (lines_problems-empty path marker 1 (splitlines text))
      ∙ ap is_empty (ok_injective lines)
      ∙ clean
