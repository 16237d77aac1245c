-- ===== src/Tests/Commenting.antt =====
-- Two configuration files, one with a dash in a comment.
use ai_chatbot.Base.{
  String, true, [], ◌∷◌, ◌≡◌, refl, ok, raise, value_error, all, string_eq, nat_eq, ◌==◌,
  if◌then◌else◌,
}
use ai_chatbot.Base.Texts.{splitlines, after_prefix}
use ai_chatbot.Scripts.Comments.{Files, main}
use ai_chatbot.Scripts.Comments.Laws.{is_fine_line, main_clean}

abbrev good_text : String
good_text = "# fast\na = 1 # x-y\n# noqa: z"

abbrev files : Files String
files = record {
  read_text = λ path. if path == "a.toml" then ok good_text else ok "# a-b;-";
  is_file = λ path. true;
  parts = λ path. path ∷ [];
  suffix = λ path. ".toml";
  file_name = λ path. path;
  show_path = λ path. path;
  digits = λ n. "1";
  show_list = λ xs. "";
  comments = λ source. raise value_error;
  docstrings = λ source. ok [];
}

-- A file with forbidden characters gives one problem and the code 1.
dash_found : main files ("b.toml" ∷ []) [] ≡ ok ("b.toml:1 comment uses " ∷ [], 1)
unfolding main string_eq splitlines nat_eq after_prefix
dash_found = refl

main_clean_example : all (is_fine_line "#") (splitlines good_text) ≡ true
unfolding string_eq main splitlines nat_eq after_prefix
main_clean_example =
    main_clean files ("a.toml" ∷ []) [] "a.toml" "#" good_text [] refl refl refl refl refl
