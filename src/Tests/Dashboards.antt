-- ===== src/Tests/Dashboards.antt =====
-- A board with one metric and one table, and a board with a metric that no code defines.
use Prim.Native.Char.{Char, code}
use ai_chatbot.Base.{
  String, Bool, true, ◌||◌, Option, none, some, List, [], ◌∷◌, ◌≡◌, refl, ok, all, leb, ◌&&◌, ◌==◌,
  string_eq, nat_eq, distinct, length,
}
use ai_chatbot.Base.Dict.{lookup}
use ai_chatbot.Base.Texts.{after_prefix}
use ai_chatbot.Scripts.Dashboards.{Panel, Board, Defined, main, board_uids, base_name}
use ai_chatbot.Scripts.Dashboards.Laws.{is_sound_board, main_sound}

abbrev is_word : Char → Bool
is_word c = leb 97 (code c) && leb (code c) 122 || code c == 95

abbrev show_title : Option String → String
show_title title = ""

abbrev defined : Defined
defined = record {
  metrics = "chatbot_http_seconds" ∷ [];
  objects = "daily" ∷ [];
  uids = "prom" ∷ [];
}

abbrev panel_with : String → Panel
panel_with expr = record {
  title = none;
  datasource = some (("uid", "prom") ∷ []);
  targets = record { datasource = some []; expr = expr; raw_sql = "FROM reporting.daily d" } ∷ [];
}

abbrev board_with : String → String → Board
board_with uid expr = record { file_name = uid; uid = some uid; panels = panel_with expr ∷ [] }

abbrev boards : List Board
boards = board_with "a" "rate(chatbot_http_seconds_bucket)" ∷ []

-- A metric that no code defines gives one problem and the code 1.
metric_missing :
    main is_word show_title defined (board_with "a" "1 - chatbot_x" ∷ []) none
    ≡ ok ("a panel  uses undefined metric chatbot_x" ∷ [], 1)
unfolding main base_name string_eq nat_eq lookup after_prefix
metric_missing = refl

main_sound_example :
    (uids : List String) × (board_uids is_word show_title defined boards ≡ ok uids)
    × ((length uids == length (distinct uids)) ≡ true)
    × (all (is_sound_board is_word show_title defined) boards ≡ true)
unfolding main base_name string_eq nat_eq lookup after_prefix
main_sound_example = main_sound is_word show_title defined boards none [] refl
