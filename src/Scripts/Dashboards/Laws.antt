-- ===== src/Scripts/Dashboards/Laws.antt =====
-- What the code 0 of check_dashboards.py means for the queries.
use Prim.Native.Char.{Char}
use ai_chatbot.Base.{
  String, ◌<>◌, Bool, true, false, ◌&&◌, Option, List, ◌++◌, flat_map, is_empty-flat_map,
  is_empty-append, Result, ok, ◌==◌, string_eq, nat_eq, contains, distinct, length, is_empty, all,
  ◌≡◌, refl, ap, sym, ◌∙◌, arith, Result-cases, inl, inr,
}
use ai_chatbot.Base.State.{raise_ne_ok}
use ai_chatbot.Scripts.Codes.{with_code_zero}
use ai_chatbot.Scripts.Dashboards.{
  Target, Panel, Board, Defined, metrics_in, base_name, is_known, source_uid, problem_unless,
  objects_in, target_problems, check_dashboard, board_uids, main, asked, all_problems, show_uid,
}

problem_unless-empty : (b : Bool) (problem : String) → is_empty (problem_unless b problem) ≡ b
problem_unless-empty true problem = refl
problem_unless-empty false problem = refl

module _ (is_word : Char → Bool) (show_title : Option String → String) (D : Defined) where
  -- The data source, every metric and every table of the target is one of the defined ones.
  abbrev pub is_sound_target : Panel → Target → Bool
  is_sound_target panel target =
      is_known D.uids (source_uid panel target)
      && (all (λ metric. contains D.metrics (base_name metric)) (metrics_in target.expr)
          && all (contains D.objects) (objects_in is_word show_title D target.raw_sql))

  abbrev pub is_sound_board : Board → Bool
  is_sound_board board = all (λ panel. all (is_sound_target panel) panel.targets) board.panels

  target_problems-empty :
      (where_ : String) (panel : Panel) (target : Target)
      → is_empty (target_problems is_word show_title D where_ panel target)
        ≡ is_sound_target panel target
  unfolding target_problems
  target_problems-empty where_ panel target =
      let uid = source_uid panel target in
      let metric_problems =
        flat_map
          (λ metric.
            problem_unless (contains D.metrics (base_name metric))
              (where_ <> (" uses undefined metric " <> metric)))
          (metrics_in target.expr) in
      let object_problems =
        flat_map
          (λ name.
            problem_unless (contains D.objects name)
              (where_ <> (" reads missing reporting." <> name)))
          (objects_in is_word show_title D target.raw_sql) in
      is_empty-append
        (problem_unless (is_known D.uids uid)
          (where_ <> (" uses unknown data source " <> show_uid uid)))
        (metric_problems ++ object_problems)
      ∙ rw
          (
            problem_unless-empty (is_known D.uids uid)
                (where_ <> (" uses unknown data source " <> show_uid uid)),
            is_empty-append metric_problems object_problems,
            is_empty-flat_map
                (λ metric.
                  problem_unless (contains D.metrics (base_name metric))
                    (where_ <> (" uses undefined metric " <> metric)))
                (λ metric. contains D.metrics (base_name metric))
                (λ metric. problem_unless-empty _ _) (metrics_in target.expr),
            is_empty-flat_map
                (λ name.
                  problem_unless (contains D.objects name)
                    (where_ <> (" reads missing reporting." <> name)))
                (contains D.objects) (λ name. problem_unless-empty _ _)
                (objects_in is_word show_title D target.raw_sql),
          )
          refl

  check_dashboard-empty :
      (board : Board) → is_empty (check_dashboard is_word show_title D board) ≡ is_sound_board board
  unfolding check_dashboard
  check_dashboard-empty board =
      is_empty-flat_map _ (λ panel. all (is_sound_target panel) panel.targets)
        (λ panel.
          is_empty-flat_map _ (is_sound_target panel)
            (λ target. target_problems-empty _ panel target) panel.targets)
        board.panels

  no_problems :
      (boards : List Board) (uids failed : List String)
      → is_empty (all_problems is_word show_title D boards uids failed) ≡ true
      → (all is_sound_board boards ≡ true) × ((length uids == length (distinct uids)) ≡ true)
  unfolding check_dashboard distinct
  no_problems boards uids failed h =
      let same = length uids == length (distinct uids) in
      let shared = problem_unless same "two dashboards share a uid" in
      let found = flat_map (check_dashboard is_word show_title D) boards in
      let parts : (is_empty found && (is_empty shared && is_empty failed)) ≡ true =
        ap (λ b. is_empty found && b) (sym (is_empty-append shared failed))
        ∙ sym (is_empty-append found (shared ++ failed))
        ∙ h in
      (
        sym (
              is_empty-flat_map (check_dashboard is_word show_title D) is_sound_board
                check_dashboard-empty boards)
            ∙ ground arith,
        sym (problem_unless-empty same "two dashboards share a uid") ∙ ground arith,
      )

  -- Where the script returns 0, no two boards share a uid, and every target of every panel names a
  -- provisioned data source, metrics that are defined under their name without a suffix, and tables
  -- that a migration creates.
  pub main_sound :
      (boards : List Board) (database : Option (Result (List String))) (problems : List String)
      → main is_word show_title D boards database ≡ ok (problems, 0)
      → (uids : List String) × (board_uids is_word show_title D boards ≡ ok uids)
        × ((length uids == length (distinct uids)) ≡ true)
        × (all is_sound_board boards ≡ true)
  unfolding main
  main_sound boards database problems run =
      elim (Result-cases (board_uids is_word show_title D boards)) [
        | inr (e, bad) ↦ absurd (raise_ne_ok (rw bad at run))
        | inl (uids, named) ↦ elim (Result-cases (asked is_word show_title D database)) [
          | inr (e, bad) ↦ absurd (raise_ne_ok (rw (named, bad) at run))
          | inl (failed, answer) ↦
              let nothing =
                with_code_zero (all_problems is_word show_title D boards uids failed) problems
                  (rw (named, answer) at run) in
              let (sound, same) = no_problems boards uids failed nothing in
              (uids, named, same, sound)
        ]
      ]
