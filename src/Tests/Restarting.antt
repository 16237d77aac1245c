-- ===== src/Tests/Restarting.antt =====
-- The sample publication, stopped after the intervals were opened, and run again.
use ai_chatbot.Base.{ℕ, true, some, [], ◌∷◌, ◌≡◌, refl, arith, ok, string_eq, nat_eq, minus}
use ai_chatbot.Base.Dict.{lookup, merge}
use ai_chatbot.Platform.Registry.{
  manifest_from_row, get_kb_version, latest_published, get_gate_report, set_alias, set_kb_status,
}
use ai_chatbot.Platform.Models.{is_approved}
use ai_chatbot.Platform.Index.{is_visible}
use ai_chatbot.Platform.Index.Memory.{
  memory_index, intervals_of, active_chunks, open_intervals, close_intervals,
}
use ai_chatbot.Platform.Index.Memory.Lawful.{memory_lawful}
use ai_chatbot.Platform.Versioning.Publish.{
  System, publish, plan_publish, publish_candidate, publish_writes, index_writes, registry_writes,
  require_publishable, require_matching_sets,
}
use ai_chatbot.Platform.Versioning.Publish.Halts.{stopped_after}
use ai_chatbot.Platform.Versioning.Publish.Restart.{publish_restart}
use ai_chatbot.Tests.Sample.{system, set_b, row_1, row_2}
use ai_chatbot.Tests.Publishing.{
  published_2, plan_2, index-IsValid, all_resumable, none_at_0, distinct,
}

-- After the chunk set is added, the intervals are closed and they are opened.
abbrev restarted_system : System {F = ℕ} memory_index
restarted_system =
    (publish memory_index 2 (set_b ∷ []) 9
      (stopped_after memory_index 3 2 (set_b ∷ []) plan_2 9 system)).1

publish-again :
    publish memory_index 2
      (set_b ∷ [])
      9
      (stopped_after memory_index 3 2 (set_b ∷ []) plan_2 9 system)
    ≡ (ok published_2, restarted_system)
unfolding publish publish_candidate get_kb_version nat_eq require_publishable get_gate_report
    string_eq is_approved latest_published require_matching_sets plan_publish active_chunks minus
    publish_writes index_writes registry_writes memory_lawful merge open_intervals close_intervals
    set_alias set_kb_status
publish-again = refl

publish_restart_example : is_visible (intervals_of restarted_system.index "b1") 2 ≡ true
unfolding lookup get_kb_version latest_published nat_eq string_eq memory_lawful plan_publish
    active_chunks minus merge require_publishable get_gate_report is_approved require_matching_sets
publish_restart_example =
    publish_restart memory_index memory_lawful 3 2 (set_b ∷ []) 9 9 system restarted_system
      (manifest_from_row row_2) published_2 (some (manifest_from_row row_1)) plan_2 index-IsValid
      distinct (ground arith) (ground arith) refl refl refl refl refl none_at_0
      (λ c. all_resumable _ c) refl publish-again "b1"
