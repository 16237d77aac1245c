-- ===== src/Tests/Sweeping.antt =====
-- The sweeps on sample rows: one old and one young interaction, each with a citation.
use ai_chatbot.Base.{
  ℕ, String, true, false, ◌||◌, not, none, some, List, [], ◌∷◌, ◌≡◌, refl, Result, ok, string_eq,
  nat_eq, all, keep,
}
use ai_chatbot.Base.Dict.{of_pairs}
use ai_chatbot.Platform.Models.{CorrectionFlag}
use ai_chatbot.Platform.Ops.{Interaction, Citation, Ops}
use ai_chatbot.Platform.Ops.Storage.{split_uri, object_uri, split_uri-object_uri}
use ai_chatbot.Platform.Ops.Retention.{is_old, blank_text, expire_ops}
use ai_chatbot.Platform.Ops.Kept.{
  is_kept, is_blank, has_parents, DistinctRequests, blank_text_lem, expire_ops_lem,
}
use ai_chatbot.Platform.Ops.Lineage.{cited, flagged_requests, sweep_superseded}
use ai_chatbot.Platform.Ops.Flagged.{is_open_to, sweep_superseded_lem}
use ai_chatbot.Platform.Index.Memory.{Memory, memory_index, active_chunks, get_chunks}
use ai_chatbot.Platform.Registry.{Registry, get_alias, superseded_by}
use ai_chatbot.Tests.Sample.{index}
use ai_chatbot.Tests.Registering.{corrected}

abbrev interaction : String → ℕ → Interaction ℕ
interaction id at = record {
  request_id = id;
  pseudo_user = "user";
  conversation_id = none;
  question_enc = "question";
  answer = some "answer";
  kb_version = some 1;
  model_version = none;
  prompt_version = none;
  confidence = none;
  level = none;
  used_external = false;
  escalated = false;
  source_corrected = false;
  created_at = at;
}

abbrev citation : ℕ → String → String → Citation
citation n request chunk = record {
  id = n;
  request_id = request;
  chunk_id = some chunk;
  url = none;
  doc_version = none;
  page = none;
}

abbrev ops : Ops ℕ ℕ
ops = record {
  interactions = interaction "old" 3 ∷ interaction "young" 8 ∷ [];
  citations = citation 1 "old" "a1" ∷ citation 2 "young" "a1" ∷ [];
  tool_calls = [];
  escalation_tickets = [];
  uploads = [];
  conversations = [];
  request_facts = [];
  guard_events = [];
  staged_chunks = [];
}

split_uri_example : split_uri (object_uri "raw" "ab/abcd.pdf") ≡ ok ("raw", "ab/abcd.pdf")
unfolding string_eq
split_uri_example = split_uri-object_uri "raw" "ab/abcd.pdf" refl refl refl

blank_text_example :
    (all (λ row. not (is_old 5 row) || is_blank row) (blank_text 5 ops).1.interactions ≡ true)
    × (keep (is_kept 5) (blank_text 5 ops).1.interactions ≡ keep (is_kept 5) ops.interactions)
blank_text_example = blank_text_lem 5 ops

requests-DistinctRequests : DistinctRequests ops.interactions
unfolding string_eq
requests-DistinctRequests = (refl, (refl, tt))

expire_ops_example :
    (has_parents (expire_ops 5 ops).1 ≡ true)
    × ((expire_ops 5 ops).1.interactions ≡ interaction "young" 8 ∷ [])
unfolding string_eq
expire_ops_example = expire_ops_lem 5 ops requests-DistinctRequests refl

-- The registry when version 3 is served, which does not show "a1".
abbrev served_later : Registry
served_later = record corrected {
  aliases = record { name = "serving"; version_id = 3; updated_at = 9 } ∷ [];
}

abbrev closed_index : Memory ℕ
closed_index = record index { intervals = ("a1", (1, some 3) ∷ []) ∷ [] }

abbrev flags : List CorrectionFlag
flags =
    record { request_id = "old"; chunk_id = "a1"; doc_version = "a"; superseded_by = some "c" }
    ∷ record { request_id = "young"; chunk_id = "a1"; doc_version = "a"; superseded_by = some "c" }
    ∷ []

-- Both answers cite a chunk that is no longer active, of a document that "c" corrects.
abbrev swept : Result (List CorrectionFlag) × Ops ℕ ℕ
swept = sweep_superseded memory_index served_later closed_index ops

sweep-ops : sweep_superseded memory_index served_later closed_index ops ≡ (ok flags, swept.1)
unfolding sweep_superseded get_alias string_eq active_chunks of_pairs get_chunks superseded_by
sweep-ops = refl

sweep_superseded_example :
    cited swept.1.interactions swept.1.citations
    ≡ keep (is_open_to (flagged_requests flags)) (cited ops.interactions ops.citations)
sweep_superseded_example =
    sweep_superseded_lem memory_index served_later closed_index ops swept.1 flags sweep-ops
