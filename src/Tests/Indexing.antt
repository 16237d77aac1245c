-- ===== src/Tests/Indexing.antt =====
-- Both indexes with one chunk that version 1 shows, and a timeline of one chunk.
use ai_chatbot.Base.{
  ℕ, String, true, false, none, [], ◌∷◌, ◌≡◌, refl, arith, ok, string_eq, if◌then◌else◌,
}
use ai_chatbot.Base.Dict.{Dict, lookup, NodupKeys}
use ai_chatbot.Platform.Index.{is_visible, doc_of, close_at}
use ai_chatbot.Platform.Index.Memory.{intervals_of, active_chunks, to_stored}
use ai_chatbot.Platform.Index.Memory.Active.{memory_active_lem}
use ai_chatbot.Platform.Index.Postgres.{Tables}
use ai_chatbot.Platform.Index.Postgres.Active.{IsValid, postgres_active_lem, stored_in}
use ai_chatbot.Platform.Index.Postgres.Validity.{intervals_in}
use ai_chatbot.Platform.Versioning.Publish.Timeline.{is_visible-publish_at_self, publish_at}
use ai_chatbot.Tests.Sample.{index, set_a, chunk}
use ai_chatbot.Tests.Publishing.{index-IsValid}

memory_active_example :
    (d : Dict String) × (active_chunks 1 index ≡ ok d)
    × NodupKeys d
    × ((c : String)
        → lookup c d
          ≡ (if is_visible (intervals_of index c) 1 then doc_of (lookup c index.chunks) else none))
memory_active_example = memory_active_lem index index-IsValid 1

abbrev tables : Tables ℕ
tables = record {
  chunks = record { stored = to_stored set_a (chunk "a1" "a"); embedding = 1 ∷ 2 ∷ [] } ∷ [];
  validity = record { chunk_id = "a1"; valid_from_version = 1; valid_to_version = none } ∷ [];
}

tables-IsValid : IsValid tables
unfolding string_eq
tables-IsValid = refl

postgres_active_example :
    (d : Dict String) × (ai_chatbot.Platform.Index.Postgres.active_chunks 1 tables ≡ ok d)
    × NodupKeys d
    × ((c : String)
        → lookup c d ≡ (
            if is_visible (intervals_in tables.validity c) 1
            then doc_of (stored_in tables.chunks c)
            else none))
postgres_active_example = postgres_active_lem tables tables-IsValid 1

-- A chunk that version 1 showed is closed when version 2 does not want it.
is_visible-publish_at_self_example : is_visible (publish_at 2 true false ((1, none) ∷ [])) 2 ≡ false
is_visible-publish_at_self_example =
    is_visible-publish_at_self 1 2 false ((1, none) ∷ []) (ground arith) refl
