-- ===== src/Tests/Staging.antt =====
-- A staged row, written twice. A row is its key and the time when it was written.
use mathlib.Core.List.{Perm}
use ai_chatbot.Base.{
  Option, Result, ok, raise, value_error, ℕ, String, List, [], ◌∷◌, ◌≡◌, refl, string_eq,
}
use ai_chatbot.Base.Texts.{text_before}
use ai_chatbot.Contracts.Enums.{RegionKind}
use ai_chatbot.Platform.Ingest.{write, write-twice}
use ai_chatbot.Platform.Ingest.ChunkSets.{Codec, key_eq, write_chunk_set, read_chunk_sets}
use ai_chatbot.Platform.Ingest.ChunkSets.Laws.{IsFaithful, ordered, read_chunk_sets-write_chunk_set}
use ai_chatbot.Tests.Sample.{set_b}

abbrev Row : Type 0
Row = String × ℕ

abbrev key : Row → String
key row = row.0

abbrev stamp : ℕ → Row → Row
stamp now row = (row.0, now)

abbrev table : List Row
table = ("a", 1) ∷ ("b", 1) ∷ []

write-twice_example :
    write key stamp (("b", 0) ∷ []) 9 (write key stamp (("b", 0) ∷ []) 5 table).1
    ≡ write key stamp (("b", 0) ∷ []) 9 table
write-twice_example = write-twice key stamp (("b", 0) ∷ []) 5 9 table (λ n row. refl)

data Json : Type 0 where
  texts : List String → Json
  kinds : List RegionKind → Json
  vector : Option (List ℕ) → Json

load_texts : Json → Result (List String)
load_texts (texts xs) = ok xs
load_texts (kinds xs) = raise value_error
load_texts (vector v) = raise value_error

load_kinds : Json → Result (List RegionKind)
load_kinds (kinds xs) = ok xs
load_kinds (texts xs) = raise value_error
load_kinds (vector v) = raise value_error

load_vector : Json → Result (Option (List ℕ))
load_vector (vector v) = ok v
load_vector (texts xs) = raise value_error
load_vector (kinds xs) = raise value_error

abbrev codec : Codec ℕ Json
codec = record {
  dump_texts = texts;
  load_texts = load_texts;
  dump_kinds = kinds;
  load_kinds = load_kinds;
  dump_vector = vector;
  load_vector = load_vector;
}

codec-IsFaithful : IsFaithful codec
unfolding load_texts load_kinds load_vector
codec-IsFaithful = record { texts = λ xs. refl; kinds = λ xs. refl; vector = λ v. refl }

read_chunk_sets-write_chunk_set_example :
    (read_chunk_sets codec text_before ("run" ∷ []) (write_chunk_set codec set_b 7 []).1
      ≡ ok (record set_b { chunks = ordered codec codec-IsFaithful set_b 7 text_before } ∷ []))
    × Perm (ordered codec codec-IsFaithful set_b 7 text_before) set_b.chunks
unfolding string_eq key_eq
read_chunk_sets-write_chunk_set_example =
    read_chunk_sets-write_chunk_set codec codec-IsFaithful set_b 7 text_before [] refl refl refl
      refl
