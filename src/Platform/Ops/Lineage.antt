-- ===== src/Platform/Ops/Lineage.antt =====
-- libs/platform/src/chatbot_platform/lineage.py, over any serving index. The two queries and the
-- update of `sweep_superseded` are on the tables of ops.
use ai_chatbot.Base.{
  String, Bool, true, ◌&&◌, ◌||◌, not, Option, none, some, List, [], ◌∷◌, ◌++◌, map, Result, ok,
  raise, not_found, if◌then◌else◌, ◌==◌, string_eq, contains, keep, any, is_some,
}
use ai_chatbot.Base.Dict.{Dict, lookup, of_pairs, keys}
use ai_chatbot.Base.Table.{update_where}
use ai_chatbot.Platform.Models.{StoredChunk, LineageTrace, CorrectionFlag, serving_alias}
use ai_chatbot.Platform.Registry.{Registry, get_doc_version, get_alias, superseded_by, retracted}
use ai_chatbot.Contracts.KnowledgeBase.{DocumentVersion}
use ai_chatbot.Platform.Index.{ServingIndex}
use ai_chatbot.Platform.Ops.{Interaction, Citation, Ops}

abbrev pub trace_of : {F : Type 0} → String → StoredChunk F → DocumentVersion → LineageTrace
trace_of id stored document = record {
  chunk_id = id;
  doc_version = document.doc_version;
  page_start = stored.chunk.page_start;
  page_end = stored.chunk.page_end;
  region_ids = stored.chunk.region_ids;
  ingestion_run_id = stored.ingestion_run_id;
  raw_sha256 = document.sha256;
  raw_uri = document.raw_uri;
  source_url = document.source_url;
  licence = document.licence;
}

abbrev pub cited_by : Option String → String → List (String × String)
cited_by none request = []
cited_by (some chunk) request = (request, chunk) ∷ []

-- A citation of an interaction that is not flagged.
abbrev pub is_unflagged : {F : Type 0} → List (Interaction F) → String → Bool
is_unflagged rows request = any (λ row. row.request_id == request && not row.source_corrected) rows

abbrev pub cited : {F : Type 0} → List (Interaction F) → List Citation → List (String × String)
cited rows [] = []
cited rows (row ∷ citations) =
    let rest = cited rows citations in
    if is_unflagged rows row.request_id then cited_by row.chunk_id row.request_id ++ rest else rest

abbrev pub docs_of : {F : Type 0} → List (StoredChunk F) → Dict String
docs_of stored = of_pairs (map (λ s. (s.chunk.chunk_id, s.chunk.doc_version)) stored)

-- The flag of one citation, if its document was replaced or retracted.
abbrev pub flag_of : Dict String → Dict String → List String → String → String → List CorrectionFlag
flag_of docs replaced gone request chunk = elim (lookup chunk docs) [
  | none ↦ []
  | some doc ↦
      if is_some (lookup doc replaced) || contains gone doc
      then record {
        request_id = request;
        chunk_id = chunk;
        doc_version = doc;
        superseded_by = lookup doc replaced;
      }
        ∷ []
      else []
]

unfoldable pub flags_of :
    Dict String → Dict String → List String → List (String × String) → List CorrectionFlag
unfolding lookup
flags_of docs replaced gone [] = []
flags_of docs replaced gone ((request, chunk) ∷ rest) =
    flag_of docs replaced gone request chunk ++ flags_of docs replaced gone rest

abbrev pub flagged_requests : List CorrectionFlag → List String
flagged_requests = map (λ flag. flag.request_id)

-- The chunks that are cited and no longer active.
abbrev pub stale_ids : Dict String → List (String × String) → List String
stale_ids active pairs =
    keep (λ chunk. not (contains (keys active) chunk)) (map (λ pair. pair.1) pairs)

module _ {F : Type 0} (I : ServingIndex F) where
  unfoldable pub trace_citation : Registry → I.State → String → Result LineageTrace
  trace_citation r i id = elim (I.get_chunks (id ∷ []) i) [
    | [] ↦ raise not_found
    | stored ∷ _ ↦ elim (get_doc_version stored.chunk.doc_version r) [
      | raise e ↦ raise e
      | ok document ↦ ok (trace_of id stored document)
    ]
  ]

  abbrev pub flags_at :
      Registry → I.State → Dict String → List (String × String) → List CorrectionFlag
  flags_at r i active pairs =
      let docs = docs_of (I.get_chunks (stale_ids active pairs) i) in
      let versions = map (λ item. item.1) docs in
      flags_of docs (superseded_by versions r) (retracted versions r) pairs

  module _ {J : Type 0} where
    -- `update` of the flagged interactions.
    abbrev pub mark_corrected : List String → Ops F J → Ops F J
    mark_corrected requests s = record s {
      interactions =
          update_where (λ row. contains requests row.request_id)
            (λ row. record row { source_corrected = true }) s.interactions;
    }

    unfoldable pub sweep_superseded :
        Registry → I.State → Ops F J → Result (List CorrectionFlag) × Ops F J
    unfolding flags_of
    sweep_superseded r i s = elim (get_alias serving_alias r) [
      | none ↦ (ok [], s)
      | some serving ↦ elim (I.active_chunks serving i) [
        | raise e ↦ (raise e, s)
        | ok active ↦
            let flags = flags_at r i active (cited s.interactions s.citations) in
            (ok flags, mark_corrected (flagged_requests flags) s)
      ]
    ]
