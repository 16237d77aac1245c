-- ===== src/Platform/Registry/Queries.antt =====
-- The methods of `Registry` that read.
use ai_chatbot.Base.{
  ℕ, zero, suc, ◌+◌, String, Bool, true, false, ◌&&◌, ◌||◌, not, Option, none, some, List, [], ◌∷◌,
  map, Result, ok, raise, not_found, or_raise, ltb, leb, if◌then◌else◌, ◌==◌, string_eq, nat_eq,
  contains, keep, any, is_some,
}
use mathlib.Core.Option
use ai_chatbot.Base.Dict.{Dict, of_pairs, merge}
use ai_chatbot.Base.Table.{find?}
use ai_chatbot.Contracts.Enums.{is_published}
use ai_chatbot.Contracts.KnowledgeBase.{DocumentVersion, KnowledgeBaseManifest}
use ai_chatbot.Platform.Models.{RunStatus, succeeded, GateReport}
use ai_chatbot.Platform.Registry.Rows.{DocRow, KbRow, Registry, doc_from_row, manifest_from_row}

-- `order_by(key.desc()).limit(1)`: of rows with equal keys the first.
unfoldable pub greatest : {A : Type 0} → (A → ℕ) → List A → Option A
greatest key [] = none
greatest key (x ∷ xs) = elim (greatest key xs) [
  | none ↦ some x
  | some y ↦ if ltb (key x) (key y) then some y else some x
]

-- `order_by(key)`, rows with equal keys in their order.
unfoldable pub insert_by : {A : Type 0} → (A → ℕ) → A → List A → List A
insert_by key x [] = x ∷ []
insert_by key x (y ∷ ys) = if leb (key x) (key y) then x ∷ y ∷ ys else y ∷ insert_by key x ys

unfoldable pub order_by : {A : Type 0} → (A → ℕ) → List A → List A
unfolding insert_by
order_by key [] = []
order_by key (x ∷ xs) = insert_by key x (order_by key xs)

abbrev pub has_version : String → DocRow → Bool
has_version v row = row.doc_version == v

abbrev pub is_retracted : DocRow → Bool
is_retracted row = is_some row.retracted_at

unfoldable pub doc_versions_by_id : List String → Registry → Dict DocumentVersion
unfolding of_pairs doc_from_row
doc_versions_by_id ids r = of_pairs (
    map (λ row. (row.doc_version, doc_from_row row))
      (keep (λ row. contains ids row.doc_version) r.docs))

unfoldable pub get_doc_version : String → Registry → Result DocumentVersion
unfolding doc_versions_by_id
get_doc_version v r =
    or_raise (ai_chatbot.Base.Dict.lookup v (doc_versions_by_id (v ∷ []) r)) not_found

unfoldable pub find_doc_version : String → String → Registry → Option DocumentVersion
unfolding find? doc_from_row
find_doc_version id hash r =
    Option.map doc_from_row (find? (λ row. row.doc_id == id && row.sha256 == hash) r.docs)

-- Newest version of a document that is not retracted.
unfoldable pub latest_doc_version : String → Registry → Option DocumentVersion
unfolding greatest doc_from_row
latest_doc_version id r = Option.map doc_from_row (
    greatest (λ row. row.created_at)
      (keep (λ row. row.doc_id == id && not (is_retracted row)) r.docs))

abbrev supersessions : List String → List DocRow → List (String × String)
supersessions ids [] = []
supersessions ids (row ∷ rows) = elim row.supersedes [
  | none ↦ supersessions ids rows
  | some old ↦
      let rest = supersessions ids rows in
      if contains ids old then (old, row.doc_version) ∷ rest else rest
]

-- Old version to the version that corrects it, for the given old versions.
unfoldable pub superseded_by : List String → Registry → Dict String
unfolding of_pairs
superseded_by ids r = of_pairs (supersessions ids r.docs)

unfoldable pub retracted : List String → Registry → List String
retracted ids r =
    map (λ row. row.doc_version)
      (keep (λ row. contains ids row.doc_version && is_retracted row) r.docs)

abbrev pub is_succeeded : RunStatus → Bool
is_succeeded succeeded = true
is_succeeded _ = false

-- Registered versions without a successful ingestion run.
unfoldable pub pending_doc_versions : Registry → List String
unfolding order_by
pending_doc_versions r =
    let done : List String =
      map (λ run. run.doc_version) (keep (λ run. is_succeeded run.status) r.runs) in
    map (λ row. row.doc_version)
      (order_by (λ row. row.created_at)
        (keep (λ row. not (is_retracted row) && not (contains done row.doc_version)) r.docs))

-- `max(version_id) or 0`, plus one.
abbrev pub highest : List KbRow → ℕ
highest [] = 0
highest (row ∷ rows) = if ltb row.version_id (highest rows) then highest rows else row.version_id

unfoldable pub next_version_id : Registry → ℕ
next_version_id r = highest r.versions + 1

abbrev pub has_id : ℕ → KbRow → Bool
has_id n row = row.version_id == n

unfoldable pub find_kb : ℕ → Registry → Option KbRow
unfolding find?
find_kb n r = find? (has_id n) r.versions

unfoldable pub get_kb_version : ℕ → Registry → Result KnowledgeBaseManifest
unfolding find_kb manifest_from_row
get_kb_version n r = or_raise (Option.map manifest_from_row (find_kb n r)) not_found

unfoldable pub list_kb_versions : Registry → List KnowledgeBaseManifest
unfolding order_by manifest_from_row
list_kb_versions r = map manifest_from_row (order_by (λ row. row.version_id) r.versions)

unfoldable pub latest_published : Registry → Option KnowledgeBaseManifest
unfolding greatest manifest_from_row
latest_published r =
    Option.map manifest_from_row
      (greatest (λ row. row.version_id) (keep (λ row. is_published row.status) r.versions))

unfoldable pub get_alias : String → Registry → Option ℕ
unfolding find?
get_alias name r = Option.map (λ row. row.version_id) (find? (λ row. row.name == name) r.aliases)

unfoldable pub get_gate_report : String → Registry → Result GateReport
unfolding find?
get_gate_report id r = or_raise (find? (λ report. report.report_id == id) r.reports) not_found
