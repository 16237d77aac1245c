-- ===== src/Platform/Registry/Statements.antt =====
-- The methods of `Registry` that write, each in one transaction.
use ai_chatbot.Base.{
  ℕ, String, Bool, Option, none, some, List, [], ◌∷◌, ◌++◌, Result, ok, raise, not_found, integrity,
  if◌then◌else◌, ◌==◌, string_eq, nat_eq, any,
}
use ai_chatbot.Base.Dict.{Dict}
use ai_chatbot.Base.State.{M}
use ai_chatbot.Base.Table.{update_where, count_where}
use ai_chatbot.Contracts.Enums.{KnowledgeBaseStatus, is_published}
use ai_chatbot.Contracts.KnowledgeBase.{DocumentVersion, KnowledgeBaseManifest}
use ai_chatbot.Platform.Models.{RunStatus, running, SmeDecision, GateReport}
use ai_chatbot.Platform.Registry.Rows.{KbRow, Registry, doc_to_row, manifest_to_row}
use ai_chatbot.Platform.Registry.Queries.{has_version, has_id}

-- `insert` into a table whose rows differ in the key that `same` compares with the new row.
abbrev insert_row :
    {A : Type 0} → (A → Bool) → A → List A → (List A → Registry) → M Registry (Unit {0})
insert_row same row rows into r =
    if any same rows then (raise integrity, r) else (ok tt, into (rows ++ (row ∷ [])))

-- `_update_one`: the update is committed before the count is looked at.
abbrev update_one :
    {A : Type 0}
    → (A → Bool)
    → (A → A)
    → List A
    → (List A → Registry)
    → Result (Unit {0}) × Registry
update_one p f rows into =
    (if count_where p rows == 1 then ok tt else raise not_found, into (update_where p f rows))

unfoldable pub add_doc_version : DocumentVersion → ℕ → M Registry (Unit {0})
unfolding doc_to_row
add_doc_version doc now r =
    insert_row (has_version doc.doc_version) (doc_to_row doc now) r.docs
      (λ rows. record r { docs = rows }) r

unfoldable pub set_page_count : String → ℕ → M Registry (Unit {0})
unfolding update_where count_where
set_page_count v n r =
    update_one (has_version v) (λ row. record row { page_count = some n }) r.docs
      (λ rows. record r { docs = rows })

unfoldable pub retract : String → ℕ → M Registry (Unit {0})
unfolding update_where count_where
retract v now r =
    update_one (has_version v) (λ row. record row { retracted_at = some now }) r.docs
      (λ rows. record r { docs = rows })

-- The run names an existing document version, by the foreign key.
unfoldable pub start_run : String → String → Option String → ℕ → M Registry String
start_run run_id v dagster now r =
    if any (λ run. run.run_id == run_id) r.runs
    then (raise integrity, r)
    else if any (has_version v) r.docs
    then (
      ok run_id,
      record r {
        runs =
            r.runs
            ++ (record {
              run_id = run_id;
              doc_version = v;
              dagster_run_id = dagster;
              status = running;
              started_at = now;
              finished_at = none;
              worker_digests = [];
              model_versions = [];
            }
                ∷ []);
      },
    )
    else (raise integrity, r)

unfoldable pub finish_run :
    String → RunStatus → Dict String → Dict String → ℕ → M Registry (Unit {0})
unfolding update_where count_where
finish_run run_id status digests models now r =
    update_one (λ run. run.run_id == run_id)
      (λ run. record run {
        status = status;
        finished_at = some now;
        worker_digests = digests;
        model_versions = models;
      })
      r.runs (λ rows. record r { runs = rows })

unfoldable pub add_kb_version : KnowledgeBaseManifest → ℕ → M Registry (Unit {0})
unfolding manifest_to_row
add_kb_version m now r =
    insert_row (has_id m.version_id) (manifest_to_row m now) r.versions
      (λ rows. record r { versions = rows }) r

-- The columns that `set_kb_status` gives to a row.
unfoldable pub with_status : KnowledgeBaseStatus → Option String → ℕ → KbRow → KbRow
with_status status report now row = record row {
  status = status;
  gate_report_id = elim report [ none ↦ row.gate_report_id | some id ↦ some id ];
  published_at = if is_published status then some now else row.published_at;
}

unfoldable pub set_kb_status : ℕ → KnowledgeBaseStatus → Option String → ℕ → M Registry (Unit {0})
unfolding update_where count_where with_status
set_kb_status n status report now r =
    update_one (has_id n) (with_status status report now) r.versions
      (λ rows. record r { versions = rows })

unfoldable pub set_alias : String → ℕ → ℕ → M Registry (Unit {0})
unfolding update_where count_where
set_alias name n now r =
    if count_where (λ row. row.name == name) r.aliases == 0
    then (
      ok tt,
      record r {
        aliases = r.aliases ++ (record { name = name; version_id = n; updated_at = now } ∷ []);
      },
    )
    else (
      ok tt,
      record r {
        aliases =
            update_where (λ row. row.name == name)
              (λ row. record row { version_id = n; updated_at = now }) r.aliases;
      },
    )

unfoldable pub add_gate_report : GateReport → M Registry (Unit {0})
add_gate_report report r =
    insert_row (λ old. old.report_id == report.report_id) report r.reports
      (λ rows. record r { reports = rows }) r

unfoldable pub set_sme_decision :
    String → SmeDecision → String → Option String → ℕ → M Registry (Unit {0})
unfolding update_where count_where
set_sme_decision id decision by comment now r =
    update_one (λ report. report.report_id == id)
      (λ report. record report {
        sme_decision = some decision;
        sme_by = some by;
        sme_comment = comment;
        sme_at = some now;
      })
      r.reports (λ rows. record r { reports = rows })
