-- ===== src/Platform/Ops/Retention.antt =====
-- libs/platform/src/chatbot_platform/retention.py. The object store is a parameter: its state, and
-- `delete`, which takes a bucket and a key.
use ai_chatbot.Base.{
  ℕ, ◌-◌, String, Bool, ◌&&◌, not, none, List, [], ◌∷◌, ◌++◌, map, ok, raise, ltb, ◌==◌, string_eq,
  contains, keep, length,
}
use ai_chatbot.Base.Table.{update_where, count_where, delete_where}
use ai_chatbot.Base.State.{M, ◌>>◌, ◌>>=◌, pure, reading}
use ai_chatbot.Platform.Ops.{Interaction, EscalationTicket, Upload, Ops}
use ai_chatbot.Platform.Ops.Storage.{split_uri}

pub record RetentionResult : Type 0 where
  pub target : String
  pub deleted : ℕ

-- The settings that the sweep reads, as spans of time.
pub record RetentionSettings : Type 0 where
  pub retention_uploads_days : ℕ
  pub retention_text_days : ℕ
  pub retention_ops_days : ℕ
  pub retention_staging_days : ℕ

module _ {F : Type 0} where
  abbrev pub is_old : ℕ → Interaction F → Bool
  is_old cutoff row = ltb row.created_at cutoff

  abbrev pub has_text : ℕ → Interaction F → Bool
  has_text cutoff row = ltb row.created_at cutoff && not (row.question_enc == "")

  abbrev pub blank_interaction : Interaction F → Interaction F
  blank_interaction row = record row { question_enc = ""; answer = none }

module _ {Store : Type 0} (delete : String → String → M Store (Unit {0})) where
  -- `store.delete(*split_uri(uri))` for each uri.
  unfoldable pub delete_objects : List String → M Store (Unit {0})
  unfolding split_uri
  delete_objects [] = pure tt
  delete_objects (uri ∷ uris) =
      (reading (λ _. split_uri uri) >>= λ place. delete place.0 place.1) >> delete_objects uris

module _ {F J : Type 0} where
  abbrev pub has_ticket_text : ℕ → EscalationTicket F J → Bool
  has_ticket_text cutoff row = ltb row.created_at cutoff && not (row.question_enc == "")

  abbrev pub blank_ticket : EscalationTicket F J → EscalationTicket F J
  blank_ticket row = record row { question_enc = ""; answer = none }

  unfoldable pub blank_text : ℕ → Ops F J → List RetentionResult × Ops F J
  unfolding update_where count_where
  blank_text cutoff s = (
    record {
      target = "ops.interactions text";
      deleted = count_where (has_text cutoff) s.interactions;
    }
        ∷ record {
          target = "ops.escalation_tickets text";
          deleted = count_where (has_ticket_text cutoff) s.escalation_tickets;
        }
        ∷ [],
    record s {
      interactions = update_where (has_text cutoff) blank_interaction s.interactions;
      escalation_tickets = update_where (has_ticket_text cutoff) blank_ticket s.escalation_tickets;
    },
  )

  -- The requests that are deleted.
  abbrev pub old_requests : ℕ → Ops F J → List String
  old_requests cutoff s = map (λ row. row.request_id) (keep (is_old cutoff) s.interactions)

  unfoldable pub expire_ops : ℕ → Ops F J → List RetentionResult × Ops F J
  unfolding count_where
  expire_ops cutoff s =
      let request_ids = old_requests cutoff s in
      (
        record { target = "ops.interactions"; deleted = length request_ids }
            ∷ record {
              target = "ops.escalation_tickets";
              deleted = count_where (λ row. ltb row.created_at cutoff) s.escalation_tickets;
            }
            ∷ record {
              target = "ops.request_facts";
              deleted = count_where (λ row. ltb row.created_at cutoff) s.request_facts;
            }
            ∷ record {
              target = "ops.guard_events";
              deleted = count_where (λ row. ltb row.created_at cutoff) s.guard_events;
            }
            ∷ record {
              target = "ops.conversations";
              deleted = count_where (λ row. ltb row.last_active_at cutoff) s.conversations;
            }
            ∷ [],
        record s {
          citations = delete_where (λ row. contains request_ids row.request_id) s.citations;
          tool_calls = delete_where (λ row. contains request_ids row.request_id) s.tool_calls;
          interactions = delete_where (λ row. contains request_ids row.request_id) s.interactions;
          escalation_tickets = delete_where (λ row. ltb row.created_at cutoff) s.escalation_tickets;
          request_facts = delete_where (λ row. ltb row.created_at cutoff) s.request_facts;
          guard_events = delete_where (λ row. ltb row.created_at cutoff) s.guard_events;
          conversations = delete_where (λ row. ltb row.last_active_at cutoff) s.conversations;
        },
      )

  unfoldable pub expire_staging : ℕ → Ops F J → RetentionResult × Ops F J
  unfolding count_where
  expire_staging cutoff s = (
    record {
      target = "ingest.chunks";
      deleted = count_where (λ row. ltb row.created_at cutoff) s.staged_chunks;
    },
    record s { staged_chunks = delete_where (λ row. ltb row.created_at cutoff) s.staged_chunks },
  )

  abbrev pub old_uploads : ℕ → Ops F J → List Upload
  old_uploads cutoff s = keep (λ row. ltb row.created_at cutoff) s.uploads

  -- The sweeps after the uploads, which do not raise.
  abbrev pub sweep_tables : RetentionSettings → ℕ → Ops F J → List RetentionResult × Ops F J
  sweep_tables settings now s =
      let blanked = blank_text (now - settings.retention_text_days) s in
      let expired = expire_ops (now - settings.retention_ops_days) blanked.1 in
      let staged = expire_staging (now - settings.retention_staging_days) expired.1 in
      (blanked.0 ++ (expired.0 ++ (staged.0 ∷ [])), staged.1)

  module _ {Store : Type 0} (delete : String → String → M Store (Unit {0})) where
    -- The objects go first: the rows are deleted once every object is.
    unfoldable pub expire_uploads : ℕ → M (Store × Ops F J) RetentionResult
    unfolding delete_objects
    expire_uploads cutoff (store, s) =
        let old = old_uploads cutoff s in
        let done = delete_objects delete (map (λ row. row.uri) old) store in
        elim done.0 [
          | raise e ↦ (raise e, (done.1, s))
          | ok _ ↦ (
            ok (record { target = "ops.uploads"; deleted = length old }),
            (
              done.1,
              record s {
                uploads =
                    delete_where
                      (λ row. contains (map (λ x. x.attachment_id) old) row.attachment_id)
                      s.uploads;
              },
            ),
          )
        ]

    unfoldable pub run_retention :
        RetentionSettings → ℕ → M (Store × Ops F J) (List RetentionResult)
    unfolding expire_uploads blank_text expire_ops expire_staging
    run_retention settings now s =
        let first = expire_uploads (now - settings.retention_uploads_days) s in
        let swept = sweep_tables settings now first.1.1 in
        elim first.0 [
          | raise e ↦ (raise e, first.1)
          | ok result ↦ (ok (result ∷ swept.0), (first.1.0, swept.1))
        ]
