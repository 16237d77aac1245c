-- ===== src/Common/Events.antt =====
-- Server sent events: `encode_event`, `sse_response` and `decode_events` of
-- libs/common/src/chatbot_common/service.py, and the lines that `ContractClient.stream` of http.py
-- reads. Parameter: the JSON text of an event.
pub mod Laws
use Prim.Native.String.{[] as []ˢ, ◌∷◌ as ◌∷ˢ◌}
use ai_chatbot.Base.{String, ◌<>◌, Option, none, some, List, [], ◌∷◌, map, Result, ok, raise, Error}
use ai_chatbot.Base.Texts.{after_prefix, splitlines, newline}
use ai_chatbot.Contracts.OnlineEnums.{
  EventType, answer_delta, answer_final, status_external_search, status_expert_pending,
  answer_expert,
}
use ai_chatbot.Contracts.Query.{StreamEvent}

-- The value of the enumeration, as it is formatted.
abbrev pub type_text : EventType → String
type_text answer_delta = "answer.delta"
type_text answer_final = "answer.final"
type_text status_external_search = "status.external_search"
type_text status_expert_pending = "status.expert_pending"
type_text answer_expert = "answer.expert"
type_text EventType.error = "error"

-- `model_dump_json` and `model_validate_json` of an event.
pub record EventJson : Type 0 where
  pub dump : StreamEvent → String
  pub validate : String → Result StreamEvent

-- A text, and the end of its line.
abbrev pub line_of : String → String → String
line_of line rest = line <> (newline ∷ˢ rest)

module _ (J : EventJson) where
  -- The text of an event, in front of `rest`.
  unfoldable pub encode_event : StreamEvent → String → String
  encode_event event rest =
      line_of ("event: " <> type_text event.event_type)
        (line_of ("data: " <> J.dump event) (newline ∷ˢ rest))

  -- The body of `sse_response`.
  unfoldable pub event_stream : List StreamEvent → String
  unfolding encode_event
  event_stream [] = ""
  event_stream (event ∷ events) = encode_event event (event_stream events)

  abbrev pub add_event : Result StreamEvent → Result (List StreamEvent) → Result (List StreamEvent)
  add_event (raise e) rest = raise e
  add_event (ok event) (raise e) = raise e
  add_event (ok event) (ok events) = ok (event ∷ events)

  -- The events on the lines that start with `data: `.
  unfoldable pub decode_lines : List String → Result (List StreamEvent)
  unfolding after_prefix
  decode_lines [] = ok []
  decode_lines (line ∷ lines) =
      let rest = decode_lines lines in
      elim (after_prefix "data: " line) [
        | none ↦ rest
        | some json ↦ add_event (J.validate json) rest
      ]

  unfoldable pub decode_events : String → Result (List StreamEvent)
  unfolding decode_lines splitlines
  decode_events text = decode_lines (splitlines text)

  -- What `ContractClient.stream` yields for the lines of a response, and what it raises then.
  unfoldable pub stream_lines : List String → List StreamEvent × Option Error
  unfolding after_prefix
  stream_lines [] = ([], none)
  stream_lines (line ∷ lines) =
      let rest = stream_lines lines in
      elim (after_prefix "data: " line) [
        | none ↦ rest
        | some json ↦ elim (J.validate json) [
          | raise e ↦ ([], some e)
          | ok event ↦ (event ∷ rest.0, rest.1)
        ]
      ]
