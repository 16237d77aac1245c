-- ===== src/Common/Events/Laws.antt =====
-- Events are decoded as they were encoded, where their JSON text stays on one line.
use Prim.Native.String.append
use Prim.Native.Char.{Char, code}
use Prim.Native.String.{[] as []ˢ, ◌∷◌ as ◌∷ˢ◌}
use ai_chatbot.Base.{
  String, ◌<>◌, true, false, Option, none, some, List, [], ◌∷◌, all, All, ◌≡◌, refl, ap, ◌∙◌,
  Result, ok, raise, Error, arith, ◌==◌, nat_eq, string_eq,
}
use ai_chatbot.Base.Texts.{
  after_prefix, after_prefix-append, splitlines, splitlines-line, newline, no_break,
  no_break-append, append_assoc, is_break,
}
use ai_chatbot.Contracts.OnlineEnums.{
  EventType, answer_delta, answer_final, status_external_search, status_expert_pending,
  answer_expert,
}
use ai_chatbot.Contracts.Query.{StreamEvent}
use ai_chatbot.Common.Events.{
  EventJson, type_text, line_of, encode_event, event_stream, decode_lines, decode_events,
  stream_lines, add_event,
}

type_text-plain : (t : EventType) → no_break ("event: " <> type_text t) ≡ true
unfolding nat_eq
type_text-plain answer_delta = refl
type_text-plain answer_final = refl
type_text-plain status_external_search = refl
type_text-plain status_expert_pending = refl
type_text-plain answer_expert = refl
type_text-plain EventType.error = refl

type_text-other : (t : EventType) → after_prefix "data: " ("event: " <> type_text t) ≡ none
unfolding after_prefix string_eq
type_text-other answer_delta = refl
type_text-other answer_final = refl
type_text-other status_external_search = refl
type_text-other status_expert_pending = refl
type_text-other answer_expert = refl
type_text-other EventType.error = refl

no_break-data : (json : String) → no_break json ≡ true → no_break ("data: " <> json) ≡ true
unfolding nat_eq
no_break-data json h = no_break-append "data: " json ∙ h

splitlines-blank : (rest : String) → splitlines (newline ∷ˢ rest) ≡ "" ∷ splitlines rest
unfolding splitlines nat_eq
splitlines-blank rest = refl

splitlines-line_of :
    (line rest : String)
    → no_break line ≡ true
    → splitlines (line_of line rest) ≡ line ∷ splitlines rest
unfolding nat_eq
splitlines-line_of line rest h = splitlines-line line newline rest h refl refl

-- A text with a line boundary inside, as two lines.
broken_line :
    (before after : String) (c : Char) (rest : String)
    → ("data: " <> (before <> (c ∷ˢ after))) <> rest
      ≡ ("data: " <> before) <> (c ∷ˢ (after <> rest))
broken_line before after c rest =
    rw
      (
        append_assoc "data: " (before <> (c ∷ˢ after)) rest,
        append_assoc before (c ∷ˢ after) rest,
        append.cons c after rest,
        append_assoc "data: " before (c ∷ˢ (after <> rest)),
      )
      refl

module _ (J : EventJson) where
  decode_lines-other :
      (line : String) (lines : List String)
      → after_prefix "data: " line ≡ none
      → decode_lines J (line ∷ lines) ≡ decode_lines J lines
  unfolding decode_lines
  decode_lines-other line lines h = rw (decode_lines, h) refl

  decode_lines-data :
      (json : String) (lines : List String)
      → decode_lines J (("data: " <> json) ∷ lines)
        ≡ add_event J (J.validate json) (decode_lines J lines)
  unfolding decode_lines
  decode_lines-data json lines = rw (decode_lines, after_prefix-append "data: " json) refl

  decode_lines-blank : (lines : List String) → decode_lines J ("" ∷ lines) ≡ decode_lines J lines
  unfolding after_prefix
  decode_lines-blank lines = decode_lines-other "" lines refl

  decode_lines-end : decode_lines J (splitlines (newline ∷ˢ []ˢ)) ≡ ok []
  unfolding decode_lines splitlines nat_eq after_prefix
  decode_lines-end = refl

  encode_event-lines :
      (event : StreamEvent) (rest : String)
      → no_break (J.dump event) ≡ true
      → decode_events J (encode_event J event rest)
        ≡ add_event J (J.validate (J.dump event)) (decode_events J rest)
  unfolding decode_events encode_event
  encode_event-lines event rest h =
      rw
        (
          splitlines-line_of ("event: " <> type_text event.event_type)
              (line_of ("data: " <> J.dump event) (newline ∷ˢ rest))
              (type_text-plain event.event_type),
          splitlines-line_of ("data: " <> J.dump event) (newline ∷ˢ rest)
              (no_break-data (J.dump event) h),
          splitlines-blank rest,
          decode_lines-other ("event: " <> type_text event.event_type)
              (("data: " <> J.dump event) ∷ "" ∷ splitlines rest)
              (type_text-other event.event_type),
          decode_lines-data (J.dump event) ("" ∷ splitlines rest),
          decode_lines-blank (splitlines rest),
        )
        refl

  -- The events of a body are decoded as they were encoded, in their order, where the JSON text of
  -- each is read as that event and holds no line boundary.
  pub decode_events-event_stream :
      (events : List StreamEvent)
      → All (λ event. J.validate (J.dump event) ≡ ok event) events
      → all (λ event. no_break (J.dump event)) events ≡ true
      → decode_events J (event_stream J events) ≡ ok events
  unfolding event_stream decode_events splitlines decode_lines
  decode_events-event_stream [] back h = refl
  decode_events-event_stream (event ∷ events) back h =
      rw
        (
          encode_event-lines event (event_stream J events) (ground arith),
          back.0,
          decode_events-event_stream events back.1 (ground arith),
        )
        refl

  -- An event whose JSON text has a line boundary other than a carriage return inside, and behind it
  -- neither a second one nor the text of a data line, is read from the part before the boundary
  -- only.
  pub decode_events-broken :
      (event : StreamEvent) (before after : String) (c : Char)
      → J.dump event ≡ before <> (c ∷ˢ after)
      → no_break before ≡ true
      → is_break c ≡ true
      → (code c == 13) ≡ false
      → no_break after ≡ true
      → after_prefix "data: " after ≡ none
      → decode_events J (encode_event J event "") ≡ add_event J (J.validate before) (ok [])
  unfolding decode_events encode_event
  decode_events-broken event before after c h first b r second other =
      let ending = newline ∷ˢ (newline ∷ˢ []ˢ) in
      rw
        (
          splitlines-line_of ("event: " <> type_text event.event_type)
              (line_of ("data: " <> J.dump event) (newline ∷ˢ []ˢ))
              (type_text-plain event.event_type),
          decode_lines-other ("event: " <> type_text event.event_type)
              (splitlines (line_of ("data: " <> J.dump event) (newline ∷ˢ []ˢ)))
              (type_text-other event.event_type),
          h,
          broken_line before after c ending,
          splitlines-line ("data: " <> before) c (after <> ending) (no_break-data before first) b r,
          decode_lines-data before (splitlines (after <> ending)),
          splitlines-line_of after (newline ∷ˢ []ˢ) second,
          decode_lines-other after (splitlines (newline ∷ˢ []ˢ)) other,
        )
        (ap (add_event J (J.validate before)) decode_lines-end)

  -- What a stream comes to when it is read to its end.
  abbrev pub whole_stream : List StreamEvent × Option Error → Result (List StreamEvent)
  whole_stream (events, none) = ok events
  whole_stream (events, some e) = raise e

  -- The lines of a body decode to the events that a stream of the same lines yields, and raise what
  -- ends the stream.
  pub decode_lines-stream_lines :
      (lines : List String) → decode_lines J lines ≡ whole_stream (stream_lines J lines)
  unfolding decode_lines stream_lines
  decode_lines-stream_lines [] = refl
  decode_lines-stream_lines (line ∷ lines) = ground (arith, decode_lines-stream_lines lines)
