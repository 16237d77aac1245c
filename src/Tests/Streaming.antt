-- ===== src/Tests/Streaming.antt =====
-- Two events, with their text as their JSON; and one whose text has a line separator.
use Prim.Native.Char.{char}
use Prim.Native.String.{◌∷◌ as ◌∷ˢ◌}
use ai_chatbot.Base.{String, ◌<>◌, none, [], ◌∷◌, ◌≡◌, refl, ok, nat_eq, string_eq}
use ai_chatbot.Base.Texts.{after_prefix}
use ai_chatbot.Contracts.OnlineEnums.{answer_delta}
use ai_chatbot.Contracts.Query.{StreamEvent}
use ai_chatbot.Common.Events.{EventJson, encode_event, event_stream, decode_events, add_event}
use ai_chatbot.Common.Events.Laws.{decode_events-event_stream, decode_events-broken}

abbrev event : String → StreamEvent
event text = record {
  schema_version = "1.1";
  producer = "gateway";
  request_id = "r1";
  event_type = answer_delta;
  text = text;
  citations = [];
  level = none;
  conversation_id = none;
}

abbrev text_json : EventJson
text_json = record { dump = λ e. e.text; validate = λ text. ok (event text) }

decode_events-event_stream_example :
    decode_events text_json (event_stream text_json (event "one" ∷ event "two" ∷ []))
    ≡ ok (event "one" ∷ event "two" ∷ [])
unfolding nat_eq
decode_events-event_stream_example =
    decode_events-event_stream text_json (event "one" ∷ event "two" ∷ []) (refl, (refl, tt)) refl

abbrev separated : String
separated = "one" <> (char 8232 tt ∷ˢ "two")

decode_events-broken_example :
    decode_events text_json (encode_event text_json (event separated) "")
    ≡ add_event text_json (text_json.validate "one") (ok [])
unfolding nat_eq string_eq after_prefix
decode_events-broken_example =
    decode_events-broken text_json (event separated) "one" "two" (char 8232 tt) refl refl refl refl
      refl refl
