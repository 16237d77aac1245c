-- ===== src/Contracts/Routes.antt =====
-- libs/contracts/src/chatbot_contracts/routes.py: the endpoints of the online components. The type of
-- a record is the name of its class.
use ai_chatbot.Base.{String, Bool, ◌&&◌, List, [], ◌∷◌, ◌==◌, string_eq}

pub record Endpoint : Type 0 where
  pub service : String
  pub path : String
  pub request : String
  pub response : String

abbrev pub answer : Endpoint
answer = record {
  service = "orchestrator";
  path = "/v1/answer";
  request = "AskRequest";
  response = "StreamEvent";
}

abbrev pub vision : Endpoint
vision = record {
  service = "w2_vision";
  path = "/v1/vision";
  request = "VisionRequest";
  response = "VisionResult";
}

abbrev pub code : Endpoint
code = record {
  service = "w3_code";
  path = "/v1/code";
  request = "CodeTask";
  response = "CodeResult";
}

abbrev pub calc : Endpoint
calc = record {
  service = "w4_math";
  path = "/v1/calc";
  request = "CalcCheck";
  response = "CalcResult";
}

abbrev pub clean : Endpoint
clean = record {
  service = "w5_clean";
  path = "/v1/clean";
  request = "CleanRequest";
  response = "CleanResult";
}

abbrev pub embed : Endpoint
embed = record {
  service = "w6_embed";
  path = "/v1/embed";
  request = "EmbedRequest";
  response = "EmbedResult";
}

abbrev pub retrieve : Endpoint
retrieve = record {
  service = "w7_deepsearch";
  path = "/v1/retrieve";
  request = "RetrievalRequest";
  response = "RetrievalResult";
}

abbrev pub external_search : Endpoint
external_search = record {
  service = "w7_deepsearch";
  path = "/v1/external";
  request = "ExternalSearchRequest";
  response = "ExternalSearchResult";
}

abbrev pub generate : Endpoint
generate = record {
  service = "w8_gen";
  path = "/v1/generate";
  request = "GenerationRequest";
  response = "GenerationResult";
}

abbrev pub generate_stream : Endpoint
generate_stream = record {
  service = "w8_gen";
  path = "/v1/generate/stream";
  request = "GenerationRequest";
  response = "StreamEvent";
}

abbrev pub open_ticket : Endpoint
open_ticket = record {
  service = "escalation";
  path = "/v1/tickets";
  request = "EscalationTicket";
  response = "EscalationTicket";
}

abbrev pub get_ticket : Endpoint
get_ticket = record {
  service = "escalation";
  path = "/v1/tickets/lookup";
  request = "TicketQuery";
  response = "EscalationTicket";
}

abbrev pub all_endpoints : List Endpoint
all_endpoints =
    answer ∷ vision ∷ code ∷ calc ∷ clean ∷ embed ∷ retrieve ∷ external_search ∷ generate
    ∷ generate_stream ∷ open_ticket ∷ get_ticket ∷ []

-- The equality of two endpoints, which Python derives from the fields.
abbrev pub same_endpoint : Endpoint → Endpoint → Bool
same_endpoint a b =
    a.service == b.service
    && a.path == b.path
    && (a.request == b.request && a.response == b.response)
