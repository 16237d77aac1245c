-- ===== src/Common/Client.antt =====
-- `ContractClient.call`, `register_local` and the contract routes of libs/common: http.py,
-- service.py and `service_url` of settings.py. `R` are the records and `Json` the JSON values.
-- Parameters: what pydantic makes of them, and the environment.
pub mod Laws
use Prim.Native.String.{[] as []ˢ, ◌∷◌ as ◌∷ˢ◌}
use ai_chatbot.Base.{
  ℕ, String, ◌<>◌, Bool, true, false, ◌&&◌, ◌||◌, Option, none, some, List, [], ◌∷◌, ◌++◌, Result,
  ok, raise, type_error, http_status, transport, value_error, if◌then◌else◌, ◌==◌, string_eq, leb,
}
use ai_chatbot.Base.State.{M, ◌>>=◌, lift}
use ai_chatbot.Base.Texts.{same_char}
use ai_chatbot.Contracts.Routes.{Endpoint, same_endpoint}

-- The labels of the observations of `WORKER_CALL`, the oldest first.
abbrev pub Calls : Type 0
Calls = List (String × String)

abbrev pub labels : Endpoint → String × String
labels endpoint = (endpoint.service, endpoint.path)

-- A statement under `finally: _observe(endpoint, start)`.
abbrev pub observed : {A : Type 0} → Endpoint → M Calls A → M Calls A
observed endpoint m calls = ((m calls).0, (m calls).1 ++ (labels endpoint ∷ []))

-- `service.replace("_", "-")`
abbrev pub dashed : String → String
dashed []ˢ = ""
dashed (c ∷ˢ s) = (if same_char c "_" then "-" else c) ∷ˢ dashed s

abbrev pub or_default : Option String → String → String
or_default none default = default
or_default (some text) default = if text == "" then default else text

-- `environ` reads a variable, `upper` is `str.upper`.
unfoldable pub service_url : (String → Option String) → (String → String) → String → String
service_url environ upper service =
    or_default (environ ("CHATBOT_" <> (upper service <> "_URL")))
      ("http://" <> (dashed service <> ":8000"))

-- `model_dump(mode="json")`, and `model_validate` of the class with the name.
pub record Wire (R Json : Type 0) : Type 0 where
  pub dump : R → Json
  pub validate : String → Json → Result R

-- The body of a response: JSON, a stream of events, or a stream that breaks off with an error.
pub data Body (Json : Type 0) : Type 0 where
  json : Json → Body Json
  events : String → Body Json
  broken : Body Json

pub record Response (Json : Type 0) : Type 0 where
  pub status : ℕ
  pub body : Body Json

-- `raise_for_status`, and then `response.json()`; a body that breaks off is never read to its end.
abbrev pub json_of : {Json : Type 0} → Response Json → Result Json
json_of response =
    if leb 200 response.status && leb response.status 299
    then elim response.body [
      | json j ↦ ok j
      | events text ↦ raise value_error
      | broken ↦ raise transport
    ]
    else raise http_status

-- `endpoint.response is StreamEvent`
abbrev pub is_streaming : Endpoint → Bool
is_streaming endpoint = endpoint.response == "StreamEvent"

-- An async function to a record, or a function to an iterator of events, by their text.
pub data Handler (R : Type 0) : Type 0 where
  answers : (R → M Calls R) → Handler R
  streams : (R → M Calls String) → Handler R

abbrev pub Handlers : Type 0 → Type 0
Handlers R = List (Endpoint × Handler R)

module _ {R : Type 0} where
  -- `handlers.get(endpoint)`
  unfoldable pub get_handler : Endpoint → Handlers R → Option (Handler R)
  get_handler endpoint [] = none
  get_handler endpoint ((other, handler) ∷ handlers) =
      if same_endpoint endpoint other then some handler else get_handler endpoint handlers

  unfoldable pub set_handler : Endpoint → Handler R → Handlers R → Handlers R
  set_handler endpoint handler [] = (endpoint, handler) ∷ []
  set_handler endpoint handler ((other, old) ∷ handlers) =
      if same_endpoint endpoint other
      then (other, handler) ∷ handlers
      else (other, old) ∷ set_handler endpoint handler handlers

  -- `_LOCAL_HANDLERS.update(handlers)`
  unfoldable pub register_local : Handlers R → Handlers R → Handlers R
  unfolding set_handler
  register_local [] local = local
  register_local ((endpoint, handler) ∷ handlers) local =
      register_local handlers (set_handler endpoint handler local)

  -- `await handler(request)`
  abbrev pub await_handler : Handler R → R → M Calls R
  await_handler (answers f) request calls = f request calls
  await_handler (streams f) request calls = (raise type_error, calls)

module _ {R Json : Type 0} (W : Wire R Json) where
  -- A client: the base url of its HTTP client, the post that it makes, and the local handlers.
  pub record Client : Type 0 where
    pub base_url : String
    pub post : String → Json → M Calls (Response Json)
    pub local : Handlers R

  module _ (urls : String → String) where
    abbrev pub url_of : Client → Endpoint → String
    url_of client endpoint =
        (if client.base_url == "" then urls endpoint.service else "") <> endpoint.path

    abbrev pub call_over_http : Client → Endpoint → R → M Calls R
    call_over_http client endpoint request =
        client.post (url_of client endpoint) (W.dump request) >>= λ response.
        lift (json_of response) >>= λ body. lift (W.validate endpoint.response body)

    unfoldable pub call : Client → Endpoint → R → M Calls R
    unfolding get_handler
    call client endpoint request = observed endpoint (elim (get_handler endpoint client.local) [
      | some handler ↦ await_handler handler request
      | none ↦ call_over_http client endpoint request
    ])

  -- The routes of an app: a path, and what answers a POST to it.
  abbrev pub Routes : Type 0
  Routes = List (String × (Json → M Calls (Response Json)))

  -- What the app answers for a result: an error of a handler becomes a status of failure.
  abbrev pub respond : Result R → Response Json → Response Json
  respond (ok record_) failure = record { status = 200; body = json (W.dump record_) }
  respond (raise e) failure = failure

  module _ (failure : Response Json) (invalid : Response Json) where
    -- `return await handler(request)`
    abbrev pub answer_with : Handler R → R → M Calls (Response Json)
    answer_with handler request calls = (
      ok (respond (await_handler handler request calls).0 failure),
      (await_handler handler request calls).1,
    )

    -- `return sse_response(handler(request))`. The status is sent before the first event, so an error
    -- on the way breaks the stream off. A coroutine is no iterator of events, and is never run.
    abbrev pub stream_with : Handler R → R → M Calls (Response Json)
    stream_with (answers f) request calls = (ok (record { status = 200; body = broken }), calls)
    stream_with (streams f) request calls = elim (f request calls).0 [
      | ok text ↦ (ok (record { status = 200; body = events text }), (f request calls).1)
      | raise e ↦ (ok (record { status = 200; body = broken }), (f request calls).1)
    ]

    -- `_contract_route`, after the check of the body.
    unfoldable pub contract_route : Endpoint → Handler R → Json → M Calls (Response Json)
    contract_route endpoint handler body calls = elim (W.validate endpoint.request body) [
      | raise e ↦ (ok invalid, calls)
      | ok request ↦
          if is_streaming endpoint
          then stream_with handler request calls
          else answer_with handler request calls
    ]

    unfoldable pub add_contract_routes : Handlers R → Routes → Routes
    unfolding contract_route
    add_contract_routes [] app = app
    add_contract_routes ((endpoint, handler) ∷ handlers) app =
        add_contract_routes handlers
          (app ++ ((endpoint.path, contract_route endpoint handler) ∷ []))

    -- The first route with the path answers.
    unfoldable pub serve : Response Json → Routes → String → Json → M Calls (Response Json)
    serve missing [] path body calls = (ok missing, calls)
    serve missing ((p, route) ∷ app) path body calls =
        if path == p then route body calls else serve missing app path body calls
