-- ===== src/Common/Client/Laws.antt =====
-- A call through the local handlers, and the same call over HTTP to an app that serves them.
use Prim.Native.String.append
use mathlib.Core.List.{append-nil, append_assoc}
use ai_chatbot.Base.{
  String, Bool, true, false, ◌&&◌, not, Option, some, List, [], ◌∷◌, ◌++◌, map, ◌≡◌, refl, ap, sym,
  ◌∙◌, Result, ok, raise, http_status, if◌then◌else◌, ◌==◌, string_eq, contains, arith, inl, inr,
  Result-cases,
}
use ai_chatbot.Base.State.{M}
use ai_chatbot.Contracts.Routes.{Endpoint, same_endpoint}
use ai_chatbot.Common.Client.{
  Calls, Wire, Response, Handler, Handlers, answers, get_handler, set_handler, register_local,
  Client, call, observed, is_streaming, contract_route, add_contract_routes, serve, Routes, json_of,
  respond,
}

-- What a result comes to behind HTTP: the client sees the status of a failure.
abbrev pub behind_http : {A : Type 0} → Result A → Result A
behind_http (ok a) = ok a
behind_http (raise e) = raise http_status

module _ {R : Type 0} where
  -- The handler that was registered last for the endpoint.
  abbrev pub last_handler : Option (Handler R) → Endpoint → Handlers R → Option (Handler R)
  last_handler old endpoint [] = old
  last_handler old endpoint ((other, handler) ∷ handlers) =
      last_handler (if same_endpoint endpoint other then some handler else old) endpoint handlers

  get_handler-set_handler :
      (e k : Endpoint) (h : Handler R) (hs : Handlers R)
      → get_handler e (set_handler k h hs)
        ≡ (if same_endpoint e k then some h else get_handler e hs)
  unfolding get_handler set_handler
  get_handler-set_handler e k h [] = refl
  get_handler-set_handler e k h ((other, old) ∷ hs) =
      ground (arith, get_handler-set_handler e k h hs)

  -- After handlers are registered, an endpoint has the one that was registered last for it.
  pub get_handler-register_local :
      (e : Endpoint) (new local : Handlers R)
      → get_handler e (register_local new local) ≡ last_handler (get_handler e local) e new
  unfolding register_local
  get_handler-register_local e [] local = refl
  get_handler-register_local e ((k, h) ∷ new) local =
      get_handler-register_local e new (set_handler k h local)
      ∙ ap (λ old. last_handler old e new) (get_handler-set_handler e k h local)

  abbrev pub paths : Handlers R → List String
  paths = map (λ entry. entry.0.path)

  -- No two endpoints share a path.
  abbrev pub distinct_paths : Handlers R → Bool
  distinct_paths [] = true
  distinct_paths ((e, _) ∷ hs) = not (contains (paths hs) e.path) && distinct_paths hs

  contains-paths :
      (e : Endpoint) (hs : Handlers R) (h : Handler R)
      → get_handler e hs ≡ some h
      → contains (paths hs) e.path ≡ true
  unfolding get_handler
  contains-paths e [] h found = cc
  contains-paths e ((k, old) ∷ hs) h found = ground (arith, contains-paths e hs h)

  module _ {Json : Type 0} (W : Wire R Json) (failure invalid missing : Response Json) where
    serve-contract_routes :
        (e : Endpoint) (hs : Handlers R) (h : Handler R) (body : Json) (calls : Calls)
        → distinct_paths hs ≡ true
        → get_handler e hs ≡ some h
        → serve W failure invalid missing
            (map (λ entry. (entry.0.path, contract_route W failure invalid entry.0 entry.1)) hs)
            e.path
            body
            calls
          ≡ contract_route W failure invalid e h body calls
    unfolding get_handler serve contract_route
    serve-contract_routes e [] h body calls apart found = cc
    serve-contract_routes e ((k, old) ∷ hs) h body calls apart found =
        ground (arith, serve-contract_routes e hs h body calls, contains-paths e hs h)

    abbrev routes_of : Handlers R → Routes W
    routes_of = map (λ entry. (entry.0.path, contract_route W failure invalid entry.0 entry.1))

    add_contract_routes-append :
        (hs : Handlers R) (app : Routes W)
        → add_contract_routes W failure invalid hs app ≡ app ++ routes_of hs
    unfolding add_contract_routes
    add_contract_routes-append [] app = sym (append-nil app)
    add_contract_routes-append ((e, h) ∷ hs) app =
        let route = (e.path, contract_route W failure invalid e h) ∷ [] in
        add_contract_routes-append hs (app ++ route) ∙ append_assoc app route (routes_of hs)

    -- A client of the app that serves the handlers, with its own local handlers.
    abbrev pub client_of : String → Handlers R → Handlers R → Client W
    client_of base served local = record {
      base_url = base;
      post = serve W failure invalid missing (add_contract_routes W failure invalid served []);
      local = local;
    }

    call_local :
        (urls : String → String) (base : String) (e : Endpoint) (hs : Handlers R)
        (f : R → M Calls R) (request : R) (calls : Calls)
        → get_handler e hs ≡ some (answers f)
        → call W urls (client_of base hs hs) e request calls ≡ observed e (f request) calls
    unfolding call
    call_local urls base e hs f request calls found = rw (call, found) refl

    -- What the server answers to the POST of the client.
    post_lem :
        (e : Endpoint) (hs : Handlers R) (f : R → M Calls R) (request : R) (calls : Calls)
        → distinct_paths hs ≡ true
        → get_handler e hs ≡ some (answers f)
        → is_streaming e ≡ false
        → W.validate e.request (W.dump request) ≡ ok request
        → serve W failure invalid missing
            (add_contract_routes W failure invalid hs [])
            e.path
            (W.dump request)
            calls
          ≡ (ok (respond W (f request calls).0 failure), (f request calls).1)
    unfolding contract_route
    post_lem e hs f request calls apart found plain asked =
        rw
          (
            add_contract_routes-append hs [],
            serve-contract_routes e hs (answers f) (W.dump request) calls apart found,
            contract_route,
            asked,
            plain,
          )
          refl

    call_away :
        (urls : String → String) (base : String) (e : Endpoint) (hs : Handlers R)
        (f : R → M Calls R) (request : R) (calls : Calls)
        → distinct_paths hs ≡ true
        → get_handler e hs ≡ some (answers f)
        → is_streaming e ≡ false
        → (base == "") ≡ false
        → json_of failure ≡ raise http_status
        → W.validate e.request (W.dump request) ≡ ok request
        → ((answer : R) → W.validate e.response (W.dump answer) ≡ ok answer)
        → call W urls (client_of base hs []) e request calls
          ≡ observed e (λ s. (behind_http (f request s).0, (f request s).1)) calls
    unfolding get_handler call
    call_away urls base e hs f request calls apart found plain based failed asked told =
        let posted = post_lem e hs f request calls apart found plain asked in
        elim (Result-cases (f request calls).0) [
          | inl (answer, done) ↦ rw (based, append.nil e.path, posted, done, told answer) refl
          | inr (x, done) ↦ rw (based, append.nil e.path, posted, done, failed) refl
        ]

    -- A call of an endpoint over HTTP, to an app that serves the handlers on distinct paths, ends
    -- as the call of the local handler ends: with the same record and the same observations, or,
    -- where the handler raises, with the error of a failed status. The endpoint does not stream
    -- events, its handler answers with a record, the records survive their JSON, the client has a base url, and the response for a
    -- failure has the status of one.
    pub call-served :
        (urls : String → String) (base : String) (e : Endpoint) (hs : Handlers R)
        (f : R → M Calls R) (request : R) (calls : Calls)
        → distinct_paths hs ≡ true
        → get_handler e hs ≡ some (answers f)
        → is_streaming e ≡ false
        → (base == "") ≡ false
        → json_of failure ≡ raise http_status
        → W.validate e.request (W.dump request) ≡ ok request
        → ((answer : R) → W.validate e.response (W.dump answer) ≡ ok answer)
        → call W urls (client_of base hs []) e request calls ≡ (
          behind_http (call W urls (client_of base hs hs) e request calls).0,
          (call W urls (client_of base hs hs) e request calls).1,
        )
    call-served urls base e hs f request calls apart found plain based failed asked told =
        rw (call_local urls base e hs f request calls found)
          (call_away urls base e hs f request calls apart found plain based failed asked told)
