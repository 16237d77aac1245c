-- ===== src/Services/Api.antt =====
-- services/api/src/chatbot_api/serve.py: the handlers that the process of the api registers. The
-- handlers of its components, which are stubs, and the environment are arguments.
use ai_chatbot.Base.{
  String, ◌<>◌, Bool, true, false, not, Option, none, some, List, [], ◌∷◌, flat_map, keep,
  if◌then◌else◌, ◌==◌, string_eq, ==_iff, is_some, ◌≡◌, refl, ap, sym, ◌∙◌, arith, Bool-cases, inl,
  inr,
}
use ai_chatbot.Contracts.Routes.{Endpoint, same_endpoint}
use ai_chatbot.Common.Client.{
  Wire, Handler, Handlers, Client, get_handler, register_local, call, call_over_http, observed,
  service_url, url_of,
}
use ai_chatbot.Common.Client.Laws.{last_handler, get_handler-register_local}

module _ (environ : String → Option String) (upper : String → String) where
  -- The address of the service is set, so that its component runs in a container of its own.
  abbrev pub is_apart : Endpoint → Bool
  is_apart endpoint = is_some (environ ("CHATBOT_" <> (upper endpoint.service <> "_URL")))

  same_apart : (e k : Endpoint) → same_endpoint e k ≡ true → is_apart e ≡ is_apart k
  same_apart e k same =
      ap (λ service. is_some (environ ("CHATBOT_" <> (upper service <> "_URL"))))
        ((==_iff e.service k.service).0 (ground arith))

  module _ {R : Type 0} where
    unfoldable pub local_handlers : List (Handlers R) → Handlers R
    unfolding register_local
    local_handlers components =
        register_local
          (keep (λ entry. not (is_apart entry.0)) (flat_map (λ handlers. handlers) components)) []

    last_handler-keep :
        (e : Endpoint) (old : Option (Handler R)) (hs : Handlers R)
        → last_handler old e (keep (λ entry. not (is_apart entry.0)) hs)
          ≡ (if is_apart e then old else last_handler old e hs)
    last_handler-keep e old [] = elim (Bool-cases (is_apart e)) [
      | inl apart ↦ rw apart refl
      | inr here ↦ rw here refl
    ]
    last_handler-keep e old ((k, h) ∷ hs) = elim (Bool-cases (same_endpoint e k)) [
      | inl same ↦ elim (Bool-cases (is_apart e)) [
        | inl apart ↦
            let rest = last_handler-keep e old hs in
            rw (sym (same_apart e k same) ∙ apart, apart) (rest ∙ rw apart refl)
        | inr here ↦
            let rest = last_handler-keep e (some h) hs in
            rw (sym (same_apart e k same) ∙ here, here, same) (rest ∙ rw here refl)
      ]
      | inr other ↦ elim (Bool-cases (is_apart k)) [
        | inl apart ↦ rw (apart, other) (last_handler-keep e old hs)
        | inr here ↦ rw (here, other) (last_handler-keep e old hs)
      ]
    ]

    -- The api answers an endpoint itself exactly if one of its components does and the address of
    -- the service is not set; the last component that answers it counts.
    pub get_handler-local_handlers :
        (e : Endpoint) (components : List (Handlers R))
        → get_handler e (local_handlers components) ≡ (
            if is_apart e
            then none
            else last_handler none e (flat_map (λ handlers. handlers) components))
    unfolding get_handler local_handlers
    get_handler-local_handlers e components =
        get_handler-register_local e
          (keep (λ entry. not (is_apart entry.0)) (flat_map (λ handlers. handlers) components)) []
        ∙ last_handler-keep e none (flat_map (λ handlers. handlers) components)

    module _ {Json : Type 0} (W : Wire R Json) where
      -- A call of an endpoint whose service has an address, by a client of the api without a base
      -- url of its own, goes over HTTP to the path at that address.
      pub call_apart :
          (client : Client W) (e : Endpoint) (components : List (Handlers R)) (url : String)
          (request : R)
          → client.local ≡ local_handlers components
          → client.base_url ≡ ""
          → environ ("CHATBOT_" <> (upper e.service <> "_URL")) ≡ some url
          → (url == "") ≡ false
          → (call W (service_url environ upper) client e request
              ≡ observed e (call_over_http W (service_url environ upper) client e request))
            × (url_of W (service_url environ upper) client e ≡ url <> e.path)
      unfolding call get_handler service_url string_eq
      call_apart client e components url request local based there set =
          let apart : is_apart e ≡ true = ap is_some there in
          let away : get_handler e client.local ≡ none =
            ap (get_handler e) local ∙ get_handler-local_handlers e components ∙ rw apart refl in
          (rw away refl, rw (based, there, set) refl)
