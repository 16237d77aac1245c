-- ===== src/Tests/Calling.antt =====
-- A client of an app with one handler, which calls another endpoint on its way; and two reranked texts.
use ai_chatbot.Base.{
  ℕ, String, List, [], ◌∷◌, ◌++◌, ◌≡◌, refl, ok, raise, not_found, string_eq, nat_eq, if◌then◌else◌,
  index_error,
}
use ai_chatbot.Contracts.Routes.{calc, code}
use ai_chatbot.Common.Client.{Wire, Response, json, Handlers, answers, call, labels, get_handler}
use ai_chatbot.Common.Client.Laws.{behind_http, client_of, call-served}
use ai_chatbot.Common.Rerank.{RankedItem, pos, negsuc, rerank}
use ai_chatbot.Common.Rerank.Laws.{rerank_lem, in_range, tabulate, score_of}

abbrev wire : Wire String String
wire = record { dump = λ text. text; validate = λ name text. ok text }

abbrev failed : Response String
failed = record { status = 501; body = json "not implemented" }

abbrev handlers : Handlers String
handlers =
    (code, answers (λ task calls. (raise not_found, calls)))
    ∷ (calc, answers (λ check calls. (ok check, calls ++ (labels code ∷ []))))
    ∷ []

call-served_example :
    call wire
      (λ service. service)
      (client_of wire failed failed failed "http://app" handlers [])
      calc
      "1 + 1"
      []
    ≡ (
      behind_http
          (call wire
            (λ service. service)
            (client_of wire failed failed failed "http://app" handlers handlers)
            calc
            "1 + 1"
            []).0,
      (call wire
          (λ service. service)
          (client_of wire failed failed failed "http://app" handlers handlers)
          calc
          "1 + 1"
          []).1,
    )
unfolding string_eq get_handler nat_eq
call-served_example =
    call-served wire failed failed failed (λ service. service) "http://app" calc handlers
      (λ check calls. (ok check, calls ++ (labels code ∷ []))) "1 + 1" [] refl refl refl refl refl
      refl (λ answer. refl)

abbrev ranked : List (RankedItem ℕ)
ranked = record { index = negsuc 0; score = 7 } ∷ record { index = pos 0; score = 5 } ∷ []

rerank_example :
    rerank 0 (λ query texts. ok ranked) "query" ("a" ∷ "b" ∷ "c" ∷ [])
    ≡ (if in_range 3 ranked then ok (tabulate 3 (score_of 3 0 ranked)) else raise index_error)
rerank_example = rerank_lem 0 (λ query texts. ok ranked) "query" ("a" ∷ "b" ∷ "c" ∷ []) ranked refl
