-- ===== src/Common/Models.antt =====
-- `ChatClient` of libs/common/src/chatbot_common/llm.py, from the response of the server on.
-- Parameters: what is read from the JSON of a reply and of a piece of a stream.
use Prim.Native.String.{String}
use ai_chatbot.Base.{
  ℕ, String, ◌<>◌, Bool, true, false, ◌&&◌, not, Option, none, some, List, [], ◌∷◌, keep, Result,
  ok, raise, http_status, ◌>>=◌, if◌then◌else◌, leb, ◌==◌, string_eq, nat_eq, ◌≡◌, refl, ap, ◌∙◌,
  Bool-cases, inl, inr,
}
use ai_chatbot.Base.Texts.{after_prefix, after_prefix-append, strip}

pub record Completion : Type 0 where
  pub text : String
  pub tokens_in : ℕ
  pub tokens_out : ℕ

-- The content of the first choice, which may be null, and the counts that the usage has, if any.
pub record Reply : Type 0 where
  pub content : Result (Option String)
  pub prompt_tokens : Option ℕ
  pub completion_tokens : Option ℕ

abbrev pub or_value : {A : Type 0} → Option A → A → A
or_value none default = default
or_value (some a) default = a

abbrev pub completion_of : Reply → Result Completion
completion_of reply = reply.content >>= λ content. ok (record {
  text = or_value content "";
  tokens_in = or_value reply.prompt_tokens 0;
  tokens_out = or_value reply.completion_tokens 0;
})

abbrev pub is_success : ℕ → Bool
is_success status = leb 200 status && leb status 299

-- `raise_for_status`, and then the reply.
unfoldable pub complete : ℕ → Result Reply → Result Completion
complete status reply =
    if is_success status then (reply >>= λ data_. completion_of data_) else raise http_status

-- The pieces that are yielded, and how the stream ends.
abbrev pub Pieces : Type 0
Pieces = List String × Result Unit

-- A delta, if it is there and not empty, and the rest of the pieces.
abbrev pub then_piece : Result (Option String) → Pieces → Pieces
then_piece (raise e) rest = ([], raise e)
then_piece (ok none) rest = rest
then_piece (ok (some delta)) rest = if delta == "" then rest else (delta ∷ rest.0, rest.1)

module _ (delta_of : String → Result (Option String)) where
  unfoldable pub pieces_of : List String → Pieces
  unfolding after_prefix strip
  pieces_of [] = ([], ok tt)
  pieces_of (line ∷ lines) =
      let rest = pieces_of lines in
      elim (after_prefix "data: " line) [
        | none ↦ rest
        | some after ↦
            if strip after == "[DONE]" then rest else then_piece (delta_of (strip after)) rest
      ]

  unfoldable pub stream : ℕ → List String → Pieces
  unfolding pieces_of
  stream status lines = if is_success status then pieces_of lines else ([], raise http_status)

  module _ (dump : String → String) where
    -- The lines that a server sends for the pieces.
    abbrev pub sent : List String → List String
    sent [] = ("data: " <> "[DONE]") ∷ "" ∷ []
    sent (piece ∷ pieces) = ("data: " <> dump piece) ∷ "" ∷ sent pieces

    pieces_of-done : pieces_of (sent []) ≡ ([], ok tt)
    unfolding pieces_of after_prefix strip string_eq nat_eq
    pieces_of-done = refl

    pieces_of-line :
        (line piece : String) (lines : List String)
        → after_prefix "data: " line ≡ some (dump piece)
        → strip (dump piece) ≡ dump piece
        → (dump piece == "[DONE]") ≡ false
        → delta_of (dump piece) ≡ ok (some piece)
        → pieces_of (line ∷ "" ∷ lines) ≡ then_piece (ok (some piece)) (pieces_of lines)
    unfolding pieces_of
    pieces_of-line line piece lines start bare other back =
        rw (pieces_of, start, bare, other, back) refl

    then_piece-keep :
        (piece : String) (pieces : List String)
        → then_piece (ok (some piece)) (keep (λ piece. not (piece == "")) pieces, ok tt)
          ≡ (keep (λ piece. not (piece == "")) (piece ∷ pieces), ok tt)
    then_piece-keep piece pieces = elim (Bool-cases (piece == "")) [
      | inl nothing ↦ rw nothing refl
      | inr something ↦ rw something refl
    ]

    pieces_of-sent :
        (pieces : List String)
        → ((piece : String) → strip (dump piece) ≡ dump piece)
        → ((piece : String) → (dump piece == "[DONE]") ≡ false)
        → ((piece : String) → delta_of (dump piece) ≡ ok (some piece))
        → pieces_of (sent pieces) ≡ (keep (λ piece. not (piece == "")) pieces, ok tt)
    unfolding pieces_of
    pieces_of-sent [] bare other back = pieces_of-done
    pieces_of-sent (piece ∷ pieces) bare other back =
        pieces_of-line ("data: " <> dump piece) piece (sent pieces)
          (after_prefix-append "data: " (dump piece)) (bare piece) (other piece) (back piece)
        ∙ ap (then_piece (ok (some piece))) (pieces_of-sent pieces bare other back)
        ∙ then_piece-keep piece pieces

    -- A stream of pieces, each on a line of its own with a line that ends the stream, yields the
    -- pieces that are not empty and ends without an error. The text of a piece has no space around
    -- it, is not the mark of the end, and gives the piece back.
    pub stream-sent :
        (status : ℕ) (pieces : List String)
        → is_success status ≡ true
        → ((piece : String) → strip (dump piece) ≡ dump piece)
        → ((piece : String) → (dump piece == "[DONE]") ≡ false)
        → ((piece : String) → delta_of (dump piece) ≡ ok (some piece))
        → stream status (sent pieces) ≡ (keep (λ piece. not (piece == "")) pieces, ok tt)
    unfolding stream
    stream-sent status pieces good bare other back = rw good (pieces_of-sent pieces bare other back)
