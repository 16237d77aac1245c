-- ===== src/Platform/Ops/Flagged.antt =====
-- What a sweep for superseded sources leaves to the next one.
use ai_chatbot.Base.{
  ok_injective, ℕ, String, Bool, true, ◌&&◌, not, Option, none, some, List, [], ◌∷◌, ◌++◌, ◌≡◌,
  refl, sym, ap, ◌∙◌, arith, Error, ok, raise, Result-cases, Option-cases, inl, inr, if◌then◌else◌,
  string_eq, contains, keep,
}
use ai_chatbot.Base.Dict.{Dict}
use ai_chatbot.Base.Table.{update_where}
use ai_chatbot.Platform.Models.{CorrectionFlag, serving_alias}
use ai_chatbot.Platform.Registry.{Registry, get_alias}
use ai_chatbot.Platform.Index.{ServingIndex}
use ai_chatbot.Platform.Ops.{Interaction, Citation, Ops}
use ai_chatbot.Platform.Ops.Lineage.{
  cited, cited_by, is_unflagged, flagged_requests, flags_at, mark_corrected, sweep_superseded,
}

-- Citations of a flagged request are not looked at.
abbrev pub is_open_to : List String → String × String → Bool
is_open_to requests pair = not (contains requests pair.0)

keep_all : (xs : List (String × String)) → keep (is_open_to []) xs ≡ xs
keep_all [] = refl
keep_all (x ∷ xs) = ground (arith, keep_all xs)

keep-cited_by :
    (requests : List String) (chunk : Option String) (request : String)
    (rest : List (String × String))
    → keep (is_open_to requests) (cited_by chunk request ++ rest) ≡ (
        if contains requests request
        then keep (is_open_to requests) rest
        else cited_by chunk request ++ keep (is_open_to requests) rest)
keep-cited_by requests none request rest = ground arith
keep-cited_by requests (some chunk) request rest = ground arith

module _ {F : Type 0} where
  is_unflagged-mark :
      (requests : List String) (rows : List (Interaction F)) (request : String)
      → is_unflagged
          (update_where
            (λ row. contains requests row.request_id)
            (λ row. record row { source_corrected = true })
            rows)
          request
        ≡ (is_unflagged rows request && not (contains requests request))
  unfolding update_where
  is_unflagged-mark requests [] request = refl
  is_unflagged-mark requests (row ∷ rows) request =
      ground (arith, is_unflagged-mark requests rows request)

  cited-mark :
      (requests : List String) (rows : List (Interaction F)) (citations : List Citation)
      → cited
          (update_where
            (λ row. contains requests row.request_id)
            (λ row. record row { source_corrected = true })
            rows)
          citations
        ≡ keep (is_open_to requests) (cited rows citations)
  cited-mark requests rows [] = refl
  cited-mark requests rows (row ∷ citations) = ground (
    arith,
    is_unflagged-mark requests rows row.request_id,
    cited-mark requests rows citations,
    keep-cited_by requests row.chunk_id row.request_id (cited rows citations),
  )

module _ {F J : Type 0} (I : ServingIndex F) where
  swept_none :
      (r : Registry) (i : I.State) (s : Ops F J)
      → get_alias serving_alias r ≡ none
      → sweep_superseded I r i s ≡ (ok [], s)
  unfolding sweep_superseded
  swept_none r i s e = rw (sweep_superseded, e) refl

  swept_some :
      (r : Registry) (i : I.State) (s : Ops F J) (n : ℕ) (active : Dict String)
      → get_alias serving_alias r ≡ some n
      → I.active_chunks n i ≡ ok active
      → sweep_superseded I r i s ≡ (
        ok (flags_at I r i active (cited s.interactions s.citations)),
        mark_corrected I
            (flagged_requests (flags_at I r i active (cited s.interactions s.citations)))
            s,
      )
  unfolding sweep_superseded
  swept_some r i s n active e f = rw (sweep_superseded, e, f) refl

  swept_raise :
      (r : Registry) (i : I.State) (s t : Ops F J) (flags : List CorrectionFlag) (n : ℕ) {x : Error}
      → get_alias serving_alias r ≡ some n
      → I.active_chunks n i ≡ raise x
      → sweep_superseded I r i s ≡ (ok flags, t)
      → ⊥
  unfolding sweep_superseded
  swept_raise r i s t flags n e f h = ground (arith)

  -- A sweep that returns has flagged the requests that it returns: the citations that the next sweep
  -- looks at are those of this one, less the citations of the flagged requests.
  pub sweep_superseded_lem :
      (r : Registry) (i : I.State) (s t : Ops F J) (flags : List CorrectionFlag)
      → sweep_superseded I r i s ≡ (ok flags, t)
      → cited t.interactions t.citations
        ≡ keep (is_open_to (flagged_requests flags)) (cited s.interactions s.citations)
  sweep_superseded_lem r i s t flags h = elim (Option-cases (get_alias serving_alias r)) [
    | inl e ↦
        let same = sym (swept_none r i s e) ∙ h in
        rw (sym (ap (λ p. p.1) same), sym (ok_injective (ap (λ p. p.0) same)))
          (sym (keep_all (cited s.interactions s.citations)))
    | inr (n, e) ↦ elim (Result-cases (I.active_chunks n i)) [
      | inl (active, f) ↦
          let same = sym (swept_some r i s n active e f) ∙ h in
          rw (sym (ap (λ p. p.1) same), sym (ok_injective (ap (λ p. p.0) same)))
            (cited-mark
              (flagged_requests (flags_at I r i active (cited s.interactions s.citations)))
              s.interactions s.citations)
      | inr (x, f) ↦ absurd (swept_raise r i s t flags n e f h)
    ]
  ]
