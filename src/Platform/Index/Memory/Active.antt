-- ===== src/Platform/Index/Memory/Active.antt =====
-- `active_chunks` in memory returns exactly the visible chunks of a valid index.
use ai_chatbot.Base.{
  ℕ, String, Bool, true, false, none, List, [], ◌∷◌, map, ◌≡◌, refl, ok, if◌then◌else◌, arith,
  string_eq, from_some, Bool-cases, inl, inr,
}
use ai_chatbot.Base.Dict.{Dict, lookup, has, NodupKeys}
use ai_chatbot.Platform.Models.{StoredChunk}
use ai_chatbot.Platform.Index.Intervals.{Interval, is_visible, close_at}
use ai_chatbot.Platform.Index.Port.{doc_of}
use ai_chatbot.Platform.Index.Memory.{Memory, or_empty, intervals_of, active_from, active_chunks}

abbrev pub is_nonempty : List Interval → Bool
is_nonempty [] = false
is_nonempty (_ ∷ _) = true

pub is_nonempty_of_visible :
    (xs : List Interval) (v : ℕ) → is_visible xs v ≡ true → is_nonempty xs ≡ true
is_nonempty_of_visible [] v h = h
is_nonempty_of_visible (_ ∷ _) v h = refl

pub is_nonempty-close :
    (v : ℕ) (xs : List Interval) → is_nonempty (map (close_at v) xs) ≡ is_nonempty xs
is_nonempty-close v [] = refl
is_nonempty-close v (_ ∷ _) = refl

module _ {F : Type 0} where
  pub record IsValid (s : Memory F) : Type 0 where
    pub distinct : NodupKeys s.intervals
    pub backed : (c : String) → is_nonempty (intervals_of s c) ≡ true → has c s.chunks ≡ true

  -- One entry more, where the entries behind it are known.
  active_from-cons :
      (chunks : Dict (StoredChunk F)) (v : ℕ) (c : String) (xs : List Interval)
      (items : Dict (List Interval)) (d : Dict String)
      → active_from chunks v items ≡ ok d
      → NodupKeys d
      → lookup c items ≡ none
      → (is_nonempty xs ≡ true → has c chunks ≡ true)
      → ((k : String)
          → lookup k d
            ≡ (if is_visible (or_empty (lookup k items)) v then doc_of (lookup k chunks) else none))
      → (e : Dict String) × (active_from chunks v ((c, xs) ∷ items) ≡ ok e)
        × NodupKeys e
        × ((k : String)
            → lookup k e ≡ (
                if is_visible (or_empty (lookup k ((c, xs) ∷ items))) v
                then doc_of (lookup k chunks)
                else none))
  unfolding active_from lookup
  active_from-cons chunks v c xs items d found once fresh backed same =
      elim (Bool-cases (is_visible xs v)) [
        | inl seen ↦
            from_some (lookup c chunks) (ground (arith, is_nonempty_of_visible xs v seen))
              (λ stored e. (
                (c, stored.chunk.doc_version) ∷ d,
                ground arith,
                ground (arith, same c),
                λ k. ground (arith, same k),
              ))
        | inr hidden ↦ (d, ground arith, once, λ k. ground (arith, same k))
      ]

  lookup-active_from :
      (chunks : Dict (StoredChunk F)) (v : ℕ) (items : Dict (List Interval))
      → NodupKeys items
      → ((c : String) → is_nonempty (or_empty (lookup c items)) ≡ true → has c chunks ≡ true)
      → (d : Dict String) × (active_from chunks v items ≡ ok d)
        × NodupKeys d
        × ((c : String)
            → lookup c d ≡ (
                if is_visible (or_empty (lookup c items)) v
                then doc_of (lookup c chunks)
                else none))
  unfolding active_from lookup
  lookup-active_from chunks v [] h backed = ([], refl, tt, λ c. refl)
  lookup-active_from chunks v ((c, xs) ∷ items) h backed =
      let (d, found, once, same) =
        lookup-active_from chunks v items h.1 (λ k n. ground (arith, backed k)) in
      active_from-cons chunks v c xs items d found once h.0 (λ n. ground (arith, backed c)) same

  pub memory_active_lem :
      (s : Memory F)
      → IsValid s
      → (v : ℕ)
      → (d : Dict String) × (active_chunks v s ≡ ok d)
        × NodupKeys d
        × ((c : String)
            → lookup c d
              ≡ (if is_visible (intervals_of s c) v then doc_of (lookup c s.chunks) else none))
  unfolding active_chunks
  memory_active_lem s h v = lookup-active_from s.chunks v s.intervals h.distinct h.backed
