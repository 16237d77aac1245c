-- ===== src/Platform/Stores/Remote/Lawful.antt =====
-- The S3 store keeps the contract of the port, over a client that gives back what it was given.
use ai_chatbot.Base.{
  String, true, ok, raise, value_error, ◌≡◌, refl, ap, sym, ◌∙◌, Bool-cases, inl, inr, ok_injective,
}
use ai_chatbot.Base.State.{pure, >>=-eq-ok, raise_ne_ok}
use ai_chatbot.Platform.Ops.Storage.{object_uri}
use ai_chatbot.Platform.Stores.{IsLawful, is_unsafe, check_key}
use ai_chatbot.Platform.Stores.Remote.{
  Reply, reply, refusal, S3Client, raised, calling, put, get, contains_object, remote_store,
}

-- Amazon S3 answers a read after a write with what was written.
pub record IsConsistent {S Data : Type 0} (C : S3Client S Data) : Type 0 where
  pub head_keeps : (bucket key : String) (s : S) → (C.head_object bucket key s).1 ≡ s
  pub get_put :
      (bucket key : String) (bytes : Data) (s : S)
      → (C.put_object bucket key bytes s).0 ≡ reply tt
      → C.get_object bucket key (C.put_object bucket key bytes s).1
        ≡ (reply bytes, (C.put_object bucket key bytes s).1)
  pub head_put :
      (bucket key : String) (bytes : Data) (s : S)
      → (C.put_object bucket key bytes s).0 ≡ reply tt
      → (C.head_object bucket key (C.put_object bucket key bytes s).1).0 ≡ reply tt

raised-ok : (r : Reply (Unit {0})) (a : Unit {0}) → raised r ≡ ok a → r ≡ reply tt
raised-ok (reply tt) a h = refl
raised-ok (refusal code) a h = absurd (raise_ne_ok h)

module _ {S Data : Type 0} (C : S3Client S Data) where
  put_unsafe :
      (bucket key : String) (bytes : Data) (s : S)
      → is_unsafe key ≡ true
      → (put C bucket key bytes s).0 ≡ raise value_error
  unfolding put check_key
  put_unsafe bucket key bytes s h = rw h refl

  -- What a put that returns has done.
  put_inv :
      (bucket key : String) (bytes : Data) (s t : S) (uri : String)
      → put C bucket key bytes s ≡ (ok uri, t)
      → ((C.put_object bucket key bytes s).0 ≡ reply tt)
        × (uri ≡ object_uri bucket key)
        × ((C.put_object bucket key bytes s).1 ≡ t)
  unfolding put check_key
  put_inv bucket key bytes s t uri h = elim (Bool-cases (is_unsafe key)) [
    | inl unsafe ↦
        absurd (raise_ne_ok (sym (put_unsafe bucket key bytes s unsafe) ∙ ap (λ p. p.0) h))
    | inr safe ↦
        let (a, taken, done) =
          >>=-eq-ok (calling (C.put_object bucket key bytes)) (λ _. pure (object_uri bucket key)) s
            (rw safe at h) in
        (
          raised-ok (C.put_object bucket key bytes s).0 a taken,
          ok_injective (ap (λ p. p.0) (sym done)),
          ap (λ p. p.1) done,
        )
  ]

  get_found :
      (bucket key : String) (bytes : Data) (s t : S)
      → (C.put_object bucket key bytes s).1 ≡ t
      → C.get_object bucket key (C.put_object bucket key bytes s).1
        ≡ (reply bytes, (C.put_object bucket key bytes s).1)
      → get C bucket key t ≡ (ok bytes, t)
  unfolding get
  get_found bucket key bytes s t end h = rw (sym end, h) refl

  contains_found :
      (bucket key : String) (bytes : Data) (s t : S)
      → (C.put_object bucket key bytes s).1 ≡ t
      → (C.head_object bucket key (C.put_object bucket key bytes s).1).0 ≡ reply tt
      → (C.head_object bucket key t).1 ≡ t
      → contains_object C bucket key t ≡ (ok true, t)
  unfolding contains_object
  contains_found bucket key bytes s t end h keeps =
      let here : (C.head_object bucket key t).0 ≡ reply tt = rw end at h in rw (here, keeps) refl

  -- The S3 store keeps the contract of the port, over a client that answers a read after a write
  -- with what was written.
  pub remote-IsLawful : IsConsistent C → IsLawful (remote_store C)
  unfolding contains_object
  remote-IsLawful h = record {
    contains_keeps = h.head_keeps;
    put_uri = λ bucket key bytes s t uri e. (put_inv bucket key bytes s t uri e).1;
    put_get = λ bucket key bytes s t uri e.
        let (taken, _, end) = put_inv bucket key bytes s t uri e in
        get_found bucket key bytes s t end (h.get_put bucket key bytes s taken);
    put_contains = λ bucket key bytes s t uri e.
        let (taken, _, end) = put_inv bucket key bytes s t uri e in
        contains_found bucket key bytes s t end (h.head_put bucket key bytes s taken)
          (h.head_keeps bucket key t);
  }
