-- ===== src/Base/Dict.antt =====
-- Dictionaries keyed by texts, in insertion order. Proofs elsewhere go by the laws.
use Prim.Native.String.{String}
use mathlib.Core.Path.{◌≡◌, refl, ap, sym, ◌∙◌}
use mathlib.Core.Bool.{Bool, false}
use mathlib.Core.Option.{Option, none, some}
use mathlib.Core.List.{List, [], ◌∷◌, ◌++◌, map, append-nil, append_assoc}
use native.Mathlib.Omega.{arith}
use ai_chatbot.Base.Lists.{keep}
use ai_chatbot.Base.Equality.{◌==◌, contains, string_eq, if◌then◌else◌, is_some}

abbrev pub Dict {ℓ} : Type ℓ → Type ℓ
Dict V = List (String × V)

module _ {ℓ} {V : Type ℓ} where
  unfoldable pub lookup : String → Dict V → Option V
  lookup k [] = none
  lookup k ((j, v) ∷ d) = if k == j then some v else lookup k d

  -- `d[k] = v`
  unfoldable pub insert : String → V → Dict V → Dict V
  insert k v [] = (k, v) ∷ []
  insert k v ((j, w) ∷ d) = if k == j then (k, v) ∷ d else (j, w) ∷ insert k v d

  -- `d |= e`
  unfoldable pub merge : Dict V → Dict V → Dict V
  unfolding insert
  merge d [] = d
  merge d ((k, v) ∷ e) = merge (insert k v d) e

  -- A list of pairs as the dictionary that a comprehension makes of it: the last entry counts.
  unfoldable pub of_pairs : List (String × V) → Dict V
  unfolding merge
  of_pairs = merge []

  abbrev pub keys : Dict V → List String
  keys = map (λ e. e.0)

  abbrev pub has : String → Dict V → Bool
  has k d = is_some (lookup k d)

  -- The last pair of a list with the key, or the value `old` where there is none.
  unfoldable pub last_or : Option V → String → List (String × V) → Option V
  last_or old k [] = old
  last_or old k ((j, v) ∷ e) = last_or (if k == j then some v else old) k e

  pub lookup-insert :
      (k j : String) (v : V) (d : Dict V)
      → lookup k (insert j v d) ≡ (if k == j then some v else lookup k d)
  unfolding lookup insert
  lookup-insert k j v [] = refl
  lookup-insert k j v ((i, w) ∷ d) = ground (arith, lookup-insert k j v d)

  pub lookup-merge :
      (k : String) (d : Dict V) (e : List (String × V))
      → lookup k (merge d e) ≡ last_or (lookup k d) k e
  unfolding merge last_or
  lookup-merge k d [] = refl
  lookup-merge k d ((j, v) ∷ e) =
      lookup-merge k (insert j v d) e ∙ ap (λ o. last_or o k e) (lookup-insert k j v d)

  pub contains-keys : (k : String) (d : Dict V) → contains (keys d) k ≡ has k d
  unfolding lookup
  contains-keys k [] = refl
  contains-keys k ((j, v) ∷ d) = ground (arith, contains-keys k d)

  -- No key stands twice.
  abbrev pub NodupKeys : Dict V → Type ℓ
  NodupKeys [] = Unit
  NodupKeys ((k, _) ∷ d) = (lookup k d ≡ none) × NodupKeys d

  pub insert-NodupKeys : (k : String) (v : V) (d : Dict V) → NodupKeys d → NodupKeys (insert k v d)
  unfolding insert lookup
  insert-NodupKeys k v [] h = (refl, tt)
  insert-NodupKeys k v ((j, w) ∷ d) h =
      ground (arith, insert-NodupKeys k v d h.1, lookup-insert j k v d)

  pub merge-NodupKeys : (d : Dict V) (e : List (String × V)) → NodupKeys d → NodupKeys (merge d e)
  unfolding merge
  merge-NodupKeys d [] h = h
  merge-NodupKeys d ((k, v) ∷ e) h = merge-NodupKeys (insert k v d) e (insert-NodupKeys k v d h)

  pub last_or-lookup :
      (old : Option V) (k : String) (e : Dict V)
      → NodupKeys e
      → last_or old k e ≡ (elim (lookup k e) [ none ↦ old | some v ↦ some v ])
  unfolding lookup last_or
  last_or-lookup old k [] h = refl
  last_or-lookup old k ((j, v) ∷ e) h =
      ground (arith, last_or-lookup (if k == j then some v else old) k e h.1)

  -- The keys of the entries that a comprehension keeps.
  pub contains-keys-keep :
      (p : String × V → Bool) (k : String) (d : Dict V)
      → NodupKeys d
      → contains (keys (keep p d)) k ≡ (elim (lookup k d) [ none ↦ false | some v ↦ p (k, v) ])
  unfolding lookup
  contains-keys-keep p k [] h = refl
  contains-keys-keep p k ((j, v) ∷ d) h = ground (arith, contains-keys-keep p k d h.1)

  insert-fresh :
      (k : String) (v : V) (d : Dict V) → lookup k d ≡ none → insert k v d ≡ d ++ ((k, v) ∷ [])
  unfolding lookup insert
  insert-fresh k v [] h = refl
  insert-fresh k v ((j, w) ∷ d) h = ground (arith, insert-fresh k v d)

  lookup-append :
      (k : String) (d e : Dict V)
      → lookup k (d ++ e) ≡ (elim (lookup k d) [ none ↦ lookup k e | some v ↦ some v ])
  unfolding lookup
  lookup-append k [] e = refl
  lookup-append k ((j, v) ∷ d) e = ground (arith, lookup-append k d e)

  lookup-earlier :
      (k : String) (v : V) (d e : Dict V) → NodupKeys (d ++ ((k, v) ∷ e)) → lookup k d ≡ none
  unfolding lookup
  lookup-earlier k v [] e h = refl
  lookup-earlier k v ((j, w) ∷ d) e h =
      ground (arith, lookup-earlier k v d e h.1, lookup-append j d ((k, v) ∷ e), h.0)

  merge-fresh : (d e : Dict V) → NodupKeys (d ++ e) → merge d e ≡ d ++ e
  unfolding merge
  merge-fresh d [] h = sym (append-nil d)
  merge-fresh d ((k, v) ∷ e) h = rw (insert-fresh k v d (lookup-earlier k v d e h)) (
      merge-fresh (d ++ ((k, v) ∷ [])) e (rw (append_assoc d ((k, v) ∷ []) e) h)
      ∙ append_assoc d ((k, v) ∷ []) e)

  -- A comprehension whose keys are distinct keeps its entries.
  pub of_pairs-NodupKeys : (d : Dict V) → NodupKeys d → of_pairs d ≡ d
  unfolding of_pairs
  of_pairs-NodupKeys d h = merge-fresh [] d h
