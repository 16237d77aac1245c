-- ===== src/Base/State.antt =====
-- Statements on a state that may raise. What was written before a raise stays written.
use mathlib.Core.Bool.{Bool, true, false}
use ai_chatbot.Base.{
  Result, ok, raise, Error, Result-cases, inl, inr, ◌≡◌, refl, ap, List, [], ◌∷◌, ◌++◌,
}

abbrev pub M : Type 0 → Type 0 → Type 0
M S A = S → Result A × S

-- What follows a statement that left the result and the state.
abbrev pub next : {S A B : Type 0} → Result A → S → (A → M S B) → Result B × S
next (ok a) t f = f a t
next (raise e) t f = (raise e, t)

infixl 5 ◌>>=◌ ◌>>◌
abbrev pub ◌>>=◌ : {S A B : Type 0} → M S A → (A → M S B) → M S B
◌>>=◌ m f s = next (m s).0 (m s).1 f

abbrev pub ◌>>◌ : {S B : Type 0} → M S (Unit {0}) → M S B → M S B
m >> k = m >>= λ _. k

module _ {S : Type 0} where
  abbrev pub pure : {A : Type 0} → A → M S A
  pure a s = (ok a, s)

  abbrev pub lift : {A : Type 0} → Result A → M S A
  lift r s = (r, s)

  -- A statement that reads, and may raise.
  abbrev pub reading : {A : Type 0} → (S → Result A) → M S A
  reading f s = (f s, s)

  abbrev pub gets : {A : Type 0} → (S → A) → M S A
  gets f s = (ok (f s), s)

  abbrev pub put : S → M S (Unit {0})
  put t _ = (ok tt, t)

  abbrev pub guard : Bool → Error → M S (Unit {0})
  guard true e s = (ok tt, s)
  guard false e s = (raise e, s)

  -- Statements one after the other, until one raises.
  abbrev pub run_writes : List (M S (Unit {0})) → M S (Unit {0})
  run_writes [] s = (ok tt, s)
  run_writes (write ∷ writes) s = (write >> run_writes writes) s

-- A property of the state that each statement keeps.
pub >>-keeps {κ} :
    {S B : Type 0} (P : S → Type κ) (m : M S (Unit {0})) (k : M S B) (s : S)
    → P (m s).1
    → ((t : S) → P t → P (k t).1)
    → P ((m >> k) s).1
>>-keeps P m k s h f = elim (Result-cases (m s).0) [
  | inl (a, e) ↦ rw e (f (m s).1 h)
  | inr (x, e) ↦ rw e h
]

-- A statement that has returned leaves the rest to the next one.
pub >>-ok :
    {S B : Type 0} (m : M S (Unit {0})) (k : M S B) (s : S)
    → (m s).0 ≡ ok tt
    → (m >> k) s ≡ k (m s).1
>>-ok m k s h = rw h

pub >>-raise :
    {S B : Type 0} (m : M S (Unit {0})) (k : M S B) (s : S) {e : Error}
    → (m s).0 ≡ raise e
    → (m >> k) s ≡ (raise e, (m s).1)
>>-raise m k s h = rw h

pub raise_ne_ok : {A : Type 0} {x : Error} {a : A} → ◌≡◌ {A = Result A} (raise x) (ok a) → ⊥
raise_ne_ok h = cc

-- Inversion of a statement that returned.
pub >>=-eq-ok :
    {S A B : Type 0} (m : M S A) (f : A → M S B) (s : S) {b : B} {t : S}
    → (m >>= f) s ≡ (ok b, t)
    → (a : A) × ((m s).0 ≡ ok a) × (f a (m s).1 ≡ (ok b, t))
>>=-eq-ok m f s h = elim (Result-cases (m s).0) [
  | inl (a, e) ↦ (a, e, rw e at h)
  | inr (x, e) ↦ absurd (raise_ne_ok (ap (λ p. p.0) (rw e at h)))
]

-- A property of the state after a statement and what follows it.
pub >>=-keeps {κ} :
    {S A B : Type 0} (P : S → Type κ) (m : M S A) (f : A → M S B) (s : S)
    → P (m s).1
    → ((a : A) → (m s).0 ≡ ok a → P (f a (m s).1).1)
    → P ((m >>= f) s).1
>>=-keeps P m f s h g = elim (Result-cases (m s).0) [
  | inl (a, e) ↦ rw e (g a e)
  | inr (x, e) ↦ rw e h
]

pub run_writes-append :
    {S B : Type 0} (ws vs : List (M S (Unit {0}))) (k : M S B) (s : S)
    → (run_writes (ws ++ vs) >> k) s ≡ (run_writes ws >> (run_writes vs >> k)) s
run_writes-append [] vs k s = refl
run_writes-append (w ∷ ws) vs k s = elim (Result-cases (w s).0) [
  | inl (a, e) ↦ rw e (run_writes-append ws vs k (w s).1)
  | inr (x, e) ↦ rw e refl
]

-- A pair of a result and a state, by its parts.
pair_eta : {S : Type 0} (p q : Result (Unit {0}) × S) → p.0 ≡ q.0 → p.1 ≡ q.1 → p ≡ q
pair_eta p q e f i = (e i, f i)

pub run_writes-last : {S : Type 0} (w : M S (Unit {0})) (s : S) → run_writes (w ∷ []) s ≡ w s
run_writes-last w s = elim (Result-cases (w s).0) [
  | inl (a, e) ↦ pair_eta (run_writes (w ∷ []) s) (w s) (rw e refl) (rw e refl)
  | inr (x, e) ↦ pair_eta (run_writes (w ∷ []) s) (w s) (rw e refl) (rw e refl)
]

pub run_writes-two :
    {S : Type 0} (v w : M S (Unit {0})) (s : S) → run_writes (v ∷ w ∷ []) s ≡ (v >> w) s
run_writes-two v w s = elim (Result-cases (v s).0) [
  | inl (a, e) ↦ rw e (run_writes-last w (v s).1)
  | inr (x, e) ↦ rw e refl
]

pub run_writes-split :
    {S : Type 0} (ws vs : List (M S (Unit {0}))) (s : S)
    → run_writes (ws ++ vs) s ≡ (run_writes ws >> run_writes vs) s
run_writes-split [] vs s = refl
run_writes-split (w ∷ ws) vs s = elim (Result-cases (w s).0) [
  | inl (a, e) ↦ rw e (run_writes-split ws vs (w s).1)
  | inr (x, e) ↦ rw e refl
]

-- What follows a statement, as far as it is the same.
pub >>-alike :
    {S B : Type 0} (m : M S (Unit {0})) (k l : M S B) (s : S)
    → k (m s).1 ≡ l (m s).1
    → (m >> k) s ≡ (m >> l) s
>>-alike m k l s h = elim (Result-cases (m s).0) [ inl (a, e) ↦ rw e h | inr (x, e) ↦ rw e refl ]

pub run_writes-then :
    {S B : Type 0} (v w : M S (Unit {0})) (k : M S B) (s : S)
    → (run_writes (v ∷ w ∷ []) >> k) s ≡ (v >> (w >> k)) s
run_writes-then v w k s = elim (Result-cases (v s).0) [
  | inl (a, e) ↦ elim (Result-cases (w (v s).1).0) [
    | inl (b, f) ↦ rw (e, f) refl
    | inr (x, f) ↦ rw (e, f) refl
  ]
  | inr (x, e) ↦ rw e refl
]
