-- ===== src/Scripts/Codes.antt =====
-- `return 1 if problems else 0`, at the end of the `main` of the checks under scripts.
use ai_chatbot.Base.{
  ℕ, String, true, List, [], ◌∷◌, ok, ok_injective, if◌then◌else◌, is_empty, ◌≡◌, refl, ap,
}

-- The problems, and the code.
abbrev pub with_code : List String → List String × ℕ
with_code problems = (problems, if is_empty problems then 0 else 1)

one_ne_zero : ◌≡◌ {A = ℕ} 1 0 → ⊥
one_ne_zero h = cc

pub with_code_zero :
    (found problems : List String) → ok (with_code found) ≡ ok (problems, 0) → is_empty found ≡ true
with_code_zero [] problems h = refl
with_code_zero (x ∷ found) problems h = absurd (one_ne_zero (ap (λ p. p.1) (ok_injective h)))
