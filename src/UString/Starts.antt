-- ===== src/UString/Starts.antt =====
-- src/UString.c: where a search starts.
use tool_boslib.Base.{
  ℕ, ◌≤◌, ◌<◌, ◌≡◌, ◌⊎◌, inl, inr, refl, List, length, ℤ, pos, negsuc, arith, pos_injective,
  negsuc_not_pos,
}
use mathlib.Core.Path.{subst}
use native.Mathlib.Decide.{dec_lt}
use tool_boslib.UString.{start_at}

-- The position from which a search starts: the one asked for if the text or its end has it, else another.
abbrev pub Starts : List ℕ → ℤ → ℕ → ℕ → Type 0
Starts string start other low =
    ((n : ℕ) × (start ≡ pos n) × (n ≤ length string) × (low ≡ n))
    ⊎ (((n : ℕ) → start ≡ pos n → length string < n) × (low ≡ other))

pub start_at-Starts :
    (string : List ℕ) (start : ℤ) (other : ℕ)
    → Starts string start other (start_at string start other)
start_at-Starts string (negsuc n) other = inr ((λ k e. absurd (negsuc_not_pos n k e)), refl)
start_at-Starts string (pos n) other = elim (dec_lt (length string) n) [
  | yes beyond ↦
      inr ((λ k e. subst (λ l. length string < l) (pos_injective n k e) beyond), ground arith)
  | no within ↦ inl (n, refl, omega arith, ground arith)
]

pub Starts-within :
    (string : List ℕ) (start : ℤ) (low : ℕ) → Starts string start 0 low → low ≤ length string
Starts-within string start low (inl (n, e, within, same)) = omega (arith, same, within)
Starts-within string start low (inr (beyond, same)) = omega (arith, same)
