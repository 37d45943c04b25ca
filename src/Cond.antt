-- ===== src/Cond.antt =====
-- The wait of src/Cond.c, as the queues use it.
use tool_boslib.Base.{
  zero, suc, ◌≡◌, ◌≢◌, ◌⊎◌, inl, inr, refl, Bool, true, false, Run, ok, blocked, ℤ, pos, negsuc,
  negsuc_not_pos, pos_injective, arith,
}

-- `wakes` is whether a signal, a broadcast or a wakeup without one ends a wait without a timeout. The
-- calls for the mutex and for the clock are taken to succeed.
unfoldable pub wait : ℤ → Bool → Run (Unit {0})
wait (pos zero) true = ok tt
wait (pos zero) false = blocked
wait (pos (suc n)) wakes = ok tt
wait (negsuc n) wakes = ok tt

-- There is a timeout, or something else ends the wait.
abbrev pub Ends : ℤ → Bool → Type 0
Ends microsecs wakes = (microsecs ≢ pos 0) ⊎ (wakes ≡ true)

pub wait-cases :
    (microsecs : ℤ) (wakes : Bool)
    → (Ends microsecs wakes × (wait microsecs wakes ≡ ok tt))
      ⊎ ((microsecs ≡ pos 0) × (wakes ≡ false) × (wait microsecs wakes ≡ blocked))
unfolding wait
wait-cases (pos zero) true = inl (inr refl, refl)
wait-cases (pos zero) false = inr (refl, refl, refl)
wait-cases (pos (suc n)) wakes =
    inl (inl (λ e. absurd (omega (arith, pos_injective (suc n) 0 e))), refl)
wait-cases (negsuc n) wakes = inl (inl (negsuc_not_pos n 0), refl)
