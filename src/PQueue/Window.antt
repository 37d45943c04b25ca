-- ===== src/PQueue/Window.antt =====
-- The slots of src/PQueue.c that hold elements.
use native.Mathlib.Nat.{add-zero, mod-add-mod, mod-eq_of_lt, mod-eq-sub-mod}
use native.Mathlib.Decide.{dec_lt}
use tool_boslib.Base.{
  ℕ, suc, ◌+◌, ◌-◌, ◌*◌, ◌%◌, ◌≤◌, ◌<◌, ◌≡◌, ◌≢◌, ap, ◌∙◌, List, [], ◌∷◌, ◌++◌, arith, length,
  get_or,
}
use tool_boslib.PQueue.{Bytes, Codec}
use tool_boslib.PQueue.Ring.{overwrite}

module _ {A : Type 0} (codec : Codec A) (size cap : ℕ) where
  -- The serialized element stands in the slot from offset `at` on, and fits there.
  pub record Stored (mem : Bytes) (at : ℕ) (x : A) : Type 0 where
    pub fits : length (codec.serialize x) ≤ size
    pub bytes :
        (i : ℕ) → i < length (codec.serialize x) → mem (at + i) ≡ get_or (codec.serialize x) i 0

  -- The slots from `h` on, going round at `cap`, hold the elements of a list.
  abbrev pub Window : Bytes → ℕ → List A → Type 0
  Window mem h [] = Unit
  Window mem h (x ∷ q) = Stored mem (h * size) x × Window mem ((h + 1) % cap) q

  overwrite-Stored :
      (mem : Bytes) (at : ℕ) (x : A)
      → length (codec.serialize x) ≤ size
      → Stored (overwrite mem at (codec.serialize x)) at x
  unfolding overwrite
  overwrite-Stored mem at x h = record {
    fits = h;
    bytes = λ i lt. let e : at + i - at ≡ i = omega arith in rw e (ground arith);
  }

  slot_order : (i j : ℕ) → i < j → i * size + size ≤ j * size
  slot_order i j h = grind arith

  slots-apart : (i j k l : ℕ) → i ≢ j → k < size → l < size → i * size + k ≢ j * size + l
  slots-apart i j k l ne h g e = elim (dec_lt i j) [
    | yes lt ↦ omega (arith, slot_order i j lt)
    | no ge ↦ omega (arith, slot_order j i (omega arith))
  ]

  -- A write in one slot leaves the others.
  keep-Stored :
      (mem : Bytes) (i j : ℕ) (x y : A)
      → i ≢ j
      → length (codec.serialize x) ≤ size
      → Stored mem (j * size) y
      → Stored (overwrite mem (i * size) (codec.serialize x)) (j * size) y
  unfolding overwrite
  keep-Stored mem i j x y ne h s = record {
    fits = s.fits;
    bytes = λ k lt. ground (arith, s.bytes k lt, slots-apart i j (j * size + k - i * size) k ne);
  }

  -- Fewer than `cap` steps round the slots do not lead back.
  step_round : (h k : ℕ) → h < cap → suc k < cap → (h + suc k) % cap ≢ h
  step_round h k hh hk = elim (dec_lt (h + suc k) cap) [
    | yes within ↦ omega (arith, mod-eq_of_lt within)
    | no beyond ↦
        let back = mod-eq-sub-mod {n = h + suc k} {m = cap} (omega arith) in
        omega (arith, back, mod-eq_of_lt {n = h + suc k - cap} {m = cap} (omega arith))
  ]

  -- A write behind the window extends it.
  pub Window-snoc :
      (mem : Bytes) (x : A) (q : List A) (h t : ℕ)
      → h < cap
      → length q < cap
      → t ≡ (h + length q) % cap
      → length (codec.serialize x) ≤ size
      → Window mem h q
      → Window (overwrite mem (t * size) (codec.serialize x)) h (q ++ x ∷ [])
  Window-snoc mem x [] h t hh hq e fits w =
      let e' : t ≡ h = e ∙ rw add-zero (mod-eq_of_lt hh) in
      rw e' (overwrite-Stored mem (h * size) x fits, tt)
  Window-snoc mem x (y ∷ q) h t hh hq e fits w =
      let round : (h + suc (length q)) % cap ≡ ((h + 1) % cap + length q) % cap =
        rw mod-add-mod (ap (λ n. n % cap) (omega arith)) in
      (
        keep-Stored mem t h x y (rw e (step_round h (length q) hh hq)) fits w.0,
        Window-snoc mem x q ((h + 1) % cap) t (omega arith) (omega arith) (e ∙ round) fits w.1,
      )
