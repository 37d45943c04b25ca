-- ===== src/UString/Affixes.antt =====
-- src/UString.c: what a text starts and ends with.
use tool_boslib.Base.{
  ℕ, zero, suc, ◌-◌, ◌≡◌, refl, sym, ap, ap₂, ◌∙◌, ◌⊎◌, inl, inr, List, [], ◌∷◌, ◌++◌, length, drop,
  take, ltb, ◌==◌, length-append, length-drop, arith, get_or, Bool, true, false, ◌↔◌, ◌≤◌,
  append-nil, ==_iff, lt→ltb, if◌then◌else◌,
}
use mathlib.Core.Bool.{false≢true}
use mathlib.Core.Path.{subst}
use native.Mathlib.Decide.{dec_lt}
use tool_boslib.UString.{starts_with, ends_with}

abbrev pub Prefix : List ℕ → List ℕ → Type 0
Prefix p string = (rest : List ℕ) × (string ≡ p ++ rest)

abbrev pub Suffix : List ℕ → List ℕ → Type 0
Suffix p string = (rest : List ℕ) × (string ≡ rest ++ p)

-- The answer is 0 for yes and 1 for no.
abbrev pub Verdict : ℕ → Type 0 → Type 0
Verdict answer Fact = ((answer ≡ 0) × Fact) ⊎ ((answer ≡ 1) × ¬ Fact)

Verdict-map : {A B : Type 0} (answer : ℕ) → (A → B) → (B → A) → Verdict answer A → Verdict answer B
Verdict-map answer f g (inl (e, fact)) = inl (e, f fact)
Verdict-map answer f g (inr (e, none_is)) = inr (e, λ fact. none_is (g fact))

-- The test of one character, before that of the rest.
next-Verdict :
    (test : Bool) (answer a c : ℕ) (string p : List ℕ)
    → ((test ≡ true) ↔ (a ≡ c))
    → Verdict answer (Prefix p string)
    → Verdict (if test then answer else 1) (Prefix (c ∷ p) (a ∷ string))
next-Verdict true answer a c string p h v =
    let f : Prefix p string → Prefix (c ∷ p) (a ∷ string) =
      λ x. (x.0, ap₂ (λ b l. b ∷ l) (h.0 refl) x.1) in
    let g : Prefix (c ∷ p) (a ∷ string) → Prefix p string = λ x. (x.0, ap (drop 1) x.1) in
    Verdict-map answer f g v
next-Verdict false answer a c string p h v =
    inr (refl, λ x. absurd (false≢true (h.1 (ap (λ l. get_or l 0 0) x.1))))

pub starts_with-Prefix : (string p : List ℕ) → Verdict (starts_with string p) (Prefix p string)
starts_with-Prefix string [] = inl (refl, (string, refl))
starts_with-Prefix [] (c ∷ p) = inr (refl, λ f. absurd (omega (arith, ap length f.1)))
starts_with-Prefix (a ∷ string) (c ∷ p) =
    next-Verdict (a == c) (starts_with string p) a c string p (==_iff a c)
      (starts_with-Prefix string p)

take-drop : (n : ℕ) (string : List ℕ) → take n string ++ drop n string ≡ string
take-drop zero string = refl
take-drop (suc n) [] = refl
take-drop (suc n) (a ∷ string) = ap (λ l. a ∷ l) (take-drop n string)

drop-append : (rest p : List ℕ) → drop (length rest) (rest ++ p) ≡ p
drop-append [] p = refl
drop-append (a ∷ rest) p = drop-append rest p

-- A prefix that is as long as the text is the text.
prefix-all : (p string : List ℕ) → length string ≡ length p → Prefix p string → string ≡ p
prefix-all p string h ([], e) = e ∙ append-nil p
prefix-all p string h (a ∷ rest, e) =
    absurd (omega (arith, h, ap length e, length-append p (a ∷ rest)))

long-Verdict :
    (string p : List ℕ)
    → length p ≤ length string
    → Verdict (starts_with (drop (length string - length p) string) p) (Suffix p string)
long-Verdict string p h =
    let n : ℕ = length string - length p in
    let end : List ℕ = drop n string in
    let same : length end ≡ length p = omega (arith, length-drop n string) in
    let f : Prefix p end → Suffix p string = λ x. (
      take n string,
      sym (take-drop n string) ∙ ap (λ l. take n string ++ l) (prefix-all p end same x),
    ) in
    let g : Suffix p string → Prefix p end = λ x.
      let k : length x.0 ≡ n = omega (arith, ap length x.1, length-append x.0 p) in
      ([], ap₂ (λ m l. drop m l) (sym k) x.1 ∙ drop-append x.0 p ∙ sym (append-nil p)) in
    Verdict-map (starts_with end p) f g (starts_with-Prefix end p)

pub ends_with-Suffix : (string p : List ℕ) → Verdict (ends_with string p) (Suffix p string)
unfolding ends_with
ends_with-Suffix string p =
    let Answer : Bool → Type 0 = λ b.
      Verdict (if b then 1 else starts_with (drop (length string - length p) string) p)
        (Suffix p string) in
    elim (dec_lt (length string) (length p)) as (λ _. Answer (ltb (length string) (length p))) [
      | yes short ↦
          let no_end : ¬ Suffix p string =
            λ x. absurd (omega (arith, short, ap length x.1, length-append x.0 p)) in
          subst Answer (sym (lt→ltb (length string) (length p) short)) (inr (refl, no_end))
      | no long ↦
          let test : ltb (length string) (length p) ≡ false = ground arith in
          subst Answer (sym test) (long-Verdict string p (omega arith))
    ]

-- UString_startsWith returns 0 exactly if the text is the other one with something behind it, and
-- UString_endsWith exactly if it is the other one with something in front; otherwise they return 1.
pub affixes-Verdict :
    (string p : List ℕ)
    → Verdict (starts_with string p) (Prefix p string)
      × Verdict (ends_with string p) (Suffix p string)
affixes-Verdict string p = (starts_with-Prefix string p, ends_with-Suffix string p)
