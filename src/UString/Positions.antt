-- ===== src/UString/Positions.antt =====
-- src/UString.c: the positions that the searches for a character give.
use tool_boslib.Base.{
  get_or, ℕ, zero, suc, ◌+◌, ◌≤◌, ◌<◌, ◌≡◌, ◌≢◌, ◌↔◌, refl, ap, ◌∙◌, List, [], ◌∷◌, length, drop,
  Bool, true, false, ◌==◌, ==_iff, if◌then◌else◌, Run, ok, ◌>>◌, require, not, ℤ, Option, none,
  some, length-drop, arith,
}
use mathlib.Core.Bool.{false≢true}
use mathlib.Core.Path.{subst}
use native.Mathlib.Decide.{dec_lt}
use tool_boslib.UString.Starts.{Starts, start_at-Starts, Starts-within}
use tool_boslib.UString.{
  char_at, first_from, get_first_pos, last_from, get_last_pos, start_at, next_from, next_result,
  find_next_chr, previous_from, find_previous_chr,
}

-- The first `sign` of the text `rest`, which starts at the position `i`.
abbrev pub IsFirst : List ℕ → ℕ → ℕ → Option ℕ → Type 0
IsFirst rest i sign (some m) =
    (k : ℕ) × (m ≡ i + k)
    × (k < length rest)
    × (get_or rest k 0 ≡ sign)
    × ((j : ℕ) → j < k → get_or rest j 0 ≢ sign)
IsFirst rest i sign none = (j : ℕ) → j < length rest → get_or rest j 0 ≢ sign

-- The last `sign` at the positions from `low` to `high`.
abbrev pub IsLast : List ℕ → ℕ → ℕ → ℕ → Option ℕ → Type 0
IsLast string low high sign (some i) =
    (low ≤ i)
    × (i ≤ high)
    × (get_or string i 0 ≡ sign)
    × ((j : ℕ) → i < j → j ≤ high → get_or string j 0 ≢ sign)
IsLast string low high sign none = (j : ℕ) → low ≤ j → j ≤ high → get_or string j 0 ≢ sign

-- Nothing at the head, and nothing at the positions of the rest before `k`.
none-before :
    (a : ℕ) (rest : List ℕ) (sign k : ℕ)
    → a ≢ sign
    → ((j : ℕ) → j < k → char_at rest j ≢ sign)
    → (j : ℕ) → j < suc k
    → char_at (a ∷ rest) j ≢ sign
none-before a rest sign k other before zero less = other
none-before a rest sign k other before (suc j) less = before j (omega (arith, less))

IsFirst-step :
    (test : Bool) (a : ℕ) (rest : List ℕ) (i sign : ℕ) (o : Option ℕ)
    → ((test ≡ true) ↔ (a ≡ sign))
    → IsFirst rest (suc i) sign o
    → IsFirst (a ∷ rest) i sign (if test then some i else o)
IsFirst-step true a rest i sign o h later =
    (0, omega arith, omega arith, h.0 refl, λ j less. absurd (omega (arith, less)))
IsFirst-step false a rest i sign (some m) h (k, e, room, found, before) =
    let other : a ≢ sign = λ same. false≢true (h.1 same) in
    (suc k, omega (arith, e), omega (arith, room), found, none-before a rest sign k other before)
IsFirst-step false a rest i sign none h later =
    none-before a rest sign (length rest) (λ same. false≢true (h.1 same)) later

pub first_from-IsFirst : (rest : List ℕ) (i sign : ℕ) → IsFirst rest i sign (first_from rest i sign)
first_from-IsFirst [] i sign = λ j less. absurd (omega (arith, less))
first_from-IsFirst (a ∷ rest) i sign =
    IsFirst-step (a == sign) a rest i sign (first_from rest (suc i) sign) (==_iff a sign)
      (first_from-IsFirst rest (suc i) sign)

-- Nothing at the position behind `i`, and nothing at those up to it from `low` on.
none-up_to :
    (string : List ℕ) (low i sign : ℕ)
    → char_at string (suc i) ≢ sign
    → ((j : ℕ) → low ≤ j → j ≤ i → char_at string j ≢ sign)
    → (j : ℕ) → low ≤ j
    → j ≤ suc i
    → char_at string j ≢ sign
none-up_to string low i sign other below j more less = elim (dec_lt i j) [
  | yes behind ↦
      let same : suc i ≡ j = omega (arith, behind, less) in
      subst (λ k. char_at string k ≢ sign) same other
  | no ahead ↦ below j more (omega arith)
]

IsLast-step :
    (test : Bool) (string : List ℕ) (low i sign : ℕ) (o : Option ℕ)
    → ((test ≡ true) ↔ (char_at string (suc i) ≡ sign))
    → low ≤ suc i
    → IsLast string low i sign o
    → IsLast string low (suc i) sign (if test then some (suc i) else o)
IsLast-step true string low i sign o h room below =
    (room, omega arith, h.0 refl, λ j more less. absurd (omega (arith, more, less)))
IsLast-step false string low i sign (some m) h room (above, under, found, later) =
    let other : char_at string (suc i) ≢ sign = λ same. false≢true (h.1 same) in
    (above, omega (arith, under), found, none-up_to string (suc m) i sign other later)
IsLast-step false string low i sign none h room below =
    none-up_to string low i sign (λ same. false≢true (h.1 same)) below

last_from-IsLast : (string : List ℕ) (i sign : ℕ) → IsLast string 1 i sign (last_from string i sign)
last_from-IsLast string zero sign = λ j more less. absurd (omega (arith, more, less))
last_from-IsLast string (suc i) sign =
    IsLast-step (char_at string (suc i) == sign) string 1 i sign (last_from string i sign)
      (==_iff (char_at string (suc i)) sign) (omega arith) (last_from-IsLast string i sign)

only-IsLast :
    (test : Bool) (string : List ℕ) (sign : ℕ)
    → ((test ≡ true) ↔ (char_at string 0 ≡ sign))
    → IsLast string 0 0 sign (if test then some 0 else none)
only-IsLast true string sign h =
    (omega arith, omega arith, h.0 refl, λ j more less. absurd (omega (arith, more, less)))
only-IsLast false string sign h = λ j more less.
    let at_start : 0 ≡ j = omega (arith, less) in
    subst (λ k. char_at string k ≢ sign) at_start (λ same. false≢true (h.1 same))

previous_from-IsLast :
    (string : List ℕ) (i sign : ℕ) → IsLast string 0 i sign (previous_from string i sign)
previous_from-IsLast string zero sign =
    only-IsLast (char_at string 0 == sign) string sign (==_iff (char_at string 0) sign)
previous_from-IsLast string (suc i) sign =
    IsLast-step (char_at string (suc i) == sign) string 0 i sign (previous_from string i sign)
      (==_iff (char_at string (suc i)) sign) (omega arith) (previous_from-IsLast string i sign)

-- The result of `find_next_chr` for the first position that has the character.
abbrev pub next_of : List ℕ → Option ℕ → Option ℕ
next_of string none = some (length string)
next_of string (some m) = if suc m == length string then none else some m

-- No character is found: the position is the end of the text, and so not its last one.
next_result-end :
    (string : List ℕ) (i : ℕ) → i ≡ length string → next_result string i ≡ some (length string)
next_result-end string i h =
    let test : (suc i == length string) ≡ false = ground (arith, h) in
    ap (λ b. if b then none else some i) test ∙ ap some h

either-next :
    (test : Bool) (string : List ℕ) (i n : ℕ) (o : Option ℕ)
    → next_result string n ≡ next_of string o
    → next_result string (if test then i else n) ≡ next_of string (if test then some i else o)
either-next true string i n o e = refl
either-next false string i n o e = e

next_from_lem :
    (string rest : List ℕ) (i sign : ℕ)
    → i + length rest ≡ length string
    → next_result string (next_from rest i sign) ≡ next_of string (first_from rest i sign)
next_from_lem string [] i sign h = next_result-end string i (omega (arith, h))
next_from_lem string (a ∷ rest) i sign h =
    let later : i + length rest + 1 ≡ length string = omega (arith, h) in
    either-next (a == sign) string i (next_from rest (suc i) sign) (first_from rest (suc i) sign)
      (next_from_lem string rest (suc i) sign (omega (arith, later)))

sign-given : (sign : ℕ) → sign ≢ 0 → not (sign == 0) ≡ true
sign-given sign given = ground arith

pub find_next_chr_lem :
    (string : List ℕ) (sign : ℕ) (start : ℤ)
    → sign ≢ 0
    → (low : ℕ) × (o : Option ℕ) × Starts string start 0 low
      × IsFirst (drop low string) low sign o
      × (find_next_chr string sign start ≡ ok (next_of string o))
unfolding find_next_chr
find_next_chr_lem string sign start given =
    let i : ℕ = start_at string start 0 in
    let rest : List ℕ = drop i string in
    let whole : i + length rest ≡ length string = omega (
      arith,
      length-drop i string,
      Starts-within string start i (start_at-Starts string start 0),
    ) in
    let Result : Bool → Run (Option ℕ) =
      λ b. require b >> ok (next_result string (next_from rest i sign)) in
    (
      i,
      first_from rest i sign,
      start_at-Starts string start 0,
      first_from-IsFirst rest i sign,
      ap Result (sign-given sign given) ∙ ap ok (next_from_lem string rest i sign whole),
    )

pub find_previous_chr_lem :
    (string : List ℕ) (sign : ℕ) (start : ℤ)
    → sign ≢ 0
    → (high : ℕ) × (o : Option ℕ) × Starts string start (length string) high
      × IsLast string 0 high sign o
      × (find_previous_chr string sign start ≡ ok o)
unfolding find_previous_chr
find_previous_chr_lem string sign start given =
    let high : ℕ = start_at string start (length string) in
    let Result : Bool → Run (Option ℕ) = λ b. require b >> ok (previous_from string high sign) in
    (
      high,
      previous_from string high sign,
      start_at-Starts string start (length string),
      previous_from-IsLast string high sign,
      ap Result (sign-given sign given),
    )

get_first_pos-IsFirst :
    (string : List ℕ) (sign : ℕ) → IsFirst string 0 sign (get_first_pos string sign)
unfolding get_first_pos
get_first_pos-IsFirst string sign = first_from-IsFirst string 0 sign

get_last_pos-IsLast :
    (string : List ℕ) (sign : ℕ) → IsLast string 1 (length string) sign (get_last_pos string sign)
unfolding get_last_pos
get_last_pos-IsLast string sign = last_from-IsLast string (length string) sign

-- For a character that is not NUL: UString_getFirstPosChr gives its first position.
-- UString_getLastPosChr gives its last one, but does not look at position 0.
-- UString_findNextOccurrenceChr looks from the start on, or from 0 where the start is negative or
-- behind the end, and gives the first position, but -1 if that is the last of the text, and the length
-- of the text if there is none. UString_findPreviousOccurrenceChr gives the last position up to the
-- start, or up to the end where the start is negative or behind it, and -1 if there is none.
pub chr_searches_lem :
    (string : List ℕ) (sign : ℕ) (start : ℤ)
    → sign ≢ 0
    → IsFirst string 0 sign (get_first_pos string sign)
      × IsLast string 1 (length string) sign (get_last_pos string sign)
      × ((low : ℕ) × (o : Option ℕ) × Starts string start 0 low
          × IsFirst (drop low string) low sign o
          × (find_next_chr string sign start ≡ ok (next_of string o)))
      × ((high : ℕ) × (o : Option ℕ) × Starts string start (length string) high
          × IsLast string 0 high sign o
          × (find_previous_chr string sign start ≡ ok o))
chr_searches_lem string sign start given = (
  get_first_pos-IsFirst string sign,
  get_last_pos-IsLast string sign,
  find_next_chr_lem string sign start given,
  find_previous_chr_lem string sign start given,
)
