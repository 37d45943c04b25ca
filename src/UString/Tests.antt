-- ===== src/UString/Tests.antt =====
-- Runs of src/UString.c, and instances of the theorems about it.
use tool_boslib.Base.{
  ℕ, ◌≡◌, ◌≢◌, refl, List, [], ◌∷◌, drop, true, false, ok, pos, negsuc, Option, none, some, arith,
}
use tool_boslib.UString.{
  starts_with_chr, ends_with_chr, starts_with, ends_with, get_first_pos, get_last_pos,
  find_next_chr, find_previous_chr, get_occurrences, find_next_str, get_number_occurrences,
}
use tool_boslib.UString.Affixes.{Verdict, Prefix, Suffix, affixes-Verdict}
use tool_boslib.UString.Starts.{Starts}
use tool_boslib.UString.Positions.{IsFirst, IsLast, next_of, chr_searches_lem}

-- "abca"
abbrev abca : List ℕ
abca = 97 ∷ 98 ∷ 99 ∷ 97 ∷ []

-- 1 for yes, where the header promises 0.
starts_with_a : starts_with_chr abca 97 ≡ true
starts_with_a = refl

ends_with_b : ends_with_chr abca 98 ≡ false
ends_with_b = refl

ends_with_ca : ends_with abca (99 ∷ 97 ∷ []) ≡ 0
unfolding ends_with
ends_with_ca = refl

-- The first character is not looked at.
last_in_a : get_last_pos (97 ∷ []) 97 ≡ none
unfolding get_last_pos
last_in_a = refl

-- The last character is not found, and an absent one is found at the end.
next_at_last : find_next_chr abca 97 (pos 1) ≡ ok none
unfolding find_next_chr
next_at_last = refl

next_of_absent : find_next_chr abca 120 (pos 0) ≡ ok (some 4)
unfolding find_next_chr
next_of_absent = refl

previous_from_end : find_previous_chr abca 98 (negsuc 0) ≡ ok (some 1)
unfolding find_previous_chr
previous_from_end = refl

two_in_abca : get_occurrences abca 97 ≡ 2
two_in_abca = refl

bc_in_abca : find_next_str abca (98 ∷ 99 ∷ []) (pos 0) ≡ some 1
unfolding find_next_str
bc_in_abca = refl

-- A text of one character is not found, nor one that starts with a character twice.
b_in_abca : find_next_str abca (98 ∷ []) (pos 0) ≡ none
unfolding find_next_str
b_in_abca = refl

aab_in_aab : get_number_occurrences (97 ∷ 97 ∷ 98 ∷ []) (97 ∷ 97 ∷ 98 ∷ []) ≡ 0
unfolding get_number_occurrences
aab_in_aab = refl

affixes-Verdict_example :
    Verdict (starts_with abca (97 ∷ 98 ∷ [])) (Prefix (97 ∷ 98 ∷ []) abca)
    × Verdict (ends_with abca (97 ∷ 98 ∷ [])) (Suffix (97 ∷ 98 ∷ []) abca)
affixes-Verdict_example = affixes-Verdict abca (97 ∷ 98 ∷ [])

abbrev letter : ℕ
letter = 97

a-given : letter ≢ 0
a-given = λ e. absurd (omega (arith, e))

chr_searches_lem_example :
    IsFirst abca 0 97 (get_first_pos abca 97)
    × IsLast abca 1 4 97 (get_last_pos abca 97)
    × ((low : ℕ) × (o : Option ℕ) × Starts abca (pos 1) 0 low
        × IsFirst (drop low abca) low 97 o
        × (find_next_chr abca 97 (pos 1) ≡ ok (next_of abca o)))
    × ((high : ℕ) × (o : Option ℕ) × Starts abca (pos 1) 4 high
        × IsLast abca 0 high 97 o
        × (find_previous_chr abca 97 (pos 1) ≡ ok o))
chr_searches_lem_example = chr_searches_lem abca 97 (pos 1) a-given
