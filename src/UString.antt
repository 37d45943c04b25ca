-- ===== src/UString.antt =====
-- src/UString.c: the searches in a text. A text is the list of its characters up to the NUL that ends it,
-- so none of them is 0, and behind the last one a read gives 0. No text is NULL. A position of -1 is
-- `none`.
pub mod Affixes
pub mod Starts
pub mod Positions
mod Tests
use tool_boslib.Base.{
  ℕ, zero, suc, ◌+◌, ◌-◌, List, [], ◌∷◌, length, drop, get_or, Bool, not, ltb, ◌==◌, ◌&&◌,
  if◌then◌else◌, Run, ok, ◌>>◌, require, ℤ, pos, negsuc, Option, none, some,
}

-- string[ i ]
abbrev pub char_at : List ℕ → ℕ → ℕ
char_at string i = get_or string i 0

abbrev pub starts_with_chr : List ℕ → ℕ → Bool
starts_with_chr string ch = not (ltb (length string) 1) && (char_at string 0 == ch)

abbrev pub ends_with_chr : List ℕ → ℕ → Bool
ends_with_chr string ch = not (ltb (length string) 1) && (char_at string (length string - 1) == ch)

-- The loop over the index is a recursion on what both texts have from there on.
abbrev pub starts_with : List ℕ → List ℕ → ℕ
starts_with string [] = 0
starts_with [] (c ∷ start_str) = 1
starts_with (a ∷ string) (c ∷ start_str) = if a == c then starts_with string start_str else 1

-- The same loop, with the index of the text ahead.
unfoldable pub ends_with : List ℕ → List ℕ → ℕ
ends_with string end_str =
    if ltb (length string) (length end_str)
    then 1
    else starts_with (drop (length string - length end_str) string) end_str

abbrev pub first_from : List ℕ → ℕ → ℕ → Option ℕ
first_from [] i sign = none
first_from (a ∷ string) i sign = if a == sign then some i else first_from string (suc i) sign

unfoldable pub get_first_pos : List ℕ → ℕ → Option ℕ
get_first_pos string sign = first_from string 0 sign

-- The loop ends before the position 0.
abbrev pub last_from : List ℕ → ℕ → ℕ → Option ℕ
last_from string zero sign = none
last_from string (suc i) sign =
    if char_at string (suc i) == sign then some (suc i) else last_from string i sign

unfoldable pub get_last_pos : List ℕ → ℕ → Option ℕ
get_last_pos string sign = last_from string (length string) sign

-- `start`, or `other` where `start` is out of range.
abbrev pub start_at : List ℕ → ℤ → ℕ → ℕ
start_at string (negsuc n) other = other
start_at string (pos n) other = if ltb (length string) n then other else n

-- The text from `i` on: where its first such character stands, or where the text ends.
abbrev pub next_from : List ℕ → ℕ → ℕ → ℕ
next_from [] i sign = i
next_from (a ∷ string) i sign = if a == sign then i else next_from string (suc i) sign

-- The result -1 at the last position.
abbrev pub next_result : List ℕ → ℕ → Option ℕ
next_result string result = if suc result == length string then none else some result

unfoldable pub find_next_chr : List ℕ → ℕ → ℤ → Run (Option ℕ)
find_next_chr string sign start = do
  require (not (sign == 0))
  let i = start_at string start 0
  ok (next_result string (next_from (drop i string) i sign))

abbrev pub previous_from : List ℕ → ℕ → ℕ → Option ℕ
previous_from string zero sign = if char_at string zero == sign then some zero else none
previous_from string (suc i) sign =
    if char_at string (suc i) == sign then some (suc i) else previous_from string i sign

unfoldable pub find_previous_chr : List ℕ → ℕ → ℤ → Run (Option ℕ)
find_previous_chr string sign start = do
  require (not (sign == 0))
  ok (previous_from string (start_at string start (length string)) sign)

abbrev pub get_occurrences : List ℕ → ℕ → ℕ
get_occurrences [] sign = 0
get_occurrences (a ∷ string) sign =
    let rest = get_occurrences string sign in if a == sign then suc rest else rest

-- How many characters of the searched text match, after one more that is not its first.
abbrev pub next_count : List ℕ → ℕ → ℕ → ℕ
next_count searched count a =
    if count == 0 then 0 else if a == char_at searched count then count + 1 else 0

-- The text from `i` on, after `count` characters that match.
abbrev pub next_str_from : List ℕ → List ℕ → ℕ → ℕ → Option ℕ
next_str_from searched [] i count = none
next_str_from searched (a ∷ string) i count =
    let again = next_str_from searched string (suc i) 1 in
    let count' = next_count searched count a in
    let other = next_str_from searched string (suc i) count' in
    if a == char_at searched 0
    then again
    else if count' == length searched
    then some (i + 1 - count')
    else other

unfoldable pub find_next_str : List ℕ → List ℕ → ℤ → Option ℕ
find_next_str string searched start =
    let i = start_at string start 0 in next_str_from searched (drop i string) i 0

abbrev pub str_count_from : List ℕ → List ℕ → ℕ → ℕ
str_count_from searched [] count = 0
str_count_from searched (a ∷ string) count =
    let again = str_count_from searched string 1 in
    let count' = next_count searched count a in
    let other = str_count_from searched string count' in
    let reset = str_count_from searched string 0 in
    if a == char_at searched 0
    then again
    else if count' == length searched
    then suc reset
    else other

unfoldable pub get_number_occurrences : List ℕ → List ℕ → ℕ
get_number_occurrences string searched = str_count_from searched string 0
