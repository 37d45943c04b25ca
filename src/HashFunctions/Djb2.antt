-- ===== src/HashFunctions/Djb2.antt =====
-- HashTable_hashString against the polynomial in 33 that djb2 stands for.
use native.Mathlib.Nat.{div-add-mod, pow-suc}
use tool_boslib.Base.{
  ℕ, ◌+◌, ◌-◌, ◌*◌, ◌%◌, ◌^◌, ◌≡◌, ap, ◌∙◌, List, [], ◌∷◌, ltb, if◌then◌else◌, arith, length,
}
use tool_boslib.HashFunctions.{signed_char, hash_chars, hash_string}

abbrev word : ℕ
word = 2 ^ 32

-- What a character adds modulo 2 ^ 32: a byte from 128 on is a negative `char`.
weight : ℕ → ℕ
weight c = if ltb c 128 then c else c + (word - 256)

-- The characters as the digits of a polynomial, the first the highest, over unbounded numbers.
pub digits : List ℕ → ℕ
digits [] = 0
digits (c ∷ s) = weight c * 33 ^ length s + digits s

times_congr : (a b w p : ℕ) → a % word ≡ b % word → (a * w + p) % word ≡ (b * w + p) % word
times_congr a b w p h = omega (
  arith,
  ap (λ t. t * w) (div-add-mod a word),
  ap (λ t. t * w) (div-add-mod b word),
  ap (λ t. t * w) h,
)

step-weight :
    (h c : ℕ)
    → (h * 2 ^ 5 % 2 ^ 64 + h + signed_char c) % 2 ^ 64 % word ≡ (h * 33 + weight c) % word
unfolding signed_char weight
step-weight h c = ground arith

hash_chars-digits :
    (s : List ℕ) (h : ℕ) → hash_chars h s % word ≡ (h * 33 ^ length s + digits s) % word
unfolding hash_chars digits
hash_chars-digits [] h = omega arith
hash_chars-digits (c ∷ s) h =
    hash_chars-digits s _
    ∙ times_congr _ (h * 33 + weight c) (33 ^ length s) (digits s) (step-weight h c)
    ∙ ap (λ t. t % word) (omega (arith, ap (λ t. h * t) (pow-suc 33 (length s))))

-- HashTable_hashString returns 5381 * 33 ^ n plus the polynomial of the n characters, taken at 33,
-- modulo 2 ^ 32: the 64-bit steps make no difference. A character from 128 on counts as the negative
-- number that a signed char has there.
pub hash_string-digits : (s : List ℕ) → hash_string s ≡ (5381 * 33 ^ length s + digits s) % 2 ^ 32
unfolding hash_string
hash_string-digits s = hash_chars-digits s 5381
