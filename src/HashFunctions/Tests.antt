-- ===== src/HashFunctions/Tests.antt =====
-- Runs of the hash functions, and the theorems about them at concrete keys.
use tool_boslib.Base.{ℕ, ◌+◌, ◌*◌, ◌%◌, ◌^◌, ◌≡◌, refl, List, [], ◌∷◌, arith, if◌then◌else◌, ltb}
use tool_boslib.HashFunctions.{Memory, hash_string}
use tool_boslib.HashFunctions.Djb2.{digits, hash_string-digits}
use tool_boslib.HashFunctions.Generic.{hash_generic}
use tool_boslib.HashFunctions.Generic.Agree.{reference, hash_generic-reference}

-- Every byte of the memory holds its address.
abbrev ramp : Memory
ramp p = p

-- The bytes 4, 5, … stand at 1025 as well, and what stands behind the first six differs.
abbrev shifted : Memory
shifted p = if ltb p 1031 then p + 3 else 7

hash_string_abc : hash_string (b'a' ∷ b'b' ∷ b'c' ∷ []) ≡ 193485963
unfolding hash_string
hash_string_abc = refl

hash_generic_empty : hash_generic ramp 4 0 0 ≡ 0xdeadbeef
unfolding hash_generic
hash_generic_empty = refl

hash_generic_unaligned : hash_generic ramp 5 13 1 ≡ reference ramp 13 5 13 1
unfolding hash_generic reference
hash_generic_unaligned = refl

hash_generic-reference_example : hash_generic ramp 6 25 0 ≡ reference ramp 30 6 25 0
hash_generic-reference_example = hash_generic-reference ramp 30 6 25 0 (omega arith)

hash_generic_moved : hash_generic ramp 4 6 0 ≡ hash_generic shifted 1025 6 0
unfolding hash_generic
hash_generic_moved = refl

abbrev umlaut : List ℕ
umlaut = b'x' ∷ 228 ∷ []

hash_string-digits_example : hash_string umlaut ≡ (5381 * 33 ^ 2 + digits umlaut) % 2 ^ 32
hash_string-digits_example = hash_string-digits umlaut
