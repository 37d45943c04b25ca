-- ===== src/HashFunctions.antt =====
-- The hash functions of src/HashTable.c: HASHTABLE_ROT, HASHTABLE_MIX, HASHTABLE_FINAL,
-- HashTable_hashGeneric and HashTable_hashString, for a little-endian machine with 32-bit
-- `unsigned int` and 64-bit `unsigned long`.
pub mod Generic
pub mod Djb2
mod Tests
use tool_boslib.Base.{ℕ, ◌+◌, ◌-◌, ◌*◌, ◌/◌, ◌%◌, ◌^◌, List, [], ◌∷◌, ltb, if◌then◌else◌, bit_xor}

-- A cell for every address; a read takes its low eight bits.
abbrev pub Memory : Type 0
Memory = ℕ → ℕ

unfoldable pub read8 : Memory → ℕ → ℕ
read8 m p = m p % 256

unfoldable pub read16 : Memory → ℕ → ℕ
read16 m p = read8 m p + 256 * read8 m (p + 1)

unfoldable pub read32 : Memory → ℕ → ℕ
read32 m p = read16 m p + 65536 * read16 m (p + 2)

-- `a += b` and `a -= b` on `unsigned int`
abbrev pub add32 : ℕ → ℕ → ℕ
add32 a b = (a + b) % 2 ^ 32

abbrev pub sub32 : ℕ → ℕ → ℕ
sub32 a b = (a + 2 ^ 32 - b) % 2 ^ 32

-- The bits of the two shifts do not overlap, so `|` is their sum.
rot : ℕ → ℕ → ℕ
rot x k = x * 2 ^ k % 2 ^ 32 + x / 2 ^ (32 - k)

pub record Lanes : Type 0 where
  pub a : ℕ
  pub b : ℕ
  pub c : ℕ

-- One line of HASHTABLE_MIX, `x -= z; x ^= ROT( z, k ); z += y`: the new `x` and the new `z`.
mix_line : ℕ → ℕ → ℕ → ℕ → ℕ × ℕ
unfolding rot
mix_line k x y z = (bit_xor (sub32 x z) (rot z k), add32 z y)

pub mix : Lanes → Lanes
unfolding mix_line
mix s =
    let (a₁, c₁) = mix_line 4 s.a s.b s.c in
    let (b₁, a₂) = mix_line 6 s.b c₁ a₁ in
    let (c₂, b₂) = mix_line 8 c₁ a₂ b₁ in
    let (a₃, c₃) = mix_line 16 a₂ b₂ c₂ in
    let (b₃, a₄) = mix_line 19 b₂ c₃ a₃ in
    let (c₄, b₄) = mix_line 4 c₃ a₄ b₃ in record { a = a₄; b = b₄; c = c₄ }

-- One line of HASHTABLE_FINAL, `x ^= y; x -= ROT( y, k )`.
final_line : ℕ → ℕ → ℕ → ℕ
unfolding rot
final_line k x y = sub32 (bit_xor x y) (rot y k)

pub final : Lanes → Lanes
unfolding final_line
final s =
    let c₁ = final_line 14 s.c s.b in
    let a₁ = final_line 11 s.a c₁ in
    let b₁ = final_line 25 s.b a₁ in
    let c₂ = final_line 16 c₁ b₁ in
    let a₂ = final_line 4 a₁ c₂ in
    let b₂ = final_line 14 b₁ a₂ in record { a = a₂; b = b₂; c = final_line 24 c₂ b₂ }

-- What the `switch` over the last block does: it leaves the lanes for HASHTABLE_FINAL, or returns.
pub data Last : Type 0 where
  finish : Lanes → Last
  return : ℕ → Last

-- A `char` is signed: what adding it does modulo 2 ^ 64.
signed_char : ℕ → ℕ
signed_char c = if ltb c 128 then c else c + (2 ^ 64 - 256)

-- The `while` of HashTable_hashString over the characters before the final '\\0'.
hash_chars : ℕ → List ℕ → ℕ
unfolding signed_char
hash_chars hash [] = hash
hash_chars hash (c ∷ s) = hash_chars ((hash * 2 ^ 5 % 2 ^ 64 + hash + signed_char c) % 2 ^ 64) s

-- The result is an `unsigned int`.
pub hash_string : List ℕ → ℕ
unfolding hash_chars
hash_string s = hash_chars 5381 s % 2 ^ 32
