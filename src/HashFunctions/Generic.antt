-- ===== src/HashFunctions/Generic.antt =====
-- HashTable_hashGeneric of src/HashTable.c: one branch reads words, one half-words, one bytes.
pub mod Agree
pub mod Content
use tool_boslib.Base.{ℕ, zero, suc, ◌+◌, ◌-◌, ◌*◌, ◌%◌, ◌^◌, ltb, ◌==◌, if◌then◌else◌}
use tool_boslib.HashFunctions.{
  Memory, read8, read16, read32, add32, Lanes, mix, final, Last, finish, return,
}

-- Each branch keeps the address `k` that its pointer holds, and the bytes `n` left.
module _ (m : Memory) where
  -- Aligned to four: `k[ 2 ] & 0xffffff` and the like keep the low bits of a word.
  add_words : ℕ → Lanes → Lanes
  add_words k s = record {
    a = add32 s.a (read32 m k);
    b = add32 s.b (read32 m (k + 4));
    c = add32 s.c (read32 m (k + 8));
  }

  words_tail : ℕ → ℕ → Lanes → Last
  words_tail k n s =
      let k0 = read32 m k in
      let k1 = read32 m (k + 4) in
      let k2 = read32 m (k + 8) in
      let ab = record s { a = add32 s.a k0; b = add32 s.b k1 } in
      if n == 12
      then finish (add_words k s)
      else if n == 11
      then finish (record ab { c = add32 s.c (k2 % 2 ^ 24) })
      else if n == 10
      then finish (record ab { c = add32 s.c (k2 % 2 ^ 16) })
      else if n == 9
      then finish (record ab { c = add32 s.c (k2 % 2 ^ 8) })
      else if n == 8
      then finish ab
      else if n == 7
      then finish (record ab { b = add32 s.b (k1 % 2 ^ 24) })
      else if n == 6
      then finish (record ab { b = add32 s.b (k1 % 2 ^ 16) })
      else if n == 5
      then finish (record ab { b = add32 s.b (k1 % 2 ^ 8) })
      else if n == 4
      then finish (record s { a = add32 s.a k0 })
      else if n == 3
      then finish (record s { a = add32 s.a (k0 % 2 ^ 24) })
      else if n == 2
      then finish (record s { a = add32 s.a (k0 % 2 ^ 16) })
      else if n == 1
      then finish (record s { a = add32 s.a (k0 % 2 ^ 8) })
      else if n == 0
      then return s.c
      else finish s

  -- The fuel, in the first place, bounds the rounds of `while( length > 12 )`.
  pub hash_words : ℕ → ℕ → ℕ → Lanes → Last
  hash_words zero k n s = words_tail k n s
  hash_words (suc f) k n s =
      let rest = hash_words f (k + 12) (n - 12) (mix (add_words k s)) in
      if ltb 12 n then rest else words_tail k n s

  -- Aligned to two: `k[ i ] + ( k[ i + 1 ] << 16 )`.
  half_words : ℕ → ℕ
  half_words p = read16 m p + read16 m (p + 2) * 2 ^ 16

  add_half_words : ℕ → Lanes → Lanes
  add_half_words k s = record {
    a = add32 s.a (half_words k);
    b = add32 s.b (half_words (k + 4));
    c = add32 s.c (half_words (k + 8));
  }

  -- A case that falls through adds its byte and goes on with the case below.
  half_words_tail : ℕ → ℕ → Lanes → Last
  half_words_tail k n s =
      let ab = record s { a = add32 s.a (half_words k); b = add32 s.b (half_words (k + 4)) } in
      let a = add32 s.a (half_words k) in
      let c11 = add32 s.c (read8 m (k + 10) * 2 ^ 16) in
      let b7 = add32 s.b (read8 m (k + 6) * 2 ^ 16) in
      let a3 = add32 s.a (read8 m (k + 2) * 2 ^ 16) in
      if n == 12
      then finish (add_half_words k s)
      else if n == 11
      then finish (record ab { c = add32 c11 (read16 m (k + 8)) })
      else if n == 10
      then finish (record ab { c = add32 s.c (read16 m (k + 8)) })
      else if n == 9
      then finish (record ab { c = add32 s.c (read8 m (k + 8)) })
      else if n == 8
      then finish ab
      else if n == 7
      then finish (record s { a = a; b = add32 b7 (read16 m (k + 4)) })
      else if n == 6
      then finish (record s { a = a; b = add32 s.b (read16 m (k + 4)) })
      else if n == 5
      then finish (record s { a = a; b = add32 s.b (read8 m (k + 4)) })
      else if n == 4
      then finish (record s { a = a })
      else if n == 3
      then finish (record s { a = add32 a3 (read16 m k) })
      else if n == 2
      then finish (record s { a = add32 s.a (read16 m k) })
      else if n == 1
      then finish (record s { a = add32 s.a (read8 m k) })
      else if n == 0
      then return s.c
      else finish s

  hash_half_words : ℕ → ℕ → ℕ → Lanes → Last
  hash_half_words zero k n s = half_words_tail k n s
  hash_half_words (suc f) k n s =
      let rest = hash_half_words f (k + 12) (n - 12) (mix (add_half_words k s)) in
      if ltb 12 n then rest else half_words_tail k n s

  -- Any alignment: `x += k[ p ]; x += k[ p + 1 ] << 8` and so on, for the four bytes of a lane.
  add_bytes4 : ℕ → ℕ → ℕ
  add_bytes4 p x =
      add32
        (add32 (add32 (add32 x (read8 m p)) (read8 m (p + 1) * 2 ^ 8)) (read8 m (p + 2) * 2 ^ 16))
        (read8 m (p + 3) * 2 ^ 24)

  add_bytes : ℕ → Lanes → Lanes
  add_bytes k s = record {
    a = add_bytes4 k s.a;
    b = add_bytes4 (k + 4) s.b;
    c = add_bytes4 (k + 8) s.c;
  }

  -- The cases of the `switch` for one lane, whose first byte is at `p`: they add the last byte first,
  -- and fall through to the first one.
  add_bytes_down : ℕ → ℕ → ℕ → ℕ
  add_bytes_down p zero x = x
  add_bytes_down p (suc j) x = add_bytes_down p j (add32 x (read8 m (p + j) * 2 ^ (8 * j)))

  bytes_tail : ℕ → ℕ → Lanes → Last
  bytes_tail k n s =
      let a = add_bytes_down k (if ltb n 4 then n else 4) s.a in
      let b = add_bytes_down (k + 4) (if ltb n 8 then n - 4 else 4) s.b in
      let c = add_bytes_down (k + 8) (n - 8) s.c in
      if n == 0
      then return s.c
      else if ltb 12 n
      then finish s
      else finish (record { a = a; b = b; c = c })

  pub hash_bytes : ℕ → ℕ → ℕ → Lanes → Last
  hash_bytes zero k n s = bytes_tail k n s
  hash_bytes (suc f) k n s =
      let rest = hash_bytes f (k + 12) (n - 12) (mix (add_bytes k s)) in
      if ltb 12 n then rest else bytes_tail k n s

-- After the branch: HASHTABLE_FINAL, unless the length was 0.
finished : Last → ℕ
finished (finish s) = (final s).c
finished (return c) = c

-- The branch is chosen by the alignment of `key`. `length` rounds are enough for each loop.
unfoldable pub hash_generic : Memory → ℕ → ℕ → ℕ → ℕ
unfolding read8 read16 read32 add_words words_tail hash_words half_words add_half_words
    half_words_tail hash_half_words add_bytes4 add_bytes add_bytes_down bytes_tail hash_bytes
    finished mix final
hash_generic m key length init_val =
    let x = (0xdeadbeef + length + init_val) % 2 ^ 32 in
    let s : Lanes = record { a = x; b = x; c = x } in
    if key % 4 == 0
    then finished (hash_words m length key length s)
    else if key % 2 == 0
    then finished (hash_half_words m length key length s)
    else finished (hash_bytes m length key length s)
