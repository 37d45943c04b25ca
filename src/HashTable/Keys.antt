-- ===== src/HashTable/Keys.antt =====
-- Equal and unequal keys as the walks of src/HashTable.c tell them apart.
use tool_boslib.Base.{
  ℕ, ◌≤◌, ◌≡◌, refl, ap, fun_ext, List, [], ◌∷◌, Bool, true, false, none, some, if◌then◌else◌,
  arith,
}
use tool_boslib.HashTable.{Entry, find_entry, unlink, assign}
use tool_boslib.HashTable.Chains.{hits, find-no_hits}
use tool_boslib.HashTable.Buckets.{is_hit, home}
use tool_boslib.HashTable.Valid.{IsKeyEquality}

module _ {hash : ℕ → ℕ} {eq : ℕ → ℕ → Bool} (key : IsKeyEquality hash eq) (q k : ℕ) where
  is_hit-same : eq q k ≡ true → (e : Entry) → is_hit hash eq q e ≡ is_hit hash eq k e
  is_hit-same h e =
      ground
        (arith, key.hash-eq q k, key.eq_symm q k, key.eq_trans q k e.key, key.eq_trans k q e.key)

  is_hit-apart :
      eq q k ≡ false → (e : Entry) → is_hit hash eq k e ≡ true → is_hit hash eq q e ≡ false
  is_hit-apart h e hit = ground (arith, key.eq_symm k e.key, key.eq_trans q e.key k)

  -- An entry stored under `k` is found under the keys that equal `k`.
  pub is_hit-stored :
      (v : ℕ) → is_hit hash eq q (record { key = k; value = v; hash = hash k }) ≡ eq q k
  is_hit-stored v = ground (arith, key.hash-eq q k)

  home-same :
      (n : ℕ) (bs : List (List Entry)) → eq q k ≡ true → home hash eq n bs q ≡ home hash eq n bs k
  home-same n bs h = rw (key.hash-eq q k h)

  pub hits-same :
      (n : ℕ) (bs : List (List Entry))
      → eq q k ≡ true
      → hits (is_hit hash eq q) (home hash eq n bs q)
        ≡ hits (is_hit hash eq k) (home hash eq n bs k)
  hits-same n bs h = rw (home-same n bs h, fun_ext (is_hit-same h))

  pub find-unlink :
      (c : List Entry)
      → hits (is_hit hash eq k) c ≤ 1
      → find_entry (is_hit hash eq q) (unlink (is_hit hash eq k) c)
        ≡ (if eq q k then none else find_entry (is_hit hash eq q) c)
  unfolding find_entry unlink hits
  find-unlink [] h = ground arith
  find-unlink (e ∷ c) h = ground (
    arith,
    find-unlink c,
    λ (p : eq q k ≡ true). is_hit-same p e,
    λ (p : eq q k ≡ false). is_hit-apart p e,
    find-no_hits (is_hit hash eq k) c,
    λ (p : eq q k ≡ true). ap (λ t. find_entry t c) (fun_ext (is_hit-same p)),
  )

  pub find-assign :
      (v : ℕ) (c : List Entry) {old : Entry}
      → find_entry (is_hit hash eq k) c ≡ some old
      → find_entry (is_hit hash eq q) (assign (is_hit hash eq k) v c)
        ≡ (if eq q k then some (record old { value = v }) else find_entry (is_hit hash eq q) c)
  unfolding find_entry assign
  find-assign v [] h = absurd (cc)
  find-assign v (e ∷ c) {old} h = ground (
    arith,
    find-assign v c {old = old},
    λ (p : eq q k ≡ true). is_hit-same p e,
    λ (p : eq q k ≡ false). is_hit-apart p e,
  )

  pub hits-assign :
      (v : ℕ) (c : List Entry)
      → hits (is_hit hash eq q) (assign (is_hit hash eq k) v c) ≡ hits (is_hit hash eq q) c
  unfolding assign hits
  hits-assign v [] = refl
  hits-assign v (e ∷ c) = ground (arith, hits-assign v c)
