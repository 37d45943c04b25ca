-- ===== src/HashTable/Move.antt =====
-- Entries that src/HashTable.c pushes onto their bucket, one by one or chain by chain.
use native.Mathlib.Decide.{ℕ_discrete}
use tool_boslib.Base.{
  ℕ, zero, suc, ◌+◌, ◌%◌, ◌<◌, ◌≡◌, refl, ◌∙◌, List, [], ◌∷◌, Bool, some, ◌==◌, if◌then◌else◌,
  length, get_or, set, replicate, All, arith, get_or-set_self, get_or-set_ne, length-set,
}
use tool_boslib.HashTable.{Entry, find_entry, push_entry, move_chain}
use tool_boslib.HashTable.Chains.{to_nat, hits, total, last_match}
use tool_boslib.HashTable.Buckets.{is_hit, home, Placed, Placed-get_or, Placed-set}

pub total-set :
    (bs : List (List Entry)) (i : ℕ) (c : List Entry)
    → i < length bs
    → total (set bs i c) + length (get_or bs i []) ≡ total bs + length c
unfolding total
total-set [] i c h = absurd (omega arith)
total-set (b ∷ bs) zero c h = omega arith
total-set (b ∷ bs) (suc i) c h = omega (arith, total-set bs i c (omega arith))

pub total-replicate : (n : ℕ) → total (replicate n []) ≡ 0
unfolding total
total-replicate zero = refl
total-replicate (suc n) = omega (arith, total-replicate n)

pub length-push :
    (n : ℕ) (bs : List (List Entry)) (e : Entry) → length (push_entry n bs e) ≡ length bs
unfolding push_entry
length-push n bs e = length-set bs _ _

module _ (hash : ℕ → ℕ) (eq : ℕ → ℕ → Bool) where
  -- A write of one bucket, as a walk for `q` sees it.
  pub home-set :
      (n i q : ℕ) (bs : List (List Entry)) (c : List Entry)
      → i < length bs
      → home hash eq n (set bs i c) q ≡ (if hash q % n == i then c else home hash eq n bs q)
  home-set n i q bs c h = elim (ℕ_discrete i (hash q % n)) [
    | yes e ↦ rw (← e) (ground (arith, get_or-set_self bs i c [] h))
    | no ne ↦ ground (arith, get_or-set_ne bs i (hash q % n) c [] ne)
  ]

  module _ (n : ℕ) (pos : 0 < n) where
    pub home-push :
        (bs : List (List Entry)) (e : Entry) (q : ℕ)
        → length bs ≡ n
        → (find_entry (is_hit hash eq q) (home hash eq n (push_entry n bs e) q) ≡ (
            if is_hit hash eq q e
            then some e
            else find_entry (is_hit hash eq q) (home hash eq n bs q)))
          × (hits (is_hit hash eq q) (home hash eq n (push_entry n bs e) q)
              ≡ to_nat (is_hit hash eq q e) + hits (is_hit hash eq q) (home hash eq n bs q))
    unfolding push_entry hits find_entry
    home-push bs e q w =
        ground (arith, home-set n (e.hash % n) q bs (e ∷ get_or bs (e.hash % n) []) (omega arith))

    pub push-Placed :
        (bs : List (List Entry)) (e : Entry)
        → length bs ≡ n
        → e.hash ≡ hash e.key
        → Placed hash eq n 0 bs
        → Placed hash eq n 0 (push_entry n bs e)
    unfolding push_entry
    push-Placed bs e w h p =
        Placed-set hash eq n 0 (e.hash % n) bs _ p
          ((h, omega arith), Placed-get_or hash eq n 0 _ bs p)

    pub total-push :
        (bs : List (List Entry)) (e : Entry)
        → length bs ≡ n
        → total (push_entry n bs e) ≡ suc (total bs)
    unfolding push_entry
    total-push bs e w =
        omega (arith, total-set bs (e.hash % n) (e ∷ get_or bs (e.hash % n) []) (omega arith))

    -- What moving a chain into `bs` does.
    pub record Moved (es : List Entry) (bs new : List (List Entry)) : Type 0 where
      pub width : length new ≡ n
      pub placed : Placed hash eq n 0 new
      pub entries : total new ≡ length es + total bs
      pub finds :
          (q : ℕ)
          → find_entry (is_hit hash eq q) (home hash eq n new q)
            ≡ last_match (is_hit hash eq q) es (find_entry (is_hit hash eq q) (home hash eq n bs q))
      pub counts :
          (q : ℕ)
          → hits (is_hit hash eq q) (home hash eq n new q)
            ≡ hits (is_hit hash eq q) es + hits (is_hit hash eq q) (home hash eq n bs q)

    pub move_chain-Moved :
        (es : List Entry) (bs : List (List Entry)) (i k : ℕ)
        → length bs ≡ n
        → Placed hash eq n 0 bs
        → All (λ e. (e.hash ≡ hash e.key) × (e.hash % k ≡ i)) es
        → Moved es bs (move_chain n es bs)
    unfolding move_chain last_match hits
    move_chain-Moved [] bs i k w p a = record {
      width = w;
      placed = p;
      entries = omega arith;
      finds = λ q. refl;
      counts = λ q. omega arith;
    }
    move_chain-Moved (e ∷ es) bs i k w p a =
        let r =
          move_chain-Moved es (push_entry n bs e) i k (length-push n bs e ∙ w)
            (push-Placed bs e w a.0.0 p) a.1 in
        record {
          width = r.width;
          placed = r.placed;
          entries = omega (arith, r.entries, total-push bs e w);
          finds = λ q. rw (← (home-push bs e q w).0) (r.finds q);
          counts = λ q. omega (arith, r.counts q, (home-push bs e q w).1);
        }
