-- ===== src/Bloom/Tests.antt =====
-- The Bloom filter on small inputs.
use tiny_leveldb.Prelude.{
  ℕ, ◌+◌, ◌*◌, ◌/◌, ◌≤◌, ◌≡◌, refl, arith, Bool, true, false, List, [], ◌∷◌, some, length, All,
}
use tiny_leveldb.Bloom.{BloomFilterPolicy, bloom_filter_policy, create_filter, key_may_match}
use tiny_leveldb.Bloom.Match.{
  create_filter-key_may_match, key_may_match-total, bloom_filter_policy_bounds,
}

-- A product with 69 hundredths, for the tests.
abbrev times_69 : ℕ → ℕ
times_69 n = n * 69 / 100

abbrev ten_bits : BloomFilterPolicy
ten_bits = record { bits_per_key = 10; k = 6 }

abbrev hello : List ℕ
hello = 104 ∷ 101 ∷ 108 ∷ 108 ∷ 111 ∷ []

abbrev world : List ℕ
world = 119 ∷ 111 ∷ 114 ∷ 108 ∷ 100 ∷ []

abbrev small_filter : List ℕ
small_filter = 1 ∷ 2 ∷ 3 ∷ []

policy_ten : bloom_filter_policy times_69 10 ≡ ten_bits
unfolding bloom_filter_policy
policy_ten = refl

create_one :
    create_filter ten_bits (hello ∷ []) [] ≡ some (1 ∷ 64 ∷ 0 ∷ 1 ∷ 4 ∷ 16 ∷ 64 ∷ 0 ∷ 6 ∷ [])
unfolding create_filter
create_one = refl

no_match : key_may_match world (1 ∷ 64 ∷ 0 ∷ 1 ∷ 4 ∷ 16 ∷ 64 ∷ 0 ∷ 6 ∷ []) ≡ some false
unfolding key_may_match
no_match = refl

create_filter-key_may_match_example :
    (filter : List ℕ) × (create_filter ten_bits (hello ∷ world ∷ []) (9 ∷ []) ≡ some (9 ∷ filter))
    × (9 ≤ length filter)
    × (2 * 10 + 8 ≤ length filter * 8)
    × All (λ key. key_may_match key filter ≡ some true) (hello ∷ world ∷ [])
create_filter-key_may_match_example =
    create_filter-key_may_match ten_bits (hello ∷ world ∷ []) (9 ∷ []) (omega arith)
      (omega arith, (omega arith, tt))

key_may_match-total_example : (r : Bool) × (key_may_match hello small_filter ≡ some r)
key_may_match-total_example = key_may_match-total hello small_filter (omega arith) (omega arith)

bloom_filter_policy_bounds_example :
    let p = bloom_filter_policy times_69 10 in
    (1 ≤ p.k)
    × (p.k ≤ 30)
    × (p.bits_per_key ≡ 10)
    × (1 ≤ times_69 10 → times_69 10 ≤ 30 → p.k ≡ times_69 10)
bloom_filter_policy_bounds_example = bloom_filter_policy_bounds times_69 10
