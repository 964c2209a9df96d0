-- ===== src/Bloom.antt =====
-- db/bloom.h: the Bloom filter. `create_filter` appends the filter of a list of keys to a string,
-- `key_may_match` asks a filter for one key. The only floating-point step, the product of
-- `bits_per_key` with 0.69 cut to an integer, is the parameter `times_ln2`.
pub mod Bits
pub mod Match
mod Tests
use tiny_leveldb.Prelude.{
  ℕ, zero, suc, ◌+◌, ◌-◌, ◌*◌, ◌/◌, ◌%◌, ◌^◌, Bool, true, false, List, [], ◌∷◌, ◌++◌, Option, none,
  some, ◌>>=◌, length, get_elem?, store, replicate, u8, u32, u64, ◌<<<◌, ◌>>>◌, bit_or, bit_and,
  ltb, ◌==◌, if◌then◌else◌, char_to_size, int_to_size, slice_size, whole_slice, take,
}
use tiny_leveldb.Hash.{hash}

-- `BloomHash(key)`
unfoldable pub bloom_hash : List ℕ → Option ℕ
unfolding hash whole_slice
bloom_hash key = do bytes ← whole_slice key; hash bytes 0xbc9f1d34

pub record BloomFilterPolicy : Type 0 where
  pub bits_per_key : ℕ
  pub k : ℕ

-- The constructor: the number of probes is brought into 1 to 30.
unfoldable pub bloom_filter_policy : (ℕ → ℕ) → ℕ → BloomFilterPolicy
bloom_filter_policy times_ln2 bits_per_key =
    let k = times_ln2 bits_per_key in
    let k = if ltb k 1 then 1 else k in
    record { bits_per_key = bits_per_key; k = if ltb 30 k then 30 else k }

-- `a % b`, which is undefined for `b` zero.
abbrev pub rem : ℕ → ℕ → Option ℕ
rem a b = if b == 0 then none else some (a % b)

-- `(h >> 17) | (h << 15)`
unfoldable pub rotate_17 : ℕ → ℕ
rotate_17 h = bit_or (h >>> 17) (u32 (h <<< 15))

-- `array[bitpos / 8] |= (1 << (bitpos % 8))`, for the array that starts at `start` in `buf`
unfoldable pub set_bit : List ℕ → ℕ → ℕ → Option (List ℕ)
set_bit buf start bitpos = do
  b ← get_elem? buf (start + bitpos / 8)
  store buf (start + bitpos / 8) (u8 (bit_or b (1 <<< (bitpos % 8))))

-- The inner loop of `CreateFilter`, with the rounds left.
unfoldable pub add_probes : ℕ → ℕ → ℕ → ℕ → ℕ → List ℕ → Option (List ℕ)
unfolding set_bit
add_probes zero bits start delta h buf = some buf
add_probes (suc j) bits start delta h buf = do
  bitpos ← rem h bits
  buf ← set_bit buf start (u32 bitpos)
  add_probes j bits start delta (u32 (h + delta)) buf

-- The outer loop, over the keys.
unfoldable pub add_keys : ℕ → ℕ → ℕ → List (List ℕ) → List ℕ → Option (List ℕ)
unfolding bloom_hash rotate_17 add_probes
add_keys k bits start [] buf = some buf
add_keys k bits start (key ∷ keys) buf = do
  h ← bloom_hash key
  buf ← add_probes k bits start (rotate_17 h) h buf
  add_keys k bits start keys buf

-- The bytes of a filter of `n` keys, without the last, which holds `k`.
unfoldable pub filter_bytes : BloomFilterPolicy → ℕ → ℕ
filter_bytes p n =
    let bits = u64 (n * p.bits_per_key) in
    let bits = if ltb bits 64 then 64 else bits in u64 (bits + 7) / 8

-- The keys that a loop from 0 up to an `int` meets; there is none where the `int` is negative.
unfoldable pub int_keys : ℕ → List (List ℕ) → List (List ℕ)
int_keys n keys = if ltb n (2 ^ 31) then take n keys else []

-- `CreateFilter(keys, static_cast<int>(keys.size()), dst)`: the string that `dst` then is.
unfoldable pub create_filter : BloomFilterPolicy → List (List ℕ) → List ℕ → Option (List ℕ)
unfolding filter_bytes add_keys int_to_size int_keys
create_filter p keys dst =
    let n = int_to_size (length keys) in
    let bytes = filter_bytes p n in
    add_keys p.k (u64 (bytes * 8)) (length dst) (int_keys n keys)
      (dst ++ (replicate bytes 0 ++ (u8 p.k ∷ [])))

-- The loop of `KeyMayMatch`, with the rounds left.
unfoldable pub match_probes : ℕ → ℕ → ℕ → ℕ → List ℕ → Option Bool
match_probes zero bits delta h array = some true
match_probes (suc j) bits delta h array = do
  bitpos ← rem h bits
  b ← get_elem? array (u32 bitpos / 8)
  let rest = match_probes j bits delta (u32 (h + delta)) array
  if bit_and b (1 <<< (u32 bitpos % 8)) == 0 then some false else rest

-- `KeyMayMatch` behind its first guard, for `len`. A count above 30 is taken for a match.
unfoldable pub match_filter : List ℕ → List ℕ → ℕ → Option Bool
unfolding bloom_hash rotate_17 match_probes
match_filter key array len = do
  last ← get_elem? array (len - 1)
  let k = char_to_size last
  if ltb 30 k
      then some true
      else (do h ← bloom_hash key; match_probes k (u64 ((len - 1) * 8)) (rotate_17 h) h array)

-- `KeyMayMatch(key, bloom_filter)`
unfoldable pub key_may_match : List ℕ → List ℕ → Option Bool
unfolding match_filter int_to_size
key_may_match key filter =
    if ltb (slice_size filter) 2 then some false else match_filter key filter (slice_size filter)
