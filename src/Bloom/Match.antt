-- ===== src/Bloom/Match.antt =====
-- A Bloom filter gives no false negative: `key_may_match` finds every key that `create_filter`
-- was given.
use tiny_leveldb.Prelude.{
  ℕ, zero, suc, ◌+◌, ◌-◌, ◌*◌, ◌/◌, ◌%◌, ◌^◌, ◌≤◌, ◌<◌, ◌≡◌, refl, ap, ◌∙◌, arith, Bool, true,
  false, List, [], ◌∷◌, ◌++◌, some, >>=-eq-some, store-behind, length, get_elem?,
  get_elem?-append_right, replicate, length-append, length-replicate, All, All-append,
  All-replicate, IsByte, u8, u32, u64, ltb, ◌==◌, if◌then◌else◌, char_to_size,
}
use native.Mathlib.Nat.{mod-lt}
use tiny_leveldb.Bloom.{
  BloomFilterPolicy, bloom_hash, rem, rotate_17, set_bit, add_probes, add_keys, filter_bytes,
  create_filter, match_probes, match_filter, key_may_match,
}
use tiny_leveldb.Bloom.Bits.{BitOn, IsFilter, set_bit_lem}
use tiny_leveldb.Hash.Laws.{hash-IsU32}
use tiny_leveldb.Prelude.{All-map, get_elem?-lt, bit_and, Bool-cases, inl, inr}
use tiny_leveldb.Bloom.{bloom_filter_policy}
use tiny_leveldb.Prelude.{
  ltb-ge, IsShort, int_to_size, int_to_size_lem, whole_slice_lem, slice_size, take_whole,
}
use tiny_leveldb.Bloom.{int_keys}

-- `CreateFilter` works on the bytes behind `dst` as it would on those bytes alone.
module _ (dst : List ℕ) where
  set_bit-behind :
      (array : List ℕ) (p : ℕ) {out : List ℕ}
      → set_bit array 0 p ≡ some out
      → set_bit (dst ++ array) (length dst) p ≡ some (dst ++ out)
  unfolding set_bit
  set_bit-behind array p e =
      let (b, eb, es) = >>=-eq-some (get_elem? array (0 + p / 8)) _ e in
      rw (get_elem?-append_right dst array (0 + p / 8) (length dst + p / 8) (omega arith), eb)
        (store-behind dst array (0 + p / 8) (length dst + p / 8) _ (omega arith) es)

  add_probes-behind :
      (j bits delta h : ℕ) (array : List ℕ) {out : List ℕ}
      → add_probes j bits 0 delta h array ≡ some out
      → add_probes j bits (length dst) delta h (dst ++ array) ≡ some (dst ++ out)
  unfolding add_probes
  add_probes-behind zero bits delta h array e = cc
  add_probes-behind (suc j) bits delta h array e =
      let (p, ep, ea) = >>=-eq-some (rem h bits) _ e in
      let (a, es, er) = >>=-eq-some (set_bit array 0 (u32 p)) _ ea in
      rw (ep, set_bit-behind array (u32 p) es) (add_probes-behind j bits delta _ a er)

  add_keys-behind :
      (k bits : ℕ) (keys : List (List ℕ)) (array : List ℕ) {out : List ℕ}
      → add_keys k bits 0 keys array ≡ some out
      → add_keys k bits (length dst) keys (dst ++ array) ≡ some (dst ++ out)
  unfolding add_keys
  add_keys-behind k bits [] array e = cc
  add_keys-behind k bits (key ∷ keys) array e =
      let (h, eh, ea) = >>=-eq-some (bloom_hash key) _ e in
      let (a, ep, er) = >>=-eq-some (add_probes k bits 0 (rotate_17 h) h array) _ ea in
      rw (eh, add_probes-behind k bits (rotate_17 h) h array ep) (add_keys-behind k bits keys a er)

-- All the bits that the probes of a hash ask for are on.
abbrev Probed : ℕ → ℕ → ℕ → ℕ → List ℕ → Type 0
Probed zero bits delta h array = Unit {0}
Probed (suc j) bits delta h array =
    BitOn array (u32 (h % bits)) × Probed j bits delta (u32 (h + delta)) array

abbrev Keeps : List ℕ → List ℕ → Type 0
Keeps array out = (i : ℕ) → BitOn array i → BitOn out i

Probed-Keeps :
    (j bits delta h : ℕ) (array out : List ℕ)
    → Keeps array out
    → Probed j bits delta h array
    → Probed j bits delta h out
Probed-Keeps zero bits delta h array out keeps p = tt
Probed-Keeps (suc j) bits delta h array out keeps p =
    (keeps _ p.0, Probed-Keeps j bits delta _ array out keeps p.1)

-- A key that fits an `int` has a hash.
bloom_hash_lem : (key : List ℕ) → IsShort key → (h : ℕ) × (bloom_hash key ≡ some h)
unfolding bloom_hash
bloom_hash_lem key short =
    let (h, eh, _) = hash-IsU32 key 0xbc9f1d34 in (h, rw (whole_slice_lem key short, eh) refl)

rem_lem : (a b : ℕ) → 0 < b → rem a b ≡ some (a % b)
rem_lem a b h = ground arith

match_probes-Probed :
    (j bits delta h : ℕ) (array : List ℕ)
    → 0 < bits
    → Probed j bits delta h array
    → match_probes j bits delta h array ≡ some true
unfolding match_probes
match_probes-Probed zero bits delta h array pos p = refl
match_probes-Probed (suc j) bits delta h array pos ((b, eb, on), rest) =
    rw (rem_lem h bits pos, eb, match_probes-Probed j bits delta (u32 (h + delta)) array pos rest)
      (ground arith)

module _ (bytes k : ℕ) (pos : 0 < bytes) where
  probe-lt : (h : ℕ) → u32 (h % (bytes * 8)) < bytes * 8
  probe-lt h = let p : h % (bytes * 8) < bytes * 8 = mod-lt h (omega arith) in omega arith

  add_probes-Probed :
      (j delta h : ℕ) (array : List ℕ)
      → IsFilter bytes k array
      → (out : List ℕ) × (add_probes j (bytes * 8) 0 delta h array ≡ some out)
        × IsFilter bytes k out
        × Probed j (bytes * 8) delta h out
        × Keeps array out
  unfolding add_probes
  add_probes-Probed zero delta h array f = (array, refl, f, tt, λ i on. on)
  add_probes-Probed (suc j) delta h array f =
      let (a, ea, fa, on, keeps) = set_bit_lem array (u32 (h % (bytes * 8))) f (probe-lt h) in
      let (out, e, fo, probed, keeps') = add_probes-Probed j delta (u32 (h + delta)) a fa in
      (
        out,
        rw (rem_lem h (bytes * 8) (omega arith), ea) e,
        fo,
        (keeps' _ on, probed),
        λ i b. keeps' i (keeps i b),
      )

  -- The array has the bits of a key.
  HasKey : List ℕ → List ℕ → Type 0
  HasKey array key =
      (h : ℕ) × (bloom_hash key ≡ some h) × Probed k (bytes * 8) (rotate_17 h) h array

  add_keys-HasKey :
      (keys : List (List ℕ)) (array : List ℕ)
      → IsFilter bytes k array
      → All IsShort keys
      → (out : List ℕ) × (add_keys k (bytes * 8) 0 keys array ≡ some out)
        × IsFilter bytes k out
        × All (HasKey out) keys
        × Keeps array out
  unfolding add_keys HasKey
  add_keys-HasKey [] array f short = (array, refl, f, tt, λ i on. on)
  add_keys-HasKey (key ∷ keys) array f short =
      let (h, eh) = bloom_hash_lem key short.0 in
      let (a, ea, fa, probed, keeps) = add_probes-Probed k (rotate_17 h) h array f in
      let (out, e, fo, all, keeps') = add_keys-HasKey keys a fa short.1 in
      (
        out,
        rw (eh, ea) e,
        fo,
        ((h, eh, Probed-Keeps k _ _ _ a out keeps' probed), all),
        λ i b. keeps' i (keeps i b),
      )

  match_filter-HasKey :
      (key array : List ℕ)
      → k ≤ 30
      → IsFilter bytes k array
      → bytes < 2 ^ 31 - 1
      → HasKey array key
      → key_may_match key array ≡ some true
  unfolding key_may_match match_filter HasKey
  match_filter-HasKey key array small f short (h, eh, probed) =
      let len : slice_size array ≡ bytes + 1 =
        int_to_size_lem (length array) (omega arith) ∙ omega arith in
      let bits : u64 (bytes * 8) ≡ bytes * 8 = omega arith in
      let count : char_to_size k ≡ k = ground arith in
      let found = match_probes-Probed k (bytes * 8) (rotate_17 h) h array (omega arith) probed in
      let long : ltb (bytes + 1) 2 ≡ false = ltb-ge (bytes + 1) 2 (omega arith) in
      let last : get_elem? array (bytes + 1 - 1) ≡ some k =
        ap (get_elem? array) (omega arith) ∙ f.last in
      let size : bytes + 1 - 1 ≡ bytes = omega arith in
      let few : ltb 30 k ≡ false = ltb-ge 30 k small in
      rw (len, size, f.last, count, few, eh, bits, found, long)

-- The number of keys and the bytes of the filter, its last one included, fit an `int`.
abbrev pub Fits : BloomFilterPolicy → ℕ → Type 0
Fits p n = (p.k ≤ 30) × (n < 2 ^ 31) × (n * p.bits_per_key + 7 < 8 * (2 ^ 31 - 1))

filter_bytes-bounds :
    (p : BloomFilterPolicy) (n : ℕ)
    → Fits p n
    → (8 ≤ filter_bytes p n)
      × (n * p.bits_per_key ≤ filter_bytes p n * 8)
      × (filter_bytes p n < 2 ^ 31 - 1)
unfolding filter_bytes
filter_bytes-bounds p n h = ground arith

empty-IsFilter : (bytes k : ℕ) → k ≤ 30 → IsFilter bytes k (replicate bytes 0 ++ (u8 k ∷ []))
empty-IsFilter bytes k small = record {
  size = omega (
    arith,
    length-append {0} (replicate bytes 0) (u8 k ∷ []),
    length-replicate {0} {A = ℕ} bytes 0,
  );
  all_bytes = All-append _ _ IsByte (All-replicate IsByte bytes 0 (omega arith)) (omega arith, tt);
  last =
      get_elem?-append_right (replicate bytes 0) (u8 k ∷ []) 0 bytes
        (omega (arith, length-replicate {0} {A = ℕ} bytes 0))
      ∙ ap some (omega arith);
}

int_keys_lem : (keys : List (List ℕ)) → IsShort keys → int_keys (length keys) keys ≡ keys
unfolding int_keys
int_keys_lem keys short =
    let below : ltb (length keys) (2 ^ 31) ≡ true = ground arith in rw below (take_whole keys)

-- `CreateFilter` keeps what `dst` held and appends a filter that matches every one of the keys,
-- if the policy has at most 30 probes, and the length of each key, the number of keys and the length
-- of the filter fit an `int`. The filter has at least `bits_per_key` bits for each key, and 64 bits
-- at least.
pub create_filter-key_may_match :
    (p : BloomFilterPolicy) (keys : List (List ℕ)) (dst : List ℕ)
    → Fits p (length keys)
    → All IsShort keys
    → (filter : List ℕ) × (create_filter p keys dst ≡ some (dst ++ filter))
      × (9 ≤ length filter)
      × (length keys * p.bits_per_key + 8 ≤ length filter * 8)
      × All (λ key. key_may_match key filter ≡ some true) keys
unfolding create_filter
create_filter-key_may_match p keys dst fits short =
    let bytes = filter_bytes p (length keys) in
    let (lo, mid, hi) = filter_bytes-bounds p (length keys) fits in
    let pos : 0 < bytes = omega arith in
    let (out, e, f, all, _) =
      add_keys-HasKey bytes p.k pos keys _ (empty-IsFilter bytes p.k fits.0) short in
    let n : int_to_size (length keys) ≡ length keys = int_to_size_lem (length keys) fits.1 in
    let all_keys : int_keys (length keys) keys ≡ keys = int_keys_lem keys fits.1 in
    let bits : u64 (bytes * 8) ≡ bytes * 8 = omega arith in
    (
      out,
      rw (n, all_keys, bits) (add_keys-behind dst p.k (bytes * 8) keys _ e),
      omega (arith, f.size),
      omega (arith, f.size),
      All-map (λ key. match_filter-HasKey bytes p.k pos key out fits.0 f hi) keys all,
    )

match_probes-total :
    (j bits delta h : ℕ) (array : List ℕ)
    → 0 < bits
    → bits ≤ length array * 8
    → (r : Bool) × (match_probes j bits delta h array ≡ some r)
unfolding match_probes
match_probes-total zero bits delta h array pos fits = (true, refl)
match_probes-total (suc j) bits delta h array pos fits =
    let below : h % bits < bits = mod-lt h pos in
    let (b, eb) = get_elem?-lt array (u32 (h % bits) / 8) (omega arith) in
    let (r, er) = match_probes-total j bits delta (u32 (h + delta)) array pos fits in
    (
      if bit_and b (2 ^ (u32 (h % bits) % 8)) == 0 then false else r,
      rw (rem_lem h bits pos, eb, er) (ground arith),
    )

match_filter-total :
    (key filter : List ℕ)
    → 2 ≤ length filter
    → IsShort key
    → IsShort filter
    → (r : Bool) × (match_filter key filter (length filter) ≡ some r)
unfolding match_filter
match_filter-total key filter size short_key short =
    let (last, el) = get_elem?-lt filter (length filter - 1) (omega arith) in
    let (h, eh) = bloom_hash_lem key short_key in
    let (r, er) =
      match_probes-total (char_to_size last) (u64 ((length filter - 1) * 8)) (rotate_17 h) h filter
        (omega arith) (omega arith) in
    (if ltb 30 (char_to_size last) then true else r, rw (el, eh, er) (ground arith))

-- `KeyMayMatch` answers on every key and every filter whose lengths fit an `int`, also a filter that
-- `CreateFilter` never wrote: no read outside the filter, and no division by zero.
pub key_may_match-total :
    (key filter : List ℕ)
    → IsShort key
    → IsShort filter
    → (r : Bool) × (key_may_match key filter ≡ some r)
unfolding key_may_match
key_may_match-total key filter short_key short =
    rw (int_to_size_lem (length filter) short) (elim (Bool-cases (ltb (length filter) 2)) [
      | inl short ↦ (false, rw short)
      | inr long ↦ rw long (match_filter-total key filter (ground arith) short_key short)
    ])

-- The constructor brings the number of probes into the range from 1 to 30, whatever the product
-- of `bits_per_key` with 0.69 is, and within the range keeps it.
pub bloom_filter_policy_bounds :
    (times_ln2 : ℕ → ℕ) (n : ℕ)
    → let p = bloom_filter_policy times_ln2 n in
      (1 ≤ p.k)
      × (p.k ≤ 30)
      × (p.bits_per_key ≡ n)
      × (1 ≤ times_ln2 n → times_ln2 n ≤ 30 → p.k ≡ times_ln2 n)
unfolding bloom_filter_policy
bloom_filter_policy_bounds times_ln2 n = ground arith
