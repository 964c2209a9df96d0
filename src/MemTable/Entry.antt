-- ===== src/MemTable/Entry.antt =====
-- What an entry looks like, and that it is decoded to what was put in.
use tiny_leveldb.Prelude.{
  u64, ℕ, ◌+◌, ◌-◌, ◌*◌, ◌%◌, ◌^◌, ◌≤◌, ◌<◌, ◌≡◌, ◌≢◌, refl, ap, sym, ◌∙◌, arith, ◌⊎◌, List, [],
  ◌++◌, append_assoc, append-nil, some, length, length-append, memcpy-append, Holds-append,
  slice_at, slice_at-append, drop, u32, IsU32, ltb, ◌==◌, ==_iff, if◌then◌else◌, ◌<<<◌, ◌>>>◌,
  bit_and,
}
use tiny_leveldb.Prelude.Bits.{bit_or-eq-add_high, bit_and-mask}
use tiny_leveldb.Coding.{decode_fixed32, decode_fixed64}
use tiny_leveldb.Coding.RoundTrip.{
  fixed32, fixed64, length-fixed32, length-fixed64, encode_fixed32-eq-memcpy,
  encode_fixed64-eq-memcpy, decode_fixed32_lem, decode_fixed64_lem,
}
use tiny_leveldb.MemTable.{
  ValueType, k_type_deletion, k_type_value, code, entry_tag, encoded_len, encode_entry, Decoded,
  decode_entry, decode_key,
}
use tiny_leveldb.Prelude.{length-drop, drop-all, true}
use tiny_leveldb.Prelude.{Holds, IsShort, int_to_size_lem, whole_slice_lem}

-- The bytes of an entry.
abbrev pub entry_bytes : ℕ → ValueType → List ℕ → List ℕ → List ℕ
entry_bytes seq type key value =
    fixed32 (u32 (length key))
    ++ (key ++ (fixed64 (entry_tag seq type) ++ (fixed32 (u32 (length value)) ++ value)))

encoded_len_lem :
    (key value : List ℕ)
    → IsShort key
    → IsShort value
    → encoded_len key value ≡ length key + length value + 16
encoded_len_lem key value hk hv =
    omega (arith, int_to_size_lem (length key) hk, int_to_size_lem (length value) hv)

pub encode_entry-entry_bytes :
    (buf : List ℕ) (seq : ℕ) (type : ValueType) (key value : List ℕ)
    → length buf ≡ encoded_len key value
    → IsShort key
    → IsShort value
    → encode_entry buf seq type key value ≡ some (entry_bytes seq type key value)
unfolding encode_entry
encode_entry-entry_bytes buf seq type key value allocated hk hv =
    let sk = int_to_size_lem (length key) hk in
    let sv = int_to_size_lem (length value) hv in
    let total : encoded_len key value ≡ length key + length value + 16 =
      encoded_len_lem key value hk hv in
    let size : length buf ≡ length key + length value + 16 = allocated ∙ total in
    let f1 = fixed32 (u32 (length key)) in
    let f3 = fixed64 (entry_tag seq type) in
    let f4 = fixed32 (u32 (length value)) in
    let r1 = drop (length f1) buf in
    let r2 = drop (length key) r1 in
    let r3 = drop (length f3) r2 in
    let r4 = drop (length f4) r3 in
    let n1 = length-fixed32 (u32 (length key)) in
    let n3 = length-fixed64 (entry_tag seq type) in
    let n4 = length-fixed32 (u32 (length value)) in
    let d1 : length r1 ≡ length key + length value + 12 =
      omega (arith, n1, length-drop {0} (length f1) buf) in
    let d2 : length r2 ≡ length value + 12 = omega (arith, length-drop {0} (length key) r1) in
    let d3 : length r3 ≡ length value + 4 = omega (arith, n3, length-drop {0} (length f3) r2) in
    let d4 : length r4 ≡ length value = omega (arith, n4, length-drop {0} (length f4) r3) in
    let e1 =
      encode_fixed32-eq-memcpy buf 0 (u32 (length key))
      ∙ memcpy-append [] buf f1 0 refl (omega arith) in
    let e2 = memcpy-append f1 r1 key 4 (omega arith) (omega arith) in
    let e3 =
      encode_fixed64-eq-memcpy ((f1 ++ key) ++ r2) (4 + length key) (entry_tag seq type)
      ∙ memcpy-append (f1 ++ key) r2 f3 (4 + length key) (omega (arith, length-append {0} f1 key))
          (omega arith) in
    let e4 =
      encode_fixed32-eq-memcpy (((f1 ++ key) ++ f3) ++ r3) (4 + length key + 8) (u32 (length value))
      ∙ memcpy-append ((f1 ++ key) ++ f3) r3 f4 (4 + length key + 8)
          (omega (arith, length-append {0} (f1 ++ key) f3, length-append {0} f1 key))
          (omega arith) in
    let e5 =
      memcpy-append (((f1 ++ key) ++ f3) ++ f4) r4 value (4 + length key + 8 + 4)
        (omega (
          arith,
          length-append {0} ((f1 ++ key) ++ f3) f4,
          length-append {0} (f1 ++ key) f3,
          length-append {0} f1 key,
        ))
        (omega arith) in
    let fits : (4 + length key + 8 + 4 + length value
          == u64 (length key + length value + 8 + 4 + 4))
        ≡ true =
      (==_iff _ _).1 (omega arith) in
    rw
      (
        whole_slice_lem key hk,
        whole_slice_lem value hv,
        sk,
        sv,
        e1,
        e2,
        e3,
        e4,
        e5,
        fits,
        drop-all (length value) r4 (omega arith),
        append-nil,
      )
      (simp append_assoc)

Holds-at :
    (bytes pre bs post : List ℕ) (at : ℕ)
    → bytes ≡ pre ++ (bs ++ post)
    → at ≡ length pre
    → Holds bytes at bs
Holds-at bytes pre bs post at e h = rw e (Holds-append pre bs post at h)

slice-at_place :
    (bytes pre bs post : List ℕ) (at n : ℕ)
    → bytes ≡ pre ++ (bs ++ post)
    → at ≡ length pre
    → n ≡ length bs
    → slice_at bytes at n ≡ some bs
slice-at_place bytes pre bs post at n e h size = rw e (slice_at-append pre bs post at n h size)

-- The tag as a sum: only 24 bits of the sequence number are left, with the sign of the highest.
low_24 : ℕ → ℕ
low_24 seq = seq % 2 ^ 24

tag_sum :
    (seq : ℕ) (type : ValueType)
    → entry_tag seq type ≡ (
        if ltb (low_24 seq) (2 ^ 23)
        then low_24 seq * 256 + code type
        else low_24 seq * 256 + code type + 2 ^ 64 - 2 ^ 32)
unfolding entry_tag low_24
tag_sum seq type =
    let small : code type < 2 ^ 8 = code-lt type in
    let shifted : u32 (seq <<< 8) ≡ seq % 2 ^ 24 * 2 ^ 8 = omega arith in
    rw (shifted, bit_or-eq-add_high 8 (seq % 2 ^ 24) (code type) small) (ground arith)
  where
    code-lt : (t : ValueType) → code t < 2 ^ 8
    code-lt k_type_deletion = omega arith
    code-lt k_type_value = omega arith

-- What `DecodeEntry` makes of a sequence number: it sees 24 bits of it.
unfoldable pub seen_seq : ℕ → ℕ
seen_seq seq = if ltb (seq % 2 ^ 24) (2 ^ 23) then seq % 2 ^ 24 else seq % 2 ^ 24 + 2 ^ 32 - 2 ^ 24

tag-IsU64 : (seq : ℕ) (type : ValueType) → entry_tag seq type < 2 ^ 64
unfolding low_24
tag-IsU64 seq k_type_deletion = ground (arith, tag_sum seq k_type_deletion)
tag-IsU64 seq k_type_value = ground (arith, tag_sum seq k_type_value)

tag-seq : (seq : ℕ) (type : ValueType) → u32 (entry_tag seq type >>> 8) ≡ seen_seq seq
unfolding low_24 seen_seq
tag-seq seq k_type_deletion = ground (arith, tag_sum seq k_type_deletion)
tag-seq seq k_type_value = ground (arith, tag_sum seq k_type_value)

tag-code : (seq : ℕ) (type : ValueType) → bit_and (entry_tag seq type) 0xff ≡ code type
unfolding low_24
tag-code seq type = bit_and-mask 8 (entry_tag seq type) ∙ low type
  where
    low : (t : ValueType) → entry_tag seq t % 2 ^ 8 ≡ code t
    low k_type_deletion = ground (arith, tag_sum seq k_type_deletion)
    low k_type_value = ground (arith, tag_sum seq k_type_value)

module _ (seq : ℕ) (type : ValueType) (key value : List ℕ) (hk : IsShort key)
    (hv : IsShort value) where
  abbrev bytes : List ℕ
  bytes = entry_bytes seq type key value

  abbrev head : List ℕ
  head = fixed32 (u32 (length key))

  abbrev tag : List ℕ
  tag = fixed64 (entry_tag seq type)

  abbrev size : List ℕ
  size = fixed32 (u32 (length value))

  key_size_read : decode_fixed32 bytes 0 ≡ some (length key)
  key_size_read =
      decode_fixed32_lem bytes 0 (u32 (length key)) (omega arith)
        (Holds-at bytes [] head (key ++ (tag ++ (size ++ value))) 0 refl refl)
      ∙ ap some (omega arith)

  key_read : slice_at bytes 4 (length key) ≡ some key
  key_read =
      slice-at_place bytes head key (tag ++ (size ++ value)) 4 (length key) refl
        (sym (length-fixed32 (u32 (length key)))) refl

  tag_read : decode_fixed64 bytes (4 + length key) ≡ some (entry_tag seq type)
  tag_read = decode_fixed64_lem bytes _ (entry_tag seq type) (tag-IsU64 seq type) (
      Holds-at bytes (head ++ key) tag (size ++ value) _ (simp append_assoc)
        (omega (arith, length-append {0} head key, length-fixed32 (u32 (length key)))))

  val_size_read : decode_fixed32 bytes (4 + length key + 8) ≡ some (length value)
  val_size_read =
      decode_fixed32_lem bytes _ (u32 (length value)) (omega arith) (
        Holds-at bytes ((head ++ key) ++ tag) size value _ (simp append_assoc) (
          omega (
            arith,
            length-append {0} (head ++ key) tag,
            length-append {0} head key,
            length-fixed32 (u32 (length key)),
            length-fixed64 (entry_tag seq type),
          )))
      ∙ ap some (omega arith)

  value_read : slice_at bytes (4 + length key + 8 + 4) (length value) ≡ some value
  value_read =
      slice-at_place bytes (((head ++ key) ++ tag) ++ size) value [] _ (length value)
        (simp (append_assoc, append-nil))
        (omega (
          arith,
          length-append {0} ((head ++ key) ++ tag) size,
          length-append {0} (head ++ key) tag,
          length-append {0} head key,
          length-fixed32 (u32 (length key)),
          length-fixed64 (entry_tag seq type),
          length-fixed32 (u32 (length value)),
        ))
        refl

  decode_entry-entry_bytes :
      decode_entry (encoded_len key value) bytes
      ≡ some (record { seq = seen_seq seq; type_code = code type; key = key; value = value })
  unfolding decode_entry
  decode_entry-entry_bytes =
      let fits : (4 + length key + 8 + 4 + length value == encoded_len key value) ≡ true =
        (==_iff _ _).1 (omega (arith, encoded_len_lem key value hk hv)) in
      rw (
        key_size_read,
        key_read,
        tag_read,
        val_size_read,
        value_read,
        tag-seq seq type,
        tag-code seq type,
        fits,
      )

  decode_key-entry_bytes : decode_key bytes ≡ some key
  unfolding decode_key
  decode_key-entry_bytes = rw (key_size_read, key_read)

-- The entry that `Add` builds in a fresh array is decoded to the key, the value and the type that
-- were put in, and to the sequence number, if that is from -2 ^ 23 up to 2 ^ 23 as an `int`; the
-- assertion of `DecodeEntry` holds. Key and value are shorter than 2 ^ 31 bytes.
pub decode_entry-encode_entry :
    (buf : List ℕ) (seq : ℕ) (type : ValueType) (key value : List ℕ)
    → length buf ≡ encoded_len key value
    → IsShort key
    → IsShort value
    → IsU32 seq
    → (seq < 2 ^ 23) ⊎ (2 ^ 32 - 2 ^ 23 ≤ seq)
    → (out : List ℕ) × (encode_entry buf seq type key value ≡ some out)
      × (decode_entry (encoded_len key value) out
          ≡ some (record { seq = seq; type_code = code type; key = key; value = value }))
      × (decode_key out ≡ some key)
unfolding seen_seq
decode_entry-encode_entry buf seq type key value size hk hv hs fits =
    let same : seen_seq seq ≡ seq = ground arith in
    (
      entry_bytes seq type key value,
      encode_entry-entry_bytes buf seq type key value size hk hv,
      rw same at (decode_entry-entry_bytes seq type key value hk hv),
      decode_key-entry_bytes seq type key value hk hv,
    )

-- A sequence number outside that range is decoded to another one. Key and value are shorter than
-- 2 ^ 31 bytes.
pub decode_entry-seq_lost :
    (buf : List ℕ) (seq : ℕ) (type : ValueType) (key value : List ℕ)
    → length buf ≡ encoded_len key value
    → IsShort key
    → IsShort value
    → 2 ^ 23 ≤ seq
    → seq < 2 ^ 32 - 2 ^ 23
    → (out : List ℕ) × (d : Decoded) × (encode_entry buf seq type key value ≡ some out)
      × (decode_entry (encoded_len key value) out ≡ some d)
      × (d.seq ≢ seq)
unfolding seen_seq
decode_entry-seq_lost buf seq type key value size hk hv lo hi = (
  entry_bytes seq type key value,
  record { seq = seen_seq seq; type_code = code type; key = key; value = value },
  encode_entry-entry_bytes buf seq type key value size hk hv,
  decode_entry-entry_bytes seq type key value hk hv,
  ground arith,
)
