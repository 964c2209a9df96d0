-- ===== src/Crc/Masking.antt =====
-- Mask and Unmask of crc32c.h undo one another.
use tiny_leveldb.Prelude.{
  ℕ, ◌+◌, ◌-◌, ◌*◌, ◌/◌, ◌%◌, ◌^◌, ◌≡◌, arith, bit_or, IsU32, u32, ◌<<<◌, ◌>>>◌,
}
use tiny_leveldb.Prelude.Bits.{bit_or-eq-add}
use tiny_leveldb.Crc.{mask, unmask, k_mask_delta}

-- A rotation in arithmetic: `|` joins the two parts without overlap.
rotated_15 :
    (x : ℕ) → IsU32 x → bit_or (x >>> 15) (u32 (x <<< 17)) ≡ x / 2 ^ 15 + x % 2 ^ 15 * 2 ^ 17
rotated_15 x h =
    let high : u32 (x <<< 17) ≡ x % 2 ^ 15 * 2 ^ 17 = omega arith in
    rw high (bit_or-eq-add 17 (x / 2 ^ 15) (x % 2 ^ 15) (omega arith))

rotated_17 :
    (x : ℕ) → IsU32 x → bit_or (x >>> 17) (u32 (x <<< 15)) ≡ x / 2 ^ 17 + x % 2 ^ 17 * 2 ^ 15
rotated_17 x h =
    let high : u32 (x <<< 15) ≡ x % 2 ^ 17 * 2 ^ 15 = omega arith in
    rw high (bit_or-eq-add 15 (x / 2 ^ 17) (x % 2 ^ 17) (omega arith))

turned_back :
    (x y : ℕ)
    → IsU32 x
    → y ≡ x / 2 ^ 15 + x % 2 ^ 15 * 2 ^ 17
    → y / 2 ^ 17 + y % 2 ^ 17 * 2 ^ 15 ≡ x
turned_back x y h e = omega arith

turned_forth :
    (x y : ℕ)
    → IsU32 x
    → y ≡ x / 2 ^ 17 + x % 2 ^ 17 * 2 ^ 15
    → y / 2 ^ 15 + y % 2 ^ 15 * 2 ^ 17 ≡ x
turned_forth x y h e = omega arith

-- Mask and Unmask undo one another on 32-bit numbers, in both orders.
pub unmask-mask : (crc : ℕ) → IsU32 crc → (unmask (mask crc) ≡ crc) × (mask (unmask crc) ≡ crc)
unfolding mask unmask
unmask-mask crc h =
    let rot : ℕ = crc / 2 ^ 15 + crc % 2 ^ 15 * 2 ^ 17 in
    let small : IsU32 rot = omega arith in
    let sub : u32 (u32 (rot + k_mask_delta) + 2 ^ 32 - k_mask_delta) ≡ rot = omega arith in
    let rot' : ℕ = u32 (crc + 2 ^ 32 - k_mask_delta) in
    let back : ℕ = rot' / 2 ^ 17 + rot' % 2 ^ 17 * 2 ^ 15 in
    let small' : IsU32 back = omega arith in
    let add : u32 (rot' + k_mask_delta) ≡ crc = omega arith in
    (
      rw (rotated_15 crc h, sub, rotated_17 rot small) (turned_back crc rot h (omega arith)),
      rw
          (
            rotated_17 rot' (omega arith),
            rotated_15 back small',
            turned_forth rot' back (omega arith) (omega arith),
          )
          add,
    )
