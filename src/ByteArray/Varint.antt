-- ===== src/ByteArray/Varint.antt =====
-- The compressed readers and writers of ByteArray: groups of seven bits, and zigzag for signed values.
use hpserver_fw.Prelude.{
  ℕ, zero, suc, ◌+◌, ◌-◌, ◌*◌, ◌/◌, ◌%◌, ◌^◌, bit_and, bit_or, bit_xor, Option, none, some, List,
  [], ◌∷◌, ltb, leb, if◌then◌else◌,
}
use hpserver_fw.Prelude.Int.{ℤ, pos, negsuc, of_word}
use hpserver_fw.ByteArray.Store.{M, ◌>>=◌, return, fault, write}
use hpserver_fw.ByteArray.Fixed.{read_fuint8}
use mathlib.Core.Option

-- The loop that fills `tmp`, of which `room` bytes are left; `none` is a write past its end.
unfoldable pub groups : (room value : ℕ) → Option (List ℕ)
groups zero value = none
groups (suc room) value =
    let more = groups room (value / 2 ^ 7) in
    if leb 0x80 value
    then Option.map (λ bytes. bit_or (bit_and value 0x7f) 0x80 ∷ bytes) more
    else some (value % 2 ^ 8 ∷ [])

unfoldable pub write_groups : Option (List ℕ) → M (Unit {0})
unfolding write
write_groups none b = fault
write_groups (some tmp) b = write tmp b

unfoldable pub write_uint32 : ℕ → M (Unit {0})
unfolding groups write_groups
write_uint32 value = write_groups (groups 5 value)

unfoldable pub write_uint64 : ℕ → M (Unit {0})
unfolding groups write_groups
write_uint64 value = write_groups (groups 10 value)

-- The loop `for(int i = 0; i < width; i += 7)`, with `rounds` of it to go.
unfoldable pub read_groups : (width rounds i result : ℕ) → M ℕ
unfolding read_fuint8
read_groups width zero i result = return result
read_groups width (suc rounds) i result = do
  b ← read_fuint8
  if ltb b 0x80
      then return (bit_or result (b * 2 ^ i % 2 ^ width))
      else read_groups width rounds (i + 7) (bit_or result (bit_and b 0x7f * 2 ^ i % 2 ^ width))

-- i is 0, 7, .., 28: five rounds.
unfoldable pub read_uint32 : M ℕ
unfolding read_groups
read_uint32 = read_groups 32 5 0 0

-- i is 0, 7, .., 63: ten rounds.
unfoldable pub read_uint64 : M ℕ
unfolding read_groups
read_uint64 = read_groups 64 10 0 0

-- ((uintN_t)(-val)) * 2 - 1, or val * 2, for integers of `m` values. `none`: the negation or the
-- product overflows in the signed type, which is undefined.
unfoldable pub encode_zigzag : ℕ → ℤ → Option ℕ
encode_zigzag m (negsuc n) =
    if ltb (suc n) (m / 2) then some ((suc n % m * 2 % m + m - 1) % m) else none
encode_zigzag m (pos n) = if ltb (n * 2) (m / 2) then some (n * 2) else none

unfoldable pub write_zigzag : (ℕ → M (Unit {0})) → Option ℕ → M (Unit {0})
write_zigzag write_word none b = fault
write_zigzag write_word (some val) b = write_word val b

-- (val >> 1) ^ -(val & 1)
unfoldable pub decode_zigzag : ℕ → ℕ → ℤ
unfolding of_word
decode_zigzag m val = of_word m (bit_xor (val / 2) ((m - bit_and val 1) % m))

unfoldable pub write_int32 : ℤ → M (Unit {0})
unfolding write_zigzag write_uint32 encode_zigzag
write_int32 value = write_zigzag write_uint32 (encode_zigzag (2 ^ 32) value)

unfoldable pub write_int64 : ℤ → M (Unit {0})
unfolding write_zigzag write_uint64 encode_zigzag
write_int64 value = write_zigzag write_uint64 (encode_zigzag (2 ^ 64) value)

unfoldable pub read_int32 : M ℤ
unfolding read_uint32 decode_zigzag
read_int32 = do v ← read_uint32; return (decode_zigzag (2 ^ 32) v)

unfoldable pub read_int64 : M ℤ
unfolding read_uint64 decode_zigzag
read_int64 = do v ← read_uint64; return (decode_zigzag (2 ^ 64) v)
