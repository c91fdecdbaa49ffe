-- ===== src/ByteArray/Groups.antt =====
-- The seven-bit groups: what the writer writes, and that the reader gives it back.
use hpserver_fw.Prelude.{
  ℕ, zero, suc, ◌+◌, ◌*◌, ◌/◌, ◌%◌, ◌^◌, ◌≤◌, ◌<◌, ◌≡◌, refl, sym, ap, ◌∙◌, inl, inr, bit_and,
  bit_or, some, List, [], ◌∷◌, ◌++◌, arith, ltb, lt→ltb, ge→ltb, le→leb, gt→leb, ltb→lt, Bool-cases,
  if◌then◌else◌, if-true, if-false, length, All,
}
use hpserver_fw.Prelude.Bits.{bit_and_ones, bit_or-shifted}
use hpserver_fw.ByteArray.Store.{ByteArray, M, return, done, throws, read, bind_done, bind_throws}
use hpserver_fw.ByteArray.Invariant.{IsValid}
use hpserver_fw.ByteArray.Stream.{left, Next, read-piece, read-short}
use hpserver_fw.ByteArray.Fixed.{read_fuint8, first_byte}
use hpserver_fw.ByteArray.Varint.{groups, read_groups}
use mathlib.Core.Option
use native.Mathlib.Nat.{mod-eq_of_lt, div-add-mod', pow-suc}
use native.Mathlib.Numerals.{towards_suc}

-- The digits of v to the base 128, at most k, lowest first; all but the last have 128 added.
unfoldable pub base128 : ℕ → ℕ → List ℕ
base128 zero v = []
base128 (suc k) v =
    let more = base128 k (v / 128) in if ltb v 128 then v ∷ [] else (v % 128 + 128) ∷ more

low_group : (v : ℕ) → bit_or (bit_and v 0x7f) 0x80 ≡ v % 128 + 128
low_group v =
    ap (λ t. bit_or t 0x80) (bit_and_ones 7 v) ∙ bit_or-shifted 7 (v % 128) 1 (omega arith)

-- A value below 128 ^ (k + 1) fits a buffer of k + 1 bytes, with no write past its end, and what is
-- written to it are the digits of the value to the base 128.
pub groups-base128 : (k v : ℕ) → v < 128 ^ suc k → groups (suc k) v ≡ some (base128 (suc k) v)
unfolding groups base128
groups-base128 zero v h =
    if-false _ _ (gt→leb 0x80 v (omega arith))
    ∙ ap some (ap (λ t. t ∷ []) (omega arith) ∙ sym (if-true _ _ (lt→ltb v 128 (omega arith))))
groups-base128 (suc k) v h = elim (Bool-cases (ltb v 128)) [
  | inl small ↦
      if-false _ _ (gt→leb 0x80 v (omega (arith, ltb→lt _ _ small)))
      ∙ ap some (ap (λ t. t ∷ []) (omega (arith, ltb→lt _ _ small)) ∙ sym (if-true _ _ small))
  | inr large ↦
      if-true _ _ (le→leb 0x80 v (ground arith))
      ∙ ap (Option.map (λ bytes. bit_or (bit_and v 0x7f) 0x80 ∷ bytes))
          (groups-base128 k (v / 128) (omega (arith, pow-suc 128 (suc k))))
      ∙ ap some (ap (λ t. t ∷ base128 (suc k) (v / 128)) (low_group v) ∙ sym (if-false _ _ large))
]

pub Next-refl : (b : ByteArray) (rest : List ℕ) → IsValid b → left b ≡ rest → Next b rest b
Next-refl b rest v e = record {
  valid = v;
  rest_is = e;
  same_bytes = refl;
  same_endian = refl;
  same_capacity = refl;
}

pub Next-trans : (b c d : ByteArray) (r s : List ℕ) → Next b r c → Next c s d → Next b s d
Next-trans b c d r s n m = record {
  valid = m.valid;
  rest_is = m.rest_is;
  same_bytes = m.same_bytes ∙ n.same_bytes;
  same_endian = m.same_endian ∙ n.same_endian;
  same_capacity = m.same_capacity ∙ n.same_capacity;
}

pub read_fuint8-byte :
    (b : ByteArray) (x : ℕ) (rest : List ℕ)
    → IsValid b
    → left b ≡ x ∷ rest
    → (b' : ByteArray) × (read_fuint8 b ≡ done x b') × Next b rest b'
unfolding read_fuint8 first_byte
read_fuint8-byte b x rest v e =
    let (b', run, n) = read-piece b 1 (x ∷ []) rest v e (omega arith) refl in
    (b', bind_done (read 1) (λ bytes. return (first_byte bytes)) b run, n)

shift_more : (i : ℕ) → 2 ^ (i + 7) ≡ 128 * 2 ^ i
shift_more i = simp towards_suc (omega arith)

-- The lowest digit and the others, from bit i on.
lowest_first : (v i : ℕ) → v * 2 ^ i ≡ v % 128 * 2 ^ i + v / 128 * 2 ^ (i + 7)
lowest_first v i =
    ap (λ t. t * 2 ^ i) (sym (div-add-mod' v 128))
    ∙ omega (arith, ap (λ (t : ℕ). v / 128 * t) (shift_more i))

-- One round of the reader, on a last digit and on one with more behind it.
round : (width rounds i result : ℕ) → ℕ → M ℕ
round width rounds i result b =
    if ltb b 0x80
    then return (bit_or result (b * 2 ^ i % 2 ^ width))
    else read_groups width rounds (i + 7) (bit_or result (bit_and b 0x7f * 2 ^ i % 2 ^ width))

one_round :
    (width rounds i result x : ℕ) (b b' : ByteArray)
    → read_fuint8 b ≡ done x b'
    → read_groups width (suc rounds) i result b ≡ round width rounds i result x b'
unfolding read_groups round
one_round width rounds i result x b b' e = bind_done read_fuint8 (round width rounds i result) b e

round_last :
    (width rounds i result x : ℕ) (b : ByteArray)
    → x < 128
    → result < 2 ^ i
    → result + x * 2 ^ i < 2 ^ width
    → round width rounds i result x b ≡ done (result + x * 2 ^ i) b
unfolding round
round_last width rounds i result x b h low fits =
    ap (λ (t : M ℕ). t b) (if-true _ _ (lt→ltb x 0x80 h))
    ∙ ap (λ t. done t b)
        (ap (bit_or result) (mod-eq_of_lt {n = x * 2 ^ i} {m = 2 ^ width} (omega arith))
          ∙ bit_or-shifted i result x low)

round_more :
    (width rounds i result d : ℕ) (b : ByteArray)
    → d < 128
    → result < 2 ^ i
    → result + d * 2 ^ i < 2 ^ width
    → round width rounds i result (d + 128) b
      ≡ read_groups width rounds (i + 7) (result + d * 2 ^ i) b
unfolding round
round_more width rounds i result d b h low fits =
    let masked : bit_and (d + 128) 0x7f ≡ d = bit_and_ones 7 (d + 128) ∙ omega arith in
    ap (λ (t : M ℕ). t b) (if-false _ _ (ge→ltb (d + 128) 0x80 (omega arith)))
    ∙ ap (λ t. read_groups width rounds (i + 7) t b)
        (ap (λ t. bit_or result (t * 2 ^ i % 2 ^ width)) masked
          ∙ ap (bit_or result) (mod-eq_of_lt {n = d * 2 ^ i} {m = 2 ^ width} (omega arith))
          ∙ bit_or-shifted i result d low)

digit_le : (p d : ℕ) → d < 128 → d * p ≤ 127 * p
digit_le p d h = grind arith

-- On a well-formed array, where the digits of v to the base 128 lie ahead, at most k of them, the
-- loop from bit i on, with k rounds and an accumulator below 2 ^ i, returns the accumulator plus v
-- * 2 ^ i, provided this fits the width, and takes the digits and no byte more.
pub read_groups-base128 :
    (width k i result v : ℕ) (b : ByteArray) (rest : List ℕ)
    → v < 128 ^ k
    → result < 2 ^ i
    → result + v * 2 ^ i < 2 ^ width
    → IsValid b
    → left b ≡ base128 k v ++ rest
    → (b' : ByteArray) × (read_groups width k i result b ≡ done (result + v * 2 ^ i) b')
      × Next b rest b'
unfolding base128
read_groups-base128 width zero i result v b rest hv low fits valid e =
    let none_left : v * 2 ^ i ≡ 0 * 2 ^ i = ap (λ t. t * 2 ^ i) (omega arith) in
    (
      b,
      unfold read_groups in ap (λ t. done t b) (omega (arith, none_left)),
      Next-refl b rest valid e,
    )
read_groups-base128 width (suc k) i result v b rest hv low fits valid e =
    elim (Bool-cases (ltb v 128)) [
      | inl small ↦
          let (b', run, n) =
            read_fuint8-byte b v rest valid (e ∙ ap (λ t. t ++ rest) (if-true _ _ small)) in
          (
            b',
            one_round width k i result v b b' run
                ∙ round_last width k i result v b' (ltb→lt _ _ small) low fits,
            n,
          )
      | inr large ↦
          let d = v % 128 in
          let parts = lowest_first v i in
          let room : result + d * 2 ^ i < 2 ^ (i + 7) =
            omega (arith, shift_more i, digit_le (2 ^ i) d (omega arith)) in
          let total : result + d * 2 ^ i + v / 128 * 2 ^ (i + 7) ≡ result + v * 2 ^ i =
            omega (arith, parts) in
          let (b', run, n) =
            read_fuint8-byte b (d + 128) (base128 k (v / 128) ++ rest) valid
              (e ∙ ap (λ t. t ++ rest) (if-false _ _ large)) in
          let (b'', run', n') =
            read_groups-base128 width k (i + 7) (result + d * 2 ^ i) (v / 128) b' rest
              (omega (arith, pow-suc 128 k)) room (omega (arith, total, fits)) n.valid n.rest_is in
          (
            b'',
            one_round width k i result (d + 128) b b' run
                ∙ round_more width k i result d b' (omega arith) low (omega (arith, parts, fits))
                ∙ run'
                ∙ ap (λ t. done t b'') total,
            Next-trans b b' b'' _ rest n n',
          )
    ]

round_far :
    (width rounds i result x : ℕ) (b : ByteArray)
    → 128 ≤ x
    → round width rounds i result x b
      ≡ read_groups width rounds (i + 7) (bit_or result (bit_and x 0x7f * 2 ^ i % 2 ^ width)) b
unfolding round
round_far width rounds i result x b h = ap (λ (t : M ℕ). t b) (if-false _ _ (ge→ltb x 0x80 h))

nothing_left :
    (width rounds i result : ℕ) (b : ByteArray)
    → IsValid b
    → left b ≡ []
    → read_groups width (suc rounds) i result b ≡ throws b
unfolding read_groups round
nothing_left width rounds i result b v e = bind_throws read_fuint8 (round width rounds i result) b (
    unfold read_fuint8 in
    bind_throws (read 1) (λ bytes. return (first_byte bytes)) b
      (read-short b 1 v (omega (arith, ap length e))))

-- On a well-formed array, where fewer bytes are left than the loop has rounds and all of them say
-- that more follow, the loop throws when they are used up; the array is well formed and its data
-- unchanged.
pub read_groups_short :
    (width rounds i result : ℕ) (b : ByteArray) (xs : List ℕ)
    → length xs < rounds
    → All (λ x. 128 ≤ x) xs
    → IsValid b
    → left b ≡ xs
    → (b' : ByteArray) × (read_groups width rounds i result b ≡ throws b') × Next b [] b'
read_groups_short width zero i result b xs h hs v e = absurd (omega arith)
read_groups_short width (suc rounds) i result b [] h hs v e =
    (b, nothing_left width rounds i result b v e, Next-refl b [] v e)
read_groups_short width (suc rounds) i result b (x ∷ xs) h (hx, hs) v e =
    let (b', run, n) = read_fuint8-byte b x xs v e in
    let (b'', run', n') =
      read_groups_short width rounds (i + 7) (bit_or result (bit_and x 0x7f * 2 ^ i % 2 ^ width)) b'
        xs (omega arith) hs n.valid n.rest_is in
    (
      b'',
      one_round width rounds i result x b b' run ∙ round_far width rounds i result x b' hx ∙ run',
      Next-trans b b' b'' xs [] n n',
    )
