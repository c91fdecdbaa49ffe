-- ===== src/ByteArray/Writes.antt =====
-- What each typed writer of ByteArray adds to the data.
use hpserver_fw.Prelude.{
  ℕ, suc, ◌+◌, ◌^◌, ◌%◌, ◌≤◌, ◌<◌, ◌≡◌, sym, ap, subst, ap₂, ◌∙◌, List, [], ◌∷◌, ◌++◌, arith,
  length, take, drop, length-append, length-take, take-append_within, take_all, drop-append_behind,
  drop-drop, append_assoc,
}
use hpserver_fw.Prelude.Int.{ℤ, to_word}
use hpserver_fw.ByteArray.Store.{ByteArray, Endian, M, ◌>>◌, done, write, then_done}
use hpserver_fw.ByteArray.Invariant.{IsValid, length-stored}
use hpserver_fw.ByteArray.Spec.{View, view, overwrite}
use hpserver_fw.ByteArray.Write.{Wrote, write_some}
use hpserver_fw.ByteArray.Integers.{to_memory, to_memory-ordered, length-to_memory}
use hpserver_fw.ByteArray.Fixed.{
  write_fixed, write_fuint8, write_fint8, write_fuint16, write_fuint32, write_fuint64, write_fint16,
  write_fint32, write_fint64,
}
use hpserver_fw.ByteArray.Varint.{
  groups, write_groups, write_uint32, write_uint64, write_int32, write_int64, write_zigzag,
}
use hpserver_fw.ByteArray.Groups.{base128, groups-base128}
use hpserver_fw.ByteArray.Zigzag.{zigzag, zigzag-lt, encode_zigzag-zigzag, Doubles, Doubles-Fits}
use hpserver_fw.ByteArray.Strings.{
  write_string_f16, write_string_f32, write_string_f64, write_string_vint,
}
use hpserver_fw.ByteArray.Values.{
  Value, fuint8, fuint16, fuint32, fuint64, uint32, uint64, fint8, fint16, fint32, fint64, int32,
  int64, string_f16, string_f32, string_f64, string_vint, IsWritable, put, encoding,
}
use native.Mathlib.Nat.{mod-eq_of_lt}

-- Two copies one behind the other are one copy.
overwrite-overwrite :
    (xs ys : List ℕ) (v : View)
    → v.position ≤ length v.bytes
    → overwrite ys (overwrite xs v) ≡ overwrite (xs ++ ys) v
overwrite-overwrite xs ys v h = λ i. record { bytes = same i; position = at_end i }
  where
    p : ℕ
    p = v.position

    front : List ℕ
    front = take p v.bytes ++ xs

    size : length front ≡ p + length xs
    size = length-append (take p v.bytes) xs ∙ omega (arith, length-take p v.bytes)

    at_end : p + length xs + length ys ≡ p + length (xs ++ ys)
    at_end = omega (arith, length-append xs ys)

    regroup :
        take p v.bytes ++ (xs ++ drop (p + length xs) v.bytes)
        ≡ front ++ drop (p + length xs) v.bytes
    regroup = sym (append_assoc (take p v.bytes) xs _)

    before : take (p + length xs) (take p v.bytes ++ (xs ++ drop (p + length xs) v.bytes)) ≡ front
    before =
        ap (take (p + length xs)) regroup
        ∙ take-append_within (p + length xs) front _ (omega (arith, size))
        ∙ take_all (p + length xs) front (omega (arith, size))

    after :
        drop (p + length xs + length ys) (take p v.bytes ++ (xs ++ drop (p + length xs) v.bytes))
        ≡ drop (p + length (xs ++ ys)) v.bytes
    after =
        ap (drop (p + length xs + length ys)) regroup
        ∙ drop-append_behind (p + length xs + length ys) (length ys) front _ (omega (arith, size))
        ∙ drop-drop (length ys) (p + length xs) (p + length (xs ++ ys)) v.bytes (sym at_end)

    same :
        take (p + length xs) (take p v.bytes ++ (xs ++ drop (p + length xs) v.bytes))
          ++ (ys
              ++ drop
                  (p + length xs + length ys)
                  (take p v.bytes ++ (xs ++ drop (p + length xs) v.bytes)))
        ≡ take p v.bytes ++ ((xs ++ ys) ++ drop (p + length (xs ++ ys)) v.bytes)
    same =
        ap₂ (λ t u. t ++ (ys ++ u)) before after
        ∙ append_assoc (take p v.bytes) xs _
        ∙ ap (◌++◌ (take p v.bytes)) (sym (append_assoc xs ys _))

pub Wrote-trans :
    (b c d : ByteArray) (xs ys : List ℕ)
    → IsValid b
    → Wrote b xs c
    → Wrote c ys d
    → Wrote b (xs ++ ys) d
Wrote-trans b c d xs ys v x y = record {
  valid = y.valid;
  refines =
      y.refines
      ∙ ap (overwrite ys) x.refines
      ∙ overwrite-overwrite xs ys (view b) (omega (arith, length-stored b v, v.within));
  same_endian = y.same_endian ∙ x.same_endian;
}

-- A call puts `bytes` at the position, as a single write of them would.
abbrev pub Puts : M (Unit {0}) → ByteArray → List ℕ → Type 0
Puts m b bytes = (b' : ByteArray) × (m b ≡ done tt b') × Wrote b bytes b'

Puts-by :
    (m : M (Unit {0})) (b : ByteArray) (bytes : List ℕ)
    → IsValid b
    → 0 < length bytes
    → m b ≡ write bytes b
    → Puts m b bytes
Puts-by m b bytes v h e = let (b', run, w) = write_some b bytes v h in (b', e ∙ run, w)

-- Whatever the byte order of the machine, the fixed-width writers write the bytes of the value in
-- the byte order of the array.
pub write_fixed-bytes :
    (host : Endian) (w v : ℕ) (b : ByteArray)
    → write_fixed host w v b ≡ write (to_memory b.endian w v) b
unfolding write_fixed
write_fixed-bytes host w v b = ap (λ t. write t b) (to_memory-ordered b.endian host w v)

Puts-fixed :
    (host : Endian) (w v : ℕ) (b : ByteArray)
    → IsValid b
    → 0 < w
    → Puts (write_fixed host w v) b (to_memory b.endian w v)
Puts-fixed host w v b valid h =
    Puts-by (write_fixed host w v) b (to_memory b.endian w v) valid
      (omega (arith, length-to_memory b.endian w v)) (write_fixed-bytes host w v b)

base128_some : (k v : ℕ) → 0 < length (base128 (suc k) v)
unfolding base128
base128_some k v = ground arith

Puts-groups :
    (k v : ℕ) (b : ByteArray)
    → IsValid b
    → v < 128 ^ suc k
    → Puts (write_groups (groups (suc k) v)) b (base128 (suc k) v)
unfolding write_groups
Puts-groups k v b valid h =
    Puts-by (write_groups (groups (suc k) v)) b (base128 (suc k) v) valid (base128_some k v)
      (ap (λ t. write_groups t b) (groups-base128 k v h))

Puts-string :
    (m : M (Unit {0})) (b : ByteArray) (prefix s : List ℕ)
    → IsValid b
    → 0 < length s
    → Puts m b prefix
    → Puts (m >> write s) b (prefix ++ s)
Puts-string m b prefix s v h (c, run, w) =
    let (d, run', w') = write_some c s w.valid h in
    (d, then_done m (write s) b run ∙ run', Wrote-trans b c d prefix s v w w')

-- A string prefix of `w` bytes is not shortened for strings in range.
Puts-sized :
    (host : Endian) (w m : ℕ) (b : ByteArray) (s : List ℕ)
    → IsValid b
    → 0 < w
    → 0 < length s
    → length s < m
    → Puts (write_fixed host w (length s % m) >> write s) b (to_memory b.endian w (length s) ++ s)
Puts-sized host w m b s v h k fits =
    Puts-string (write_fixed host w (length s % m)) b (to_memory b.endian w (length s)) s v k (
      subst (λ t. Puts (write_fixed host w t) b (to_memory b.endian w (length s)))
        (sym (mod-eq_of_lt {n = length s} {m = m} fits)) (Puts-fixed host w (length s) b v h))

Puts-string_vint :
    (s : List ℕ) (b : ByteArray)
    → IsValid b
    → 0 < length s
    → length s < 2 ^ 64
    → Puts (write_string_vint s) b (base128 10 (length s) ++ s)
unfolding write_string_vint write_uint64
Puts-string_vint s b v k fits =
    Puts-string (write_groups (groups 10 (length s % 2 ^ 64))) b (base128 10 (length s)) s v k (
      subst (λ t. Puts (write_groups (groups 10 t)) b (base128 10 (length s)))
        (sym (mod-eq_of_lt {n = length s} {m = 2 ^ 64} fits))
        (Puts-groups 9 (length s) b v (omega arith)))

Puts-int32 :
    (z : ℤ) (b : ByteArray)
    → IsValid b
    → Doubles (2 ^ 32) z
    → Puts (write_int32 z) b (base128 5 (zigzag z))
unfolding write_int32 write_zigzag write_uint32
Puts-int32 z b v h =
    subst (λ o. Puts (write_zigzag write_uint32 o) b (base128 5 (zigzag z)))
      (sym (encode_zigzag-zigzag (2 ^ 32) z h))
      (Puts-groups 4 (zigzag z) b v
        (omega (arith, zigzag-lt (2 ^ 32) z (omega arith) (Doubles-Fits (2 ^ 32) z h))))

Puts-int64 :
    (z : ℤ) (b : ByteArray)
    → IsValid b
    → Doubles (2 ^ 64) z
    → Puts (write_int64 z) b (base128 10 (zigzag z))
unfolding write_int64 write_zigzag write_uint64
Puts-int64 z b v h =
    subst (λ o. Puts (write_zigzag write_uint64 o) b (base128 10 (zigzag z)))
      (sym (encode_zigzag-zigzag (2 ^ 64) z h))
      (Puts-groups 9 (zigzag z) b v
        (omega (arith, zigzag-lt (2 ^ 64) z (omega arith) (Doubles-Fits (2 ^ 64) z h))))

-- On a well-formed array each of the sixteen typed writers, given a value in range, which for a
-- string is one that is not empty and for a compressed signed integer one that can be negated and
-- doubled without overflow, returns, keeps the array well formed, and changes its view in one way:
-- the encoding of the value lies over the data from the position on, and the position is behind it.
pub put-Puts :
    (host : Endian) (x : Value) (b : ByteArray)
    → IsValid b
    → IsWritable x
    → Puts (put host x) b (encoding b.endian x)
unfolding put write_fuint8 write_fint8 write_fuint16 write_fuint32 write_fuint64 write_fint16
    write_fint32 write_fint64 write_uint32 write_uint64 write_string_f16 write_string_f32
    write_string_f64
put-Puts host (fuint8 v) b ok h = write_some b (v ∷ []) ok (omega arith)
put-Puts host (fuint16 v) b ok h = Puts-fixed host 2 v b ok (omega arith)
put-Puts host (fuint32 v) b ok h = Puts-fixed host 4 v b ok (omega arith)
put-Puts host (fuint64 v) b ok h = Puts-fixed host 8 v b ok (omega arith)
put-Puts host (uint32 v) b ok h = Puts-groups 4 v b ok (omega arith)
put-Puts host (uint64 v) b ok h = Puts-groups 9 v b ok (omega arith)
put-Puts host (fint8 z) b ok h = write_some b (to_word (2 ^ 8) z ∷ []) ok (omega arith)
put-Puts host (fint16 z) b ok h = Puts-fixed host 2 (to_word (2 ^ 16) z) b ok (omega arith)
put-Puts host (fint32 z) b ok h = Puts-fixed host 4 (to_word (2 ^ 32) z) b ok (omega arith)
put-Puts host (fint64 z) b ok h = Puts-fixed host 8 (to_word (2 ^ 64) z) b ok (omega arith)
put-Puts host (int32 z) b ok h = Puts-int32 z b ok h
put-Puts host (int64 z) b ok h = Puts-int64 z b ok h
put-Puts host (string_f16 s) b ok h = Puts-sized host 2 (2 ^ 16) b s ok (omega arith) h.0 h.1
put-Puts host (string_f32 s) b ok h = Puts-sized host 4 (2 ^ 32) b s ok (omega arith) h.0 h.1
put-Puts host (string_f64 s) b ok h = Puts-sized host 8 (2 ^ 64) b s ok (omega arith) h.0 h.1
put-Puts host (string_vint s) b ok h = Puts-string_vint s b ok h.0 h.1
