-- ===== src/ByteArray/Reads.antt =====
-- What each typed reader of ByteArray takes from the data, on every branch.
use hpserver_fw.Prelude.{
  ℕ, suc, ◌^◌, ◌%◌, ◌<◌, ◌≡◌, refl, sym, ap, subst, ◌∙◌, List, [], ◌∷◌, ◌++◌, arith, length,
  append_assoc, append-nil,
}
use hpserver_fw.Prelude.Int.{ℤ, Fits, to_word, of_word, of_word-to_word, to_word-lt}
use hpserver_fw.ByteArray.Store.{
  ByteArray, Endian, M, ◌>>=◌, return, done, throws, fault, read, bind_done, bind_throws,
}
use hpserver_fw.ByteArray.Invariant.{IsValid, length-stored}
use hpserver_fw.ByteArray.Read.{read_none_fault}
use hpserver_fw.ByteArray.Stream.{left, Next, length-left, read-piece, read-short}
use hpserver_fw.ByteArray.Integers.{
  to_memory, of_memory, ordered, ordered-of_memory, length-to_memory,
}
use hpserver_fw.ByteArray.Fixed.{
  read_fixed, read_fuint8, read_fint8, read_fuint16, read_fuint32, read_fuint64, read_fint16,
  read_fint32, read_fint64, first_byte,
}
use hpserver_fw.ByteArray.Varint.{
  read_groups, read_uint32, read_uint64, read_int32, read_int64, decode_zigzag,
}
use hpserver_fw.ByteArray.Groups.{base128, read_groups-base128, read_fuint8-byte, Next-trans}
use hpserver_fw.ByteArray.Zigzag.{zigzag, zigzag-lt, decode_zigzag-zigzag}
use hpserver_fw.ByteArray.Strings.{
  read_string_f16, read_string_f32, read_string_f64, read_string_vint,
}
use hpserver_fw.ByteArray.Values.{
  Value, fuint8, fuint16, fuint32, fuint64, uint32, uint64, fint8, fint16, fint32, fint64, int32,
  int64, string_f16, string_f32, string_f64, string_vint, InRange, get, encoding,
}
use native.Mathlib.Nat.{pow-suc}

-- A call returns x and leaves `rest` to be read.
abbrev pub Gets : {A : Type 0} → M A → ByteArray → A → List ℕ → Type 0
Gets m b x rest = (b' : ByteArray) × (m b ≡ done x b') × Next b rest b'

Gets-map :
    {A B : Type 0} (m : M A) (f : A → B) (b : ByteArray) (x : A) (rest : List ℕ)
    → Gets m b x rest
    → Gets (m >>= λ a. return (f a)) b (f x) rest
Gets-map m f b x rest (b', run, n) = (b', bind_done m (λ a. return (f a)) b run, n)

Gets-fixed :
    (host : Endian) (w v : ℕ) (b : ByteArray) (rest : List ℕ)
    → IsValid b
    → 0 < w
    → v < 256 ^ w
    → left b ≡ to_memory b.endian w v ++ rest
    → Gets (read_fixed host w) b v rest
unfolding read_fixed
Gets-fixed host w v b rest valid h fits e =
    let bytes = to_memory b.endian w v in
    let (b', run, n) = read-piece b w bytes rest valid e h (length-to_memory b.endian w v) in
    (
      b',
      bind_done (read w) (λ bs c. done (ordered c.endian host w (of_memory host bs)) c) b run
          ∙ ap (λ t. done (ordered t host w (of_memory host bytes)) b') n.same_endian
          ∙ ap (λ t. done t b') (ordered-of_memory b.endian host w v fits),
      n,
    )

-- On a well-formed array with fewer bytes left than its width, a fixed-width reader throws, and
-- leaves the array as it was.
pub read_fixed_short :
    (host : Endian) (w : ℕ) (b : ByteArray)
    → IsValid b
    → length (left b) < w
    → read_fixed host w b ≡ throws b
unfolding read_fixed
read_fixed_short host w b v h =
    bind_throws (read w) (λ bs c. done (ordered c.endian host w (of_memory host bs)) c) b
      (read-short b w v h)

Gets-groups :
    (width k v : ℕ) (b : ByteArray) (rest : List ℕ)
    → IsValid b
    → v < 128 ^ k
    → v < 2 ^ width
    → left b ≡ base128 k v ++ rest
    → Gets (read_groups width k 0 0) b v rest
Gets-groups width k v b rest valid h fits e =
    let (b', run, n) =
      read_groups-base128 width k 0 0 v b rest h (omega arith) (omega arith) valid e in
    (b', run ∙ ap (λ t. done t b') (omega arith), n)

Gets-string :
    (m : M ℕ) (b : ByteArray) (s rest : List ℕ)
    → 0 < length s
    → Gets m b (length s) (s ++ rest)
    → Gets (m >>= read) b s rest
Gets-string m b s rest h (c, run, n) =
    let (d, run', n') = read-piece c (length s) s rest n.valid n.rest_is h refl in
    (d, bind_done m read b run ∙ run', Next-trans b c d (s ++ rest) rest n n')

Gets-sized :
    (host : Endian) (w : ℕ) (b : ByteArray) (s rest : List ℕ)
    → IsValid b
    → 0 < w
    → 0 < length s
    → length s < 256 ^ w
    → left b ≡ (to_memory b.endian w (length s) ++ s) ++ rest
    → Gets (read_fixed host w >>= read) b s rest
Gets-sized host w b s rest v h k fits e =
    Gets-string (read_fixed host w) b s rest k
      (Gets-fixed host w (length s) b (s ++ rest) v h fits (e ∙ append_assoc _ s rest))

Gets-signed :
    (host : Endian) (w m : ℕ) (z : ℤ) (b : ByteArray) (rest : List ℕ)
    → IsValid b
    → 0 < w
    → m ≡ 256 ^ w
    → 0 < m
    → m % 2 ≡ 0
    → Fits m z
    → left b ≡ to_memory b.endian w (to_word m z) ++ rest
    → Gets (read_fixed host w >>= λ v. return (of_word m v)) b z rest
Gets-signed host w m z b rest v h size some_value even fits e =
    subst (λ t. Gets (read_fixed host w >>= λ v. return (of_word m v)) b t rest)
      (of_word-to_word m z even fits)
      (Gets-map (read_fixed host w) (of_word m) b (to_word m z) rest
        (Gets-fixed host w (to_word m z) b rest v h (omega (arith, to_word-lt m z some_value)) e))

Gets-zigzag :
    (k rounds : ℕ) (z : ℤ) (b : ByteArray) (rest : List ℕ)
    → IsValid b
    → zigzag z < 128 ^ rounds
    → Fits (2 ^ suc k) z
    → left b ≡ base128 rounds (zigzag z) ++ rest
    → Gets (read_groups (suc k) rounds 0 0 >>= λ v. return (decode_zigzag (2 ^ suc k) v)) b z rest
Gets-zigzag k rounds z b rest v h fits e =
    subst
      (λ t.
        Gets (read_groups (suc k) rounds 0 0 >>= λ v. return (decode_zigzag (2 ^ suc k) v)) b t
          rest)
      (decode_zigzag-zigzag k z fits)
      (Gets-map (read_groups (suc k) rounds 0 0) (decode_zigzag (2 ^ suc k)) b (zigzag z) rest (
        Gets-groups (suc k) rounds (zigzag z) b rest v h
          (zigzag-lt (2 ^ suc k) z (omega (arith, pow-suc 2 k)) fits) e))

Gets-fint8 :
    (z : ℤ) (b : ByteArray) (rest : List ℕ)
    → IsValid b
    → Fits (2 ^ 8) z
    → left b ≡ to_word (2 ^ 8) z ∷ rest
    → Gets read_fint8 b z rest
unfolding read_fint8
Gets-fint8 z b rest v h e =
    let x = to_word (2 ^ 8) z in
    let (b', run, n) = read-piece b 1 (x ∷ []) rest v e (omega arith) refl in
    (
      b',
      bind_done (read 1) (λ bytes. return (of_word (2 ^ 8) (first_byte bytes))) b run
          ∙ ap (λ t. done t b') (unfold first_byte in of_word-to_word (2 ^ 8) z (omega arith) h),
      n,
    )

-- On a well-formed array, where what is left is the encoding of a value in range, for a string one
-- that is not empty, with some bytes behind it, the typed reader returns that value, keeps the
-- array well formed and its data unchanged, and leaves exactly the bytes behind.
pub get-Gets :
    (host : Endian) (x : Value) (b : ByteArray) (rest : List ℕ)
    → IsValid b
    → InRange x
    → left b ≡ encoding b.endian x ++ rest
    → Gets (get host x) b x rest
unfolding get read_fint8 read_fuint16 read_fuint32 read_fuint64 read_fint16 read_fint32 read_fint64
    read_uint32 read_uint64 read_int32 read_int64 read_string_f16 read_string_f32 read_string_f64
    read_string_vint
get-Gets host (fuint8 v) b rest ok h e =
    Gets-map read_fuint8 fuint8 b v rest (read_fuint8-byte b v rest ok e)
get-Gets host (fint8 z) b rest ok h e =
    Gets-map read_fint8 fint8 b z rest (Gets-fint8 z b rest ok h e)
get-Gets host (fuint16 v) b rest ok h e =
    Gets-map (read_fixed host 2) fuint16 b v rest
      (Gets-fixed host 2 v b rest ok (omega arith) (omega arith) e)
get-Gets host (fint16 z) b rest ok h e =
    Gets-map (read_fint16 host) fint16 b z rest
      (Gets-signed host 2 (2 ^ 16) z b rest ok (omega arith) refl (omega arith) (omega arith) h e)
get-Gets host (string_f16 s) b rest ok h e =
    Gets-map (read_string_f16 host) string_f16 b s rest
      (Gets-sized host 2 b s rest ok (omega arith) h.0 (omega (arith, h.1)) e)
get-Gets host (fuint32 v) b rest ok h e =
    Gets-map (read_fixed host 4) fuint32 b v rest
      (Gets-fixed host 4 v b rest ok (omega arith) (omega arith) e)
get-Gets host (fint32 z) b rest ok h e =
    Gets-map (read_fint32 host) fint32 b z rest
      (Gets-signed host 4 (2 ^ 32) z b rest ok (omega arith) refl (omega arith) (omega arith) h e)
get-Gets host (string_f32 s) b rest ok h e =
    Gets-map (read_string_f32 host) string_f32 b s rest
      (Gets-sized host 4 b s rest ok (omega arith) h.0 (omega (arith, h.1)) e)
get-Gets host (fuint64 v) b rest ok h e =
    Gets-map (read_fixed host 8) fuint64 b v rest
      (Gets-fixed host 8 v b rest ok (omega arith) (omega arith) e)
get-Gets host (fint64 z) b rest ok h e =
    Gets-map (read_fint64 host) fint64 b z rest
      (Gets-signed host 8 (2 ^ 64) z b rest ok (omega arith) refl (omega arith) (omega arith) h e)
get-Gets host (string_f64 s) b rest ok h e =
    Gets-map (read_string_f64 host) string_f64 b s rest
      (Gets-sized host 8 b s rest ok (omega arith) h.0 (omega (arith, h.1)) e)
get-Gets host (uint32 v) b rest ok h e =
    Gets-map read_uint32 uint32 b v rest (Gets-groups 32 5 v b rest ok (omega arith) h e)
get-Gets host (int32 z) b rest ok h e =
    Gets-map read_int32 int32 b z rest
      (Gets-zigzag 31 5 z b rest ok (omega (arith, zigzag-lt (2 ^ 32) z (omega arith) h)) h e)
get-Gets host (uint64 v) b rest ok h e =
    Gets-map read_uint64 uint64 b v rest (Gets-groups 64 10 v b rest ok (omega arith) h e)
get-Gets host (int64 z) b rest ok h e =
    Gets-map read_int64 int64 b z rest
      (Gets-zigzag 63 10 z b rest ok (omega (arith, zigzag-lt (2 ^ 64) z (omega arith) h)) h e)
get-Gets host (string_vint s) b rest ok h e = Gets-map read_string_vint string_vint b s rest (
    Gets-string read_uint64 b s rest h.0 (
      Gets-groups 64 10 (length s) b (s ++ rest) ok (omega (arith, h.1)) h.1
        (e ∙ append_assoc _ s rest)))

-- On a well-formed array, where a two-byte length n lies ahead and fewer than n bytes follow it,
-- readStringF16 throws; the array is well formed, its data unchanged, and the position stays behind
-- the length.
pub read_string_short :
    (host : Endian) (n : ℕ) (b : ByteArray) (rest : List ℕ)
    → IsValid b
    → n < 2 ^ 16
    → length rest < n
    → left b ≡ to_memory b.endian 2 n ++ rest
    → (b' : ByteArray) × (read_string_f16 host b ≡ throws b') × Next b rest b'
unfolding read_string_f16 read_fuint16
read_string_short host n b rest v fits h e =
    let (b', run, next) = Gets-fixed host 2 n b rest v (omega arith) (omega arith) e in
    (
      b',
      bind_done (read_fixed host 2) read b run
          ∙ read-short b' n next.valid (omega (arith, ap length next.rest_is)),
      next,
    )

-- On a well-formed array whose data fills the capacity, where the length of an empty string is all
-- that is left, readStringF16 follows a null pointer.
pub read_string_empty_fault :
    (host : Endian) (b : ByteArray)
    → IsValid b
    → left b ≡ to_memory b.endian 2 0
    → b.size ≡ b.capacity
    → read_string_f16 host b ≡ fault
unfolding read_string_f16 read_fuint16
read_string_empty_fault host b v e full =
    let (b', run, next) =
      Gets-fixed host 2 0 b [] v (omega arith) (omega arith) (e ∙ sym (append-nil _)) in
    bind_done (read_fixed host 2) read b run
    ∙ read_none_fault b' next.valid (
        omega (
          arith,
          length-left b' next.valid,
          ap length next.rest_is,
          length-stored b' next.valid,
          length-stored b v,
          ap length next.same_bytes,
          full,
          next.same_capacity,
        ))
