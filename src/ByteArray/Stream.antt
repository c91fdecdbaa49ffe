-- ===== src/ByteArray/Stream.antt =====
-- A well-formed array read as a stream: what is left behind the position, piece by piece.
use hpserver_fw.Prelude.{
  ℕ, ◌+◌, ◌<◌, ◌≡◌, refl, sym, ap, ap₂, ◌∙◌, List, ◌++◌, arith, length, take, drop, length-append,
  length-drop, take-append_within, take_all, drop-append_behind, drop-drop,
}
use hpserver_fw.ByteArray.Store.{ByteArray, done, throws, read}
use hpserver_fw.ByteArray.Invariant.{IsValid, stored, length-stored}
use hpserver_fw.ByteArray.Read.{read_some, read_too_much}

-- What is left to read.
abbrev pub left : ByteArray → List ℕ
left b = drop b.position (stored b)

-- After a reader took its bytes: `rest` is left, and the data is unchanged.
pub record Next (b : ByteArray) (rest : List ℕ) (b' : ByteArray) : Type 0 where
  pub valid : IsValid b'
  pub rest_is : left b' ≡ rest
  pub same_bytes : stored b' ≡ stored b
  pub same_endian : b'.endian ≡ b.endian
  pub same_capacity : b'.capacity ≡ b.capacity

pub length-left : (b : ByteArray) → IsValid b → length (left b) + b.position ≡ b.size
length-left b v = omega (arith, length-drop b.position (stored b), length-stored b v, v.within)

-- Reading as many bytes as a piece has, which lies ahead, returns the piece.
pub read-piece :
    (b : ByteArray) (n : ℕ) (piece rest : List ℕ)
    → IsValid b
    → left b ≡ piece ++ rest
    → 0 < n
    → length piece ≡ n
    → (b' : ByteArray) × (read n b ≡ done piece b') × Next b rest b'
read-piece b n piece rest v e h k =
    let whole : length piece + length rest + b.position ≡ b.size =
      omega (arith, ap length e, length-append piece rest, length-left b v) in
    let (b', run, m) = read_some b n v h (omega arith) in
    (
      b',
      run
          ∙ ap (λ t. done t b')
              (ap (take n) e
                ∙ take-append_within n piece rest (omega arith)
                ∙ take_all n piece (omega arith)),
      record {
        valid = m.valid;
        rest_is =
            ap₂ drop (ap (λ w. w.position) m.refines) (ap (λ w. w.bytes) m.refines)
            ∙ sym (drop-drop n b.position (b.position + n) (stored b) refl)
            ∙ ap (drop n) e
            ∙ drop-append_behind n 0 piece rest (omega arith);
        same_bytes = ap (λ w. w.bytes) m.refines;
        same_endian = m.same_endian;
        same_capacity = m.same_capacity;
      },
    )

-- Fewer bytes ahead than asked for: the read throws and the array is as it was.
pub read-short : (b : ByteArray) (n : ℕ) → IsValid b → length (left b) < n → read n b ≡ throws b
read-short b n v h = read_too_much b n v (omega (arith, length-left b v))
