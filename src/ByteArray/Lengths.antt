-- ===== src/ByteArray/Lengths.antt =====
-- How much the iovec lists of getReadBuffers and getWriteBuffers cover, and where the first starts.
use hpserver_fw.Prelude.{
  ℕ, suc, ◌+◌, ◌-◌, ◌*◌, ◌%◌, ◌≤◌, ◌<◌, ◌≡◌, inl, inr, refl, sym, ap, ap₂, ◌∙◌, min, some, List, [],
  ◌∷◌, arith, leb, le→leb, gt→leb, leb→le, Bool-cases, if-true, if-false, length, pos-ne-zero,
}
use hpserver_fw.ByteArray.Chain.{Node, at, passed, ahead, size_sub, size_sub_lem}
use hpserver_fw.ByteArray.Store.{ByteArray, done, get_read_size, add_capacity}
use hpserver_fw.ByteArray.Bytes.{Blocks}
use hpserver_fw.ByteArray.Invariant.{IsValid, at-At, Cursor-cases, null_at_end}
use hpserver_fw.ByteArray.Capacity.{add_capacity-Grown}
use hpserver_fw.ByteArray.Buffers.{
  Iovec, buffers_loop, finish_buffers, buffers_at, clamped, get_read_buffers, write_buffers_of,
  get_write_buffers,
}
use mathlib.Core.Option

-- The bytes of a list of iovec.
abbrev pub total : List Iovec → ℕ
total [] = 0
total (v ∷ l) = v.len + total l

abbrev Covers : (len npos i : ℕ) → List Node → Type 0
Covers len npos i ns = (l : List Iovec) × (buffers_loop len npos i ns ≡ some l) × (total l ≡ len)

block_left :
    (n : Node) (bs npos : ℕ) → length n ≡ bs → npos < bs → size_sub (length n) npos ≡ bs - npos
block_left n bs npos full h = size_sub_lem (length n) npos (omega arith) ∙ omega arith

buffers_fit :
    (bs len npos i : ℕ) (n : Node) (rest : List Node)
    → length n ≡ bs
    → npos < bs
    → len ≤ bs - npos
    → Covers len npos i (n ∷ rest)
unfolding buffers_loop
buffers_fit bs len npos i n rest full h fits = (
  _,
  if-true _ _ (le→leb len (size_sub (length n) npos) (omega (arith, block_left n bs npos full h))),
  omega arith,
)

buffers_go_on :
    (bs len npos i : ℕ) (n : Node) (rest : List Node)
    → length n ≡ bs
    → npos < bs
    → bs - npos < len
    → Covers (len - (bs - npos)) 0 (suc i) rest
    → Covers len npos i (n ∷ rest)
unfolding buffers_loop
buffers_go_on bs len npos i n rest full h more (l, run, sum) =
    let left = block_left n bs npos full h in
    (
      record { block = i; offset = size_sub (length n) npos; len = size_sub (length n) npos } ∷ l,
      if-false _ _ (gt→leb len (size_sub (length n) npos) (omega (arith, left)))
          ∙ ap (Option.map _) (ap (λ t. buffers_loop (len - t) 0 (suc i) rest) left ∙ run),
      omega (arith, left, sum),
    )

buffers_loop-Covers :
    (bs len npos i : ℕ) (ns : List Node)
    → Blocks bs ns
    → npos < bs
    → 0 < len
    → npos + len ≤ length ns * bs
    → Covers len npos i ns
buffers_loop-Covers bs len npos i [] hb h some_byte room = absurd (omega arith)
buffers_loop-Covers bs len npos i (n ∷ rest) (full, hb) h some_byte room =
    elim (Bool-cases (leb len (bs - npos))) [
      | inl e ↦ buffers_fit bs len npos i n rest full h (leb→le _ _ e)
      | inr e ↦
          let more : bs - npos < len = ground arith in
          buffers_go_on bs len npos i n rest full h more (
            buffers_loop-Covers bs (len - (bs - npos)) 0 (suc i) rest hb (omega arith) (omega arith)
              (omega arith))
    ]

-- From the block of the position on.
abbrev Filled : ByteArray → ℕ → Type 0
Filled b len =
    (l : List Iovec) × (buffers_at b len (b.position % b.block_size) (length (passed b.cursor))
        (ahead b.cursor)
      ≡ done (len, l) b)
    × (total l ≡ len)

buffers_at_block :
    (b : ByteArray) (len : ℕ) (p : List Node) (n : Node) (r : List Node)
    → IsValid b
    → 0 < len
    → b.position + len ≤ b.capacity
    → b.cursor ≡ at p n r
    → Filled b len
unfolding passed ahead buffers_at finish_buffers
buffers_at_block b len p n r v some_byte room e =
    let a = at-At b p n r e v in
    let (l, run, sum) =
      buffers_loop-Covers b.block_size len a.offset (length p) (n ∷ r) a.blocks_ahead a.in_block
        some_byte (omega (arith, a.is_position, a.to_end, room)) in
    (
      l,
      ap (λ c. buffers_at b len (b.position % b.block_size) (length (passed c)) (ahead c)) e
          ∙ if-false _ _ (pos-ne-zero len some_byte)
          ∙ ap (λ t. finish_buffers b len (buffers_loop len t (length p) (n ∷ r))) a.is_offset
          ∙ ap (finish_buffers b len) run,
      sum,
    )

buffers_at-Filled :
    (b : ByteArray) (len : ℕ) → IsValid b → 0 < len → b.position + len ≤ b.capacity → Filled b len
buffers_at-Filled b len v some_byte room = elim (Cursor-cases b.cursor) [
  | inl (ns, e) ↦ absurd (omega (arith, null_at_end b ns e v))
  | inr (p, n, r, e) ↦ buffers_at_block b len p n r v some_byte room e
]

clamped-min : (b : ByteArray) (len : ℕ) → IsValid b → clamped b len ≡ min len (b.size - b.position)
unfolding clamped get_read_size
clamped-min b len v = ground (arith, size_sub_lem b.size b.position v.within)

-- On a well-formed array with data left, getReadBuffers for at least one byte returns what is asked
-- for, or what is left where this is less, and the lengths of the buffers it adds sum to the
-- result; the array is as before.
pub get_read_buffers-total :
    (b : ByteArray) (len : ℕ)
    → IsValid b
    → b.position < b.size
    → 0 < len
    → (l : List Iovec) × (get_read_buffers len b ≡ done (min len (b.size - b.position), l) b)
      × (total l ≡ min len (b.size - b.position))
unfolding get_read_buffers
get_read_buffers-total b len v some_left some_byte =
    let (l, run, sum) =
      buffers_at-Filled b (min len (b.size - b.position)) v (omega arith) (omega (arith, v.fits)) in
    (
      l,
      if-false _ _ (pos-ne-zero len some_byte)
          ∙ if-false _ _ (pos-ne-zero b.block_size v.positive)
          ∙ ap
              (λ t.
                buffers_at b t (b.position % b.block_size) (length (passed b.cursor))
                  (ahead b.cursor))
              (clamped-min b len v)
          ∙ run,
      sum,
    )

-- On a well-formed array, getWriteBuffers for at least one byte returns the number asked for; the
-- lengths of the buffers it adds sum to it, and the array is then well formed and the one that
-- addCapacity leaves.
pub get_write_buffers-total :
    (b : ByteArray) (len : ℕ)
    → IsValid b
    → 0 < len
    → (l : List Iovec) × (get_write_buffers len b ≡ done (len, l) (add_capacity b len))
      × (total l ≡ len)
      × IsValid (add_capacity b len)
unfolding get_write_buffers write_buffers_of
get_write_buffers-total b len v some_byte =
    let g = add_capacity-Grown b len v in
    let (l, run, sum) =
      buffers_at-Filled (add_capacity b len) len g.valid some_byte
        (omega (arith, g.room, g.same_position)) in
    (
      l,
      if-false _ _ (pos-ne-zero len some_byte)
          ∙ if-false _ _ (pos-ne-zero b.block_size v.positive)
          ∙ run,
      sum,
      g.valid,
    )

buffers_loop-first :
    (bs len npos i : ℕ) (n : Node) (rest : List Node)
    → length n ≡ bs
    → npos < bs
    → bs - npos < len
    → Covers (len - (bs - npos)) 0 (suc i) rest
    → (l : List Iovec) × (buffers_loop len npos i (n ∷ rest)
        ≡ some (record { block = i; offset = bs - npos; len = bs - npos } ∷ l))
unfolding buffers_loop
buffers_loop-first bs len npos i n rest full h more (l, run, sum) =
    let left = block_left n bs npos full h in
    (
      l,
      if-false _ _ (gt→leb len (size_sub (length n) npos) (omega (arith, left)))
          ∙ ap (Option.map _) (ap (λ t. buffers_loop (len - t) 0 (suc i) rest) left ∙ run)
          ∙ ap (λ t. some (record { block = i; offset = t; len = t } ∷ l)) left,
    )

-- The first buffer, where the bytes asked for go beyond the block of the position.
get_read_buffers-first :
    (b : ByteArray) (len : ℕ)
    → IsValid b
    → b.position + len ≤ b.size
    → b.block_size - b.position % b.block_size < len
    → (l : List Iovec) × (get_read_buffers len b
        ≡ done
            (
              len,
              record {
                block = length (passed b.cursor);
                offset = b.block_size - b.position % b.block_size;
                len = b.block_size - b.position % b.block_size;
              }
                  ∷ l,
            )
            b)
unfolding get_read_buffers passed ahead buffers_at finish_buffers
get_read_buffers-first b len v room crosses = elim (Cursor-cases b.cursor) [
  | inl (ns, e) ↦ absurd (omega (arith, null_at_end b ns e v, v.fits))
  | inr (p, n, r, e) ↦
      let a = at-At b p n r e v in
      let cross : b.block_size - a.offset < len = omega (arith, a.is_offset) in
      let (l, run) =
        buffers_loop-first b.block_size len a.offset (length p) n r a.blocks_ahead.0 a.in_block
          cross
          (buffers_loop-Covers b.block_size (len - (b.block_size - a.offset)) 0 (suc (length p)) r
            a.blocks_ahead.1 v.positive (omega arith)
            (omega (arith, a.is_position, a.to_end, v.fits))) in
      (
        l,
        if-false _ _ (pos-ne-zero len (omega arith))
            ∙ if-false _ _ (pos-ne-zero b.block_size v.positive)
            ∙ ap
                (λ t.
                  buffers_at b t (b.position % b.block_size) (length (passed b.cursor))
                    (ahead b.cursor))
                (clamped-min b len v ∙ omega arith)
            ∙ ap (λ c. buffers_at b len (b.position % b.block_size) (length (passed c)) (ahead c)) e
            ∙ if-false _ _ (pos-ne-zero len (omega arith))
            ∙ ap (λ t. finish_buffers b len (buffers_loop len t (length p) (n ∷ r))) a.is_offset
            ∙ ap (finish_buffers b len) run
            ∙ ap₂
                (λ c t.
                  done
                    (
                      len,
                      record {
                        block = length (passed c);
                        offset = b.block_size - t;
                        len = b.block_size - t;
                      }
                          ∷ l,
                    )
                    b)
                (sym e) (sym a.is_offset),
      )
]

-- On a well-formed array, where the bytes asked for are there and go beyond the block of the
-- position, and less than half of that block lies before the position, getReadBuffers returns the
-- number asked for, but the first of its buffers, in that block, begins behind the position and
-- runs past the end of the block.
pub get_read_buffers-misplaced :
    (b : ByteArray) (len : ℕ)
    → IsValid b
    → b.position + len ≤ b.size
    → b.block_size - b.position % b.block_size < len
    → b.position % b.block_size * 2 < b.block_size
    → (first : Iovec) × (l : List Iovec) × (get_read_buffers len b ≡ done (len, first ∷ l) b)
      × (first.block ≡ length (passed b.cursor))
      × (b.position % b.block_size < first.offset)
      × (b.block_size < first.offset + first.len)
get_read_buffers-misplaced b len v room crosses half =
    let (l, run) = get_read_buffers-first b len v room crosses in
    (
      record {
        block = length (passed b.cursor);
        offset = b.block_size - b.position % b.block_size;
        len = b.block_size - b.position % b.block_size;
      },
      l,
      run,
      refl,
      omega arith,
      omega arith,
    )
