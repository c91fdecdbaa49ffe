-- ===== src/ByteArray/Buffers.antt =====
-- getReadBuffers and getWriteBuffers of ByteArray (windgent/bytearray.cc): the blocks as a list of
-- iovec for scattered input and output.
use hpserver_fw.Prelude.{
  ℕ, suc, ◌-◌, ◌/◌, ◌%◌, Option, none, some, List, [], ◌∷◌, leb, ltb, ◌==◌, if◌then◌else◌, length,
  drop,
}
use hpserver_fw.ByteArray.Chain.{Node, passed, ahead, nodes, size_sub}
use hpserver_fw.ByteArray.Store.{ByteArray, Outcome, M, done, fault, get_read_size, add_capacity}
use mathlib.Core.Option

-- iov_base as the number of the block and the offset from its start, and iov_len.
pub record Iovec : Type 0 where
  pub block : ℕ
  pub offset : ℕ
  pub len : ℕ

-- The loop. Where a block is used up, iov_base is cur->ptr + ncap.
unfoldable pub buffers_loop : (len npos i : ℕ) → List Node → Option (List Iovec)
unfolding size_sub
buffers_loop len npos i [] = none
buffers_loop len npos i (n ∷ rest) =
    let ncap = size_sub (length n) npos in
    let more = buffers_loop (len - ncap) 0 (suc i) rest in
    if leb len ncap
    then some (record { block = i; offset = npos; len = len } ∷ [])
    else Option.map (λ l. record { block = i; offset = ncap; len = ncap } ∷ l) more

unfoldable pub finish_buffers : ByteArray → ℕ → Option (List Iovec) → Outcome (ℕ × List Iovec)
finish_buffers b size none = fault
finish_buffers b size (some l) = done (size, l) b

-- From the block at index i on; `cur->size` is read first.
unfoldable pub buffers_at : ByteArray → (len npos i : ℕ) → List Node → Outcome (ℕ × List Iovec)
unfolding buffers_loop finish_buffers
buffers_at b len npos i [] = fault
buffers_at b len npos i (n ∷ rest) =
    if len == 0 then done (0, []) b else finish_buffers b len (buffers_loop len npos i (n ∷ rest))

-- `len > getReadSize() ? getReadSize() : len`.
unfoldable pub clamped : ByteArray → ℕ → ℕ
unfolding get_read_size
clamped b len = if ltb (get_read_size b) len then get_read_size b else len

-- getReadBuffers(buffers, len): the result, and what is added to `buffers`.
unfoldable pub get_read_buffers : ℕ → M (ℕ × List Iovec)
unfolding buffers_at clamped passed ahead
get_read_buffers len b =
    if len == 0
    then done (0, []) b
    else if b.block_size == 0
    then fault
    else buffers_at b (clamped b len) (b.position % b.block_size) (length (passed b.cursor))
        (ahead b.cursor)

-- getReadBuffers(buffers, len, pos).
unfoldable pub get_read_buffers_from : (len pos : ℕ) → M (ℕ × List Iovec)
unfolding buffers_at clamped nodes
get_read_buffers_from len pos b =
    if len == 0
    then done (0, []) b
    else if b.block_size == 0
    then fault
    else buffers_at b (clamped b len) (pos % b.block_size) (pos / b.block_size)
        (drop (pos / b.block_size) (nodes b.cursor))

-- The part of getWriteBuffers behind addCapacity.
unfoldable pub write_buffers_of : ℕ → M (ℕ × List Iovec)
unfolding buffers_at passed ahead
write_buffers_of len b =
    buffers_at b len (b.position % b.block_size) (length (passed b.cursor)) (ahead b.cursor)

unfoldable pub get_write_buffers : ℕ → M (ℕ × List Iovec)
unfolding write_buffers_of add_capacity
get_write_buffers len b =
    if len == 0
    then done (0, []) b
    else if b.block_size == 0
    then fault
    else write_buffers_of len (add_capacity b len)
