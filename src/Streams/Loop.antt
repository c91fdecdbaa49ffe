-- ===== src/Streams/Loop.antt =====
-- readFixedSize and writeFixedSize (windgent/stream.cc), and the reads and writes of SocketStream
-- (windgent/socket_stream.cc). A read or a write is a parameter `move`: from an offset in the buffer
-- and a length it gives the int that is returned, and the state W of the world after it.
use hpserver_fw.Prelude.{
  ℕ, zero, suc, ◌+◌, ◌-◌, ◌%◌, ◌^◌, Bool, Option, none, some, List, [], ◌∷◌, ◌==◌, if◌then◌else◌,
}
use hpserver_fw.Prelude.Int.{ℤ, pos, negsuc, to_word, of_word}

-- `uint64_t len = read(...)`: an int in a word of 64 bits.
unfoldable pub word_of : ℤ → ℕ
unfolding to_word
word_of ret = to_word (2 ^ 64) ret

-- `return length` as an int.
unfoldable pub returned : ℕ → ℤ
unfolding of_word
returned n = of_word (2 ^ 32) (n % 2 ^ 32)

-- What a loop has done: the result, the places that were asked for and how many bytes were counted
-- at each, and the world.
pub record Run (W : Type 0) : Type 0 where
  pub result : ℤ
  pub moves : List (ℕ × ℕ)
  pub world : W

module _ {W : Type 0} (move : ℕ → ℕ → W → ℤ × W) where
  abbrev pub with_move : ℕ → ℕ → Option (Run W) → Option (Run W)
  with_move offset len none = none
  with_move offset len (some r) = some (record r { moves = (offset, len) ∷ r.moves })

  -- One pass after the call: `if(len <= 0) return len; offset += len; left -= len;`.
  unfoldable pub pass : (ℕ → ℕ → W → Option (Run W)) → ℕ → ℕ → ℤ × W → Option (Run W)
  unfolding word_of
  pass more left offset (ret, w) =
      let len = word_of ret in
      let rest = more ((left + (2 ^ 64 - len)) % 2 ^ 64) ((offset + len) % 2 ^ 64) w in
      if len == 0
      then some (record { result = pos 0; moves = []; world = w })
      else with_move offset len rest

  -- The while loop, for at most as many passes as the fuel; none: it still runs.
  unfoldable pub fixed_loop : ℕ → ℤ → ℕ → ℕ → W → Option (Run W)
  unfolding pass
  fixed_loop zero ret left offset w = none
  fixed_loop (suc k) ret left offset w =
      let rest = pass (fixed_loop k ret) left offset (move offset left w) in
      if left == 0 then some (record { result = ret; moves = []; world = w }) else rest

  -- readFixedSize and writeFixedSize.
  unfoldable pub fixed_size : ℕ → ℕ → W → Option (Run W)
  unfolding fixed_loop returned
  fixed_size fuel length w = fixed_loop fuel (returned length) length 0 w

-- SocketStream::read and write, over recv and send of the socket.
module _ {W : Type 0} (is_connected : W → Bool) (transfer : ℕ → ℕ → W → ℤ × W) where
  unfoldable pub socket_move : ℕ → ℕ → W → ℤ × W
  socket_move offset len w =
      let r = transfer offset len w in if is_connected w then r else (negsuc 0, w)

-- The four functions over a read or a write; those for a ByteArray hand on no offset, since the array
-- has a position of its own.
module _ {W : Type 0} where
  unfoldable pub read_fixed_size : (ℕ → ℕ → W → ℤ × W) → ℕ → ℕ → W → Option (Run W)
  unfolding fixed_size
  read_fixed_size read = fixed_size read

  unfoldable pub read_fixed_size_array : (ℕ → W → ℤ × W) → ℕ → ℕ → W → Option (Run W)
  unfolding fixed_size
  read_fixed_size_array read = fixed_size (λ offset. read)

  unfoldable pub write_fixed_size : (ℕ → ℕ → W → ℤ × W) → ℕ → ℕ → W → Option (Run W)
  unfolding fixed_size
  write_fixed_size write = fixed_size write

  unfoldable pub write_fixed_size_array : (ℕ → W → ℤ × W) → ℕ → ℕ → W → Option (Run W)
  unfolding fixed_size
  write_fixed_size_array write = fixed_size (λ offset. write)
