-- ===== src/Streams/Laws.antt =====
-- When readFixedSize and writeFixedSize (windgent/stream.cc) end, and when they do not.
use hpserver_fw.Prelude.{
  ℕ, zero, suc, ◌+◌, ◌-◌, ◌%◌, ◌^◌, ◌<◌, ◌≤◌, ◌≡◌, refl, ap, subst, ◌∙◌, Bool, false, Option, none,
  some, List, [], ◌∷◌, ◌==◌, if-false, arith,
}
use hpserver_fw.Prelude.Int.{ℤ, pos, negsuc, to_word}
use hpserver_fw.Streams.Loop.{
  word_of, returned, Run, with_move, pass, fixed_loop, fixed_size, socket_move,
}

-- The moves go from one offset to another without a gap.
pub Consecutive : List (ℕ × ℕ) → ℕ → ℕ → Type 0
Consecutive [] from to = from ≡ to
Consecutive ((offset, len) ∷ moves) from to = (offset ≡ from) × Consecutive moves (from + len) to

module _ {W : Type 0} (move : ℕ → ℕ → W → ℤ × W) where
  -- Each call moves at least one byte, and no more than it is asked for.
  unfoldable pub Moves : Type 0
  Moves =
      (offset len : ℕ) (w : W)
      → 0 < len
      → (n : ℕ) × ((move offset len w).0 ≡ pos n) × (0 < n) × (n ≤ len)

  -- The loop has come to its end, with all of `left` moved.
  pub record Ends (ret : ℤ) (left offset : ℕ) (o : Option (Run W)) : Type 0 where
    pub run : Run W
    pub ended : o ≡ some run
    pub result : run.result ≡ ret
    pub gapless : Consecutive run.moves offset (offset + left)

  pass_pos :
      (more : ℕ → ℕ → W → Option (Run W)) (left offset n : ℕ) (w : W)
      → 0 < n
      → n ≤ left
      → offset + left < 2 ^ 64
      → pass move more left offset (pos n, w)
        ≡ with_move move offset n (more (left - n) (offset + n) w)
  unfolding pass word_of to_word
  pass_pos more left offset n w h l b =
      let e : n % 2 ^ 64 ≡ n = omega arith in
      let f : ((n % 2 ^ 64) == 0) ≡ false = ground arith in
      let e1 : (left + (2 ^ 64 - n)) % 2 ^ 64 ≡ left - n = omega arith in
      let e2 : (offset + n) % 2 ^ 64 ≡ offset + n = omega arith in
      if-false {b = (n % 2 ^ 64) == 0} _ _ f
      ∙ ap
          (λ (c : ℕ).
            with_move move offset c
              (more ((left + (2 ^ 64 - c)) % 2 ^ 64) ((offset + c) % 2 ^ 64) w))
          e
      ∙ ap (λ (x : ℕ). with_move move offset n (more x ((offset + n) % 2 ^ 64) w)) e1
      ∙ ap (λ (y : ℕ). with_move move offset n (more (left - n) y w)) e2

  moved :
      (ret : ℤ) (left offset n : ℕ) (o p : Option (Run W))
      → n ≤ left
      → p ≡ with_move move offset n o
      → Ends ret (left - n) (offset + n) o
      → Ends ret left offset p
  unfolding Consecutive
  moved ret left offset n o p h e r = record {
    run = record r.run { moves = (offset, n) ∷ r.run.moves };
    ended = e ∙ ap (with_move move offset n) r.ended;
    result = r.result;
    gapless =
        (refl, subst (λ (t : ℕ). Consecutive r.run.moves (offset + n) t) (omega arith) r.gapless);
  }

  fixed_loop-Ends :
      (k : ℕ) (ret : ℤ) (left offset : ℕ) (w : W)
      → Moves
      → left < k
      → offset + left < 2 ^ 64
      → Ends ret left offset (fixed_loop move k ret left offset w)
  unfolding fixed_loop Consecutive Moves
  fixed_loop-Ends zero ret left offset w good h b = absurd (omega arith)
  fixed_loop-Ends (suc k) ret zero offset w good h b = record {
    run = record { result = ret; moves = []; world = w };
    ended = refl;
    result = refl;
    gapless = omega arith;
  }
  fixed_loop-Ends (suc k) ret (suc left) offset w good h b =
      let g = good offset (suc left) w (omega arith) in
      let r = move offset (suc left) w in
      let f : (suc left == 0) ≡ false = ground arith in
      moved ret (suc left) offset g.0 (fixed_loop move k ret (suc left - g.0) (offset + g.0) r.1)
        (fixed_loop move (suc k) ret (suc left) offset w) g.3
        (if-false {b = suc left == 0} _ _ f
          ∙ ap (λ z. pass move (fixed_loop move k ret) (suc left) offset (z, r.1)) g.1
          ∙ pass_pos (fixed_loop move k ret) (suc left) offset g.0 r.1 (g.2) (g.3) b)
        (fixed_loop-Ends k ret (suc left - g.0) (offset + g.0) r.1 good (omega (arith, g.2, g.3))
          (omega (arith, g.3, b)))

  -- Where every call moves at least one byte and no more than it is asked for, the loop of
  -- readFixedSize and writeFixedSize over it, with more fuel than the length, ends: it returns the
  -- length as an int, and the moves go through the buffer from 0 to the length without a gap.
  pub fixed_size-Ends :
      (fuel length : ℕ) (w : W)
      → Moves
      → length < fuel
      → length < 2 ^ 64
      → Ends (returned length) length 0 (fixed_size move fuel length w)
  unfolding fixed_size
  fixed_size-Ends fuel length w good h b =
      fixed_loop-Ends fuel (returned length) length 0 w good h (omega (arith, b))

  -- Every call fails with -1, and leaves the world as it is.
  pub Fails : Type 0
  Fails = (offset len : ℕ) (w : W) → move offset len w ≡ (negsuc 0, w)

  fixed_loop-spins :
      (k : ℕ) (ret : ℤ) (left offset : ℕ) (w : W)
      → Fails
      → 0 < left
      → left + k < 2 ^ 64
      → fixed_loop move k ret left offset w ≡ none
  unfolding fixed_loop Fails pass word_of to_word
  fixed_loop-spins zero ret left offset w bad h b = refl
  fixed_loop-spins (suc k) ret left offset w bad h b =
      let f : (left == 0) ≡ false = ground arith in
      let e : (left + (2 ^ 64 - (2 ^ 64 - 1 - 0 % 2 ^ 64))) % 2 ^ 64 ≡ left + 1 = omega arith in
      if-false {b = left == 0} _ _ f
      ∙ ap (pass move (fixed_loop move k ret) left offset) (bad offset left w)
      ∙ ap (with_move move offset (2 ^ 64 - 1)) (
          ap (λ (x : ℕ). fixed_loop move k ret x ((offset + (2 ^ 64 - 1)) % 2 ^ 64) w) e
          ∙ fixed_loop-spins k ret (left + 1) ((offset + (2 ^ 64 - 1)) % 2 ^ 64) w bad (omega arith)
              (omega arith))

-- On a stream that is not connected, where each call returns -1, the loop of readFixedSize and
-- writeFixedSize for a length that is not 0 does not return the error: it still runs after any
-- number of passes that the length leaves below 2 ^ 64.
pub fixed_size-spins :
    {W : Type 0} (is_connected : W → Bool) (transfer : ℕ → ℕ → W → ℤ × W) (fuel length : ℕ) (w : W)
    → ((v : W) → is_connected v ≡ false)
    → 0 < length
    → length + fuel < 2 ^ 64
    → fixed_size (socket_move is_connected transfer) fuel length w ≡ none
unfolding fixed_size socket_move Fails
fixed_size-spins is_connected transfer fuel length w closed h b =
    fixed_loop-spins (socket_move is_connected transfer) fuel (returned length) length 0 w
      (λ offset len v. if-false _ _ (closed v)) h b
