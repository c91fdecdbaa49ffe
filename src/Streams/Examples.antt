-- ===== src/Streams/Examples.antt =====
-- Runs of the loops of windgent/stream.cc.
use hpserver_fw.Prelude.{ℕ, ◌+◌, ◌≡◌, refl, false, none, arith, min}
use hpserver_fw.Prelude.Int.{ℤ, pos}
use hpserver_fw.Streams.Loop.{returned, fixed_size, socket_move}
use hpserver_fw.Streams.Laws.{Ends, Moves, fixed_size-Ends, fixed_size-spins}

-- At most four bytes a call.
abbrev by_four : ℕ → ℕ → ℕ → ℤ × ℕ
by_four offset len w = (pos (min len 4), w + 1)

by_four-Moves : Moves by_four
unfolding Moves
by_four-Moves offset len w h = (min len 4, refl, omega arith, omega arith)

fixed_size-Ends_example : Ends by_four (returned 10) 10 0 (fixed_size by_four 11 10 0)
fixed_size-Ends_example = fixed_size-Ends by_four 11 10 0 by_four-Moves (omega arith) (omega arith)

fixed_size-spins_example : fixed_size (socket_move (λ (w : ℕ). false) by_four) 100 10 0 ≡ none
fixed_size-spins_example =
    fixed_size-spins (λ (w : ℕ). false) by_four 100 10 0 (λ v. refl) (omega arith) (omega arith)
