-- ===== src/ByteArray/Spec.antt =====
-- What a ByteArray promises: a file of bytes with a position, with no blocks and no capacity.
use hpserver_fw.Prelude.{ℕ, ◌+◌, List, ◌++◌, length, take, drop}
use hpserver_fw.ByteArray.Store.{ByteArray}
use hpserver_fw.ByteArray.Invariant.{stored}

pub record View : Type 0 where
  pub bytes : List ℕ
  pub position : ℕ

abbrev pub view : ByteArray → View
view b = record { bytes = stored b; position = b.position }

-- Writing replaces the bytes from the position on, and lengthens the file at its end.
abbrev pub overwrite : List ℕ → View → View
overwrite buf v = record {
  bytes = take v.position v.bytes ++ (buf ++ drop (v.position + length buf) v.bytes);
  position = v.position + length buf;
}

-- The n bytes from the position on.
abbrev pub window : ℕ → View → List ℕ
window n v = take n (drop v.position v.bytes)

abbrev pub moved_to : ℕ → View → View
moved_to p v = record v { position = p }
