-- ===== src/ByteArray/Seek.antt =====
-- `ByteArray::setPosition` and `clear` on a well-formed array.
use hpserver_fw.Prelude.{
  ℕ, ◌*◌, ◌≤◌, ◌<◌, ◌≡◌, refl, sym, ap, ap₂, ◌∙◌, List, [], ◌∷◌, arith, ltb, lt→ltb, ge→ltb, length,
  take, max, if-false, if-true, if◌then◌else◌,
}
use hpserver_fw.ByteArray.Chain.{Node, nodes, passed}
use hpserver_fw.ByteArray.Bytes.{Blocks, concat}
use hpserver_fw.ByteArray.Walk.{Points}
use hpserver_fw.ByteArray.SeekLoop.{seek_loop_lem}
use hpserver_fw.ByteArray.Store.{
  ByteArray, done, throws, set_position, finish_seek, set_end, clear, keep_root,
}
use hpserver_fw.ByteArray.Invariant.{IsValid, stored}
use hpserver_fw.ByteArray.Spec.{view, moved_to}

-- The array after `setPosition val`: behind the data its size grows to the position, over bytes
-- of the chain that may never have been written.
pub record Sought (b : ByteArray) (val : ℕ) (b' : ByteArray) : Type 0 where
  pub valid : IsValid b'
  pub at_val : b'.position ≡ val
  pub bytes_are : stored b' ≡ take (max b.size val) (concat (nodes b.cursor))
  pub same_endian : b'.endian ≡ b.endian

size_if : (s p : ℕ) → (if ltb s p then p else s) ≡ max s p
size_if s p = ground arith

-- On a well-formed array, setPosition to a value up to the capacity returns and leaves a
-- well-formed array at that position, with the byte order kept; its data is the chain of blocks up
-- to the old size or the new position, whichever is larger.
pub seek_within :
    (b : ByteArray) (val : ℕ)
    → IsValid b
    → val ≤ b.capacity
    → (b' : ByteArray) × (set_position val b ≡ done tt b') × Sought b val b'
unfolding set_position stored
seek_within b val v h =
    let (c, run, l) =
      seek_loop_lem b.block_size val [] (nodes b.cursor) v.positive tt v.blocks v.rooted
        (omega (arith, v.counted)) in
    (
      set_end b val c,
      if-false _ _ (ge→ltb b.capacity val h) ∙ ap (finish_seek b val) run,
      record {
        valid = record {
          positive = v.positive;
          blocks = l.blocks;
          rooted = omega (arith, l.as_many, v.rooted);
          counted = v.counted ∙ ap (λ t. t * b.block_size) (sym l.as_many);
          within = ground arith;
          fits = ground (arith, v.fits);
          points = record {
            below = omega (arith, l.points.below);
            above = omega (arith, l.points.above);
          };
        };
        at_val = refl;
        bytes_are = ap₂ take (size_if b.size val) l.bytes_are;
        same_endian = refl;
      },
    )

-- Beyond the capacity `setPosition` throws, and leaves the array as it was.
pub seek_beyond : (b : ByteArray) (val : ℕ) → b.capacity < val → set_position val b ≡ throws b
unfolding set_position
seek_beyond b val h = if-true _ _ (lt→ltb b.capacity val h)

same_bytes :
    (b : ByteArray) (val : ℕ)
    → val ≤ b.size
    → take (max b.size val) (concat (nodes b.cursor)) ≡ stored b
unfolding stored
same_bytes b val h = ap (λ t. take t (concat (nodes b.cursor))) (omega arith)

-- On a well-formed array, setPosition to a value up to the size returns, keeps the array well
-- formed, and changes only the position of its view and not the byte order.
pub seek-moved :
    (b : ByteArray) (val : ℕ)
    → IsValid b
    → val ≤ b.size
    → (b' : ByteArray) × (set_position val b ≡ done tt b')
      × IsValid b'
      × (view b' ≡ moved_to val (view b))
      × (b'.endian ≡ b.endian)
seek-moved b val v h =
    let (b', run, s) = seek_within b val v (omega (arith, v.fits)) in
    let same : stored b' ≡ stored b = s.bytes_are ∙ same_bytes b val h in
    (b', run, s.valid, (λ i. record { bytes = same i; position = s.at_val i }), s.same_endian)

keep_root_shape :
    (bs : ℕ) (ns : List Node)
    → 0 < bs
    → Blocks bs ns
    → 0 < length ns
    → Blocks bs (nodes (keep_root ns))
      × (length (nodes (keep_root ns)) ≡ 1)
      × Points bs (keep_root ns) 0
unfolding nodes passed keep_root
keep_root_shape bs [] hb h k = absurd (omega arith)
keep_root_shape bs (n ∷ ns) hb h k =
    ((h.0, tt), refl, record { below = omega arith; above = omega arith })

-- On a well-formed array, clear leaves a well-formed array with no data, at position 0.
pub clear-IsValid :
    (b : ByteArray)
    → IsValid b
    → IsValid (clear b) × (view (clear b) ≡ record { bytes = []; position = 0 })
unfolding clear stored
clear-IsValid b v =
    let (blocks, one, points) =
      keep_root_shape b.block_size (nodes b.cursor) v.positive v.blocks v.rooted in
    (
      record {
        positive = v.positive;
        blocks = blocks;
        rooted = omega (arith, one);
        counted = omega (arith, ap (λ (t : ℕ). t * b.block_size) one);
        within = omega arith;
        fits = omega arith;
        points = points;
      },
      refl,
    )
