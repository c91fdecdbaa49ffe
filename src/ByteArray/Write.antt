-- ===== src/ByteArray/Write.antt =====
-- `ByteArray::write` on a well-formed array.
use hpserver_fw.Prelude.{
  ℕ, ◌+◌, ◌*◌, ◌≤◌, ◌<◌, ◌≡◌, refl, sym, ap, ap₂, ◌∙◌, inl, inr, List, ◌∷◌, ◌++◌, arith, leb, ltb,
  leb→le, Bool-cases, length, take, drop, max, length-append, length-take, drop_all, take-take,
  take-append_within, if-false, pos-ne-zero, if◌then◌else◌,
}
use hpserver_fw.ByteArray.Chain.{Node, Cursor, null, at, nodes, splice}
use hpserver_fw.ByteArray.Bytes.{
  concat, concat-append, splice-append_behind, take-splice, splice_lem,
}
use hpserver_fw.ByteArray.Walk.{Lands}
use hpserver_fw.ByteArray.WriteLoop.{write_loop_lem}
use hpserver_fw.ByteArray.Store.{
  ByteArray, done, add_capacity, write, write_at, finish_write, set_end,
}
use hpserver_fw.ByteArray.Invariant.{IsValid, stored, length-contents, At, at-At, null_at_end}
use hpserver_fw.ByteArray.Spec.{view, overwrite}
use hpserver_fw.ByteArray.Capacity.{Grown, add_capacity-Grown}

-- The bytes of the chain after `buf` is copied to the position, and the fields.
record Copied (b : ByteArray) (buf : List ℕ) (b' : ByteArray) : Type 0 where
  valid : IsValid b'
  contents : concat (nodes b'.cursor) ≡ splice (concat (nodes b.cursor)) b.position buf
  at_end : b'.position ≡ b.position + length buf
  longer : b'.size ≡ max b.size (b.position + length buf)
  same_block_size : b'.block_size ≡ b.block_size
  same_endian : b'.endian ≡ b.endian
  same_fresh : b'.fresh ≡ b.fresh

max_if : (s p : ℕ) → (if ltb s p then p else s) ≡ max s p
max_if s p = ground arith

module _ (b : ByteArray) (buf : List ℕ) (v : IsValid b) (some_byte : 0 < length buf)
    (room : b.position + length buf ≤ b.capacity) where
  copied :
      (p : List Node) (n : Node) (r : List Node)
      → b.cursor ≡ at p n r
      → (c : Cursor) → (a : At b p n r)
      → Lands b.block_size
          (p ++ (n ∷ r))
          (concat p ++ splice (concat (n ∷ r)) a.offset buf)
          (length p * b.block_size + a.offset + length buf)
          c
      → Copied b buf (set_end b (b.position + length buf) c)
  unfolding set_end nodes
  copied p n r e c a l = record {
    valid = record {
      positive = v.positive;
      blocks = l.blocks;
      rooted = omega (arith, l.as_many, length-append p (n ∷ r));
      counted =
          v.counted ∙ ap (λ t. t * b.block_size) (ap (λ t. length (nodes t)) e ∙ sym l.as_many);
      within = ground arith;
      fits = ground (arith, v.fits);
      points = record {
        below = omega (arith, l.points.below, a.is_position);
        above = omega (arith, l.points.above, a.is_position);
      };
    };
    contents =
        l.bytes_are
        ∙ sym (
            splice-append_behind (concat p) (concat (n ∷ r)) a.offset b.position buf
              (omega (arith, a.is_position, a.bytes_passed)))
        ∙ ap (λ t. splice t b.position buf) (sym (ap concat a.chain ∙ concat-append p (n ∷ r)));
    at_end = refl;
    longer = max_if _ _;
    same_block_size = refl;
    same_endian = refl;
    same_fresh = refl;
  }

  write_at-Copied :
      (c : Cursor)
      → b.cursor ≡ c
      → (b' : ByteArray) × (write_at b buf c ≡ done tt b') × Copied b buf b'
  unfolding write_at finish_write
  write_at-Copied (null ns) e = absurd (omega (arith, null_at_end b ns e v))
  write_at-Copied (at p n r) e =
      let a = at-At b p n r e v in
      let (c', run, l) =
        write_loop_lem b.block_size b.position a.offset buf p (n ∷ r) v.positive a.blocks_passed
          a.blocks_ahead (omega (arith, a.in_block)) some_byte
          (omega (arith, a.to_end, a.is_position)) in
      (set_end b (b.position + length buf) c', rw a.is_offset (rw run), copied p n r e c' a l)

-- The first bytes of a longer sequence, for the size after a write.
written_bytes :
    (all more buf : List ℕ) (pos size : ℕ)
    → pos ≤ size
    → size ≤ length all
    → pos + length buf ≤ length (all ++ more)
    → take (max size (pos + length buf)) (splice (all ++ more) pos buf)
      ≡ take pos (take size all) ++ (buf ++ drop (pos + length buf) (take size all))
written_bytes all more buf pos size h k room =
    take-splice end (all ++ more) pos buf
    ∙ splice_lem (take end (all ++ more)) pos (pos + length buf) buf refl
        (omega (arith, length-take end (all ++ more)))
    ∙ ap₂ (λ t u. t ++ (buf ++ u)) before after
  where
    end : ℕ
    end = max size (pos + length buf)

    before : take pos (take end (all ++ more)) ≡ take pos (take size all)
    before =
        take-take pos end (all ++ more) (omega arith)
        ∙ take-append_within pos all more (omega arith)
        ∙ sym (take-take pos size all h)

    after :
        drop (pos + length buf) (take end (all ++ more)) ≡ drop (pos + length buf) (take size all)
    after = elim (Bool-cases (leb (pos + length buf) size)) [
      | inl within ↦
          ap (λ t. drop (pos + length buf) (take t (all ++ more)))
            (omega (arith, leb→le _ _ within))
          ∙ ap (drop (pos + length buf)) (take-append_within size all more k)
      | inr beyond ↦
          drop_all (pos + length buf) (take end (all ++ more))
            (ground (arith, length-take end (all ++ more)))
          ∙ sym (drop_all (pos + length buf) (take size all) (ground (arith, length-take size all)))
    ]

-- A write of at least one byte to a well-formed array returns; the array stays well formed.
pub record Wrote (b : ByteArray) (buf : List ℕ) (b' : ByteArray) : Type 0 where
  pub valid : IsValid b'
  pub refines : view b' ≡ overwrite buf (view b)
  pub same_endian : b'.endian ≡ b.endian

Copied-Wrote :
    (b c b' : ByteArray) (buf : List ℕ)
    → IsValid b
    → Grown b (length buf) c
    → Copied c buf b'
    → Wrote b buf b'
unfolding stored
Copied-Wrote b c b' buf v g w = record {
  valid = w.valid;
  refines = λ i. record { bytes = bytes_are i; position = at_end i };
  same_endian = w.same_endian ∙ g.same_endian;
}
  where
    at_end : b'.position ≡ b.position + length buf
    at_end = omega (arith, w.at_end, g.same_position)

    end_is : b'.size ≡ max b.size (b.position + length buf)
    end_is = omega (arith, w.longer, g.same_size, g.same_position)

    contents : concat (nodes b'.cursor) ≡ splice (concat (nodes b.cursor) ++ g.more) b.position buf
    contents = w.contents ∙ ap₂ (λ t u. splice t u buf) g.appended g.same_position

    bytes_are :
        stored b' ≡ take b.position (stored b) ++ (buf ++ drop (b.position + length buf) (stored b))
    bytes_are =
        ap₂ take end_is contents
        ∙ written_bytes (concat (nodes b.cursor)) g.more buf b.position b.size v.within
            (omega (arith, v.fits, length-contents b v))
            (omega (arith, g.room, length-contents c g.valid, ap length g.appended))

write_step :
    (b : ByteArray) (buf : List ℕ)
    → 0 < length buf
    → 0 < b.block_size
    → let c = add_capacity b (length buf) in write buf b ≡ write_at c buf c.cursor
unfolding write
write_step b buf h k =
    if-false _ _ (pos-ne-zero (length buf) h) ∙ if-false _ _ (pos-ne-zero b.block_size k)

-- On a well-formed array, a write of at least one byte returns and leaves the array well formed,
-- and on the view of the array as a file with a position it is an overwrite at the position: no
-- block boundary and no capacity is seen.
pub write_some :
    (b : ByteArray) (buf : List ℕ)
    → IsValid b
    → 0 < length buf
    → (b' : ByteArray) × (write buf b ≡ done tt b') × Wrote b buf b'
write_some b buf v some_byte =
    let g = add_capacity-Grown b (length buf) v in
    let c = add_capacity b (length buf) in
    let (b', run, w) =
      write_at-Copied c buf g.valid some_byte (omega (arith, g.room, g.same_position)) c.cursor
        refl in
    (b', write_step b buf some_byte v.positive ∙ run, Copied-Wrote b c b' buf v g w)
