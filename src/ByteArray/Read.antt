-- ===== src/ByteArray/Read.antt =====
-- `ByteArray::read` on a well-formed array, on every branch.
use hpserver_fw.Prelude.{
  ℕ, ◌+◌, ◌-◌, ◌*◌, ◌≤◌, ◌<◌, ◌≡◌, refl, sym, ap, ◌∙◌, true, false, List, [], ◌∷◌, ◌++◌, arith,
  ◌==◌, lt→ltb, ge→ltb, length, take, drop, length-append, if-false, if-true, pos-ne-zero,
  take-drop-take, drop-append_behind, inl, inr, ==_iff, Bool-cases, drop_all, take_all, length-drop,
}
use hpserver_fw.ByteArray.Chain.{Node, Cursor, null, at, nodes, size_sub_lem}
use hpserver_fw.ByteArray.Bytes.{concat, concat-append}
use hpserver_fw.ByteArray.Walk.{Lands}
use hpserver_fw.ByteArray.ReadLoop.{read_loop_lem}
use hpserver_fw.ByteArray.Store.{
  ByteArray, done, throws, fault, get_read_size, read, read_at, finish_read, peek, peek_at,
  finish_peek, to_string,
}
use hpserver_fw.ByteArray.Invariant.{IsValid, stored, length-stored, At, at-At, null_at_end}
use hpserver_fw.ByteArray.Spec.{view, window, moved_to}

-- The array after a read: only the position has changed.
pub record Moved (b : ByteArray) (p : ℕ) (b' : ByteArray) : Type 0 where
  pub valid : IsValid b'
  pub refines : view b' ≡ moved_to p (view b)
  pub same_endian : b'.endian ≡ b.endian
  pub same_capacity : b'.capacity ≡ b.capacity

read_size_is : (b : ByteArray) → IsValid b → get_read_size b ≡ b.size - b.position
unfolding get_read_size
read_size_is b v = size_sub_lem b.size b.position v.within

module _ (b : ByteArray) (n : ℕ) (v : IsValid b) (some_byte : 0 < n)
    (enough : b.position + n ≤ b.size) where
  moved :
      (p : List Node) (m : Node) (r : List Node)
      → b.cursor ≡ at p m r
      → (c : Cursor) → (a : At b p m r)
      → Lands b.block_size
          (p ++ (m ∷ r))
          (concat (p ++ (m ∷ r)))
          (length p * b.block_size + a.offset + n)
          c
      → Moved b (b.position + n) (record b { position = b.position + n; cursor = c })
  unfolding stored
  moved p m r e c a l = record {
    valid = record {
      positive = v.positive;
      blocks = l.blocks;
      rooted = omega (arith, l.as_many, length-append p (m ∷ r));
      counted = v.counted ∙ ap (λ t. t * b.block_size) (ap length a.chain ∙ sym l.as_many);
      within = enough;
      fits = v.fits;
      points = record {
        below = omega (arith, l.points.below, a.is_position);
        above = omega (arith, l.points.above, a.is_position);
      };
    };
    refines = λ i. record {
      bytes = take b.size ((l.bytes_are ∙ sym (ap concat a.chain)) i);
      position = b.position + n;
    };
    same_endian = refl;
    same_capacity = refl;
  }

  -- The window of the data is the window of the chain from the offset on.
  window_is :
      (p : List Node) (m : Node) (r : List Node)
      → (a : At b p m r) → take n (drop a.offset (concat (m ∷ r))) ≡ window n (view b)
  unfolding stored
  window_is p m r a = sym (
      take-drop-take n b.position b.size (concat (nodes b.cursor)) enough
      ∙ ap (λ t. take n (drop b.position t)) (ap concat a.chain ∙ concat-append p (m ∷ r))
      ∙ ap (take n) (
          drop-append_behind b.position a.offset (concat p) (concat (m ∷ r))
            (omega (arith, a.is_position, a.bytes_passed))))

  read_at-Moved :
      (c : Cursor)
      → b.cursor ≡ c
      → (b' : ByteArray) × (read_at b n c ≡ done (window n (view b)) b')
        × Moved b (b.position + n) b'
  unfolding read_at finish_read
  read_at-Moved (null ns) e = absurd (omega (arith, null_at_end b ns e v, v.fits))
  read_at-Moved (at p m r) e =
      let a = at-At b p m r e v in
      let (c', run, l) =
        read_loop_lem b.block_size b.position a.offset n [] p (m ∷ r) v.positive a.blocks_passed
          a.blocks_ahead (omega (arith, a.in_block)) some_byte
          (omega (arith, a.to_end, a.is_position, v.fits)) in
      (
        record b { position = b.position + n; cursor = c' },
        if-false _ _ (pos-ne-zero n some_byte)
            ∙ rw a.is_offset (
                rw run (
                  ap (λ t. done t (record b { position = b.position + n; cursor = c' }))
                    (window_is p m r a))),
        moved p m r e c' a l,
      )

  peek_at-window :
      (c : Cursor) → b.cursor ≡ c → peek_at b n b.position c ≡ done (window n (view b)) b
  unfolding peek_at finish_peek
  peek_at-window (null ns) e = absurd (omega (arith, null_at_end b ns e v, v.fits))
  peek_at-window (at p m r) e =
      let a = at-At b p m r e v in
      let (c', run, l) =
        read_loop_lem b.block_size b.position a.offset n [] p (m ∷ r) v.positive a.blocks_passed
          a.blocks_ahead (omega (arith, a.in_block)) some_byte
          (omega (arith, a.to_end, a.is_position, v.fits)) in
      if-false _ _ (pos-ne-zero n some_byte)
      ∙ rw a.is_offset (rw run (ap (λ t. done t b) (window_is p m r a)))

  -- On a well-formed array, the const read, at the position of the array, of at least one byte and
  -- no more than are left returns what the other read returns, and leaves the array as it was.
  pub peek_some : peek n b.position b ≡ done (window n (view b)) b
  unfolding peek
  peek_some =
      if-false _ _ (ge→ltb (get_read_size b) n (omega (arith, read_size_is b v)))
      ∙ if-false _ _ (pos-ne-zero b.block_size v.positive)
      ∙ peek_at-window b.cursor refl

  -- On a well-formed array, a read of at least one byte and no more than are left returns the bytes
  -- from the position on, across block boundaries, and moves the position behind them; the array
  -- stays well formed, with its data, byte order and capacity.
  pub read_some :
      (b' : ByteArray) × (read n b ≡ done (window n (view b)) b') × Moved b (b.position + n) b'
  unfolding read
  read_some =
      let (b', run, m) = read_at-Moved b.cursor refl in
      (
        b',
        if-false _ _ (ge→ltb (get_read_size b) n (omega (arith, read_size_is b v)))
            ∙ if-false _ _ (pos-ne-zero b.block_size v.positive)
            ∙ run,
        m,
      )

-- A read of nothing, where m_cur is a block, does nothing.
pub read_none : (b : ByteArray) → IsValid b → b.position < b.capacity → read 0 b ≡ done [] b
unfolding read
read_none b v h =
    if-false _ _ (ge→ltb (get_read_size b) 0 (omega arith))
    ∙ if-false _ _ (pos-ne-zero b.block_size v.positive)
    ∙ at_block b.cursor refl
  where
    at_block : (c : Cursor) → b.cursor ≡ c → read_at b 0 c ≡ done [] b
    at_block (null ns) e = absurd (omega (arith, null_at_end b ns e v))
    at_block (at p m r) e = refl

-- A read of nothing at the end of the capacity, where m_cur is null, follows the null pointer.
pub read_none_fault : (b : ByteArray) → IsValid b → b.position ≡ b.capacity → read 0 b ≡ fault
unfolding read
read_none_fault b v h =
    if-false _ _ (ge→ltb (get_read_size b) 0 (omega arith))
    ∙ if-false _ _ (pos-ne-zero b.block_size v.positive)
    ∙ at_end b.cursor refl
  where
    at_end : (c : Cursor) → b.cursor ≡ c → read_at b 0 c ≡ fault
    at_end (null ns) e = refl
    at_end (at p m r) e =
        let a = at-At b p m r e v in absurd (omega (arith, a.to_end, a.is_position, a.in_block))

to_string_empty : (b : ByteArray) → get_read_size b == 0 ≡ true → to_string b ≡ done [] b
unfolding to_string
to_string_empty b z = if-true _ _ z

to_string_some :
    (b : ByteArray)
    → get_read_size b == 0 ≡ false
    → to_string b ≡ peek (get_read_size b) b.position b
unfolding to_string
to_string_some b z = if-false _ _ z

-- On a well-formed array, toString returns all the data from the position on, and leaves the array
-- as it was.
pub to_string-window :
    (b : ByteArray) → IsValid b → to_string b ≡ done (drop b.position (stored b)) b
to_string-window b v = elim (Bool-cases (get_read_size b == 0)) [
  | inl z ↦
      to_string_empty b z
      ∙ ap (λ t. done t b)
          (sym (drop_all b.position (stored b) (omega (arith, nothing z, length-stored b v))))
  | inr z ↦
      to_string_some b z
      ∙ ap (λ t. peek t b.position b) (read_size_is b v)
      ∙ peek_some b rest v (something z) (omega (arith, v.within))
      ∙ ap (λ t. done t b)
          (take_all rest (drop b.position (stored b))
            (omega (arith, length-drop b.position (stored b), length-stored b v)))
]
  where
    rest : ℕ
    rest = b.size - b.position

    nothing : get_read_size b == 0 ≡ true → b.size - b.position ≡ 0
    nothing z = sym (read_size_is b v) ∙ (==_iff _ _).0 z

    something : get_read_size b == 0 ≡ false → 0 < b.size - b.position
    something z = ground (arith, read_size_is b v)

-- On a well-formed array, a read of more bytes than are left throws, and leaves the array as it
-- was.
pub read_too_much :
    (b : ByteArray) (n : ℕ) → IsValid b → b.size < b.position + n → read n b ≡ throws b
unfolding read
read_too_much b n v h = if-true _ _ (lt→ltb (get_read_size b) n (omega (arith, read_size_is b v)))
