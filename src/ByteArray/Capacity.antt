-- ===== src/ByteArray/Capacity.antt =====
-- `ByteArray::addCapacity`: the room is made, and nothing else that a caller sees changes.
use hpserver_fw.Prelude.{
  ℕ, zero, suc, ◌+◌, ◌-◌, ◌*◌, ◌≤◌, ◌<◌, ◌≡◌, refl, sym, ap, subst, ◌∙◌, inl, inr, false, List, [],
  ◌∷◌, ◌++◌, arith, leb, ◌==◌, ==_iff, leb→le, Bool-cases, length, append-nil, append_assoc,
  length-append, All-append,
}
use hpserver_fw.ByteArray.Chain.{
  Node, Cursor, null, at, cursor_at, nodes, passed, extend, size_sub_lem,
}
use hpserver_fw.ByteArray.Bytes.{Blocks, concat, concat-append}
use hpserver_fw.ByteArray.Walk.{Points, nodes-cursor_at, passed-cursor_at}
use hpserver_fw.ByteArray.Store.{
  ByteArray, new_nodes, ceil_div, get_capacity, add_capacity, grown_cursor, grow,
}
use hpserver_fw.ByteArray.Invariant.{IsValid, length-new_bytes}
use native.Mathlib.Nat.{div-add-mod', mod-lt}

-- The blocks asked for hold at least the bytes asked for.
pub ceil_div_covers : (n d : ℕ) → 0 < d → n ≤ ceil_div n d * d
unfolding ceil_div
ceil_div_covers n d h = omega (arith, div-add-mod' (n + d - 1) d, mod-lt (n + d - 1) {m = d} h)

pub new_nodes-Blocks : (k bs : ℕ) (f : ℕ → ℕ) → Blocks bs (new_nodes k bs f)
unfolding new_nodes
new_nodes-Blocks zero bs f = tt
new_nodes-Blocks (suc k) bs f = (length-new_bytes f 0 bs, new_nodes-Blocks k bs f)

pub length-new_nodes : (k bs : ℕ) (f : ℕ → ℕ) → length (new_nodes k bs f) ≡ k
unfolding new_nodes
length-new_nodes zero bs f = refl
length-new_nodes (suc k) bs f = ap suc (length-new_nodes k bs f)

nodes-extend : (c : Cursor) (more : List Node) → nodes (extend c more) ≡ nodes c ++ more
unfolding nodes extend
nodes-extend (null ns) more = refl
nodes-extend (at p n r) more = sym (append_assoc p (n ∷ r) more)

ne_zero : (n : ℕ) → n == 0 ≡ false → 0 < n
ne_zero n h = ground arith

-- Before the end of the chain m_cur is a block, and it stays.
passed-extend :
    (bs q : ℕ) (c : Cursor) (more : List Node)
    → q < length (nodes c) * bs
    → Points bs c q
    → Points bs (extend c more) q
unfolding nodes passed extend
passed-extend bs q (null ns) more h pts = absurd (omega (arith, pts.below))
passed-extend bs q (at p n r) more h pts = record { below = pts.below; above = pts.above }

-- At the end of the chain m_cur goes to the first new block.
Points-end :
    (bs q k : ℕ) (ns more : List Node)
    → 0 < bs
    → q ≡ length ns * bs
    → Points bs (cursor_at ns more) q
unfolding passed cursor_at
Points-end bs q k ns more hb e = record {
  below = rw (passed-cursor_at ns more) (omega arith);
  above = rw (passed-cursor_at ns more) (omega arith);
}

-- What `add_capacity b n` gives.
pub record Grown (b : ByteArray) (n : ℕ) (b' : ByteArray) : Type 0 where
  pub valid : IsValid b'
  pub room : b.position + n ≤ b'.capacity
  pub same_block_size : b'.block_size ≡ b.block_size
  pub same_position : b'.position ≡ b.position
  pub same_size : b'.size ≡ b.size
  pub same_endian : b'.endian ≡ b.endian
  pub same_fresh : b'.fresh ≡ b.fresh
  pub more : List ℕ
  pub appended : concat (nodes b'.cursor) ≡ concat (nodes b.cursor) ++ more

nodes-grown_cursor :
    (b : ByteArray) (last : ℕ) (more : List Node)
    → nodes (grown_cursor b last more) ≡ nodes b.cursor ++ more
unfolding grown_cursor
nodes-grown_cursor b last more = elim (Bool-cases (last == 0)) [
  | inl e ↦ rw e (nodes-cursor_at (nodes b.cursor) more)
  | inr e ↦ rw e (nodes-extend b.cursor more)
]

grown_cursor-Points :
    (b : ByteArray) (last : ℕ) (more : List Node)
    → IsValid b
    → b.position + last ≡ b.capacity
    → Points b.block_size (grown_cursor b last more) b.position
unfolding grown_cursor
grown_cursor-Points b last more v e = elim (Bool-cases (last == 0)) [
  | inl z ↦ rw z (
      Points-end b.block_size b.position last (nodes b.cursor) more v.positive
        (omega (arith, (==_iff _ _).0 z, v.counted)))
  | inr z ↦ rw z (
      passed-extend b.block_size b.position b.cursor more (omega (arith, v.counted, ne_zero last z))
        v.points)
]

grow-Grown :
    (b : ByteArray) (n last cnt : ℕ)
    → IsValid b
    → b.position + last ≡ b.capacity
    → n - last ≤ cnt * b.block_size
    → Grown b n (grow b last cnt)
unfolding grow
grow-Grown b n last cnt v e h = record {
  valid = record {
    positive = v.positive;
    blocks =
        subst (Blocks b.block_size) (sym chain)
          (All-append _ (nodes b.cursor) new v.blocks (new_nodes-Blocks cnt b.block_size b.fresh));
    rooted = omega (arith, many, v.rooted);
    counted = omega (arith, ap (λ (t : ℕ). t * b.block_size) many, v.counted);
    within = v.within;
    fits = omega (arith, v.fits);
    points = grown_cursor-Points b last new v e;
  };
  room = omega arith;
  same_block_size = refl;
  same_position = refl;
  same_size = refl;
  same_endian = refl;
  same_fresh = refl;
  more = concat (new_nodes cnt b.block_size b.fresh);
  appended = ap concat chain ∙ concat-append (nodes b.cursor) new;
}
  where
    new : List Node
    new = new_nodes cnt b.block_size b.fresh

    chain : nodes (grown_cursor b last new) ≡ nodes b.cursor ++ new
    chain = nodes-grown_cursor b last new

    many : length (nodes (grown_cursor b last new)) ≡ length (nodes b.cursor) + cnt
    many =
        ap length chain
        ∙ length-append (nodes b.cursor) new
        ∙ ap (◌+◌ (length (nodes b.cursor))) (length-new_nodes cnt b.block_size b.fresh)

Grown-same : (b : ByteArray) (n : ℕ) → IsValid b → b.position + n ≤ b.capacity → Grown b n b
Grown-same b n v h = record {
  valid = v;
  room = h;
  same_block_size = refl;
  same_position = refl;
  same_size = refl;
  same_endian = refl;
  same_fresh = refl;
  more = [];
  appended = sym (append-nil (concat (nodes b.cursor)));
}

-- On a well-formed array, addCapacity makes room for n bytes at the position and keeps the array
-- well formed; position, size, block size and byte order are as before, and the bytes of the chain
-- are the old ones with more behind them.
pub add_capacity-Grown : (b : ByteArray) (n : ℕ) → IsValid b → Grown b n (add_capacity b n)
unfolding add_capacity
add_capacity-Grown b n v = elim (Bool-cases (n == 0)) [
  | inl z ↦ rw z (Grown-same b n v (omega (arith, (==_iff _ _).0 z, v.within, v.fits)))
  | inr z ↦
      rw (z, last_is)
        (elim (Bool-cases (leb n last)) [
          | inl enough ↦
              rw enough (Grown-same b n v (omega (arith, leb→le _ _ enough, v.within, v.fits)))
          | inr short ↦ rw short (
              grow-Grown b n last (ceil_div (n - last) b.block_size) v
                (omega (arith, v.within, v.fits))
                (ceil_div_covers (n - last) b.block_size v.positive))
        ])
]
  where
    last : ℕ
    last = b.capacity - b.position

    last_is : get_capacity b ≡ b.capacity - b.position
    last_is =
        unfold get_capacity in size_sub_lem b.capacity b.position (omega (arith, v.within, v.fits))
