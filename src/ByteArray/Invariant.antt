-- ===== src/ByteArray/Invariant.antt =====
-- When a ByteArray is well formed, and the bytes that it stands for.
use hpserver_fw.Prelude.{
  ℕ, zero, suc, ◌+◌, ◌-◌, ◌*◌, ◌%◌, ◌≤◌, ◌<◌, ◌≡◌, refl, sym, ap, subst, ◌∙◌, ◌⊎◌, inl, inr, List,
  ◌∷◌, ◌++◌, arith, length, take, length-append, length-take, All-append_left, All-append_right,
}
use hpserver_fw.ByteArray.Chain.{Node, Cursor, null, at, nodes, passed}
use hpserver_fw.ByteArray.Bytes.{Blocks, concat, length-concat}
use hpserver_fw.ByteArray.Walk.{Points}
use hpserver_fw.ByteArray.Store.{ByteArray, new_bytes, byte_array}
use native.Mathlib.Nat.{add-mul-mod_self_right, mod-eq_of_lt}

-- The blocks have the block size and make up the capacity, the position is within the data, the
-- data within the capacity, and m_cur is the block of the position: null when it is at the end.
pub record IsValid (b : ByteArray) : Type 0 where
  pub positive : 0 < b.block_size
  pub blocks : Blocks b.block_size (nodes b.cursor)
  pub rooted : 0 < length (nodes b.cursor)
  pub counted : b.capacity ≡ length (nodes b.cursor) * b.block_size
  pub within : b.position ≤ b.size
  pub fits : b.size ≤ b.capacity
  pub points : Points b.block_size b.cursor b.position

-- The data: the first m_size bytes of the chain.
unfoldable pub stored : ByteArray → List ℕ
unfolding concat nodes
stored b = take b.size (concat (nodes b.cursor))

pub length-contents : (b : ByteArray) → IsValid b → length (concat (nodes b.cursor)) ≡ b.capacity
length-contents b v = length-concat b.block_size (nodes b.cursor) v.blocks ∙ sym v.counted

pub length-stored : (b : ByteArray) → IsValid b → length (stored b) ≡ b.size
unfolding stored
length-stored b v =
    omega (arith, length-take b.size (concat (nodes b.cursor)), length-contents b v, v.fits)

-- Where m_cur is a block, the position is `offset` bytes into it, and what is ahead is the rest.
pub record At (b : ByteArray) (p : List Node) (n : Node) (r : List Node) : Type 0 where
  pub offset : ℕ
  pub is_offset : b.position % b.block_size ≡ offset
  pub in_block : offset < b.block_size
  pub is_position : b.position ≡ length p * b.block_size + offset
  pub chain : nodes b.cursor ≡ p ++ (n ∷ r)
  pub blocks_passed : Blocks b.block_size p
  pub blocks_ahead : Blocks b.block_size (n ∷ r)
  pub bytes_passed : length (concat p) ≡ length p * b.block_size
  pub to_end : b.capacity ≡ length p * b.block_size + length (n ∷ r) * b.block_size

mod_offset : (pos k bs o : ℕ) → pos ≡ k * bs + o → o < bs → pos % bs ≡ o
mod_offset pos k bs o e h =
    ap (λ t. t % bs) (e ∙ omega arith) ∙ add-mul-mod_self_right o k bs ∙ mod-eq_of_lt h

pub Cursor-cases :
    (c : Cursor)
    → ((ns : List Node) × (c ≡ null ns))
      ⊎ ((p : List Node) × (n : Node) × (r : List Node) × (c ≡ at p n r))
Cursor-cases (null ns) = inl (ns, refl)
Cursor-cases (at p n r) = inr (p, n, r, refl)

-- A null m_cur means that the position is the end of the chain.
pub null_at_end :
    (b : ByteArray) (ns : List Node) → b.cursor ≡ null ns → IsValid b → b.capacity ≤ b.position
unfolding nodes passed
null_at_end b ns e v = omega (
  arith,
  v.counted,
  v.points.below,
  ap (λ c. length (nodes c) * b.block_size) e,
  ap (λ c. length (passed c) * b.block_size) e,
)

pub at-At :
    (b : ByteArray) (p : List Node) (n : Node) (r : List Node)
    → b.cursor ≡ at p n r
    → IsValid b
    → At b p n r
unfolding nodes passed
at-At b p n r e v = record {
  offset = b.position - length p * b.block_size;
  is_offset =
      mod_offset b.position (length p) b.block_size _ (omega (arith, gone)) (omega (arith, gone));
  in_block = omega (arith, gone);
  is_position = omega (arith, gone);
  chain = whole;
  blocks_passed = before;
  blocks_ahead = All-append_right _ p (n ∷ r) (subst (Blocks b.block_size) whole v.blocks);
  bytes_passed = length-concat b.block_size p before;
  to_end =
      v.counted
      ∙ ap (λ t. t * b.block_size) (ap (λ c. length (nodes c)) e ∙ length-append p (n ∷ r))
      ∙ omega arith;
}
  where
    gone : length (passed b.cursor) * b.block_size ≡ length p * b.block_size
    gone = ap (λ c. length (passed c) * b.block_size) e

    whole : nodes b.cursor ≡ p ++ (n ∷ r)
    whole = ap nodes e

    before : Blocks b.block_size p
    before = All-append_left _ p (n ∷ r) (subst (Blocks b.block_size) whole v.blocks)

pub length-new_bytes : (f : ℕ → ℕ) (i n : ℕ) → length (new_bytes f i n) ≡ n
unfolding new_bytes
length-new_bytes f i zero = refl
length-new_bytes f i (suc n) = ap suc (length-new_bytes f (suc i) n)

-- A new array is well formed.
pub byte_array-IsValid : (bs : ℕ) (fresh : ℕ → ℕ) → 0 < bs → IsValid (byte_array bs fresh)
unfolding byte_array nodes passed
byte_array-IsValid bs fresh h = record {
  positive = h;
  blocks = (length-new_bytes fresh 0 bs, tt);
  rooted = omega arith;
  counted = omega arith;
  within = omega arith;
  fits = omega arith;
  points = record { below = omega arith; above = omega arith };
}
