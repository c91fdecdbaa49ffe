-- ===== src/ByteArray/Walk.antt =====
-- m_cur and the chain while a loop walks over the blocks.
use hpserver_fw.Prelude.{
  ℕ, ◌+◌, ◌*◌, ◌≤◌, ◌<◌, ◌≡◌, refl, sym, ap, ◌∙◌, inl, inr, List, [], ◌∷◌, ◌++◌, arith, ◌==◌,
  Bool-cases, ==_iff, length, append-nil, append_assoc, length-append, All-append,
}
use hpserver_fw.ByteArray.Chain.{Node, Cursor, cursor_at, passed, nodes, step_over}
use hpserver_fw.ByteArray.Bytes.{Blocks, concat}

pub nodes-cursor_at : (p r : List Node) → nodes (cursor_at p r) ≡ p ++ r
unfolding nodes cursor_at
nodes-cursor_at p [] = sym (append-nil p)
nodes-cursor_at p (n ∷ r) = refl

pub passed-cursor_at : (p r : List Node) → passed (cursor_at p r) ≡ p
unfolding passed cursor_at
passed-cursor_at p [] = refl
passed-cursor_at p (n ∷ r) = refl

-- m_cur is the block of the byte at `q`.
pub record Points (bs : ℕ) (c : Cursor) (q : ℕ) : Type 0 where
  pub below : length (passed c) * bs ≤ q
  pub above : q < length (passed c) * bs + bs

pub Points-cursor_at :
    (bs q : ℕ) (p r : List Node)
    → length p * bs ≤ q
    → q < length p * bs + bs
    → Points bs (cursor_at p r) q
Points-cursor_at bs q p r lo hi = record {
  below = rw (passed-cursor_at p r) lo;
  above = rw (passed-cursor_at p r) hi;
}

pub length-snoc {ℓ} : {A : Type ℓ} (p : List A) (n : A) → length (p ++ (n ∷ [])) ≡ length p + 1
length-snoc p n = omega (arith, length-append p (n ∷ []))

-- `k` blocks of `bs` bytes and one more.
pub one_more {ℓ} :
    {A : Type ℓ} (bs : ℕ) (p : List A) (n : A) → length (p ++ (n ∷ [])) * bs ≡ length p * bs + bs
one_more bs p n = omega (arith, ap (λ (t : ℕ). t * bs) (length-snoc p n))

-- The chain and m_cur after a step within, or to the end of, the block `n`.
pub step_over_lem :
    (bs : ℕ) (p : List Node) (n : Node) (rest : List Node) (end : ℕ)
    → 0 < bs
    → length n ≡ bs
    → end ≤ bs
    → (nodes (step_over p n rest end) ≡ p ++ (n ∷ rest))
      × Points bs (step_over p n rest end) (length p * bs + end)
unfolding step_over
step_over_lem bs p n rest end pos full h = elim (Bool-cases (length n == end)) [
  | inl e ↦ rw e (
    rw nodes-cursor_at (append_assoc p (n ∷ []) rest),
    Points-cursor_at bs _ (p ++ (n ∷ [])) rest (omega (arith, one_more bs p n, (==_iff _ _).0 e))
        (omega (arith, one_more bs p n, (==_iff _ _).0 e)),
  )
  | inr e ↦ rw e (
    nodes-cursor_at p (n ∷ rest),
    Points-cursor_at bs _ p (n ∷ rest) (omega arith) (ground arith),
  )
]

-- The state after a loop: the bytes of the chain, its blocks, and m_cur at the byte `q`.
pub record Lands (bs : ℕ) (ns : List Node) (bytes : List ℕ) (q : ℕ) (c : Cursor) : Type 0 where
  pub bytes_are : concat (nodes c) ≡ bytes
  pub blocks : Blocks bs (nodes c)
  pub as_many : length (nodes c) ≡ length ns
  pub points : Points bs c q

-- A change of the chain in place keeps its shape.
pub Lands-same :
    (bs : ℕ) (ns ms : List Node) {bytes : List ℕ} {bytes' : List ℕ} {q : ℕ} (q' : ℕ) (c : Cursor)
    → length ms ≡ length ns
    → bytes ≡ bytes'
    → q ≡ q'
    → Lands bs ms bytes q c
    → Lands bs ns bytes' q' c
Lands-same bs ns ms q' c many same there l = record {
  bytes_are = l.bytes_are ∙ same;
  blocks = l.blocks;
  as_many = l.as_many ∙ many;
  points = record { below = omega (arith, l.points.below); above = omega (arith, l.points.above) };
}

pub step_over-Lands :
    (bs : ℕ) (p : List Node) (n : Node) (rest : List Node) (end : ℕ)
    → 0 < bs
    → Blocks bs p
    → Blocks bs (n ∷ rest)
    → end ≤ bs
    → Lands bs
        (p ++ (n ∷ rest))
        (concat (p ++ (n ∷ rest)))
        (length p * bs + end)
        (step_over p n rest end)
step_over-Lands bs p n rest end hb hp (full, hr) h =
    let s = step_over_lem bs p n rest end hb full h in
    record {
      bytes_are = ap concat s.0;
      blocks = rw s.0 (All-append _ p (n ∷ rest) hp (full, hr));
      as_many = ap length s.0;
      points = s.1;
    }

pub length-append_same {ℓ} :
    {A : Type ℓ} (xs ys zs : List A) → length ys ≡ length zs → length (xs ++ ys) ≡ length (xs ++ zs)
length-append_same xs ys zs e = omega (arith, length-append xs ys, length-append xs zs)
