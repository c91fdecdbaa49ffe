-- ===== src/ByteArray/SeekLoop.antt =====
-- The loop of `ByteArray::setPosition`.
use hpserver_fw.Prelude.{
  ℕ, suc, ◌+◌, ◌-◌, ◌*◌, ◌≤◌, ◌<◌, ◌≡◌, ap, ◌∙◌, inl, inr, some, List, [], ◌∷◌, ◌++◌, arith, ltb,
  Bool-cases, ltb→lt, lt→ltb, ge→ltb, length, append_assoc, All-append,
}
use hpserver_fw.ByteArray.Chain.{Node, Cursor, seek_loop}
use hpserver_fw.ByteArray.Bytes.{Blocks, concat}
use hpserver_fw.ByteArray.Walk.{Lands, Lands-same, step_over-Lands, one_more}

-- What the loop is to do: the chain is unchanged and m_cur is at the byte `val` of `ahead`.
abbrev Seeks : (bs val : ℕ) (p ahead : List Node) → Type 0
Seeks bs val p ahead =
    (c : Cursor) × (seek_loop val p ahead ≡ some c)
    × Lands bs (p ++ ahead) (concat (p ++ ahead)) (length p * bs + val) c

seek_behind :
    (bs val w : ℕ) (p : List Node) (n : Node) (rest : List Node)
    → w + bs ≡ val
    → bs < val
    → length n ≡ bs
    → Seeks bs w (p ++ (n ∷ [])) rest
    → Seeks bs val p (n ∷ rest)
unfolding seek_loop
seek_behind bs val w p n rest e h full (c, run, l) = (
  c,
  rw (lt→ltb (length n) val (omega arith))
      (ap (λ t. seek_loop t (p ++ (n ∷ [])) rest) (omega arith) ∙ run),
  Lands-same bs _ ((p ++ (n ∷ [])) ++ rest) _ c (ap length (append_assoc p (n ∷ []) rest))
      (ap concat (append_assoc p (n ∷ []) rest)) (omega (arith, one_more bs p n)) l,
)

seek_here :
    (bs val : ℕ) (p : List Node) (n : Node) (rest : List Node)
    → 0 < bs
    → Blocks bs p
    → Blocks bs (n ∷ rest)
    → val ≤ bs
    → Seeks bs val p (n ∷ rest)
unfolding seek_loop
seek_here bs val p n rest hb hp (full, hr) h = (
  _,
  rw (ge→ltb (length n) val (omega arith)),
  step_over-Lands bs p n rest val hb hp (full, hr) h,
)

more_blocks :
    (bs val : ℕ) (rest : List Node) → bs < val → val ≤ suc (length rest) * bs → 0 < length rest
more_blocks bs val [] h k = absurd (omega arith)
more_blocks bs val (m ∷ rest) h k = omega arith

pub seek_loop_lem :
    (bs val : ℕ) (p ahead : List Node)
    → 0 < bs
    → Blocks bs p
    → Blocks bs ahead
    → 0 < length ahead
    → val ≤ length ahead * bs
    → Seeks bs val p ahead
seek_loop_lem bs val p [] hb hp ha some_block h = absurd (omega arith)
seek_loop_lem bs val p (n ∷ rest) hb hp (full, hr) some_block h = elim (Bool-cases (ltb bs val)) [
  | inl more ↦
      let far : bs < val = ltb→lt _ _ more in
      seek_behind bs val (val - bs) p n rest (omega arith) far full (
        seek_loop_lem bs (val - bs) (p ++ (n ∷ [])) rest hb (All-append _ p _ hp (full, tt)) hr
          (more_blocks bs val rest far h) (omega arith))
  | inr last ↦ seek_here bs val p n rest hb hp (full, hr) (ground arith)
]
