-- ===== src/ByteArray/ReadLoop.antt =====
-- The loop of `ByteArray::read` on the chain read as one sequence of bytes.
use hpserver_fw.Prelude.{
  ℕ, zero, suc, ◌+◌, ◌-◌, ◌*◌, ◌≤◌, ◌<◌, ◌≡◌, refl, sym, ap, ◌∙◌, inl, inr, some, List, [], ◌∷◌,
  ◌++◌, arith, leb, Bool-cases, le→leb, gt→leb, leb→le, length, take, drop, append_assoc,
  All-append, ap₂, take-append_within,
}
use hpserver_fw.ByteArray.Chain.{Node, Cursor, size_sub, size_sub_lem, step_over, read_loop}
use hpserver_fw.ByteArray.Bytes.{Blocks, concat}
use hpserver_fw.ByteArray.Walk.{Lands, Lands-same, step_over-Lands, one_more}

read_loop_fits :
    (bs pos npos size : ℕ) (buf : List ℕ) (p : List Node) (n : Node) (rest : List Node)
    → length n ≡ bs
    → npos + size ≤ bs
    → read_loop pos npos size buf p (n ∷ rest)
      ≡ some (buf ++ take size (drop npos n), pos + size, step_over p n rest (npos + size))
unfolding read_loop
read_loop_fits bs pos npos size buf p n rest full h =
    rw (size_sub_lem (length n) npos (omega arith), le→leb size (length n - npos) (omega arith))

read_loop_goes_on :
    (bs pos npos c size : ℕ) (buf : List ℕ) (p : List Node) (n : Node) (rest : List Node)
    → length n ≡ bs
    → npos + c ≡ bs
    → c < size
    → read_loop pos npos size buf p (n ∷ rest)
      ≡ read_loop (pos + c) 0 (size - c) (buf ++ take c (drop npos n)) (p ++ (n ∷ [])) rest
unfolding read_loop
read_loop_goes_on bs pos npos c size buf p n rest full e h =
    let ncap : size_sub (length n) npos ≡ c =
      size_sub_lem (length n) npos (omega arith) ∙ omega arith in
    rw (ncap, gt→leb size c h)

-- A range within the first of two pieces.
take-drop_inside :
    (n m : List ℕ) (k j : ℕ) → k + j ≤ length n → take j (drop k (n ++ m)) ≡ take j (drop k n)
take-drop_inside n m zero j h = take-append_within j n m (omega arith)
take-drop_inside [] m (suc k) j h = absurd (omega arith)
take-drop_inside (x ∷ n) m (suc k) j h = take-drop_inside n m k j (omega arith)

-- A range over the border of two pieces, of which `c` bytes lie in the first.
take-drop_across :
    (n m : List ℕ) (k c j i : ℕ)
    → k + c ≡ length n
    → j ≡ c + i
    → take j (drop k (n ++ m)) ≡ take c (drop k n) ++ take i m
take-drop_across [] m zero zero j i e h = ap (λ t. take t m) h ∙ ap (λ t. take t m) (omega arith)
take-drop_across [] m zero (suc c) j i e h = absurd (omega arith)
take-drop_across [] m (suc k) c j i e h = absurd (omega arith)
take-drop_across (x ∷ n) m zero zero j i e h = absurd (omega arith)
take-drop_across (x ∷ n) m zero (suc c) zero i e h = absurd (omega arith)
take-drop_across (x ∷ n) m zero (suc c) (suc j) i e h =
    ap (◌∷◌ x) (take-drop_across n m zero c j i (omega arith) (omega arith))
take-drop_across (x ∷ n) m (suc k) c j i e h = take-drop_across n m k c j i (omega arith) h

-- What the loop of `read` is to do at offset `npos` of the first block of `ahead`.
abbrev Reads : (bs pos npos size : ℕ) (buf : List ℕ) (p ahead : List Node) → Type 0
Reads bs pos npos size buf p ahead =
    (c : Cursor) × (read_loop pos npos size buf p ahead
      ≡ some (buf ++ take size (drop npos (concat ahead)), pos + size, c))
    × Lands bs (p ++ ahead) (concat (p ++ ahead)) (length p * bs + npos + size) c

read_inside :
    (bs pos npos size : ℕ) (buf : List ℕ) (p : List Node) (n : Node) (rest : List Node)
    → 0 < bs
    → Blocks bs p
    → Blocks bs (n ∷ rest)
    → npos + size ≤ bs
    → Reads bs pos npos size buf p (n ∷ rest)
read_inside bs pos npos size buf p n rest hb hp (full, hr) h = (
  _,
  read_loop_fits bs pos npos size buf p n rest full h
      ∙ ap (λ t. some (buf ++ t, pos + size, step_over p n rest (npos + size))) bytes,
  Lands-same bs _ (p ++ (n ∷ rest)) _ _ refl refl (omega arith)
      (step_over-Lands bs p n rest (npos + size) hb hp (full, hr) h),
)
  where
    bytes : take size (drop npos n) ≡ take size (drop npos (concat (n ∷ rest)))
    bytes = unfold concat in sym (take-drop_inside n (concat rest) npos size (omega arith))

read_across :
    (bs pos npos c size : ℕ) (buf : List ℕ) (p : List Node) (n : Node) (rest : List Node)
    → length n ≡ bs
    → npos + c ≡ bs
    → c < size
    → Reads bs (pos + c) 0 (size - c) (buf ++ take c (drop npos n)) (p ++ (n ∷ [])) rest
    → Reads bs pos npos size buf p (n ∷ rest)
read_across bs pos npos c size buf p n rest full e h (d, run, l) = (
  d,
  read_loop_goes_on bs pos npos c size buf p n rest full e h
      ∙ run
      ∙ ap₂ (λ t u. some (t, u, d)) bytes (omega arith),
  Lands-same bs _ ((p ++ (n ∷ [])) ++ rest) _ d (ap length chain) (ap concat chain)
      (omega (arith, one_more bs p n)) l,
)
  where
    chain : (p ++ (n ∷ [])) ++ rest ≡ p ++ (n ∷ rest)
    chain = append_assoc p (n ∷ []) rest

    bytes :
        (buf ++ take c (drop npos n)) ++ take (size - c) (concat rest)
        ≡ buf ++ take size (drop npos (concat (n ∷ rest)))
    bytes =
        append_assoc buf _ _
        ∙ ap (◌++◌ buf) (
            unfold concat in
            sym (
              take-drop_across n (concat rest) npos c size (size - c) (e ∙ sym full) (omega arith)))

-- With enough bytes in the chain, the loop of `read` copies the range and changes no byte.
pub read_loop_lem :
    (bs pos npos size : ℕ) (buf : List ℕ) (p ahead : List Node)
    → 0 < bs
    → Blocks bs p
    → Blocks bs ahead
    → npos ≤ bs
    → 0 < size
    → npos + size ≤ length ahead * bs
    → Reads bs pos npos size buf p ahead
read_loop_lem bs pos npos size buf p [] hb hp ha hn hl room = absurd (omega arith)
read_loop_lem bs pos npos size buf p (n ∷ rest) hb hp (full, hr) hn hl room =
    elim (Bool-cases (leb (npos + size) bs)) [
      | inl fits ↦ read_inside bs pos npos size buf p n rest hb hp (full, hr) (leb→le _ _ fits)
      | inr over ↦
          let c = bs - npos in
          read_across bs pos npos c size buf p n rest full (omega arith) (ground arith) (
            read_loop_lem bs (pos + c) 0 (size - c) (buf ++ take c (drop npos n)) (p ++ (n ∷ []))
              rest hb (All-append _ p _ hp (full, tt)) hr (omega arith) (ground arith)
              (ground arith))
    ]
