-- ===== src/ByteArray/WriteLoop.antt =====
-- The loop of `ByteArray::write` on the chain read as one sequence of bytes.
use hpserver_fw.Prelude.{
  ℕ, ◌+◌, ◌-◌, ◌*◌, ◌≤◌, ◌<◌, ◌≡◌, refl, sym, ap, ◌∙◌, inl, inr, some, List, [], ◌∷◌, ◌++◌, arith,
  leb, Bool-cases, le→leb, gt→leb, leb→le, length, take, drop, append-nil, append_assoc,
  length-drop, All-append,
}
use hpserver_fw.ByteArray.Chain.{
  Node, Cursor, size_sub, size_sub_lem, splice, step_over, write_loop,
}
use hpserver_fw.ByteArray.Bytes.{
  Blocks, concat, concat-append, length-splice, splice-append_inside, splice-append_across,
}
use hpserver_fw.ByteArray.Walk.{Lands, Lands-same, step_over-Lands, length-append_same, one_more}

write_loop_fits :
    (bs pos npos : ℕ) (buf : List ℕ) (p : List Node) (n : Node) (rest : List Node)
    → length n ≡ bs
    → npos + length buf ≤ bs
    → write_loop pos npos buf p (n ∷ rest)
      ≡ some (pos + length buf, step_over p (splice n npos buf) rest (npos + length buf))
unfolding write_loop
write_loop_fits bs pos npos buf p n rest full h = rw (
  size_sub_lem (length n) npos (omega arith),
  le→leb (length buf) (length n - npos) (omega arith),
)

write_loop_goes_on :
    (bs pos npos c : ℕ) (buf : List ℕ) (p : List Node) (n : Node) (rest : List Node)
    → length n ≡ bs
    → npos + c ≡ bs
    → c < length buf
    → write_loop pos npos buf p (n ∷ rest)
      ≡ write_loop (pos + c) 0 (drop c buf) (p ++ (splice n npos (take c buf) ∷ [])) rest
unfolding write_loop
write_loop_goes_on bs pos npos c buf p n rest full e h =
    let ncap : size_sub (length n) npos ≡ c =
      size_sub_lem (length n) npos (omega arith) ∙ omega arith in
    rw (ncap, gt→leb (length buf) c h)

-- What the loop of `write` is to do at offset `npos` of the first block of `ahead`.
abbrev Writes : (bs pos npos : ℕ) (buf : List ℕ) (p ahead : List Node) → Type 0
Writes bs pos npos buf p ahead =
    (c : Cursor) × (write_loop pos npos buf p ahead ≡ some (pos + length buf, c))
    × Lands bs (p ++ ahead) (concat p ++ splice (concat ahead) npos buf)
        (length p * bs + npos + length buf) c

write_inside :
    (bs pos npos : ℕ) (buf : List ℕ) (p : List Node) (n : Node) (rest : List Node)
    → 0 < bs
    → Blocks bs p
    → Blocks bs (n ∷ rest)
    → npos + length buf ≤ bs
    → Writes bs pos npos buf p (n ∷ rest)
write_inside bs pos npos buf p n rest hb hp (full, hr) h = (
  _,
  write_loop_fits bs pos npos buf p n rest full h,
  Lands-same bs _ (p ++ (n' ∷ rest)) _ _ (length-append_same p (n' ∷ rest) (n ∷ rest) refl) bytes
      (omega arith)
      (step_over-Lands bs p n' rest (npos + length buf) hb hp (length-splice n npos buf ∙ full, hr)
        h),
)
  where
    n' : Node
    n' = splice n npos buf

    bytes : concat (p ++ (n' ∷ rest)) ≡ concat p ++ splice (concat (n ∷ rest)) npos buf
    bytes =
        concat-append p (n' ∷ rest)
        ∙ ap (◌++◌ (concat p))
            (unfold concat in sym (splice-append_inside n (concat rest) npos buf (omega arith)))

write_across :
    (bs pos npos c : ℕ) (buf : List ℕ) (p : List Node) (n : Node) (rest : List Node)
    → length n ≡ bs
    → npos + c ≡ bs
    → c < length buf
    → Writes bs (pos + c) 0 (drop c buf) (p ++ (splice n npos (take c buf) ∷ [])) rest
    → Writes bs pos npos buf p (n ∷ rest)
write_across bs pos npos c buf p n rest full e h (d, run, l) = (
  d,
  write_loop_goes_on bs pos npos c buf p n rest full e h
      ∙ run
      ∙ ap (λ t. some (t, d)) (omega (arith, left)),
  Lands-same bs _ ((p ++ (n' ∷ [])) ++ rest) _ d
      (ap length (append_assoc p (n' ∷ []) rest) ∙ length-append_same p (n' ∷ rest) (n ∷ rest) refl)
      bytes (omega (arith, left, one_more bs p n')) l,
)
  where
    n' : Node
    n' = splice n npos (take c buf)

    left : length (drop c buf) ≡ length buf - c
    left = length-drop c buf

    bytes :
        concat (p ++ (n' ∷ [])) ++ splice (concat rest) 0 (drop c buf)
        ≡ concat p ++ splice (concat (n ∷ rest)) npos buf
    bytes =
        ap (λ t. t ++ splice (concat rest) 0 (drop c buf)) (concat-append p (n' ∷ []))
        ∙ append_assoc (concat p) (concat (n' ∷ [])) _
        ∙ ap (◌++◌ (concat p)) (
            unfold concat in
            rw (append-nil n')
              (sym (splice-append_across n (concat rest) npos c buf (e ∙ sym full))))

-- With room in the chain, the loop of `write` puts the whole buffer at its place.
pub write_loop_lem :
    (bs pos npos : ℕ) (buf : List ℕ) (p ahead : List Node)
    → 0 < bs
    → Blocks bs p
    → Blocks bs ahead
    → npos ≤ bs
    → 0 < length buf
    → npos + length buf ≤ length ahead * bs
    → Writes bs pos npos buf p ahead
write_loop_lem bs pos npos buf p [] hb hp ha hn hl room = absurd (omega arith)
write_loop_lem bs pos npos buf p (n ∷ rest) hb hp (full, hr) hn hl room =
    elim (Bool-cases (leb (npos + length buf) bs)) [
      | inl fits ↦ write_inside bs pos npos buf p n rest hb hp (full, hr) (leb→le _ _ fits)
      | inr over ↦
          let c = bs - npos in
          let more : c < length buf = ground arith in
          write_across bs pos npos c buf p n rest full (omega arith) more (
            write_loop_lem bs (pos + c) 0 (drop c buf) (p ++ (splice n npos (take c buf) ∷ [])) rest
              hb (All-append _ p _ hp (length-splice n npos (take c buf) ∙ full, tt)) hr
              (omega arith) (omega (arith, length-drop c buf)) (omega (arith, length-drop c buf)))
    ]
