-- ===== src/ByteArray/Bytes.antt =====
-- The chain read as one sequence of bytes, and what a copy into it does.
use hpserver_fw.Prelude.{
  ℕ, zero, suc, ◌+◌, ◌*◌, ◌≤◌, ◌≡◌, refl, ap, sym, List, [], ◌∷◌, ◌++◌, arith, length, take, drop,
  All, append_assoc, length-append,
}
use hpserver_fw.ByteArray.Chain.{Node, splice}

unfoldable pub concat : List Node → List ℕ
concat [] = []
concat (n ∷ ns) = n ++ concat ns

pub concat-append : (xs ys : List Node) → concat (xs ++ ys) ≡ concat xs ++ concat ys
unfolding concat
concat-append [] ys = refl
concat-append (x ∷ xs) ys = rw (concat-append xs ys, append_assoc)

-- Every block has the block size of the array.
abbrev pub Blocks : ℕ → List Node → Type 0
Blocks bs = All (λ n. length n ≡ bs)

pub length-concat : (bs : ℕ) (ns : List Node) → Blocks bs ns → length (concat ns) ≡ length ns * bs
unfolding concat
length-concat bs [] h = omega arith
length-concat bs (n ∷ ns) h = grind (arith, length-append n (concat ns), length-concat bs ns h.1)

pub length-splice : (n : Node) (k : ℕ) (src : List ℕ) → length (splice n k src) ≡ length n
unfolding splice
length-splice [] k src = refl
length-splice (x ∷ xs) zero [] = refl
length-splice (x ∷ xs) zero (b ∷ src) = ap suc (length-splice xs zero src)
length-splice (x ∷ xs) (suc k) src = ap suc (length-splice xs k src)

pub splice-nil : (n : Node) (k : ℕ) → splice n k [] ≡ n
unfolding splice
splice-nil [] k = refl
splice-nil (x ∷ xs) zero = refl
splice-nil (x ∷ xs) (suc k) = ap (◌∷◌ x) (splice-nil xs k)

-- A copy that fits is the bytes before, the source, and the bytes from its end `j` on.
pub splice_lem :
    (n : Node) (k j : ℕ) (src : List ℕ)
    → j ≡ k + length src
    → j ≤ length n
    → splice n k src ≡ take k n ++ (src ++ drop j n)
unfolding splice
splice_lem [] zero zero [] e h = refl
splice_lem [] zero (suc j) [] e h = absurd (omega arith)
splice_lem [] zero j (b ∷ src) e h = absurd (omega arith)
splice_lem [] (suc k) j src e h = absurd (omega arith)
splice_lem (x ∷ xs) zero zero [] e h = refl
splice_lem (x ∷ xs) zero (suc j) [] e h = absurd (omega arith)
splice_lem (x ∷ xs) zero zero (b ∷ src) e h = absurd (omega arith)
splice_lem (x ∷ xs) zero (suc j) (b ∷ src) e h =
    ap (◌∷◌ b) (splice_lem xs zero j src (omega arith) (omega arith))
splice_lem (x ∷ xs) (suc k) zero src e h = absurd (omega arith)
splice_lem (x ∷ xs) (suc k) (suc j) src e h =
    ap (◌∷◌ x) (splice_lem xs k j src (omega arith) (omega arith))

-- A copy that ends in the first block leaves the others.
pub splice-append_inside :
    (n m : Node) (k : ℕ) (src : List ℕ)
    → k + length src ≤ length n
    → splice (n ++ m) k src ≡ splice n k src ++ m
unfolding splice
splice-append_inside [] m zero [] h = splice-nil m 0
splice-append_inside [] m zero (b ∷ src) h = absurd (omega arith)
splice-append_inside [] m (suc k) src h = absurd (omega arith)
splice-append_inside (x ∷ xs) m zero [] h = refl
splice-append_inside (x ∷ xs) m zero (b ∷ src) h =
    ap (◌∷◌ b) (splice-append_inside xs m zero src (omega arith))
splice-append_inside (x ∷ xs) m (suc k) src h =
    ap (◌∷◌ x) (splice-append_inside xs m k src (omega arith))

-- A copy over the border of a block, where `c` bytes fit, goes on at the start of the next one.
pub splice-append_across :
    (n m : Node) (k c : ℕ) (src : List ℕ)
    → k + c ≡ length n
    → splice (n ++ m) k src ≡ splice n k (take c src) ++ splice m 0 (drop c src)
unfolding splice
splice-append_across [] m zero zero src e = refl
splice-append_across [] m zero (suc c) src e = absurd (omega arith)
splice-append_across [] m (suc k) c src e = absurd (omega arith)
splice-append_across (x ∷ xs) m zero zero src e = absurd (omega arith)
splice-append_across (x ∷ xs) m zero (suc c) [] e = ap (λ t. x ∷ (xs ++ t)) (sym (splice-nil m 0))
splice-append_across (x ∷ xs) m zero (suc c) (b ∷ src) e =
    ap (◌∷◌ b) (splice-append_across xs m zero c src (omega arith))
splice-append_across (x ∷ xs) m (suc k) c src e =
    ap (◌∷◌ x) (splice-append_across xs m k c src (omega arith))

-- A copy behind the first pieces leaves them.
pub splice-append_behind :
    (n m : Node) (k j : ℕ) (src : List ℕ)
    → j ≡ length n + k
    → splice (n ++ m) j src ≡ n ++ splice m k src
unfolding splice
splice-append_behind [] m k j src e = ap (λ t. splice m t src) (omega arith)
splice-append_behind (x ∷ xs) m k zero src e = absurd (omega arith)
splice-append_behind (x ∷ xs) m k (suc j) src e =
    ap (◌∷◌ x) (splice-append_behind xs m k j src (omega arith))

pub take-splice :
    (s : ℕ) (n : Node) (k : ℕ) (src : List ℕ) → take s (splice n k src) ≡ splice (take s n) k src
unfolding splice
take-splice zero n k src = refl
take-splice (suc s) [] k src = refl
take-splice (suc s) (x ∷ xs) zero [] = refl
take-splice (suc s) (x ∷ xs) zero (b ∷ src) = ap (◌∷◌ b) (take-splice s xs zero src)
take-splice (suc s) (x ∷ xs) (suc k) src = ap (◌∷◌ x) (take-splice s xs k src)
