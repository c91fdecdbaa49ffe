-- ===== src/ByteArray/Zigzag.antt =====
-- Zigzag: signed values to unsigned ones, so that small magnitudes stay small.
use hpserver_fw.Prelude.{
  ℕ, suc, ◌+◌, ◌-◌, ◌*◌, ◌/◌, ◌%◌, ◌^◌, ◌<◌, ◌≡◌, some, if-true, ap, ap₂, ◌∙◌, bit_and, bit_xor,
  arith,
}
use hpserver_fw.Prelude.Bits.{bit_and_ones, bit_xor-zero, bit_xor_ones}
use hpserver_fw.Prelude.Int.{ℤ, pos, negsuc, Fits, of_word}
use hpserver_fw.Prelude.{lt→ltb, ge→ltb}
use hpserver_fw.ByteArray.Varint.{encode_zigzag, decode_zigzag}
use native.Mathlib.Nat.{mod-eq_of_lt, mod_self, add-mod_right}

-- The word of the integer: 2 n for n, and 2 n + 1 for -(n + 1).
abbrev pub zigzag : ℤ → ℕ
zigzag (pos n) = 2 * n
zigzag (negsuc n) = 2 * n + 1

pub zigzag-lt : (m : ℕ) (z : ℤ) → m % 2 ≡ 0 → Fits m z → zigzag z < m
zigzag-lt m (pos n) even h = omega arith
zigzag-lt m (negsuc n) even h = omega arith

-- The integer can be negated and doubled in its signed type.
abbrev pub Doubles : ℕ → ℤ → Type 0
Doubles m (pos n) = n * 2 < m / 2
Doubles m (negsuc n) = suc n < m / 2

pub Doubles-Fits : (m : ℕ) (z : ℤ) → Doubles m z → Fits m z
Doubles-Fits m (pos n) h = omega arith
Doubles-Fits m (negsuc n) h = omega arith

wrapped : (m n : ℕ) → n + 1 < m / 2 → ((n + 1) * 2 % m + m - 1) % m ≡ 2 * n + 1
wrapped m n h =
    ap (λ t. (t + m - 1) % m) (mod-eq_of_lt {n = (n + 1) * 2} {m = m} (omega arith))
    ∙ ap (λ t. t % m) (omega arith)
    ∙ add-mod_right (2 * n + 1) m
    ∙ mod-eq_of_lt {n = 2 * n + 1} {m = m} (omega arith)

-- Where nothing overflows, the source's arithmetic gives 2 n for each n and 2 n + 1 for each
-- -(n + 1).
pub encode_zigzag-zigzag : (m : ℕ) (z : ℤ) → Doubles m z → encode_zigzag m z ≡ some (zigzag z)
unfolding encode_zigzag
encode_zigzag-zigzag m (pos n) h =
    if-true _ _ (lt→ltb (n * 2) (m / 2) h) ∙ ap (λ (t : ℕ). some t) (omega arith)
encode_zigzag-zigzag m (negsuc n) h =
    if-true _ _ (lt→ltb (suc n) (m / 2) h)
    ∙ ap (λ (t : ℕ). some ((t * 2 % m + m - 1) % m))
        (mod-eq_of_lt {n = suc n} {m = m} (omega arith) ∙ omega arith)
    ∙ ap (λ (t : ℕ). some t) (wrapped m n (omega arith))

-- For words of k + 1 bits, the shift and the mask of the lowest bit give back each integer of the
-- signed type from its zigzag word.
pub decode_zigzag-zigzag :
    (k : ℕ) (z : ℤ) → Fits (2 ^ suc k) z → decode_zigzag (2 ^ suc k) (zigzag z) ≡ z
unfolding decode_zigzag of_word
decode_zigzag-zigzag k (pos n) h = ap (of_word (2 ^ suc k)) word ∙ rw (lt→ltb n (2 ^ suc k / 2) h)
  where
    word : bit_xor (2 * n / 2) ((2 ^ suc k - bit_and (2 * n) 1) % 2 ^ suc k) ≡ n
    word =
        let even : bit_and (2 * n) 1 ≡ 0 = bit_and_ones 1 (2 * n) ∙ omega arith in
        let all : 2 ^ suc k - 0 ≡ 2 ^ suc k = omega arith in
        ap₂ (λ t u. bit_xor t ((2 ^ suc k - u) % 2 ^ suc k)) (omega arith) even
        ∙ ap (λ t. bit_xor n (t % 2 ^ suc k)) all
        ∙ ap (bit_xor n) (mod_self (2 ^ suc k))
        ∙ bit_xor-zero n
decode_zigzag-zigzag k (negsuc n) h =
    ap (of_word (2 ^ suc k)) word
    ∙ rw (ge→ltb (2 ^ suc k - 1 - n) (2 ^ suc k / 2) (omega arith)) (ap negsuc (omega arith))
  where
    word :
        bit_xor ((2 * n + 1) / 2) ((2 ^ suc k - bit_and (2 * n + 1) 1) % 2 ^ suc k)
        ≡ 2 ^ suc k - 1 - n
    word =
        ap₂ (λ t u. bit_xor t ((2 ^ suc k - u) % 2 ^ suc k)) (omega arith)
          (bit_and_ones 1 (2 * n + 1) ∙ omega arith)
        ∙ ap (bit_xor n) (mod-eq_of_lt {n = 2 ^ suc k - 1} {m = 2 ^ suc k} (omega arith))
        ∙ bit_xor_ones (suc k) n (omega arith)
