-- ===== src/Prelude/Int.antt =====
-- Signed machine integers and the words that hold them, two's complement.
use hpserver_fw.Prelude.Tests.{ltb, leb, if◌then◌else◌, if-true, lt→ltb, ge→ltb}
use Prim.Native.Nat.{ℕ, ◌-◌, ◌/◌, ◌%◌, ◌^◌, ◌<◌}
use mathlib.Core.Path.{◌≡◌, ap, ◌∙◌}
use mathlib.Core.Bool.{Bool, true, false}
use native.Mathlib.Nat.{mod-eq_of_lt}
use native.Mathlib.Omega.{arith}

-- `negsuc n` is -(n + 1).
pub data ℤ : Type 0 where
  pos : ℕ → ℤ
  negsuc : ℕ → ℤ

-- The word of `m` values, a power of two, that holds z.
unfoldable pub to_word : ℕ → ℤ → ℕ
to_word m (pos n) = n % m
to_word m (negsuc n) = m - 1 - n % m

-- The integer that such a word stands for.
unfoldable pub of_word : ℕ → ℕ → ℤ
of_word m w = if ltb w (m / 2) then pos w else negsuc (m - 1 - w)

-- z fits a signed integer of `m` values.
abbrev pub Fits : ℕ → ℤ → Type 0
Fits m (pos n) = n < m / 2
Fits m (negsuc n) = n < m / 2

pub to_word-lt : (m : ℕ) (z : ℤ) → 0 < m → to_word m z < m
unfolding to_word
to_word-lt m (pos n) h = omega arith
to_word-lt m (negsuc n) h = omega arith

pub of_word-to_word : (m : ℕ) (z : ℤ) → m % 2 ≡ 0 → Fits m z → of_word m (to_word m z) ≡ z
unfolding to_word of_word
of_word-to_word m (pos n) even h =
    rw (mod-eq_of_lt {n = n} {m = m} (omega arith), lt→ltb n (m / 2) h)
of_word-to_word m (negsuc n) even h =
    rw (mod-eq_of_lt {n = n} {m = m} (omega arith), ge→ltb (m - 1 - n) (m / 2) (omega arith))
      (ap negsuc (omega arith))

-- A word of 64 bits, cast to int.
unfoldable pub int_of : ℕ → ℤ
unfolding of_word
int_of x = of_word (2 ^ 32) (x % 2 ^ 32)

-- `z > max`, for a max that is not negative.
abbrev pub exceeds : ℤ → ℕ → Bool
exceeds (pos n) max = ltb max n
exceeds (negsuc n) max = false

unfoldable pub int_le : ℤ → ℤ → Bool
int_le (pos a) (pos b) = leb a b
int_le (pos a) (negsuc b) = false
int_le (negsuc a) (pos b) = true
int_le (negsuc a) (negsuc b) = leb b a

pub int_of-small : (x : ℕ) → x < 2 ^ 31 → int_of x ≡ pos x
unfolding int_of of_word
int_of-small x h =
    ap (λ t. if ltb t (2 ^ 31) then pos t else negsuc (2 ^ 32 - 1 - t))
      (mod-eq_of_lt {n = x} {m = 2 ^ 32} (omega arith))
    ∙ if-true _ _ (lt→ltb x (2 ^ 31) h)

-- A size below 2 ^ 31 is the number that its cast is.
pub int_of-exceeds : (size fd : ℕ) → size < 2 ^ 31 → exceeds (int_of size) fd ≡ ltb fd size
int_of-exceeds size fd h = ap (λ z. exceeds z fd) (int_of-small size h)

pub int_of-le : (size fd : ℕ) → size < 2 ^ 31 → int_le (int_of size) (pos fd) ≡ leb size fd
unfolding int_le
int_of-le size fd h = ap (λ z. int_le z (pos fd)) (int_of-small size h)
