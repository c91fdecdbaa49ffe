-- ===== src/Prelude/Bits.antt =====
-- Bit operations on machine words as arithmetic: masks, disjoint fields, and flipping all bits.
use Prim.Native.Nat.{
  ℕ, zero, suc, ◌+◌, ◌-◌, ◌*◌, ◌/◌, ◌%◌, ◌^◌, ◌≤◌, ◌<◌, min, max, differ, digits, bit_and, bit_or,
  bit_xor, bit_and-bitwise, bit_or-bitwise, bit_xor-bitwise,
}
use mathlib.Core.Path.{◌≡◌, refl, ap, ◌∙◌}
use native.Mathlib.Nat.{
  pow-suc, one-le-pow, div-add-mod', mod-lt, mod-eq_of_lt, add-mul-mod_self_right,
}
use native.Mathlib.Omega.{arith}

-- The fuel of the digit recursion does not matter once it covers the first number.
module _ (rest : ℕ → ℕ) (op : ℕ → ℕ → ℕ) where
  enough_fuel : (k l x y : ℕ) → x ≤ k → x ≤ l → digits rest op k x y ≡ digits rest op l x y
  enough_fuel zero zero x y hk hl = refl
  enough_fuel zero (suc l) zero y hk hl = refl
  enough_fuel (suc k) zero zero y hk hl = refl
  enough_fuel (suc k) (suc l) zero y hk hl = refl
  enough_fuel zero l (suc x) y hk hl = absurd (omega arith)
  enough_fuel (suc k) zero (suc x) y hk hl = absurd (omega arith)
  enough_fuel (suc k) (suc l) (suc x) y hk hl =
      ap (λ t. t * 2 + op (suc x % 2) (y % 2))
        (enough_fuel k l (suc x / 2) (y / 2) (omega arith) (omega arith))

  digits_halve :
      (x y : ℕ)
      → digits rest op (suc x) (suc x) y
        ≡ digits rest op (suc x / 2) (suc x / 2) (y / 2) * 2 + op (suc x % 2) (y % 2)
  digits_halve x y =
      ap (λ t. t * 2 + op (suc x % 2) (y % 2))
        (enough_fuel x (suc x / 2) (suc x / 2) (y / 2) (omega arith) (omega arith))

or_halves : (x y : ℕ) → bit_or x y ≡ bit_or (x / 2) (y / 2) * 2 + max (x % 2) (y % 2)
or_halves zero y = omega (arith, bit_or-bitwise 0 y, bit_or-bitwise 0 (y / 2))
or_halves (suc x) y = omega (
  arith,
  digits_halve (λ b. b) max x y,
  bit_or-bitwise (suc x) y,
  bit_or-bitwise (suc x / 2) (y / 2),
)

and_halves : (x y : ℕ) → bit_and x y ≡ bit_and (x / 2) (y / 2) * 2 + min (x % 2) (y % 2)
and_halves zero y = omega (arith, bit_and-bitwise 0 y, bit_and-bitwise 0 (y / 2))
and_halves (suc x) y = omega (
  arith,
  digits_halve (λ b. 0) min x y,
  bit_and-bitwise (suc x) y,
  bit_and-bitwise (suc x / 2) (y / 2),
)

xor_halves : (x y : ℕ) → bit_xor x y ≡ bit_xor (x / 2) (y / 2) * 2 + differ (x % 2) (y % 2)
xor_halves zero y = omega (arith, bit_xor-bitwise 0 y, bit_xor-bitwise 0 (y / 2))
xor_halves (suc x) y = omega (
  arith,
  digits_halve (λ b. b) differ x y,
  bit_xor-bitwise (suc x) y,
  bit_xor-bitwise (suc x / 2) (y / 2),
)

two_pow : (k q : ℕ) → q * 2 ^ suc k ≡ 2 * (q * 2 ^ k)
two_pow k q = omega (arith, ap (λ (t : ℕ). q * t) (pow-suc 2 k))

-- The remainder by twice a power, from that of the half.
double_mod : (k a : ℕ) → a % 2 ^ suc k ≡ (a / 2) % 2 ^ k * 2 + a % 2
double_mod k a =
    let r = a / 2 % 2 ^ k * 2 + a % 2 in
    let q = a / 2 / 2 ^ k in
    let whole : a ≡ r + q * 2 ^ suc k = omega (arith, div-add-mod' (a / 2) (2 ^ k), two_pow k q) in
    let small : r < 2 ^ suc k =
      omega (arith, mod-lt (a / 2) {m = 2 ^ k} (omega (arith, one-le-pow k 2)), two_pow k 1) in
    ap (λ t. t % 2 ^ suc k) whole ∙ add-mul-mod_self_right r q (2 ^ suc k) ∙ mod-eq_of_lt small

zero-bit_or : (y : ℕ) → bit_or 0 y ≡ y
zero-bit_or y = bit_or-bitwise 0 y

-- `a | (b << k)` is a sum when `a` fits k bits.
pub bit_or-shifted : (k a b : ℕ) → a < 2 ^ k → bit_or a (b * 2 ^ k) ≡ a + b * 2 ^ k
bit_or-shifted zero zero b h = omega (arith, zero-bit_or (b * 2 ^ 0))
bit_or-shifted zero (suc a) b h = absurd (omega arith)
bit_or-shifted (suc k) a b h = omega (
  arith,
  or_halves a (b * 2 ^ suc k),
  two_pow k b,
  two_pow k 1,
  ap (λ (t : ℕ). bit_or (a / 2) t)
      (let e : b * 2 ^ suc k / 2 ≡ b * 2 ^ k = omega (arith, two_pow k b) in e),
  bit_or-shifted k (a / 2) b (omega (arith, two_pow k 1)),
)

ones_halves : (k : ℕ) → ((2 ^ suc k - 1) / 2 ≡ 2 ^ k - 1) × ((2 ^ suc k - 1) % 2 ≡ 1)
ones_halves k =
    (omega (arith, two_pow k 1, one-le-pow k 2), omega (arith, two_pow k 1, one-le-pow k 2))

and_zero_upto : (n a : ℕ) → a ≤ n → bit_and a 0 ≡ 0
and_zero_upto n zero h = bit_and-bitwise 0 0
and_zero_upto zero (suc a) h = absurd (omega arith)
and_zero_upto (suc n) (suc a) h =
    omega (arith, and_halves (suc a) 0, and_zero_upto n (suc a / 2) (omega arith))

-- A mask of `k` ones is the remainder by `2 ^ k`.
pub bit_and_ones : (k a : ℕ) → bit_and a (2 ^ k - 1) ≡ a % 2 ^ k
bit_and_ones zero a = omega (arith, and_zero_upto a a (omega arith))
bit_and_ones (suc k) a = omega (
  arith,
  and_halves a (2 ^ suc k - 1),
  ap (bit_and (a / 2)) ((ones_halves k).0),
  (ones_halves k).1,
  bit_and_ones k (a / 2),
  double_mod k a,
)

differ_zero : (r : ℕ) → differ r 0 ≡ r
differ_zero zero = refl
differ_zero (suc r) = refl

differ_one : (r : ℕ) → r < 2 → differ r 1 ≡ 1 - r
differ_one zero h = refl
differ_one (suc r) h = omega (arith, differ_zero r)

xor_zero_upto : (n a : ℕ) → a ≤ n → bit_xor a 0 ≡ a
xor_zero_upto n zero h = bit_xor-bitwise 0 0
xor_zero_upto zero (suc a) h = absurd (omega arith)
xor_zero_upto (suc n) (suc a) h = omega (
  arith,
  xor_halves (suc a) 0,
  differ_zero (suc a % 2),
  xor_zero_upto n (suc a / 2) (omega arith),
)

pub bit_xor-zero : (a : ℕ) → bit_xor a 0 ≡ a
bit_xor-zero a = xor_zero_upto a a (omega arith)

-- Exclusive or with `k` ones flips a number of `k` bits.
pub bit_xor_ones : (k a : ℕ) → a < 2 ^ k → bit_xor a (2 ^ k - 1) ≡ 2 ^ k - 1 - a
bit_xor_ones zero zero h = bit_xor-zero 0
bit_xor_ones zero (suc a) h = absurd (omega arith)
bit_xor_ones (suc k) a h = omega (
  arith,
  xor_halves a (2 ^ suc k - 1),
  ap (bit_xor (a / 2)) ((ones_halves k).0),
  ap (differ (a % 2)) ((ones_halves k).1),
  differ_one (a % 2) (omega arith),
  two_pow k 1,
  one-le-pow k 2,
  bit_xor_ones k (a / 2) (omega (arith, two_pow k 1)),
)
