-- ===== src/Prelude/Texts.antt =====
-- Texts as lists of bytes, and what the C library reads of them.
use hpserver_fw.Prelude.Tests.{leb, ◌==◌, ==_iff, if◌then◌else◌, Bool-cases}
use Prim.Native.Nat.{ℕ, ◌+◌}
use Prim.Native.Char.{code}
use Prim.Native.String.{String}
use mathlib.Core.Path.{◌≡◌, refl, ap₂, subst}
use mathlib.Core.Logic.{◌≢◌, inl, inr}
use mathlib.Core.Bool.{Bool, true, false, ◌&&◌}
use mathlib.Core.List.{List, [], ◌∷◌}
use native.Mathlib.Omega.{arith}

abbrev pub Text : Type 0
Text = List ℕ

-- The bytes of a literal.
abbrev pub codes : String → Text
codes String.[] = []
codes (String.◌∷◌ c s) = code c ∷ codes s

unfoldable pub same_text : Text → Text → Bool
same_text [] [] = true
same_text (x ∷ xs) (y ∷ ys) = (x == y) && same_text xs ys
same_text [] (y ∷ ys) = false
same_text (x ∷ xs) [] = false

pub same_text→eq : (u v : Text) → same_text u v ≡ true → u ≡ v
unfolding same_text
same_text→eq [] [] e = refl
same_text→eq [] (y ∷ ys) e = cc
same_text→eq (x ∷ xs) [] e = cc
same_text→eq (x ∷ xs) (y ∷ ys) e =
    ap₂ (◌∷◌) ((==_iff x y).0 (ground arith)) (same_text→eq xs ys (ground arith))

pub same_text_refl : (u : Text) → same_text u u ≡ true
unfolding same_text
same_text_refl [] = refl
same_text_refl (x ∷ xs) = ground (arith, same_text_refl xs)

pub ne→same_text : (u v : Text) → u ≢ v → same_text u v ≡ false
ne→same_text u v h = elim (Bool-cases (same_text u v)) [
  | inl e ↦ absurd (h (same_text→eq u v e))
  | inr e ↦ e
]

pub same_text→ne : (u v : Text) → same_text u v ≡ false → u ≢ v
same_text→ne u v e x = ground (arith, subst (λ y. same_text u y ≡ true) x (same_text_refl u))

-- The characters that c_str() shows to a C function: those before the first 0.
unfoldable pub c_str : Text → Text
c_str [] = []
c_str (x ∷ xs) = let rest = c_str xs in if x == 0 then [] else x ∷ rest

-- tolower in the C locale.
unfoldable pub lower : ℕ → ℕ
lower c = if leb b'A' c && leb c b'Z' then c + 32 else c
