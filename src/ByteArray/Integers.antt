-- ===== src/ByteArray/Integers.antt =====
-- The bytes of an unsigned integer in memory, and byteswap of windgent/endian.h.
use hpserver_fw.Prelude.{
  ℕ, zero, suc, ◌+◌, ◌*◌, ◌/◌, ◌%◌, ◌^◌, ◌<◌, ◌≡◌, refl, sym, ap, ap₂, subst, ◌∙◌, List, [], ◌∷◌,
  arith, length, length-append, All, All-append, Bool, true, false, if◌then◌else◌,
}
use hpserver_fw.ByteArray.Store.{Endian, little, big}
use mathlib.Core.List.{reverse, reverse-cons, reverse-reverse}
use native.Mathlib.Nat.{pow-suc}

-- The w bytes of v, lowest first.
unfoldable pub le_bytes : ℕ → ℕ → List ℕ
le_bytes zero v = []
le_bytes (suc w) v = v % 256 ∷ le_bytes w (v / 256)

unfoldable pub of_le_bytes : List ℕ → ℕ
of_le_bytes [] = 0
of_le_bytes (x ∷ xs) = x + 256 * of_le_bytes xs

-- memcpy from and to an integer of w bytes, on a machine of this byte order.
unfoldable pub to_memory : Endian → ℕ → ℕ → List ℕ
unfolding le_bytes
to_memory little w v = le_bytes w v
to_memory big w v = reverse (le_bytes w v)

unfoldable pub of_memory : Endian → List ℕ → ℕ
unfolding of_le_bytes
of_memory little bs = of_le_bytes bs
of_memory big bs = of_le_bytes (reverse bs)

-- byteswap of an integer of w bytes.
unfoldable pub byteswap : ℕ → ℕ → ℕ
unfolding le_bytes of_le_bytes
byteswap w v = of_le_bytes (reverse (le_bytes w v))

unfoldable pub same_order : Endian → Endian → Bool
same_order little little = true
same_order big big = true
same_order _ _ = false

pub length-le_bytes : (w v : ℕ) → length (le_bytes w v) ≡ w
unfolding le_bytes
length-le_bytes zero v = refl
length-le_bytes (suc w) v = ap suc (length-le_bytes w (v / 256))

pub of_le_bytes-le_bytes : (w v : ℕ) → v < 256 ^ w → of_le_bytes (le_bytes w v) ≡ v
unfolding le_bytes of_le_bytes
of_le_bytes-le_bytes zero v h = omega arith
of_le_bytes-le_bytes (suc w) v h =
    omega (arith, of_le_bytes-le_bytes w (v / 256) (omega (arith, pow-suc 256 w)))

abbrev pub Bytes : List ℕ → Type 0
Bytes = All (λ x. x < 256)

le_bytes-Bytes : (w v : ℕ) → Bytes (le_bytes w v)
unfolding le_bytes
le_bytes-Bytes zero v = tt
le_bytes-Bytes (suc w) v = (omega arith, le_bytes-Bytes w (v / 256))

reverse-Bytes : (xs : List ℕ) → Bytes xs → Bytes (reverse xs)
reverse-Bytes [] h = tt
reverse-Bytes (x ∷ xs) h =
    subst Bytes (sym (reverse-cons x xs))
      (All-append _ (reverse xs) (x ∷ []) (reverse-Bytes xs h.1) (h.0, tt))

pub to_memory-Bytes : (e : Endian) (w v : ℕ) → Bytes (to_memory e w v)
unfolding to_memory
to_memory-Bytes little w v = le_bytes-Bytes w v
to_memory-Bytes big w v = reverse-Bytes (le_bytes w v) (le_bytes-Bytes w v)

length-reverse_lem : (xs : List ℕ) → length (reverse xs) ≡ length xs
length-reverse_lem [] = refl
length-reverse_lem (x ∷ xs) = omega (
  arith,
  ap length (reverse-cons x xs),
  length-append (reverse xs) (x ∷ []),
  length-reverse_lem xs,
)

pub length-to_memory : (e : Endian) (w v : ℕ) → length (to_memory e w v) ≡ w
unfolding to_memory
length-to_memory little w v = length-le_bytes w v
length-to_memory big w v = length-reverse_lem (le_bytes w v) ∙ length-le_bytes w v

pub le_bytes-of_le_bytes :
    (w : ℕ) (xs : List ℕ) → length xs ≡ w → Bytes xs → le_bytes w (of_le_bytes xs) ≡ xs
unfolding le_bytes of_le_bytes
le_bytes-of_le_bytes zero [] e h = refl
le_bytes-of_le_bytes (suc w) [] e h = absurd (omega arith)
le_bytes-of_le_bytes zero (x ∷ xs) e h = absurd (omega arith)
le_bytes-of_le_bytes (suc w) (x ∷ xs) e h =
    ap₂ (λ a v. a ∷ le_bytes w v) (omega (arith, h.0)) (omega (arith, h.0))
    ∙ ap (◌∷◌ x) (le_bytes-of_le_bytes w xs (omega arith) h.1)

-- Swapping turns the bytes of the number round.
le_bytes-byteswap : (w v : ℕ) → le_bytes w (byteswap w v) ≡ reverse (le_bytes w v)
unfolding byteswap
le_bytes-byteswap w v =
    le_bytes-of_le_bytes w (reverse (le_bytes w v))
      (length-reverse_lem (le_bytes w v) ∙ length-le_bytes w v)
      (reverse-Bytes (le_bytes w v) (le_bytes-Bytes w v))

-- A value put into the order of the array, or taken from it.
unfoldable pub ordered : Endian → Endian → ℕ → ℕ → ℕ
unfolding byteswap same_order
ordered endian host w v = if same_order endian host then v else byteswap w v

-- Whatever the machine, the bytes that reach memory are in the order asked for.
pub to_memory-ordered :
    (endian host : Endian) (w v : ℕ)
    → to_memory host w (ordered endian host w v) ≡ to_memory endian w v
unfolding to_memory ordered same_order
to_memory-ordered little little w v = refl
to_memory-ordered big big w v = refl
to_memory-ordered big little w v = le_bytes-byteswap w v
to_memory-ordered little big w v =
    ap reverse (le_bytes-byteswap w v) ∙ reverse-reverse (le_bytes w v)

byteswap-byteswap : (w v : ℕ) → v < 256 ^ w → byteswap w (byteswap w v) ≡ v
byteswap-byteswap w v h =
    unfold byteswap in
    (ap (λ t. of_le_bytes (reverse t)) (le_bytes-byteswap w v)
      ∙ ap of_le_bytes (reverse-reverse (le_bytes w v))
      ∙ of_le_bytes-le_bytes w v h)

-- And reading them back on any machine gives the value.
pub ordered-of_memory :
    (endian host : Endian) (w v : ℕ)
    → v < 256 ^ w
    → ordered endian host w (of_memory host (to_memory endian w v)) ≡ v
unfolding of_memory ordered same_order to_memory
ordered-of_memory little little w v h = of_le_bytes-le_bytes w v h
ordered-of_memory big big w v h =
    ap of_le_bytes (reverse-reverse (le_bytes w v)) ∙ of_le_bytes-le_bytes w v h
ordered-of_memory big little w v h = byteswap-byteswap w v h
ordered-of_memory little big w v h =
    ap (λ t. byteswap w (of_le_bytes t)) refl ∙ byteswap-byteswap w v h
