-- ===== src/Http/HeaderLaws.antt =====
-- The laws of the header map of windgent/http/http.{h,cc}: what is found after an assignment and
-- after an erasure, and the order of the entries.
use hpserver_fw.Prelude.{
  ◌≡◌, refl, sym, ◌∙◌, true, none, some, [], ◌∷◌, arith, if◌then◌else◌, All, Text,
}
use hpserver_fw.Http.Headers.{
  folded, case_insentive_less, same_nocase, MapType, find, assign, erase, before, behind, equal,
  compare, less_trans, less_left, less_right,
}

-- After an assignment to a key, a search in the header map finds the new value under every spelling
-- of the key without case, and under every other key what it found before.
pub find-assign :
    (j k v : Text) (m : MapType)
    → find j (assign k v m) ≡ (if same_nocase j k then some v else find j m)
unfolding find assign
find-assign j k v [] = elim (compare j k) [
  | before b a n ↦ ground (arith, b, a, n)
  | behind b a n ↦ ground (arith, b, a, n)
  | equal b a n f ↦ ground (arith, b, a, n)
]
find-assign j k v ((i, w) ∷ m) = elim (compare i k) [
  | before b a n ↦ elim (compare j k) [
    | before b1 a1 n1 ↦ ground (arith, b, a, n, b1, a1, n1, find-assign j k v m)
    | behind b1 a1 n1 ↦ ground (arith, b, a, n, b1, a1, n1, find-assign j k v m)
    | equal b1 a1 n1 f ↦
        ground
          (arith, b, a, n, b1, a1, n1, less_right j k i f, less_left j k i f, find-assign j k v m)
  ]
  | behind b a n ↦ elim (compare j k) [
    | before b1 a1 n1 ↦ ground (arith, b, a, n, b1, a1, n1, less_trans j k i b1 a, compare j i)
    | behind b1 a1 n1 ↦ ground (arith, b, a, n, b1, a1, n1)
    | equal b1 a1 n1 f ↦ ground (arith, b, a, n, b1, a1, n1)
  ]
  | equal b a n f ↦ elim (compare j k) [
    | before b1 a1 n1 ↦ ground (arith, b, a, n, b1, a1, n1, less_right i k j f, less_left i k j f)
    | behind b1 a1 n1 ↦ ground (arith, b, a, n, b1, a1, n1, less_right i k j f, less_left i k j f)
    | equal b1 a1 n1 g ↦ ground (arith, b, a, n, b1, a1, n1, less_right i k j f, less_left i k j f)
  ]
]

-- The entries are in strict order.
unfoldable pub IsOrdered : MapType → Type 0
unfolding case_insentive_less
IsOrdered [] = Unit {0}
IsOrdered ((k, v) ∷ m) = All (λ e. case_insentive_less k (e.0) ≡ true) m × IsOrdered m

-- Every key of the map is behind k.
unfoldable pub IsBefore : Text → MapType → Type 0
unfolding case_insentive_less
IsBefore k m = All (λ e. case_insentive_less k (e.0) ≡ true) m

find_before : (j : Text) (m : MapType) → IsBefore j m → find j m ≡ none
unfolding find IsBefore
find_before j [] a = refl
find_before j ((p, v) ∷ m) a = elim (compare j p) [
  | before b h n ↦ ground (arith, b, h)
  | behind b h n ↦ ground (arith, b, a.0)
  | equal b h n f ↦ ground (arith, b, a.0)
]

before_less :
    (j i : Text) (m : MapType) → case_insentive_less j i ≡ true → IsBefore i m → IsBefore j m
unfolding IsBefore
before_less j i [] h a = tt
before_less j i ((p, v) ∷ m) h a = (less_trans j i p h (a.0), before_less j i m h (a.1))

before_equal : (j i : Text) (m : MapType) → folded i ≡ folded j → IsBefore i m → IsBefore j m
unfolding IsBefore
before_equal j i [] f a = tt
before_equal j i ((p, v) ∷ m) f a = (sym (less_left i j p f) ∙ a.0, before_equal j i m f (a.1))

before_assign :
    (i k v : Text) (m : MapType)
    → case_insentive_less i k ≡ true
    → IsBefore i m
    → IsBefore i (assign k v m)
unfolding IsBefore assign
before_assign i k v [] h a = (h, tt)
before_assign i k v ((p, w) ∷ m) h a = elim (compare p k) [
  | before b c n ↦ rw (b) (a.0, before_assign i k v m h (a.1))
  | behind b c n ↦ rw (b, c) (h, a)
  | equal b c n f ↦ rw (b, c) (a.0, a.1)
]

before_erase : (i k : Text) (m : MapType) → IsBefore i m → IsBefore i (erase k m)
unfolding IsBefore erase
before_erase i k [] a = a
before_erase i k ((p, w) ∷ m) a = elim (compare p k) [
  | before b c n ↦ rw (b) (a.0, before_erase i k m (a.1))
  | behind b c n ↦ rw (b, c) a
  | equal b c n f ↦ rw (b, c) (a.1)
]

pub assign-IsOrdered : (k v : Text) (m : MapType) → IsOrdered m → IsOrdered (assign k v m)
unfolding IsOrdered IsBefore assign
assign-IsOrdered k v [] o = (tt, tt)
assign-IsOrdered k v ((p, w) ∷ m) o = elim (compare p k) [
  | before b c n ↦ rw (b) (before_assign p k v m b (o.0), assign-IsOrdered k v m (o.1))
  | behind b c n ↦ rw (b, c) ((c, before_less k p m c (o.0)), o)
  | equal b c n f ↦ rw (b, c) o
]

pub erase-IsOrdered : (k : Text) (m : MapType) → IsOrdered m → IsOrdered (erase k m)
unfolding IsOrdered IsBefore erase
erase-IsOrdered k [] o = o
erase-IsOrdered k ((p, w) ∷ m) o = elim (compare p k) [
  | before b c n ↦ rw (b) (before_erase p k m (o.0), erase-IsOrdered k m (o.1))
  | behind b c n ↦ rw (b, c) o
  | equal b c n f ↦ rw (b, c) (o.1)
]

-- In a header map whose entries are in strict order, after the erasure of a key a search finds
-- nothing under any spelling of it, and under every other key what it found before.
pub find-erase :
    (j k : Text) (m : MapType)
    → IsOrdered m
    → find j (erase k m) ≡ (if same_nocase j k then none else find j m)
unfolding find erase IsOrdered IsBefore
find-erase j k [] o = ground arith
find-erase j k ((i, w) ∷ m) o = elim (compare i k) [
  | before b a n ↦ elim (compare j k) [
    | before b1 a1 n1 ↦ ground (arith, b, a, n, b1, a1, n1, find-erase j k m (o.1))
    | behind b1 a1 n1 ↦ ground (arith, b, a, n, b1, a1, n1, find-erase j k m (o.1))
    | equal b1 a1 n1 f ↦
        ground (
          arith,
          b,
          a,
          n,
          b1,
          a1,
          n1,
          less_right j k i f,
          less_left j k i f,
          find-erase j k m (o.1),
        )
  ]
  | behind b a n ↦ elim (compare j k) [
    | before b1 a1 n1 ↦ ground (arith, b, a, n, b1, a1, n1)
    | behind b1 a1 n1 ↦ ground (arith, b, a, n, b1, a1, n1)
    | equal b1 a1 n1 f ↦ ground (arith, b, a, n, b1, a1, n1, less_right j k i f, less_left j k i f)
  ]
  | equal b a n f ↦ elim (compare j k) [
    | before b1 a1 n1 ↦ ground (
      arith,
      b,
      a,
      n,
      b1,
      a1,
      n1,
      less_right i k j f,
      less_left i k j f,
      find_before j m (before_less j i m (less_right i k j f ∙ b1) (o.0)),
    )
    | behind b1 a1 n1 ↦ ground (arith, b, a, n, b1, a1, n1, less_right i k j f, less_left i k j f)
    | equal b1 a1 n1 g ↦
        ground (arith, b, a, n, b1, a1, n1, find_before j m (before_equal j i m (f ∙ sym g) (o.0)))
  ]
]
