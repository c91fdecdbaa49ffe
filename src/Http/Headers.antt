-- ===== src/Http/Headers.antt =====
-- std::map<std::string, std::string, CaseInsentiveLess> (windgent/http/http.{h,cc}): the entries in
-- the order of their keys, which are compared without case.
use hpserver_fw.Prelude.{
  ◌≡◌, inl, inr, refl, ap, Bool, true, false, Option, none, some, List, [], ◌∷◌, map, ltb, arith,
  Bool-cases, if◌then◌else◌, same_text→eq, Text, c_str, lower, same_text,
}

-- A key as strcasecmp reads it.
unfoldable pub folded : Text → Text
unfolding lower c_str
folded k = map lower (c_str k)

unfoldable pub precedes : Text → Text → Bool
precedes [] [] = false
precedes [] (y ∷ ys) = true
precedes (x ∷ xs) [] = false
precedes (x ∷ xs) (y ∷ ys) =
    let rest = precedes xs ys in if ltb x y then true else if ltb y x then false else rest

-- strcasecmp(l, r) < 0.
unfoldable pub case_insentive_less : Text → Text → Bool
unfolding folded precedes
case_insentive_less l r = precedes (folded l) (folded r)

-- strcasecmp(l, r) == 0.
unfoldable pub same_nocase : Text → Text → Bool
unfolding folded same_text
same_nocase l r = same_text (folded l) (folded r)

abbrev pub MapType : Type 0
MapType = List (Text × Text)

-- find.
unfoldable pub find : Text → MapType → Option Text
unfolding case_insentive_less
find k [] = none
find k ((j, v) ∷ m) =
    let rest = find k m in
    if case_insentive_less j k then rest else if case_insentive_less k j then none else some v

-- `m[k] = v`: an entry that is there keeps its key.
unfoldable pub assign : Text → Text → MapType → MapType
unfolding case_insentive_less
assign k v [] = (k, v) ∷ []
assign k v ((j, w) ∷ m) =
    let rest = assign k v m in
    if case_insentive_less j k
    then (j, w) ∷ rest
    else if case_insentive_less k j
    then (k, v) ∷ ((j, w) ∷ m)
    else (j, v) ∷ m

-- erase(k).
unfoldable pub erase : Text → MapType → MapType
unfolding case_insentive_less
erase k [] = []
erase k ((j, w) ∷ m) =
    let rest = erase k m in
    if case_insentive_less j k
    then (j, w) ∷ rest
    else if case_insentive_less k j
    then (j, w) ∷ m
    else m

-- The order is a strict total order on folded keys.
precedes_irrefl : (x : Text) → precedes x x ≡ false
unfolding precedes
precedes_irrefl [] = refl
precedes_irrefl (x ∷ xs) = ground (arith, precedes_irrefl xs)

precedes_trans : (x y z : Text) → precedes x y ≡ true → precedes y z ≡ true → precedes x z ≡ true
unfolding precedes
precedes_trans [] [] z h k = cc
precedes_trans [] (y ∷ ys) [] h k = cc
precedes_trans [] (y ∷ ys) (z ∷ zs) h k = refl
precedes_trans (x ∷ xs) [] z h k = cc
precedes_trans (x ∷ xs) (y ∷ ys) [] h k = cc
precedes_trans (x ∷ xs) (y ∷ ys) (z ∷ zs) h k = ground (arith, precedes_trans xs ys zs)

precedes_total : (x y : Text) → precedes x y ≡ false → precedes y x ≡ false → same_text x y ≡ true
unfolding precedes same_text
precedes_total [] [] h k = refl
precedes_total [] (y ∷ ys) h k = cc
precedes_total (x ∷ xs) [] h k = cc
precedes_total (x ∷ xs) (y ∷ ys) h k = ground (arith, precedes_total xs ys)

precedes_asym : (x y : Text) → precedes x y ≡ true → precedes y x ≡ false
unfolding precedes
precedes_asym [] [] h = cc
precedes_asym [] (y ∷ ys) h = refl
precedes_asym (x ∷ xs) [] h = cc
precedes_asym (x ∷ xs) (y ∷ ys) h = ground (arith, precedes_asym xs ys)

precedes→differ : (x y : Text) → precedes x y ≡ true → same_text x y ≡ false
unfolding precedes same_text
precedes→differ [] [] h = cc
precedes→differ [] (y ∷ ys) h = refl
precedes→differ (x ∷ xs) [] h = refl
precedes→differ (x ∷ xs) (y ∷ ys) h = ground (arith, precedes→differ xs ys)

differ_sym : (x y : Text) → same_text x y ≡ false → same_text y x ≡ false
unfolding same_text
differ_sym [] [] h = h
differ_sym [] (y ∷ ys) h = refl
differ_sym (x ∷ xs) [] h = refl
differ_sym (x ∷ xs) (y ∷ ys) h = ground (arith, differ_sym xs ys)

-- What two keys are to each other.
pub data Compared (j k : Text) : Type 0 where
  before :
      case_insentive_less j k ≡ true
      → case_insentive_less k j ≡ false
      → same_nocase j k ≡ false
      → Compared j k
  behind :
      case_insentive_less j k ≡ false
      → case_insentive_less k j ≡ true
      → same_nocase j k ≡ false
      → Compared j k
  equal :
      case_insentive_less j k ≡ false
      → case_insentive_less k j ≡ false
      → same_nocase j k ≡ true
      → folded j ≡ folded k
      → Compared j k

pub compare : (j k : Text) → Compared j k
unfolding case_insentive_less same_nocase
compare j k = elim (Bool-cases (precedes (folded j) (folded k))) [
  | inl h ↦
      before h (precedes_asym (folded j) (folded k) h) (precedes→differ (folded j) (folded k) h)
  | inr h ↦ elim (Bool-cases (precedes (folded k) (folded j))) [
    | inl b ↦
        behind h b (differ_sym (folded k) (folded j) (precedes→differ (folded k) (folded j) b))
    | inr b ↦
        let s : same_text (folded j) (folded k) ≡ true = precedes_total (folded j) (folded k) h b in
        equal h b s (same_text→eq (folded j) (folded k) s)
  ]
]

pub less_trans :
    (x y z : Text)
    → case_insentive_less x y ≡ true
    → case_insentive_less y z ≡ true
    → case_insentive_less x z ≡ true
unfolding case_insentive_less
less_trans x y z = precedes_trans (folded x) (folded y) (folded z)

pub less_left :
    (x y z : Text) → folded x ≡ folded y → case_insentive_less x z ≡ case_insentive_less y z
unfolding case_insentive_less
less_left x y z e = ap (λ t. precedes t (folded z)) e

pub less_right :
    (x y z : Text) → folded x ≡ folded y → case_insentive_less z x ≡ case_insentive_less z y
unfolding case_insentive_less
less_right x y z e = ap (λ t. precedes (folded z) t) e

pub same_left : (x y z : Text) → folded x ≡ folded y → same_nocase z x ≡ same_nocase z y
unfolding same_nocase
same_left x y z e = ap (λ t. same_text (folded z) t) e
