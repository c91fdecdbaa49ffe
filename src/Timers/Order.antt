-- ===== src/Timers/Order.antt =====
-- The set of timers: insertion and erasure keep its order, and what they do to its elements.
use hpserver_fw.Prelude.{
  ℕ, ◌<◌, ◌≡◌, ◌≢◌, ◌⊎◌, inl, inr, refl, sym, ap, subst, ◌∙◌, true, false, ◌||◌, List, [], ◌∷◌,
  arith, ==_iff, Bool-cases, All,
}
use hpserver_fw.Timers.Manager.{Timer, Store, put, less, same, insert, erase, contains}

-- The order of the set: by time, and by address at the same time.
abbrev pub Less : Store → ℕ → ℕ → Type 0
Less h a b = ((h a).next < (h b).next) ⊎ (((h a).next ≡ (h b).next) × (a < b))

abbrev pub Sorted : Store → List ℕ → Type 0
Sorted h [] = Unit {0}
Sorted h (a ∷ l) = All (Less h a) l × Sorted h l

abbrev pub In : ℕ → List ℕ → Type 0
In a [] = ⊥
In a (b ∷ l) = (a ≡ b) ⊎ In a l

pub less→Less : (h : Store) (a b : ℕ) → less h a b ≡ true → Less h a b
unfolding less
less→Less h a b e = ground arith

less-false : (h : Store) (a b : ℕ) → less h a b ≡ false → less h b a ≡ false → a ≡ b
unfolding less
less-false h a b e f = ground arith

pub Less-trans : (h : Store) (a b c : ℕ) → Less h a b → Less h b c → Less h a c
Less-trans h a b c x y = ground arith

pub Less-irrefl : (h : Store) (a : ℕ) → ¬ Less h a a
Less-irrefl h a x = ground arith

pub same→eq : (h : Store) (a b : ℕ) → same h a b ≡ true → a ≡ b
unfolding same less
same→eq h a b e = ground arith

pub same_refl : (h : Store) (a : ℕ) → same h a a ≡ true
unfolding same less
same_refl h a = ground arith

All-map {ℓ κ} :
    {P : ℕ → Type ℓ} {Q : ℕ → Type κ} (l : List ℕ) → ((b : ℕ) → P b → Q b) → All P l → All Q l
All-map [] f h = tt
All-map (b ∷ l) f (h, hs) = (f b h, All-map l f hs)

pub All-In {ℓ} : (P : ℕ → Type ℓ) (l : List ℕ) (a : ℕ) → All P l → In a l → P a
All-In P [] a h i = absurd i
All-In P (b ∷ l) a (h, hs) (inl e) = subst P (sym e) h
All-In P (b ∷ l) a (h, hs) (inr i) = All-In P l a hs i

pub All-tabulate {ℓ} : (P : ℕ → Type ℓ) (l : List ℕ) → ((a : ℕ) → In a l → P a) → All P l
All-tabulate P [] f = tt
All-tabulate P (b ∷ l) f = (f b (inl refl), All-tabulate P l (λ a i. f a (inr i)))

-- The head of a sorted set is not in its tail.
pub head_not-In : (h : Store) (a : ℕ) (l : List ℕ) → Sorted h (a ∷ l) → ¬ In a l
head_not-In h a l s i = Less-irrefl h a (All-In (Less h a) l a s.0 i)

insert-All {ℓ} :
    (P : ℕ → Type ℓ) (h : Store) (a : ℕ) (l : List ℕ) → P a → All P l → All P (insert h a l)
unfolding insert
insert-All P h a [] p s = (p, tt)
insert-All P h a (b ∷ l) p (q, s) = elim (Bool-cases (less h a b)) [
  | inl lt ↦ rw lt (p, (q, s))
  | inr ge ↦ rw ge (elim (Bool-cases (less h b a)) [
    | inl gt ↦ rw gt (q, insert-All P h a l p s)
    | inr eq ↦ rw eq (q, s)
  ])
]

-- Insertion keeps a set of timers in the order of their times, and of their addresses where the
-- times are equal.
pub insert-Sorted : (h : Store) (a : ℕ) (l : List ℕ) → Sorted h l → Sorted h (insert h a l)
unfolding insert
insert-Sorted h a [] s = (tt, tt)
insert-Sorted h a (b ∷ l) (s, t) = elim (Bool-cases (less h a b)) [
  | inl lt ↦
      let ab = less→Less h a b lt in
      rw lt ((ab, All-map l (λ c bc. Less-trans h a b c ab bc) s), (s, t))
  | inr ge ↦ rw ge (elim (Bool-cases (less h b a)) [
    | inl gt ↦ rw gt (insert-All (Less h b) h a l (less→Less h b a gt) s, insert-Sorted h a l t)
    | inr eq ↦ rw eq (s, t)
  ])
]

-- The inserted element is in the set, and the others stay.
pub In-insert_self : (h : Store) (a : ℕ) (l : List ℕ) → In a (insert h a l)
unfolding insert
In-insert_self h a [] = inl refl
In-insert_self h a (b ∷ l) = elim (Bool-cases (less h a b)) [
  | inl lt ↦ rw lt (inl refl)
  | inr ge ↦ rw ge (elim (Bool-cases (less h b a)) [
    | inl gt ↦ rw gt (inr (In-insert_self h a l))
    | inr eq ↦ rw eq (inl (less-false h a b ge eq))
  ])
]

pub In-insert_other : (h : Store) (a c : ℕ) (l : List ℕ) → In c l → In c (insert h a l)
unfolding insert
In-insert_other h a c [] i = absurd i
In-insert_other h a c (b ∷ l) i = elim (Bool-cases (less h a b)) [
  | inl lt ↦ rw lt (inr i)
  | inr ge ↦ rw ge (elim (Bool-cases (less h b a)) [
    | inl gt ↦ rw gt (elim i [ inl e ↦ inl e | inr j ↦ inr (In-insert_other h a c l j) ])
    | inr eq ↦ rw eq i
  ])
]

pub insert-In : (h : Store) (a c : ℕ) (l : List ℕ) → In c (insert h a l) → (c ≡ a) ⊎ In c l
unfolding insert
insert-In h a c l i =
    All-In (λ x. (x ≡ a) ⊎ In x l) (insert h a l) c
      (insert-All (λ x. (x ≡ a) ⊎ In x l) h a l (inl refl) (All-tabulate _ l (λ x j. inr j))) i

erase-All {ℓ} : (P : ℕ → Type ℓ) (h : Store) (a : ℕ) (l : List ℕ) → All P l → All P (erase h a l)
unfolding erase
erase-All P h a [] s = tt
erase-All P h a (b ∷ l) (p, s) = elim (Bool-cases (same h a b)) [
  | inl e ↦ rw e s
  | inr e ↦ rw e (p, erase-All P h a l s)
]

pub erase-Sorted : (h : Store) (a : ℕ) (l : List ℕ) → Sorted h l → Sorted h (erase h a l)
unfolding erase
erase-Sorted h a [] s = tt
erase-Sorted h a (b ∷ l) (s, t) = elim (Bool-cases (same h a b)) [
  | inl e ↦ rw e t
  | inr e ↦ rw e (erase-All (Less h b) h a l s, erase-Sorted h a l t)
]

-- The erased element is gone, and no other comes or goes.
pub erase-In_self : (h : Store) (a : ℕ) (l : List ℕ) → Sorted h l → ¬ In a (erase h a l)
unfolding erase
erase-In_self h a [] s = λ i. i
erase-In_self h a (b ∷ l) s = elim (Bool-cases (same h a b)) [
  | inl e ↦ rw e (subst (λ x. ¬ In x l) (sym (same→eq h a b e)) (head_not-In h b l s))
  | inr e ↦ rw e (apart e (erase-In_self h a l s.1))
]
  where
    apart : same h a b ≡ false → ¬ In a (erase h a l) → ¬ ((a ≡ b) ⊎ In a (erase h a l))
    apart e rest (inl x) = cc (e, subst (λ y. same h a y ≡ true) x (same_refl h a))
    apart e rest (inr j) = rest j

pub In-erase_other : (h : Store) (a c : ℕ) (l : List ℕ) → c ≢ a → In c l → In c (erase h a l)
unfolding erase
In-erase_other h a c [] n i = i
In-erase_other h a c (b ∷ l) n i = elim (Bool-cases (same h a b)) [
  | inl e ↦ rw e (elim i [ inl x ↦ absurd (n (x ∙ sym (same→eq h a b e))) | inr j ↦ j ])
  | inr e ↦ rw e (elim i [ inl x ↦ inl x | inr j ↦ inr (In-erase_other h a c l n j) ])
]

pub erase-In : (h : Store) (a c : ℕ) (l : List ℕ) → In c (erase h a l) → In c l
erase-In h a c l =
    All-In (λ x. In x l) (erase h a l) c
      (erase-All (λ x. In x l) h a l (All-tabulate _ l (λ x j. j)))

pub In-contains : (h : Store) (a : ℕ) (l : List ℕ) → In a l → contains h a l ≡ true
unfolding contains
In-contains h a [] i = absurd i
In-contains h a (b ∷ l) (inl e) =
    let here : same h a b ≡ true = subst (λ y. same h a y ≡ true) e (same_refl h a) in
    ap (λ t. t || contains h a l) here
In-contains h a (b ∷ l) (inr i) = ground (arith, In-contains h a l i)

-- An object outside the set can change without disturbing its order.
pub put_other : (h : Store) (a b : ℕ) (t : Timer) → b ≢ a → put h a t b ≡ h b
unfolding put
put_other h a b t n = ground arith

pub put_self : (h : Store) (a : ℕ) (t : Timer) → put h a t a ≡ t
unfolding put
put_self h a t = rw ((==_iff a a).1 refl)

pub Sorted-put :
    (h : Store) (a : ℕ) (t : Timer) (l : List ℕ) → ¬ In a l → Sorted h l → Sorted (put h a t) l
Sorted-put h a t [] n s = tt
Sorted-put h a t (b ∷ l) n (s, r) = (
  All-tabulate (Less (put h a t) b) l (λ c i.
      Less_put b c (λ e. n (inl (sym e))) (λ e. n (inr (subst (λ x. In x l) e i)))
        (All-In (Less h b) l c s i)),
  Sorted-put h a t l (λ i. n (inr i)) r,
)
  where
    Less_put : (x y : ℕ) → x ≢ a → y ≢ a → Less h x y → Less (put h a t) x y
    Less_put x y nx ny q = ground (arith, put_other h a x t nx, put_other h a y t ny)
