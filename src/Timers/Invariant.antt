-- ===== src/Timers/Invariant.antt =====
-- The invariant of the timer manager, kept by every operation of Timer and TimerManager.
use hpserver_fw.Prelude.{
  ℕ, ◌≡◌, ◌≢◌, ◌⊎◌, inl, inr, refl, sym, ap, subst, ◌∙◌, none, List, [], ◌∷◌, arith, ◌==◌, ==_iff,
  Bool-cases,
}
use hpserver_fw.Timers.Manager.{Timer, Manager, Store, put, insert, erase, expire, expire_all}
use hpserver_fw.Timers.Order.{
  Sorted, In, put_other, put_self, Sorted-put, insert-Sorted, In-insert_self, In-insert_other,
  insert-In, erase-Sorted, erase-In_self, In-erase_other, erase-In,
}
use hpserver_fw.Timers.Expiry.{Distinct}

abbrev pub IsActive : Store → ℕ → Type 0
IsActive h a = (h a).cb ≢ none

-- The set is in order, and it holds exactly the timers that have a callback.
pub record Inv (m : Manager) : Type 0 where
  pub sorted : Sorted m.store m.timers
  pub active : (a : ℕ) → In a m.timers → IsActive m.store a
  pub kept : (a : ℕ) → IsActive m.store a → In a m.timers

-- A store and a set where the timers `e` wait to be put back or dropped.
pub record Pending (h : Store) (l e : List ℕ) : Type 0 where
  pub sorted : Sorted h l
  pub active : (a : ℕ) → In a l → IsActive h a
  pub waiting : (a : ℕ) → In a e → IsActive h a
  pub apart : (a : ℕ) → In a e → ¬ In a l
  pub distinct : Distinct e
  pub kept : (a : ℕ) → IsActive h a → In a l ⊎ In a e

-- An active timer outside the set, with its object changed, goes back into it.
pub put_back :
    (h : Store) (l e : List ℕ) (a : ℕ) (t : Timer)
    → t.cb ≢ none
    → Pending h l (a ∷ e)
    → Pending (put h a t) (insert (put h a t) a l) e
put_back h l e a t some_cb p = record {
  sorted = insert-Sorted h' a l (Sorted-put h a t l out p.sorted);
  active = λ b i. active b (insert-In h' a b l i);
  waiting = λ b i. changed b (λ q. p.distinct.0 (subst (λ x. In x e) q i)) (p.waiting b (inr i));
  apart = λ b i j. elim (insert-In h' a b l j) [
    | inl x ↦ p.distinct.0 (subst (λ y. In y e) x i)
    | inr k ↦ p.apart b (inr i) k
  ];
  distinct = p.distinct.1;
  kept = λ b q. elim (Bool-cases (b == a)) [
    | inl x ↦
        inl (subst (λ y. In y (insert h' a l)) (sym ((==_iff b a).0 x)) (In-insert_self h' a l))
    | inr x ↦ elsewhere b (ground arith) q
  ];
}
  where
    h' : Store
    h' = put h a t

    out : ¬ In a l
    out = p.apart a (inl refl)

    changed : (b : ℕ) → b ≢ a → IsActive h b → IsActive h' b
    changed b n q = λ z. q (ap (λ x. x.cb) (sym (put_other h a b t n)) ∙ z)

    placed : (b : ℕ) → b ≢ a → In b l ⊎ ((b ≡ a) ⊎ In b e) → In b (insert h' a l) ⊎ In b e
    placed b n (inl i) = inl (In-insert_other h' a b l i)
    placed b n (inr (inl x)) = absurd (n x)
    placed b n (inr (inr i)) = inr i

    elsewhere : (b : ℕ) → b ≢ a → IsActive h' b → In b (insert h' a l) ⊎ In b e
    elsewhere b n q = placed b n (p.kept b (λ z. q (ap (λ x. x.cb) (put_other h a b t n) ∙ z)))

    active : (b : ℕ) → (b ≡ a) ⊎ In b l → IsActive h' b
    active b (inl x) =
        subst (IsActive h') (sym x) (λ z. some_cb (ap (λ y. y.cb) (sym (put_self h a t)) ∙ z))
    active b (inr i) = changed b (λ x. out (subst (λ y. In y l) x i)) (p.active b i)

-- One that loses its callback stays outside.
pub drop_it :
    (h : Store) (l e : List ℕ) (a : ℕ) (t : Timer)
    → t.cb ≡ none
    → Pending h l (a ∷ e)
    → Pending (put h a t) l e
drop_it h l e a t no_cb p = record {
  sorted = Sorted-put h a t l out p.sorted;
  active = λ b i. changed b (λ x. out (subst (λ y. In y l) x i)) (p.active b i);
  waiting = λ b i. changed b (λ x. p.distinct.0 (subst (λ y. In y e) x i)) (p.waiting b (inr i));
  apart = λ b i. p.apart b (inr i);
  distinct = p.distinct.1;
  kept = λ b q. elim (Bool-cases (b == a)) [
    | inl x ↦ absurd (
        q (ap (λ y. (put h a t y).cb) ((==_iff b a).0 x) ∙ ap (λ y. y.cb) (put_self h a t) ∙ no_cb))
    | inr x ↦ elsewhere b (ground arith) q
  ];
}
  where
    out : ¬ In a l
    out = p.apart a (inl refl)

    changed : (b : ℕ) → b ≢ a → IsActive h b → IsActive (put h a t) b
    changed b n q = λ z. q (ap (λ x. x.cb) (sym (put_other h a b t n)) ∙ z)

    placed : (b : ℕ) → b ≢ a → In b l ⊎ ((b ≡ a) ⊎ In b e) → In b l ⊎ In b e
    placed b n (inl i) = inl i
    placed b n (inr (inl x)) = absurd (n x)
    placed b n (inr (inr i)) = inr i

    elsewhere : (b : ℕ) → b ≢ a → IsActive (put h a t) b → In b l ⊎ In b e
    elsewhere b n q = placed b n (p.kept b (λ z. q (ap (λ x. x.cb) (put_other h a b t n) ∙ z)))

-- A timer of the set is taken out of it.
pub take_out :
    (m : Manager) (a : ℕ)
    → Inv m
    → IsActive m.store a
    → Pending m.store (erase m.store a m.timers) (a ∷ [])
take_out m a v q = record {
  sorted = erase-Sorted h a l v.sorted;
  active = λ b i. v.active b (erase-In h a b l i);
  waiting = λ b i. elim i [ inl x ↦ subst (IsActive h) (sym x) q | inr k ↦ absurd k ];
  apart = λ b i. elim i [
    | inl x ↦ subst (λ y. ¬ In y (erase h a l)) (sym x) (erase-In_self h a l v.sorted)
    | inr k ↦ absurd k
  ];
  distinct = ((λ i. i), tt);
  kept = λ b r. elim (Bool-cases (b == a)) [
    | inl x ↦ inr (inl ((==_iff b a).0 x))
    | inr x ↦ inl (In-erase_other h a b l (ground arith) (v.kept b r))
  ];
}
  where
    h : Store
    h = m.store

    l : List ℕ
    l = m.timers

pub all_back : (m : Manager) → Pending m.store m.timers [] → Inv m
all_back m p = record {
  sorted = p.sorted;
  active = p.active;
  kept = λ a q. elim (p.kept a q) [ inl i ↦ i | inr k ↦ absurd k ];
}

expire-Pending :
    (now : ℕ) (h : Store) (l e : List ℕ) (a : ℕ)
    → Pending h l (a ∷ e)
    → let s = expire now (h, l) a in Pending s.0 s.1 e
unfolding expire
expire-Pending now h l e a p = elim (Bool-cases (h a).is_recur) [
  | inl r ↦ rw r (put_back h l e a _ (p.waiting a (inl refl)) p)
  | inr r ↦ rw r (drop_it h l e a _ refl p)
]

pub expire_all-Pending :
    (now : ℕ) (e : List ℕ) (s : Store × List ℕ)
    → Pending s.0 s.1 e
    → let r = expire_all now e s in Pending r.0 r.1 []
unfolding expire_all
expire_all-Pending now [] s p = p
expire_all-Pending now (a ∷ e) (h, l) p =
    expire_all-Pending now e (expire now (h, l) a) (expire-Pending now h l e a p)
