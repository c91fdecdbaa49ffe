-- ===== src/Timers/Collect.antt =====
-- `listExpiredCbs` as a whole.
use hpserver_fw.Prelude.{
  ℕ, ◌<◌, ◌≡◌, ◌⊎◌, inl, inr, refl, sym, ap, subst, ◌∙◌, true, false, not, ◌&&◌, Option, List, [],
  ◌∷◌, ◌++◌, arith, ltb, Bool-cases, ltb→lt, if-true, if-false, All, map, append-nil,
}
use hpserver_fw.Timers.Manager.{
  Manager, Store, Callback, split_expired, take_expired, expired_of, list_expired_cbs, rollover,
}
use hpserver_fw.Timers.Order.{Sorted, In}
use hpserver_fw.Timers.Expiry.{
  Cut, Distinct, Sorted-Distinct, split_expired-Cut, pushed-map, later-All,
}
use hpserver_fw.Timers.Invariant.{Inv, Pending, all_back, expire_all-Pending}

abbrev pub callbacks : Manager → List ℕ → List (Option Callback)
callbacks m = map (λ a. (m.store a).cb)

-- In, of a joined list.
In-left : (a : ℕ) (xs ys : List ℕ) → In a xs → In a (xs ++ ys)
In-left a [] ys i = absurd i
In-left a (x ∷ xs) ys (inl e) = inl e
In-left a (x ∷ xs) ys (inr i) = inr (In-left a xs ys i)

In-right : (a : ℕ) (xs ys : List ℕ) → In a ys → In a (xs ++ ys)
In-right a [] ys i = i
In-right a (x ∷ xs) ys i = inr (In-right a xs ys i)

In-split : (a : ℕ) (xs ys : List ℕ) → In a (xs ++ ys) → In a xs ⊎ In a ys
In-split a [] ys i = inr i
In-split a (x ∷ xs) ys (inl e) = inl (inl e)
In-split a (x ∷ xs) ys (inr i) = elim (In-split a xs ys i) [ inl j ↦ inl (inr j) | inr j ↦ inr j ]

Sorted-right : (h : Store) (xs ys : List ℕ) → Sorted h (xs ++ ys) → Sorted h ys
Sorted-right h [] ys s = s
Sorted-right h (x ∷ xs) ys s = Sorted-right h xs ys s.1

Distinct-left : (xs ys : List ℕ) → Distinct (xs ++ ys) → Distinct xs
Distinct-left [] ys d = tt
Distinct-left (x ∷ xs) ys d = ((λ i. d.0 (In-left x xs ys i)), Distinct-left xs ys d.1)

Distinct-apart : (xs ys : List ℕ) → Distinct (xs ++ ys) → (a : ℕ) → In a xs → ¬ In a ys
Distinct-apart [] ys d a i = absurd i
Distinct-apart (x ∷ xs) ys d a (inl e) = λ j. d.0 (In-right x xs ys (subst (λ y. In y ys) e j))
Distinct-apart (x ∷ xs) ys d a (inr i) = Distinct-apart xs ys d.1 a i

-- A front part of the set is taken out.
front_out :
    (m : Manager) (due later : List ℕ) → Inv m → due ++ later ≡ m.timers → Pending m.store later due
front_out m due later v e =
    let s = subst (Sorted m.store) (sym e) v.sorted in
    let d = Sorted-Distinct m.store (due ++ later) s in
    record {
      sorted = Sorted-right m.store due later s;
      active = λ a i. v.active a (subst (In a) e (In-right a due later i));
      waiting = λ a i. v.active a (subst (In a) e (In-left a due later i));
      apart = Distinct-apart due later d;
      distinct = Distinct-left due later d;
      kept = λ a q. elim (In-split a due later (subst (In a) (sym e) (v.kept a q))) [
        | inl i ↦ inr i
        | inr i ↦ inl i
      ];
    }

-- The result of a collection that takes `due` out of the set.
abbrev pub Collects : Manager → List ℕ → Manager × List (Option Callback) → Type 0
Collects m due r = Inv r.0 × (r.1 ≡ callbacks m due)

collect :
    (now : ℕ) (m : Manager) (due later : List ℕ)
    → Inv m
    → due ++ later ≡ m.timers
    → Collects m due (take_expired now (record m { previous_time = now }) (due, later))
unfolding take_expired
collect now m due later v e =
    let p = front_out m due later v e in
    (
      all_back _ (expire_all-Pending now due (m.store, later) p),
      pushed-map now due m.store (m.store, later) p.distinct (λ a i. refl),
    )

same_set : (m : Manager) (now : ℕ) → Inv m → Inv (record m { previous_time = now })
same_set m now v = record { sorted = v.sorted; active = v.active; kept = v.kept }

-- Nothing is due before the time of the first timer.
nothing_due :
    (now : ℕ) (m : Manager) (first : ℕ) (others : List ℕ)
    → Inv m
    → m.timers ≡ first ∷ others
    → now < (m.store first).next
    → Cut m.store now m.timers [] m.timers
nothing_due now m first others v e h = record {
  joined = refl;
  all_due = tt;
  all_later =
      let s = subst (Sorted m.store) e v.sorted in
      subst (All (λ b. now < (m.store b).next)) (sym e)
        (h, later-All m.store now first others h s.0);
}

abbrev pub Expires : ℕ → Manager → Manager × List (Option Callback) → Type 0
Expires now m r =
    (due : List ℕ) × (later : List ℕ) × Cut m.store now m.timers due later × Collects m due r

expired_of-Expires :
    (now a : ℕ) (m : Manager) (l : List ℕ)
    → Inv m
    → rollover now m.previous_time ≡ false
    → m.timers ≡ l
    → Expires now m (expired_of now a m l)
unfolding expired_of
expired_of-Expires now a m [] v steady e =
    ([], [], record { joined = sym e; all_due = tt; all_later = tt }, (v, refl))
expired_of-Expires now a m (first ∷ others) v steady e =
    elim (Bool-cases (not (rollover now m.previous_time) && ltb now (m.store first).next)) [
      | inl early ↦
          let lt : now < (m.store first).next = ltb→lt _ _ (ground (arith, steady)) in
          subst (Expires now m) (sym (if-true _ _ early))
            ([], m.timers, nothing_due now m first others v e lt, (same_set m now v, refl))
      | inr due ↦
          let parts = split_expired m.store now a false (first ∷ others) in
          let cut =
            split_expired-Cut m.store now a (first ∷ others) (subst (Sorted m.store) e v.sorted) in
          subst (Expires now m)
            (sym (
              if-false _ _ due
              ∙ ap
                  (λ r.
                    take_expired now (record m { previous_time = now })
                      (split_expired m.store now a r (first ∷ others)))
                  steady))
            (
              parts.0,
              parts.1,
              record {
                joined = cut.joined ∙ sym e;
                all_due = cut.all_due;
                all_later = cut.all_later;
              },
              collect now m parts.0 parts.1 v (cut.joined ∙ sym e),
            )
    ]

-- On a well-formed manager, where no clock rollover is detected and wherever the object for the
-- current time lies in memory, the set is cut into the timers due by now and the later ones; the
-- callbacks handed out are those of the due timers, in the order of the set, and the manager stays
-- well formed.
pub list_expired_cbs-Expires :
    (now a : ℕ) (m : Manager)
    → Inv m
    → rollover now m.previous_time ≡ false
    → Expires now m (list_expired_cbs now a m)
unfolding list_expired_cbs
list_expired_cbs-Expires now a m v steady = expired_of-Expires now a m m.timers v steady refl

expired_of_all :
    (now a : ℕ) (m : Manager) (l : List ℕ)
    → Inv m
    → rollover now m.previous_time ≡ true
    → m.timers ≡ l
    → Collects m m.timers (expired_of now a m l)
unfolding expired_of
expired_of_all now a m [] v rolled e = (v, ap (callbacks m) (sym e))
expired_of_all now a m (first ∷ others) v rolled e =
    subst (Collects m m.timers)
      (sym (
        if-false _ _ (ap (λ r. not r && ltb now (m.store first).next) rolled)
        ∙ ap
            (λ r.
              take_expired now (record m { previous_time = now })
                (split_expired m.store now a r (first ∷ others)))
            rolled
        ∙ ap (λ l. take_expired now (record m { previous_time = now }) (l, [])) (sym e)))
      (collect now m m.timers [] v (append-nil m.timers))

-- On a well-formed manager, where a clock rollover is detected, the callbacks of all timers of the
-- set are handed out, in its order, and the manager stays well formed.
pub list_expired_cbs-rollover :
    (now a : ℕ) (m : Manager)
    → Inv m
    → rollover now m.previous_time ≡ true
    → Inv (list_expired_cbs now a m).0
      × ((list_expired_cbs now a m).1 ≡ map (λ b. (m.store b).cb) m.timers)
unfolding list_expired_cbs
list_expired_cbs-rollover now a m v rolled = expired_of_all now a m m.timers v rolled refl
