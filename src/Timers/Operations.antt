-- ===== src/Timers/Operations.antt =====
-- Every operation of the timers keeps the invariant, and what each does to the timer it is about.
use hpserver_fw.Prelude.{
  ◌+◌, ◌%◌, ◌^◌, ℕ, ◌≡◌, ◌≢◌, ◌⊎◌, ◌↔◌, inl, inr, refl, sym, ap, subst, ◌∙◌, Bool, true, false, not,
  ◌&&◌, none, some, Option-cases, List, [], ◌∷◌, arith, ◌==◌, ==_iff, Bool-cases, if◌then◌else◌,
  if-true, if-false,
}
use hpserver_fw.Timers.Manager.{
  Timer, Manager, Store, Callback, is_set, put, less, same, insert, erase, add_ptr, new_timer,
  add_timer, cancel, refresh, reset, rescheduled, timer_manager, add64, sub64,
}
use hpserver_fw.Timers.Order.{
  In, put_other, put_self, Sorted-put, insert-Sorted, In-insert_self, In-insert_other, insert-In,
  In-contains,
}
use hpserver_fw.Timers.Invariant.{IsActive, Inv, Pending, put_back, drop_it, take_out, all_back}

some-ne-none : (c : Callback) → some c ≢ none
some-ne-none c e = cc

pub timer_manager-Inv : (now : ℕ) → Inv (timer_manager now)
unfolding timer_manager
timer_manager-Inv now = record {
  sorted = tt;
  active = λ a i. absurd i;
  kept = λ a q. absurd (q refl);
}

-- On a well-formed manager, a new timer with a callback that is not empty, at an address where no
-- timer has a callback, joins the set; its object has the interval, the callback and whether it
-- recurs as they are given, and its time is the interval after now, on 64 bits; the manager stays
-- well formed.
pub add_timer-Inv :
    (a now ms : ℕ) (cb : Callback) (is_recur : Bool) (m : Manager)
    → Inv m
    → (m.store a).cb ≡ none
    → let m' = (add_timer a now ms (some cb) is_recur m).0 in
      Inv m'
      × In a m'.timers
      × (m'.store a
          ≡ record { is_recur = is_recur; ms = ms; next = (now + ms) % 2 ^ 64; cb = some cb })
unfolding add_timer add_ptr new_timer add64
add_timer-Inv a now ms cb is_recur m v free = (
  record {
    sorted = insert-Sorted h a l (Sorted-put m.store a t l (λ i. v.active a i free) v.sorted);
    active = λ b i. active b (insert-In h a b l i);
    kept = λ b q. elim (Bool-cases (b == a)) [
      | inl x ↦ subst (λ y. In y (insert h a l)) (sym ((==_iff b a).0 x)) (In-insert_self h a l)
      | inr x ↦ kept b (ground arith) q
    ];
  },
  In-insert_self h a l,
  put_self m.store a t,
)
  where
    t : Timer
    t = new_timer now ms (some cb) is_recur

    h : Store
    h = put m.store a t

    l : List ℕ
    l = m.timers

    active : (b : ℕ) → (b ≡ a) ⊎ In b l → IsActive h b
    active b (inl x) = subst (IsActive h) (sym x) (λ z.
        some-ne-none cb (unfold new_timer in (ap (λ y. y.cb) (sym (put_self m.store a t)) ∙ z)))
    active b (inr i) = λ z. v.active b i (
        ap (λ y. y.cb)
          (sym (put_other m.store a b t (λ x. v.active a (subst (λ y. In y l) x i) free)))
        ∙ z)

    kept : (b : ℕ) → b ≢ a → IsActive h b → In b (insert h a l)
    kept b n q =
        In-insert_other h a b l (v.kept b (λ z. q (ap (λ y. y.cb) (put_other m.store a b t n) ∙ z)))

-- Erasing looks at times and addresses only.
same_times : (h k : Store) (a b : ℕ) → ((c : ℕ) → (h c).next ≡ (k c).next) → same h a b ≡ same k a b
unfolding same less
same_times h k a b f = rw (f a, f b)

erase_times :
    (h k : Store) (a : ℕ) (l : List ℕ)
    → ((c : ℕ) → (h c).next ≡ (k c).next)
    → erase h a l ≡ erase k a l
unfolding erase
erase_times h k a [] f = refl
erase_times h k a (b ∷ l) f = rw (same_times h k a b f, erase_times h k a l f)

silenced_times : (h : Store) (a c : ℕ) → (h c).next ≡ (put h a (record (h a) { cb = none }) c).next
silenced_times h a c = elim (Bool-cases (c == a)) [
  | inl x ↦
      let e : c ≡ a = (==_iff c a).0 x in
      ap (λ y. (h y).next) e
      ∙ ap (λ y. y.next) (sym (put_self h a (record (h a) { cb = none })))
      ∙ ap (λ y. (put h a (record (h a) { cb = none }) y).next) (sym e)
  | inr x ↦ ap (λ y. y.next) (sym (put_other h a c _ (ground arith)))
]

cancel_idle : (a : ℕ) (m : Manager) → (m.store a).cb ≡ none → cancel a m ≡ some (m, false)
unfolding cancel
cancel_idle a m e = if-false _ _ (ap is_set e)

cancel_active :
    (a : ℕ) (m : Manager) (c : Callback)
    → (m.store a).cb ≡ some c
    → Inv m
    → let h = put m.store a (record (m.store a) { cb = none }) in
      cancel a m ≡ some (record m { store = h; timers = erase h a m.timers }, true)
unfolding cancel
cancel_active a m c e v =
    if-true _ _ (ap is_set e)
    ∙ if-true _ _ (
        In-contains (put m.store a (record (m.store a) { cb = none })) a m.timers
          (v.kept a (λ z. some-ne-none c (sym e ∙ z))))

-- On a well-formed manager, cancel never erases the end of the set: it returns a manager, well
-- formed, and true exactly if the timer had a callback. Afterwards the timer has none, and every
-- other timer is as before.
pub cancel-Inv :
    (a : ℕ) (m : Manager)
    → Inv m
    → (m' : Manager) × (active : Bool) × (cancel a m ≡ some (m', active))
      × Inv m'
      × ((m'.store a).cb ≡ none)
      × ((active ≡ true) ↔ IsActive m.store a)
      × ((b : ℕ) → b ≢ a → m'.store b ≡ m.store b)
cancel-Inv a m v = elim (Option-cases (m.store a).cb) [
  | inl e ↦ (m, false, cancel_idle a m e, v, e, ((λ x. cc), (λ q. absurd (q e))), λ b n. refl)
  | inr (c, e) ↦
      let t = record (m.store a) { cb = none } in
      let m' = record m { store = put m.store a t; timers = erase (put m.store a t) a m.timers } in
      let was : IsActive m.store a = λ z. some-ne-none c (sym e ∙ z) in
      (
        m',
        true,
        cancel_active a m c e v,
        all_back m' (
            subst (λ l. Pending (put m.store a t) l [])
              (erase_times m.store (put m.store a t) a m.timers (silenced_times m.store a))
              (drop_it m.store (erase m.store a m.timers) [] a t refl (take_out m a v was))),
        ap (λ y. y.cb) (put_self m.store a t),
        ((λ _. was), (λ _. refl)),
        λ b n. put_other m.store a b t n,
      )
]

-- The timer with another time goes back into the set, from which it was taken.
moved-Inv :
    (a : ℕ) (t : Timer) (m : Manager)
    → Inv m
    → IsActive m.store a
    → t.cb ≡ (m.store a).cb
    → (tick : Bool)
    → let h = put m.store a t in
      Inv (record m { store = h; timers = insert h a (erase m.store a m.timers); tickled = tick })
moved-Inv a t m v q e tick =
    all_back _
      (put_back m.store (erase m.store a m.timers) [] a t (λ z. q (sym e ∙ z)) (take_out m a v q))

refreshed : ℕ → ℕ → Manager → Manager
refreshed a now m =
    let h = put m.store a (record (m.store a) { next = add64 now (m.store a).ms }) in
    record m { store = h; timers = insert h a (erase m.store a m.timers) }

refresh_active :
    (a now : ℕ) (m : Manager) (c : Callback)
    → (m.store a).cb ≡ some c
    → Inv m
    → refresh a now m ≡ (refreshed a now m, true)
unfolding refresh refreshed
refresh_active a now m c e v =
    if-false _ _ (ap (λ o. not (is_set o)) e)
    ∙ if-true _ _ (In-contains m.store a m.timers (v.kept a (λ z. some-ne-none c (sym e ∙ z))))

refresh_idle : (a now : ℕ) (m : Manager) → (m.store a).cb ≡ none → refresh a now m ≡ (m, false)
unfolding refresh
refresh_idle a now m e = if-true _ _ (ap (λ o. not (is_set o)) e)

-- What `refresh` promises, of its result.
abbrev pub Refreshes : ℕ → ℕ → Manager → Manager × Bool → Type 0
Refreshes a now m r =
    Inv r.0
    × ((b : ℕ) → b ≢ a → r.0.store b ≡ m.store b)
    × ((IsActive m.store a
          × (r.1 ≡ true)
          × (r.0.store a ≡ record (m.store a) { next = add64 now (m.store a).ms }))
        ⊎ (((m.store a).cb ≡ none) × (r ≡ (m, false))))

-- On a well-formed manager, refresh leaves a well-formed manager and every other timer as before.
-- Either the timer had a callback, the result is true, and of the timer only its time changes, to
-- now plus its interval; or it had none, the result is false, and nothing changes.
pub refresh-Refreshes : (a now : ℕ) (m : Manager) → Inv m → Refreshes a now m (refresh a now m)
unfolding refreshed
refresh-Refreshes a now m v = elim (Option-cases (m.store a).cb) [
  | inl e ↦
      subst (Refreshes a now m) (sym (refresh_idle a now m e)) (v, (λ b n. refl), inr (e, refl))
  | inr (c, e) ↦
      let t = record (m.store a) { next = add64 now (m.store a).ms } in
      let was : IsActive m.store a = λ z. some-ne-none c (sym e ∙ z) in
      subst (Refreshes a now m) (sym (refresh_active a now m c e v)) (
        moved-Inv a t m v was refl m.tickled,
        (λ b n. put_other m.store a b t n),
        inl (was, refl, put_self m.store a t),
      )
]

reset_active :
    (a ms now : ℕ) (from_now : Bool) (m : Manager) (c : Callback)
    → (ms == (m.store a).ms) && not from_now ≡ false
    → (m.store a).cb ≡ some c
    → Inv m
    → let h = put m.store a (rescheduled (m.store a) ms now from_now) in
      let r = add_ptr (record m { store = h; timers = erase m.store a m.timers }) a in
      reset a ms now from_now m ≡ (r.0, true, r.1)
unfolding reset
reset_active a ms now from_now m c changes e v =
    if-false _ _ changes
    ∙ if-false _ _ (ap (λ o. not (is_set o)) e)
    ∙ if-true _ _ (In-contains m.store a m.timers (v.kept a (λ z. some-ne-none c (sym e ∙ z))))

reset_idle :
    (a ms now : ℕ) (from_now : Bool) (m : Manager)
    → (ms == (m.store a).ms) && not from_now ≡ false
    → (m.store a).cb ≡ none
    → reset a ms now from_now m ≡ (m, false, false)
unfolding reset
reset_idle a ms now from_now m changes e =
    if-false _ _ changes ∙ if-true _ _ (ap (λ o. not (is_set o)) e)

reset_same :
    (a ms now : ℕ) (from_now : Bool) (m : Manager)
    → (ms == (m.store a).ms) && not from_now ≡ true
    → reset a ms now from_now m ≡ (m, true, false)
unfolding reset
reset_same a ms now from_now m h = if-true _ _ h

abbrev pub Resets : (a ms now : ℕ) → Bool → Manager → Manager × Bool × Bool → Type 0
Resets a ms now from_now m r =
    Inv r.0
    × ((b : ℕ) → b ≢ a → r.0.store b ≡ m.store b)
    × (((ms ≡ (m.store a).ms) × (from_now ≡ false) × (r ≡ (m, true, false)))
        ⊎ ((((m.store a).cb ≡ none) × (r ≡ (m, false, false)))
            ⊎ (IsActive m.store a
                × (r.1 ≡ true)
                × (r.0.store a ≡ record (m.store a) {
                  ms = ms;
                  next = add64 (if from_now then now else sub64 (m.store a).next (m.store a).ms) ms;
                }))))

-- On a well-formed manager, reset leaves a well-formed manager and every other timer as before.
-- Either the interval is the old one and the call does not count from now, the result is true, and
-- nothing changes; or the timer has no callback, the result is false, and nothing changes; or it
-- has one, the result is true, the interval is the new one, and the time is the new interval after
-- now, or after the time less the old interval, as the call asks.
pub reset-Resets :
    (a ms now : ℕ) (from_now : Bool) (m : Manager)
    → Inv m
    → Resets a ms now from_now m (reset a ms now from_now m)
unfolding add_ptr rescheduled
reset-Resets a ms now from_now m v = elim (Bool-cases ((ms == (m.store a).ms) && not from_now)) [
  | inl idle ↦
      subst (Resets a ms now from_now m) (sym (reset_same a ms now from_now m idle))
        (v, (λ b n. refl), inl (ground arith, ground arith, refl))
  | inr changes ↦ elim (Option-cases (m.store a).cb) [
    | inl e ↦
        subst (Resets a ms now from_now m) (sym (reset_idle a ms now from_now m changes e))
          (v, (λ b n. refl), inr (inl (e, refl)))
    | inr (c, e) ↦
        let t = rescheduled (m.store a) ms now from_now in
        let was : IsActive m.store a = λ z. some-ne-none c (sym e ∙ z) in
        subst (Resets a ms now from_now m) (sym (reset_active a ms now from_now m c changes e v)) (
          moved-Inv a t m v was (refl) _,
          (λ b n. put_other m.store a b t n),
          inr (inr (was, refl, put_self m.store a t)),
        )
  ]
]
