-- ===== src/IoManager/Delivery.antt =====
-- cancelAll, and what the loop of `idle` does with an event (windgent/iomanager.cc).
use hpserver_fw.Prelude.{
  ℕ, ◌<◌, ◌≤◌, ◌≡◌, ◌⊎◌, inl, inr, refl, sym, ap, ap₂, ◌∙◌, Bool, true, false, not, ◌&&◌, ◌||◌,
  none, some, arith, leb, leb→le, Bool-cases, if-true, if-false,
}
use hpserver_fw.IoManager.Contexts.{
  Event, read_event, write_event, Events, has, any_event, no_events, trigger_event,
}
use hpserver_fw.IoManager.Operations.{
  IoManager, wanted, fire, fire_if, fired, in_table, cancel_all, Ready, real_events, handle_ready,
}
use hpserver_fw.IoManager.Invariant.{Inv, inside, outside}
use hpserver_fw.IoManager.Registered.{is_registered, registered-within, registered-beyond}
use hpserver_fw.IoManager.Sequence.{
  write_kept, fire_if-Passed, watching, watching-IsTable, Triggered, twice-Triggered, minus,
}

minus_self : (e : Events) → minus e e ≡ no_events
minus_self e = λ i. record { read = none_left e.read i; write = none_left e.write i }
  where
    none_left : (b : Bool) → b && not b ≡ false
    none_left true = refl
    none_left false = refl

-- `cancelAll` promises: without events, or where epoll_ctl refuses, nothing; else all are triggered.
abbrev pub CancelsAll : ℕ → IoManager → IoManager → Bool → Type 0
CancelsAll fd m m' ok =
    ((ok ≡ false) × (m' ≡ m)) ⊎ ((ok ≡ true) × Triggered (m.contexts fd).events fd m m')

-- The descriptor has a registered event.
pub has_registered : IoManager → ℕ → Bool
unfolding is_registered
has_registered m fd = is_registered m fd read_event || is_registered m fd write_event

has_registered-within :
    (m : IoManager) (fd : ℕ) → fd < m.size → has_registered m fd ≡ any_event (m.contexts fd).events
unfolding has_registered
has_registered-within m fd h =
    ap₂ (λ a b. a || b) (registered-within m fd read_event h) (registered-within m fd write_event h)

has_registered-beyond : (m : IoManager) (fd : ℕ) → m.size ≤ fd → has_registered m fd ≡ false
unfolding has_registered
has_registered-beyond m fd h =
    ap₂ (λ a b. a || b) (registered-beyond m fd read_event h) (registered-beyond m fd write_event h)

cancelled_all :
    (fd : ℕ) (m : IoManager)
    → Inv m
    → fd < m.size
    → any_event (m.contexts fd).events ≡ true
    → (m' : IoManager) × (cancel_all false fd m ≡ some (m', true))
      × Triggered (m.contexts fd).events fd m m'
unfolding cancel_all wanted
cancelled_all fd m v h k =
    let events = (m.contexts fd).events in
    let (m', run, t) =
      twice-Triggered (λ s. has read_event (s.contexts fd).events)
        (λ s. has write_event (s.contexts fd).events) fd m events v h refl (λ s e. e) (λ b. b)
        (λ b. b) in
    (
      m',
      if-false _ _ (ap not (inside m.size fd v.table.bounded h))
          ∙ if-false _ _ (ap not k)
          ∙ ap
              (λ w. fired (
                fire_if (λ s. has write_event (s.contexts fd).events) fd write_event
                  (fire_if (λ s. has read_event (s.contexts fd).events) fd read_event
                    (some (watching m fd w)))))
              (sym (ap wanted (minus_self events)))
          ∙ ap fired run,
      t,
    )

-- On a well-formed manager, cancelAll of any descriptor that is not negative fails no assertion and
-- returns true exactly if the descriptor has a registered event and epoll_ctl accepts the call;
-- after false nothing has changed, and after true the manager is well formed, for each of the
-- events the callback that waited or else the fiber is put into the queue of its scheduler, and
-- none is registered.
pub cancel_all-CancelsAll :
    (refused : Bool) (fd : ℕ) (m : IoManager)
    → Inv m
    → (m' : IoManager) × (cancel_all refused fd m ≡ some (m', has_registered m fd && not refused))
      × CancelsAll fd m m' (has_registered m fd && not refused)
unfolding cancel_all
cancel_all-CancelsAll refused fd m v = elim (Bool-cases (leb m.size fd)) [
  | inl e ↦
      let q = ap (λ t. t && not refused) (has_registered-beyond m fd (leb→le _ _ e)) in
      (
        m,
        if-true _ _ (outside m.size fd v.table.bounded e) ∙ ap (λ t. some (m, t)) (sym q),
        inl (q, refl),
      )
  | inr e ↦
      let h : fd < m.size = ground arith in
      let out : not (in_table m.size fd) ≡ false = ap not (inside m.size fd v.table.bounded h) in
      let w = has_registered-within m fd h in
      elim (Bool-cases (any_event (m.contexts fd).events)) [
        | inr r ↦
            let q = ap (λ t. t && not refused) (w ∙ r) in
            (
              m,
              if-false _ _ out ∙ if-true _ _ (ap not r) ∙ ap (λ t. some (m, t)) (sym q),
              inl (q, refl),
            )
        | inl r ↦ elim (Bool-cases refused) [
          | inl x ↦
              let q = ap₂ (λ t u. t && not u) (w ∙ r) x in
              (
                m,
                if-false _ _ out
                    ∙ if-false _ _ (ap not r)
                    ∙ if-true _ _ x
                    ∙ ap (λ t. some (m, t)) (sym q),
                inl (q, refl),
              )
          | inr x ↦
              let q = ap₂ (λ t u. t && not u) (w ∙ r) x in
              let (m', run, c) = cancelled_all fd m v h r in
              (m', ap (λ t. cancel_all t fd m) x ∙ run ∙ ap (λ t. some (m', t)) (sym q), inr (q, c))
        ]
      ]
]

-- On a well-formed manager, an event for a descriptor in the table that names at least one event,
-- all of them registered there, with epoll_ctl accepting, fails no assertion: for each of the
-- events the callback that waits for it or else the fiber is put into the queue of its scheduler,
-- for any thread, and the events are no longer registered or counted.
pub handle_ready-Triggered :
    (fd : ℕ) (r : Ready) (m : IoManager)
    → Inv m
    → fd < m.size
    → any_event (real_events r) ≡ true
    → ((real_events r).read ≡ true → (m.contexts fd).events.read ≡ true)
    → ((real_events r).write ≡ true → (m.contexts fd).events.write ≡ true)
    → (m' : IoManager) × (handle_ready false fd r m ≡ some m') × Triggered (real_events r) fd m m'
unfolding handle_ready
handle_ready-Triggered fd r m v h some_event k k' =
    let real = real_events r in
    let (m', run, t) =
      twice-Triggered (λ s. real.read) (λ s. real.write) fd m real v h refl (λ s e. refl) k k' in
    (m', if-false _ _ (asked real (m.contexts fd).events some_event k k') ∙ run, t)
  where
    asked :
        (real e : Events)
        → any_event real ≡ true
        → (real.read ≡ true → e.read ≡ true)
        → (real.write ≡ true → e.write ≡ true)
        → not ((e.read && real.read) || (e.write && real.write)) ≡ false
    asked real e a k k' = ground arith

fire-unregistered :
    (fd : ℕ) (event : Event) (m : IoManager)
    → has event (m.contexts fd).events ≡ false
    → fire fd event m ≡ none
unfolding fire trigger_event
fire-unregistered fd event m e = rw (e, fire, trigger_event) refl

true_or : (a b : Bool) → b ≡ true → a || b ≡ true
true_or a b e = ground arith

-- On a well-formed manager, where epoll_ctl accepts the call, an error or a hang-up on a descriptor
-- in the table that is registered for reading only fails an assertion: the event is taken as a
-- write too, and that is triggered though it is not registered.
pub handle_ready-aborts :
    (fd : ℕ) (r : Ready) (m : IoManager)
    → Inv m
    → fd < m.size
    → r.error || r.hang_up ≡ true
    → (m.contexts fd).events ≡ record { read = true; write = false }
    → handle_ready false fd r m ≡ none
unfolding handle_ready fire_if real_events
handle_ready-aborts fd r m v h bad only_read =
    let events = (m.contexts fd).events in
    let real = real_events r in
    let reads : real.read ≡ true = true_or r.readable (r.error || r.hang_up) bad in
    let writes : real.write ≡ true = true_or r.writable (r.error || r.hang_up) bad in
    let m0 = watching m fd (wanted (minus events real)) in
    let (m1, run, p) =
      fire_if-Passed (λ s. real.read) read_event fd m0 real.read
        (watching-IsTable m fd (wanted (minus events real)) v.table h) h refl
        (λ b. ap (λ e. e.read) only_read) in
    let unset : (m1.contexts fd).events.write ≡ false =
      ap (λ x. x.write) p.events ∙ write_kept events real.read ∙ ap (λ e. e.write) only_read in
    if-false _ _
      (asked events.read real.read events.write real.write (ap (λ e. e.read) only_read) reads)
    ∙ ap (fire_if (λ s. real.write) fd write_event) run
    ∙ if-true _ _ writes
    ∙ fire-unregistered fd write_event m1 unset
  where
    asked : (a b c d : Bool) → a ≡ true → b ≡ true → not ((a && b) || (c && d)) ≡ false
    asked a b c d e f = ground arith
