-- ===== src/IoManager/Add.antt =====
-- addEvent with the growth of the table (windgent/iomanager.cc).
use hpserver_fw.Prelude.{
  ℕ, ◌+◌, ◌*◌, ◌/◌, ◌-◌, ◌^◌, ◌≤◌, ◌<◌, ◌≡◌, inl, inr, refl, sym, ap, subst, ◌∙◌, ◌&&◌, ◌||◌, Bool,
  true, false, not, Option, none, some, arith, ltb, lt→ltb, ltb→lt, Bool-cases, if◌then◌else◌,
  if-true, if-false,
}
use hpserver_fw.Scheduler.Queue.{is_some}
use hpserver_fw.IoManager.Contexts.{
  Event, read_event, write_event, has, with_event, EventContext, empty_context, FdContext,
  get_context, set_context,
}
use hpserver_fw.IoManager.Operations.{
  IoManager, update, wanted, increment, context_resize, waiter, is_free, register, add_event,
}
use hpserver_fw.IoManager.Invariant.{
  Waits, Matches, bit, Inv, update_self, update_other, count_le, watched-Inv, changed-IsTable,
  joined, joined-IsContext, inside, not_inside, weight-joined,
}
use hpserver_fw.IoManager.Registered.{
  is_registered, SameBut, set_context-events, update-SameBut, update-registered, registered-within,
  has-with_self, has-with_other,
}
use native.Mathlib.Nat.{mod-eq_of_lt}
use hpserver_fw.IoManager.Resize.{context_resize-Inv, registered-resized}

-- What is to wait: the callback, or else the fiber that runs, for the scheduler.
pub expected : (s fiber : ℕ) (cb : Option ℕ) → EventContext
expected s fiber (some f) = record { scheduler = some s; fiber = none; cb = some f }
expected s fiber none = record { scheduler = some s; fiber = some fiber; cb = none }

waiter-expected : (s fiber : ℕ) (cb : Option ℕ) → waiter (some s) fiber cb ≡ expected s fiber cb
unfolding waiter expected
waiter-expected s fiber none = refl
waiter-expected s fiber (some f) = refl

-- What `addEvent` does, of the manager it leaves.
pub record Adds (refused : Bool) (s fiber fd : ℕ) (event : Event) (cb : Option ℕ) (m m' : IoManager)
    : Type 0 where
  pub valid : Inv m'
  pub registered : is_registered m' fd event ≡ not refused
  pub others : SameBut fd event m m'
  pub pending : m'.pending ≡ m.pending + bit (not refused)
  pub context :
      get_context event (m'.contexts fd) ≡ (if refused then empty_context else expected s fiber cb)
  pub nothing_queued : m'.queues ≡ m.queues

waiter-Waits : (s fiber : ℕ) (cb : Option ℕ) → Waits (waiter (some s) fiber cb)
unfolding waiter
waiter-Waits s fiber none = record {
  scheduler = s;
  scheduled_on = refl;
  one_of = inl (fiber, refl, refl);
}
waiter-Waits s fiber (some f) = record {
  scheduler = s;
  scheduled_on = refl;
  one_of = inr (f, refl, refl);
}

get-joined :
    (event : Event) (x : EventContext) (c : FdContext) → get_context event (joined event x c) ≡ x
unfolding get_context set_context
get-joined read_event x c = refl
get-joined write_event x c = refl

increment_lem : (p : ℕ) → p < 2 ^ 64 - 1 → increment p ≡ p + 1
unfolding increment
increment_lem p h = mod-eq_of_lt {n = p + 1} {m = 2 ^ 64} (omega arith)

was_empty :
    (fd : ℕ) (event : Event) (m : IoManager)
    → Inv m
    → fd < m.size
    → has event (m.contexts fd).events ≡ false
    → get_context event (m.contexts fd) ≡ empty_context
was_empty fd event m v h r =
    subst (λ b. Matches b (get_context event (m.contexts fd))) r
      ((v.table.sound fd h).matches event)

abbrev registering : ℕ → ℕ → ℕ → Event → Option ℕ → IoManager → IoManager
registering s fiber fd event cb m = record m {
  contexts = update m.contexts fd (joined event (waiter (some s) fiber cb) (m.contexts fd));
  pending = increment m.pending;
  interest = update m.interest fd (wanted (with_event event (m.contexts fd).events));
}

registering-Adds :
    (s fiber fd : ℕ) (event : Event) (cb : Option ℕ) (m : IoManager)
    → Inv m
    → fd < m.size
    → has event (m.contexts fd).events ≡ false
    → Adds false s fiber fd event cb m (registering s fiber fd event cb m)
registering-Adds s fiber fd event cb m v h r =
    let x = waiter (some s) fiber cb in
    let c = joined event x (m.contexts fd) in
    let m' = registering s fiber fd event cb m in
    let more =
      increment_lem m.pending
        (omega (arith, v.table.counted, count_le m.size m.contexts, v.table.bounded)) in
    let t =
      changed-IsTable m fd c (increment m.pending) v.table h
        (joined-IsContext event x fd (m.contexts fd) (v.table.sound fd h) (waiter-Waits s fiber cb))
        (omega (arith, weight-joined event x (m.contexts fd) r, more)) in
    let bits : c.events ≡ with_event event (m.contexts fd).events =
      set_context-events event x
        (record (m.contexts fd) { events = with_event event (m.contexts fd).events }) in
    record {
      valid =
          watched-Inv m' fd
            (record {
              sized = t.sized;
              bounded = t.bounded;
              sound = t.sound;
              counted = t.counted;
              unwatched =
                  λ i k. update_other m.interest fd i _ (omega arith) ∙ v.table.unwatched i k;
            })
            (λ i k n.
              update_other m.interest fd i _ n
              ∙ v.mirrored i k
              ∙ ap (λ y. wanted y.events) (sym (update_other m.contexts fd i c n)))
            (update_self m.interest fd _
              ∙ ap wanted (sym bits)
              ∙ ap (λ y. wanted y.events) (sym (update_self m.contexts fd c)));
      registered =
          update-registered m' m.contexts fd event c h refl
          ∙ ap (has event) bits
          ∙ has-with_self event (m.contexts fd).events;
      others =
          update-SameBut m m' fd event c refl refl
            (λ e n. ap (has e) bits ∙ has-with_other event e _ n);
      pending = more;
      context =
          ap (get_context event) (update_self m.contexts fd c)
          ∙ get-joined event x (m.contexts fd)
          ∙ waiter-expected s fiber cb;
      nothing_queued = refl;
    }

register-Adds :
    (refused : Bool) (s fiber : ℕ) (executing : Bool) (fd : ℕ) (event : Event) (cb : Option ℕ)
    (m : IoManager)
    → Inv m
    → fd < m.size
    → has event (m.contexts fd).events ≡ false
    → is_some cb || executing ≡ true
    → (m' : IoManager) × (register refused (some s) fiber executing fd event cb m
        ≡ some (m', not refused))
      × Adds refused s fiber fd event cb m m'
unfolding register
register-Adds true s fiber executing fd event cb m v h r x = (
  m,
  if-false _ _ r,
  record {
    valid = v;
    registered = registered-within m fd event h ∙ r;
    others = λ i e d. refl;
    pending = omega arith;
    context = was_empty fd event m v h r;
    nothing_queued = refl;
  },
)
register-Adds false s fiber executing fd event cb m v h r x = (
  registering s fiber fd event cb m,
  if-false _ _ r
      ∙ if-true _ _ (
          ap (λ c. is_free c && (is_some cb || executing)) (was_empty fd event m v h r)
          ∙ (unfold is_free in x)),
  registering-Adds s fiber fd event cb m v h r,
)

-- On a well-formed manager, addEvent of an event that is not registered for a descriptor below 2 ^
-- 30, within a scheduler, with a callback or from a fiber that is executing, fails no assertion and
-- succeeds exactly if epoll_ctl accepts the call. The manager stays well formed and every other
-- event is registered as before; after a success the event is registered with the scheduler and the
-- callback or, without one, the running fiber, and counted as pending.
pub add_event-Adds :
    (refused : Bool) (s fiber : ℕ) (executing : Bool) (fd : ℕ) (event : Event) (cb : Option ℕ)
    (m : IoManager)
    → Inv m
    → fd < 2 ^ 30
    → is_registered m fd event ≡ false
    → is_some cb || executing ≡ true
    → (m' : IoManager) × (add_event refused (some s) fiber executing fd event cb m
        ≡ some (m', not refused))
      × Adds refused s fiber fd event cb m m'
unfolding add_event
add_event-Adds refused s fiber executing fd event cb m v b r x = elim (Bool-cases (ltb fd m.size)) [
  | inl e ↦
      let h = ltb→lt _ _ e in
      let (m', run, a) =
        register-Adds refused s fiber executing fd event cb m v h
          (sym (registered-within m fd event h) ∙ r) x in
      (m', if-true _ _ (inside m.size fd v.table.bounded h) ∙ run, a)
  | inr e ↦
      let n = fd * 3 / 2 in
      let beyond : m.size ≤ fd = ground arith in
      let grow : m.size ≤ n = omega (arith, v.table.sized) in
      let room : fd < n = omega (arith, v.table.sized) in
      let g = context_resize n m in
      let vg = context_resize-Inv m n v grow (omega arith) in
      let h : fd < g.size = unfold context_resize in room in
      let (m', run, a) =
        register-Adds refused s fiber executing fd event cb g vg h
          (sym (registered-within g fd event h) ∙ registered-resized m n fd event grow ∙ r) x in
      (
        m',
        if-false _ _ (not_inside m.size fd v.table.bounded e)
            ∙ if-true _ _ (lt→ltb fd g.size h)
            ∙ run,
        record {
          valid = a.valid;
          registered = a.registered;
          others = λ i e d. a.others i e d ∙ registered-resized m n i e grow;
          pending = a.pending;
          context = a.context;
          nothing_queued = a.nothing_queued;
        },
      )
]
