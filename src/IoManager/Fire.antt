-- ===== src/IoManager/Fire.antt =====
-- triggerEvent with its decrement: what it does to a table of sound contexts.
use hpserver_fw.Prelude.{
  ℕ, ◌+◌, ◌-◌, ◌%◌, ◌^◌, ◌<◌, ◌≡◌, ◌≢◌, inl, inr, refl, ap, subst, ◌∙◌, true, ◌||◌, none, some, [],
  ◌∷◌, ◌++◌, arith, if-true, if-false,
}
use hpserver_fw.Scheduler.Queue.{is_some, schedule_no_lock}
use hpserver_fw.IoManager.Contexts.{
  Event, has, without, EventContext, empty_context, FdContext, get_context, set_context, task_of,
  triggered, trigger_event,
}
use hpserver_fw.IoManager.Operations.{IoManager, update, decrement, schedule_on, fire}
use hpserver_fw.IoManager.Invariant.{
  Waits, Matches, IsTable, update_self, update_other, count-update, count_le, changed,
  changed-IsTable, cleared, cleared-IsContext, weight-cleared,
}
use native.Mathlib.Nat.{mod-eq_of_lt, add-mod_right}

-- What is swapped out of a context that waits is its whole contents.
pub triggered-empty : (e : EventContext) → Waits e → triggered e ≡ empty_context
unfolding triggered
triggered-empty e w = elim w.one_of [
  | inl (f, p, q) ↦
      if-false _ _ (ap is_some q) ∙ λ i. record { scheduler = none; fiber = none; cb = q i }
  | inr (f, p, q) ↦
      if-true _ _ (ap is_some q) ∙ λ i. record { scheduler = none; fiber = p i; cb = none }
]

-- The task is there.
pub task_of-present :
    (e : EventContext) → Waits e → is_some (task_of e).fiber || is_some (task_of e).cb ≡ true
unfolding task_of
task_of-present e w = elim w.one_of [ inl (f, p, q) ↦ rw (q, p) refl | inr (f, p, q) ↦ rw q refl ]

pub decrement_lem : (p : ℕ) → 0 < p → p < 2 ^ 64 → decrement p + 1 ≡ p
unfolding decrement
decrement_lem p h k =
    let e : p + 2 ^ 64 - 1 ≡ (p - 1) + 2 ^ 64 = omega arith in
    omega (
      arith,
      ap (λ t. t % 2 ^ 64) e,
      add-mod_right (p - 1) (2 ^ 64),
      mod-eq_of_lt {n = p - 1} {m = 2 ^ 64} (omega arith),
    )

-- One event is triggered: its task, and no other, is put on the queue of its scheduler, its context
-- is emptied, and there is one pending event less.
pub record Fired (event : Event) (fd : ℕ) (m m' : IoManager) : Type 0 where
  pub scheduler : ℕ
  pub on : (get_context event (m.contexts fd)).scheduler ≡ some scheduler
  pub queued :
      m'.queues scheduler ≡ m.queues scheduler ++ (task_of (get_context event (m.contexts fd)) ∷ [])
  pub other_queues : (s : ℕ) → s ≢ scheduler → m'.queues s ≡ m.queues s
  pub contexts_are : m'.contexts ≡ update m.contexts fd (cleared event (m.contexts fd))
  pub one_less : m'.pending + 1 ≡ m.pending
  pub same_size : m'.size ≡ m.size
  pub same_interest : m'.interest ≡ m.interest

trigger_event-cleared :
    (event : Event) (c : FdContext) (w : Waits (get_context event c))
    → has event c.events ≡ true
    → trigger_event event c ≡ some (cleared event c, w.scheduler, task_of (get_context event c))
unfolding trigger_event
trigger_event-cleared event c w h =
    if-true _ _ h
    ∙ (rw w.scheduled_on (
        ap
          (λ (x : EventContext). some (
            set_context event x (record c { events = without event c.events }),
            w.scheduler,
            task_of (get_context event c),
          ))
          (triggered-empty (get_context event c) w)))

pub fire-Fired :
    (event : Event) (fd : ℕ) (m : IoManager)
    → IsTable m
    → fd < m.size
    → has event (m.contexts fd).events ≡ true
    → (m' : IoManager) × (fire fd event m ≡ some m') × IsTable m' × Fired event fd m m'
unfolding fire schedule_on schedule_no_lock
fire-Fired event fd m v h r =
    let c = m.contexts fd in
    let s = v.sound fd h in
    let w : Waits (get_context event c) =
      subst (λ b. Matches b (get_context event c)) r (s.matches event) in
    let below = count_le m.size m.contexts in
    let less =
      decrement_lem m.pending
        (omega (
          arith,
          v.counted,
          weight-cleared event c r,
          count-update m.size fd m.contexts (cleared event c) h,
        ))
        (omega (arith, v.counted, below, v.bounded)) in
    let m1 = changed m fd (cleared event c) (decrement m.pending) in
    let t =
      changed-IsTable m fd (cleared event c) (decrement m.pending) v h
        (cleared-IsContext event fd c s) (omega (arith, weight-cleared event c r, less)) in
    (
      schedule_on w.scheduler (task_of (get_context event c)) m1,
      rw (trigger_event-cleared event c w r, fire) refl,
      record {
        sized = t.sized;
        bounded = t.bounded;
        sound = t.sound;
        counted = t.counted;
        unwatched = t.unwatched;
      },
      record {
        scheduler = w.scheduler;
        on = w.scheduled_on;
        queued =
            update_self m.queues w.scheduler _
            ∙ if-true _ _ (task_of-present (get_context event c) w);
        other_queues = λ i n. update_other m.queues w.scheduler i _ n;
        contexts_are = refl;
        one_less = less;
        same_size = refl;
        same_interest = refl;
      },
    )
