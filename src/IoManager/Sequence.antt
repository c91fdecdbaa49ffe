-- ===== src/IoManager/Sequence.antt =====
-- Two events of one descriptor triggered one after the other: cancelAll, and the loop of `idle`
-- (windgent/iomanager.cc).
use hpserver_fw.Prelude.{
  ℕ, ◌+◌, ◌<◌, ◌≡◌, ◌≢◌, ◌⊎◌, inl, inr, refl, sym, ap, subst, ◌∙◌, Bool, true, false, not, ◌&&◌,
  Option, none, some, [], ◌∷◌, ◌++◌, arith, if◌then◌else◌, if-true, if-false,
}
use hpserver_fw.Scheduler.Queue.{Task, is_some}
use hpserver_fw.IoManager.Contexts.{
  Event, read_event, write_event, Events, has, without, empty_context, EventContext, get_context,
  task_of,
}
use hpserver_fw.IoManager.Operations.{IoManager, update, wanted, fire_if}
use hpserver_fw.IoManager.Invariant.{
  IsTable, Inv, update_self, update_other, watched-Inv, cleared, other_of_cleared,
}
use hpserver_fw.IoManager.Fire.{fire-Fired}
use hpserver_fw.IoManager.Registered.{set_context-events}

-- What is to run for a fiber and a callback that wait: the callback, or else the fiber, on any thread.
pub waiting_task : (fiber cb : Option ℕ) → Task
waiting_task fiber (some f) = record { fiber = none; cb = some f; thread = none }
waiting_task fiber none = record { fiber = fiber; cb = none; thread = none }

pub task_of-waiting : (e : EventContext) → task_of e ≡ waiting_task e.fiber e.cb
unfolding task_of waiting_task
task_of-waiting e = each e.fiber e.cb
  where
    each :
        (fiber cb : Option ℕ)
        → (if is_some cb
            then record { fiber = none; cb = cb; thread = none }
            else record { fiber = fiber; cb = none; thread = none })
          ≡ waiting_task fiber cb
    each fiber none = refl
    each fiber (some f) = refl

-- One task, that of the event, is put on the queue of its scheduler.
pub record Scheduled (event : Event) (fd : ℕ) (m m' : IoManager) : Type 0 where
  pub scheduler : ℕ
  pub on : (get_context event (m.contexts fd)).scheduler ≡ some scheduler
  pub queued :
      m'.queues scheduler
      ≡ m.queues scheduler
        ++ (waiting_task
              (get_context event (m.contexts fd)).fiber
              (get_context event (m.contexts fd)).cb
            ∷ [])
  pub other_queues : (s : ℕ) → s ≢ scheduler → m'.queues s ≡ m.queues s

-- The event is triggered if b is true; if not, nothing happens.
abbrev pub Steps : Bool → Event → ℕ → IoManager → IoManager → Type 0
Steps b event fd m m' =
    ((b ≡ true) × Scheduled event fd m m' × (m'.pending + 1 ≡ m.pending)) ⊎ ((b ≡ false) × (m' ≡ m))

pub record Passed (b : Bool) (event : Event) (fd : ℕ) (m m' : IoManager) : Type 0 where
  pub table : IsTable m'
  pub same_size : m'.size ≡ m.size
  pub same_interest : m'.interest ≡ m.interest
  pub others : (i : ℕ) → i ≢ fd → m'.contexts i ≡ m.contexts i
  pub events :
      (m'.contexts fd).events
      ≡ (if b then without event (m.contexts fd).events else (m.contexts fd).events)
  pub other_context :
      (e : Event) → e ≢ event → get_context e (m'.contexts fd) ≡ get_context e (m.contexts fd)
  pub steps : Steps b event fd m m'

pub fire_if-Passed :
    (test : IoManager → Bool) (event : Event) (fd : ℕ) (m : IoManager) (b : Bool)
    → IsTable m
    → fd < m.size
    → test m ≡ b
    → (b ≡ true → has event (m.contexts fd).events ≡ true)
    → (m' : IoManager) × (fire_if test fd event (some m) ≡ some m') × Passed b event fd m m'
unfolding fire_if
fire_if-Passed test event fd m false t h e k = (
  m,
  if-false _ _ e,
  record {
    table = t;
    same_size = refl;
    same_interest = refl;
    others = λ i n. refl;
    events = refl;
    other_context = λ e n. refl;
    steps = inr (refl, refl);
  },
)
fire_if-Passed test event fd m true t h e k =
    let (m', run, t', f) = fire-Fired event fd m t h (k refl) in
    let c = cleared event (m.contexts fd) in
    let at_fd : m'.contexts fd ≡ c = ap (λ g. g fd) f.contexts_are ∙ update_self m.contexts fd c in
    (
      m',
      if-true _ _ e ∙ run,
      record {
        table = t';
        same_size = f.same_size;
        same_interest = f.same_interest;
        others = λ i n. ap (λ g. g i) f.contexts_are ∙ update_other m.contexts fd i c n;
        events =
            ap (λ x. x.events) at_fd
            ∙ set_context-events event empty_context
                (record (m.contexts fd) { events = without event (m.contexts fd).events });
        other_context =
            λ e n. ap (get_context e) at_fd ∙ other_of_cleared event e (m.contexts fd) n;
        steps = inl (
          refl,
          record {
            scheduler = f.scheduler;
            on = f.on;
            queued =
                f.queued
                ∙ ap (λ t. m.queues f.scheduler ++ (t ∷ []))
                    (task_of-waiting (get_context event (m.contexts fd)));
            other_queues = f.other_queues;
          },
          f.one_less,
        );
      },
    )

-- The manager with what epoll watches of one descriptor changed.
abbrev pub watching : IoManager → ℕ → Option Events → IoManager
watching m fd w = record m { interest = update m.interest fd w }

pub watching-IsTable :
    (m : IoManager) (fd : ℕ) (w : Option Events)
    → IsTable m
    → fd < m.size
    → IsTable (watching m fd w)
watching-IsTable m fd w t h = record {
  sized = t.sized;
  bounded = t.bounded;
  sound = t.sound;
  counted = t.counted;
  unwatched = λ i k. update_other m.interest fd i w (omega arith) ∙ t.unwatched i k;
}

-- What is left of the events when those of `real` are triggered.
abbrev pub minus : Events → Events → Events
minus e real = record { read = e.read && not real.read; write = e.write && not real.write }

-- The events `real` of one descriptor are triggered, the reader's first, and no other changes.
pub record Triggered (real : Events) (fd : ℕ) (m m' : IoManager) : Type 0 where
  pub valid : Inv m'
  pub same_size : m'.size ≡ m.size
  pub others : (i : ℕ) → i ≢ fd → m'.contexts i ≡ m.contexts i
  pub left : (m'.contexts fd).events ≡ minus (m.contexts fd).events real
  pub between : IoManager
  pub same_writer :
      get_context write_event (between.contexts fd) ≡ get_context write_event (m.contexts fd)
  pub reader :
      Steps real.read read_event fd
        (watching m fd (wanted (minus (m.contexts fd).events real)))
        between
  pub writer : Steps real.write write_event fd between m'

both_left :
    (e : Events) (a b : Bool)
    → (if b
        then without write_event (if a then without read_event e else e)
        else (if a then without read_event e else e))
      ≡ minus e (record { read = a; write = b })
both_left e a b = λ i. record { read = reads a b i; write = writes a b i }
  where
    reads :
        (a b : Bool)
        → (if b
            then without write_event (if a then without read_event e else e)
            else (if a then without read_event e else e)).read
          ≡ (e.read && not a)
    reads true true = ground arith
    reads true false = ground arith
    reads false true = ground arith
    reads false false = ground arith

    writes :
        (a b : Bool)
        → (if b
            then without write_event (if a then without read_event e else e)
            else (if a then without read_event e else e)).write
          ≡ (e.write && not b)
    writes true true = ground arith
    writes true false = ground arith
    writes false true = ground arith
    writes false false = ground arith

pub write_kept : (e : Events) (a : Bool) → (if a then without read_event e else e).write ≡ e.write
write_kept e true = refl
write_kept e false = refl

pub twice-Triggered :
    (test test' : IoManager → Bool) (fd : ℕ) (m : IoManager) (real : Events)
    → Inv m
    → fd < m.size
    → test (watching m fd (wanted (minus (m.contexts fd).events real))) ≡ real.read
    → ((s : IoManager)
        → (s.contexts fd).events.write ≡ (m.contexts fd).events.write
        → test' s ≡ real.write)
    → (real.read ≡ true → (m.contexts fd).events.read ≡ true)
    → (real.write ≡ true → (m.contexts fd).events.write ≡ true)
    → (m' : IoManager) × (fire_if test' fd write_event (
          fire_if test fd read_event
            (some (watching m fd (wanted (minus (m.contexts fd).events real)))))
        ≡ some m')
      × Triggered real fd m m'
twice-Triggered test test' fd m real v h e e' k k' =
    let events = (m.contexts fd).events in
    let m0 = watching m fd (wanted (minus events real)) in
    let t0 = watching-IsTable m fd (wanted (minus events real)) v.table h in
    let (m1, run, p) = fire_if-Passed test read_event fd m0 real.read t0 h e k in
    let same_write : (m1.contexts fd).events.write ≡ events.write =
      ap (λ x. x.write) p.events ∙ write_kept events real.read in
    let (m2, run', p') =
      fire_if-Passed test' write_event fd m1 real.write p.table
        (subst (λ n. fd < n) (sym p.same_size) h) (e' m1 same_write) (λ b. same_write ∙ k' b) in
    let left : (m2.contexts fd).events ≡ minus events real =
      p'.events
      ∙ ap (λ x. if real.write then without write_event x else x) p.events
      ∙ both_left events real.read real.write in
    let interest : m2.interest ≡ m0.interest = p'.same_interest ∙ p.same_interest in
    let others : (i : ℕ) → i ≢ fd → m2.contexts i ≡ m.contexts i =
      λ i n. p'.others i n ∙ p.others i n in
    (
      m2,
      ap (fire_if test' fd write_event) run ∙ run',
      record {
        valid =
            watched-Inv m2 fd p'.table
              (λ i l n.
                ap (λ f. f i) interest
                ∙ update_other m.interest fd i _ n
                ∙ v.mirrored i (subst (λ x. i < x) (p'.same_size ∙ p.same_size) l)
                ∙ ap (λ c. wanted c.events) (sym (others i n)))
              (ap (λ f. f fd) interest ∙ update_self m.interest fd _ ∙ ap wanted (sym left));
        same_size = p'.same_size ∙ p.same_size;
        others = others;
        left = left;
        between = m1;
        same_writer = p.other_context write_event (λ q. cc);
        reader = p.steps;
        writer = p'.steps;
      },
    )
