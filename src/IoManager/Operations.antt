-- ===== src/IoManager/Operations.antt =====
-- The operations of IOManager on events (windgent/iomanager.cc). Whether epoll_ctl refuses a call is
-- an argument, and what epoll watches is a part of the state. A descriptor is not negative.
use hpserver_fw.Prelude.{
  ℕ, ◌+◌, ◌-◌, ◌*◌, ◌/◌, ◌%◌, ◌^◌, Bool, true, false, not, ◌&&◌, ◌||◌, Option, none, some, List, [],
  ◌∷◌, ◌++◌, ltb, leb, ◌==◌, if◌then◌else◌,
}
use hpserver_fw.Prelude.Int.{int_of, exceeds}
use hpserver_fw.Scheduler.Queue.{Task, is_some, schedule_no_lock}
use hpserver_fw.IoManager.Contexts.{
  Event, read_event, write_event, Events, has, with_event, without, any_event, EventContext,
  FdContext, new_context, get_context, set_context, reset_context, trigger_event,
}

-- m_fdContexts is its size and its entries; `interest` is what epoll watches of each descriptor;
-- `queues` are the task queues of the schedulers, and `tickled` those whose tickle was called.
pub record IoManager : Type 0 where
  pub size : ℕ
  pub contexts : ℕ → FdContext
  pub pending : ℕ
  pub interest : ℕ → Option Events
  pub queues : ℕ → List Task
  pub tickled : List ℕ

abbrev pub update {ℓ} : {A : Type ℓ} → (ℕ → A) → ℕ → A → ℕ → A
update f a x i = if i == a then x else f i

unfoldable pub context_resize : ℕ → IoManager → IoManager
context_resize n m = record m {
  size = n;
  contexts = λ i. if leb m.size i && ltb i n then new_context i else m.contexts i;
}

-- `(int)m_fdContexts.size() > fd`.
unfoldable pub in_table : (size fd : ℕ) → Bool
unfolding int_of
in_table size fd = exceeds (int_of size) fd

-- The constructor, before it starts the scheduler: a table of 32 contexts.
unfoldable pub io_manager : IoManager
unfolding context_resize
io_manager = context_resize 32 (record {
  size = 0;
  contexts = new_context;
  pending = 0;
  interest = λ fd. none;
  queues = λ s. [];
  tickled = [];
})

-- std::atomic<size_t>.
unfoldable pub increment : ℕ → ℕ
increment p = (p + 1) % 2 ^ 64

unfoldable pub decrement : ℕ → ℕ
decrement p = (p + 2 ^ 64 - 1) % 2 ^ 64

-- What epoll watches after EPOLL_CTL_ADD or MOD, or DEL where no event is left.
unfoldable pub wanted : Events → Option Events
wanted e = if any_event e then some e else none

-- `scheduler->schedule(task)`.
unfoldable pub schedule_on : ℕ → Task → IoManager → IoManager
unfolding schedule_no_lock
schedule_on s t m =
    let r = schedule_no_lock t (m.queues s) in
    record m {
      queues = update m.queues s r.0;
      tickled = if r.1 then m.tickled ++ (s ∷ []) else m.tickled;
    }

-- fd_ctx->triggerEvent(event); --m_pendingEventCount.
unfoldable pub fire : (fd : ℕ) → Event → IoManager → Option IoManager
unfolding trigger_event schedule_on decrement
fire fd event m = elim (trigger_event event (m.contexts fd)) [
  | none ↦ none
  | some (c, s, t) ↦ some (
      schedule_on s t
        (record m { contexts = update m.contexts fd c; pending = decrement m.pending }))
]

-- What waits: the callback, or the running fiber if there is none.
unfoldable pub waiter : (scheduler : Option ℕ) (fiber : ℕ) (cb : Option ℕ) → EventContext
waiter scheduler fiber cb = record {
  scheduler = scheduler;
  fiber = if is_some cb then none else some fiber;
  cb = cb;
}

unfoldable pub is_free : EventContext → Bool
is_free e = not (is_some e.scheduler) && not (is_some e.fiber) && not (is_some e.cb)

-- addEvent once the context is there; `refused`: epoll_ctl returns an error, and the result is -1,
-- here false. `none`: an assertion fails.
unfoldable pub register :
    (refused : Bool) (scheduler : Option ℕ) (fiber : ℕ) (executing : Bool) (fd : ℕ)
    → Event
    → Option ℕ
    → IoManager
    → Option (IoManager × Bool)
unfolding increment wanted get_context set_context waiter is_free
register refused scheduler fiber executing fd event cb m =
    let c = m.contexts fd in
    let events = with_event event c.events in
    if has event c.events
    then none
    else if refused
    then some (m, false)
    else if is_free (get_context event c) && (is_some cb || executing)
    then some (
      record m {
        contexts =
            update m.contexts fd
              (set_context event (waiter scheduler fiber cb) (record c { events = events }));
        pending = increment m.pending;
        interest = update m.interest fd (wanted events);
      },
      true,
    )
    else none

-- addEvent: `scheduler` is Scheduler::GetThis(), `fiber` is Fiber::GetThis(), and `executing`
-- says whether its state is EXEC.
unfoldable pub add_event :
    (refused : Bool) (scheduler : Option ℕ) (fiber : ℕ) (executing : Bool) (fd : ℕ)
    → Event
    → Option ℕ
    → IoManager
    → Option (IoManager × Bool)
unfolding in_table context_resize register
add_event refused scheduler fiber executing fd event cb m =
    let grown = context_resize (fd * 3 / 2) m in
    if in_table m.size fd
    then register refused scheduler fiber executing fd event cb m
    else if ltb fd grown.size
    then register refused scheduler fiber executing fd event cb grown
    else none

unfoldable pub del_event : (refused : Bool) (fd : ℕ) → Event → IoManager → IoManager × Bool
unfolding in_table decrement wanted get_context set_context reset_context
del_event refused fd event m =
    let c = m.contexts fd in
    let events = without event c.events in
    if not (in_table m.size fd)
    then (m, false)
    else if not (has event c.events)
    then (m, false)
    else if refused
    then (m, false)
    else (
      record m {
        contexts = update m.contexts fd (
            set_context event (reset_context (get_context event c)) (record c { events = events }));
        pending = decrement m.pending;
        interest = update m.interest fd (wanted events);
      },
      true,
    )

-- A call that goes on after epoll_ctl has set what it watches.
abbrev pub fired : Option IoManager → Option (IoManager × Bool)
fired none = none
fired (some m) = some (m, true)

unfoldable pub cancel_event :
    (refused : Bool) (fd : ℕ) → Event → IoManager → Option (IoManager × Bool)
unfolding in_table wanted fire
cancel_event refused fd event m =
    let c = m.contexts fd in
    if not (in_table m.size fd)
    then some (m, false)
    else if not (has event c.events)
    then some (m, false)
    else if refused
    then some (m, false)
    else fired (
        fire fd event
          (record m { interest = update m.interest fd (wanted (without event c.events)) }))

-- `if(condition) { triggerEvent(event); --m_pendingEventCount; }` in the sequence of two.
unfoldable pub fire_if : (IoManager → Bool) → (fd : ℕ) → Event → Option IoManager → Option IoManager
unfolding fire
fire_if test fd event none = none
fire_if test fd event (some m) = if test m then fire fd event m else some m

unfoldable pub cancel_all : (refused : Bool) (fd : ℕ) → IoManager → Option (IoManager × Bool)
unfolding in_table fire_if
cancel_all refused fd m =
    let c = m.contexts fd in
    if not (in_table m.size fd)
    then some (m, false)
    else if not (any_event c.events)
    then some (m, false)
    else if refused
    then some (m, false)
    else fired (
        fire_if (λ s. has write_event (s.contexts fd).events) fd write_event
          (fire_if (λ s. has read_event (s.contexts fd).events) fd read_event
            (some (record m { interest = update m.interest fd none }))))

-- The flags of an epoll_event that `idle` reads.
pub record Ready : Type 0 where
  pub readable : Bool
  pub writable : Bool
  pub error : Bool
  pub hang_up : Bool

-- real_event.
unfoldable pub real_events : Ready → Events
real_events r = record {
  read = r.readable || (r.error || r.hang_up);
  write = r.writable || (r.error || r.hang_up);
}

-- One event in the loop of `idle`, for a descriptor that is not the tickle pipe.
unfoldable pub handle_ready : (refused : Bool) (fd : ℕ) → Ready → IoManager → Option IoManager
unfolding real_events fire_if wanted
handle_ready refused fd r m =
    let c = m.contexts fd in
    let real = real_events r in
    let left : Events = record {
      read = c.events.read && not real.read;
      write = c.events.write && not real.write;
    } in
    if not ((c.events.read && real.read) || (c.events.write && real.write))
    then some m
    else if refused
    then some m
    else fire_if (λ s. real.write) fd write_event
        (fire_if (λ s. real.read) fd read_event
          (some (record m { interest = update m.interest fd (wanted left) })))
