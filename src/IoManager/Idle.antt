-- ===== src/IoManager/Idle.antt =====
-- One round of IOManager::idle (windgent/iomanager.cc): the timeout of epoll_wait, the timers that
-- are due, and the events that came.
use hpserver_fw.Prelude.{
  ℕ, ◌-◌, ◌^◌, ◌≤◌, ◌<◌, ◌≡◌, ◌≢◌, refl, sym, ap, subst, ◌∙◌, Bool, true, false, ◌&&◌, not, Option,
  none, some, List, [], ◌∷◌, ◌++◌, map, arith, ltb, ◌==◌, if◌then◌else◌, if-true, if-false, min,
  ge→ltb,
}
use hpserver_fw.Prelude.Int.{ℤ, pos, negsuc, of_word, int_of, exceeds, int_of-small}
use hpserver_fw.Scheduler.Queue.{schedule_all}
use hpserver_fw.Timers.Manager.{Manager, Callback, list_expired_cbs, time_of_next_timer}
use hpserver_fw.IoManager.Contexts.{any_event}
use hpserver_fw.IoManager.Operations.{IoManager, update, Ready, real_events, handle_ready}
use hpserver_fw.IoManager.Invariant.{Inv}
use hpserver_fw.IoManager.Sequence.{Triggered}
use hpserver_fw.IoManager.Delivery.{handle_ready-Triggered}
use native.Mathlib.Nat.{mod-eq_of_lt}

-- MAX_TIMEOUT.
abbrev pub max_timeout : ℕ
max_timeout = 3000

-- The last argument of epoll_wait, from the time of the next timer; a negative one waits for good.
unfoldable pub epoll_timeout : ℕ → ℤ
unfolding int_of
epoll_timeout next = int_of (
    if not (next == 2 ^ 64 - 1)
    then (if exceeds (int_of next) max_timeout then max_timeout else next)
    else max_timeout)

-- stopping(timeout): `scheduler_stops` is Scheduler::stopping().
unfoldable pub stopping :
    (now : ℕ) → (scheduler_stops : Bool) → Manager → IoManager → Bool × Manager × ℕ
unfolding time_of_next_timer
stopping now scheduler_stops t m =
    let r = time_of_next_timer now t in
    ((r.1 == 2 ^ 64 - 1) && (m.pending == 0) && scheduler_stops, r.0, r.1)

-- The callbacks of the timers go to the queue of this scheduler; `address` is the function object.
unfoldable pub schedule_expired :
    (self : ℕ) → (address : Callback → ℕ) → List (Option Callback) → IoManager → IoManager
unfolding schedule_all
schedule_expired self address cbs m =
    let r =
      schedule_all (map (λ o. elim o [ none ↦ none | some c ↦ some (address c) ]) cbs)
        (m.queues self) in
    record m {
      queues = update m.queues self r.0;
      tickled = if r.1 then m.tickled ++ (self ∷ []) else m.tickled;
    }

-- The loop over the events; `none` in the list is the tickle pipe, which is read empty.
unfoldable pub handle_all :
    (refused : ℕ → Bool) → List (Option (ℕ × Ready)) → IoManager → Option IoManager
unfolding handle_ready
handle_all refused [] m = some m
handle_all refused (none ∷ l) m = handle_all refused l m
handle_all refused (some (fd, r) ∷ l) m = elim (handle_ready (refused fd) fd r m) [
  | none ↦ none
  | some m' ↦ handle_all refused l m'
]

-- What follows epoll_wait, up to swapOut.
unfoldable pub idle_round :
    (refused : ℕ → Bool) (self now timer : ℕ) (address : Callback → ℕ)
    → List (Option (ℕ × Ready))
    → Manager
    → IoManager
    → Option (Manager × IoManager)
unfolding schedule_expired handle_all list_expired_cbs
idle_round refused self now timer address ready t m =
    let r = list_expired_cbs now timer t in
    elim (handle_all refused ready
      (if is_cleared r.1 then m else schedule_expired self address r.1 m)) [
        | none ↦ none
        | some m' ↦ some (r.0, m')
      ]
  where
    is_cleared : List (Option Callback) → Bool
    is_cleared [] = true
    is_cleared (c ∷ cs) = false

int_of-large : (x : ℕ) → 2 ^ 31 ≤ x → x < 2 ^ 32 → int_of x ≡ negsuc (2 ^ 32 - 1 - x)
unfolding int_of of_word
int_of-large x h k =
    ap (λ t. if ltb t (2 ^ 31) then pos t else negsuc (2 ^ 32 - 1 - t))
      (mod-eq_of_lt {n = x} {m = 2 ^ 32} k)
    ∙ if-false _ _ (ge→ltb x (2 ^ 31) h)

not_last : (x : ℕ) → x < 2 ^ 32 → not (x == 2 ^ 64 - 1) ≡ true
not_last x h = ground arith

-- Where the next timer is due in less than 2 ^ 31 milliseconds, epoll_wait is given that time or
-- MAX_TIMEOUT, whichever is less.
pub epoll_timeout-bounded :
    (next : ℕ) → next < 2 ^ 31 → epoll_timeout next ≡ pos (min next max_timeout)
unfolding epoll_timeout
epoll_timeout-bounded next h =
    ap int_of (
      if-true _ _ (not_last next (omega arith))
      ∙ ap (λ t. if exceeds t max_timeout then max_timeout else next) (int_of-small next h)
      ∙ smaller)
    ∙ int_of-small (min next max_timeout) (omega arith)
  where
    smaller : (if ltb max_timeout next then max_timeout else next) ≡ min next max_timeout
    smaller = ground arith

-- Where the next timer is due in 2 ^ 31 milliseconds or more and less than 2 ^ 32, the timeout that
-- epoll_wait is given is negative, which makes it wait without an end.
pub epoll_timeout-endless :
    (next : ℕ) → 2 ^ 31 ≤ next → next < 2 ^ 32 → epoll_timeout next ≡ negsuc (2 ^ 32 - 1 - next)
unfolding epoll_timeout
epoll_timeout-endless next h k =
    ap int_of (
      if-true _ _ (not_last next k)
      ∙ ap (λ t. if exceeds t max_timeout then max_timeout else next) (int_of-large next h k))
    ∙ int_of-large next h k

abbrev pub Apart : ℕ → List (Option (ℕ × Ready)) → Type 0
Apart fd [] = Unit
Apart fd (none ∷ l) = Apart fd l
Apart fd (some (i, r) ∷ l) = (i ≢ fd) × Apart fd l

-- The events of a round: each descriptor once, and for each at least one event, all registered.
abbrev pub Deliverable : IoManager → List (Option (ℕ × Ready)) → Type 0
Deliverable m [] = Unit
Deliverable m (none ∷ l) = Deliverable m l
Deliverable m (some (fd, r) ∷ l) =
    ((fd < m.size)
      × (any_event (real_events r) ≡ true)
      × ((real_events r).read ≡ true → (m.contexts fd).events.read ≡ true)
      × ((real_events r).write ≡ true → (m.contexts fd).events.write ≡ true))
    × Apart fd l
    × Deliverable m l

-- Each event of the list is triggered, one after the other.
abbrev pub Delivered : List (Option (ℕ × Ready)) → IoManager → IoManager → Type 0
Delivered [] m m' = m' ≡ m
Delivered (none ∷ l) m m' = Delivered l m m'
Delivered (some (fd, r) ∷ l) m m' =
    (mid : IoManager) × Triggered (real_events r) fd m mid × Delivered l mid m'

still-Deliverable :
    (fd : ℕ) (m m' : IoManager) (l : List (Option (ℕ × Ready)))
    → m'.size ≡ m.size
    → ((i : ℕ) → i ≢ fd → m'.contexts i ≡ m.contexts i)
    → Apart fd l
    → Deliverable m l
    → Deliverable m' l
still-Deliverable fd m m' [] s o a d = tt
still-Deliverable fd m m' (none ∷ l) s o a d = still-Deliverable fd m m' l s o a d
still-Deliverable fd m m' (some (i, r) ∷ l) s o (n, a) ((h, e, k, k'), b, d) = (
  (
    subst (λ x. i < x) (sym s) h,
    e,
    (λ q. ap (λ c. c.events.read) (o i n) ∙ k q),
    (λ q. ap (λ c. c.events.write) (o i n) ∙ k' q),
  ),
  b,
  still-Deliverable fd m m' l s o a d,
)

-- On a well-formed manager, in a round of idle where each event names a descriptor of its own in
-- the table and only events that are registered there, one at least, and epoll_ctl refuses no call,
-- no assertion fails, whatever the order and the number of the events; the manager stays well
-- formed, and each event is delivered: the callback or else the fiber that waited for it is put
-- into the queue of its scheduler.
pub handle_all-Delivered :
    (l : List (Option (ℕ × Ready))) (m : IoManager)
    → Inv m
    → Deliverable m l
    → (m' : IoManager) × (handle_all (λ fd. false) l m ≡ some m') × Inv m' × Delivered l m m'
unfolding handle_all
handle_all-Delivered [] m v d = (m, refl, v, refl)
handle_all-Delivered (none ∷ l) m v d = handle_all-Delivered l m v d
handle_all-Delivered (some (fd, r) ∷ l) m v ((h, e, k, k'), a, d) =
    let (mid, run, t) = handle_ready-Triggered fd r m v h e k k' in
    let (m', run', v', q) =
      handle_all-Delivered l mid t.valid (still-Deliverable fd m mid l t.same_size t.others a d) in
    (m', rw (run, handle_all) run', v', (mid, t, q))
