-- ===== src/Timers/Manager.antt =====
-- The classes Timer and TimerManager (windgent/timer.cc). The current time is an argument of each
-- call. A timer is an object that its user and the manager share, so the objects stand in a store
-- by address, and the manager's std::set is the list of the addresses in its order.
use hpserver_fw.Prelude.{
  ℕ, ◌+◌, ◌-◌, ◌%◌, ◌^◌, Bool, true, false, not, ◌&&◌, ◌||◌, Option, none, some, List, [], ◌∷◌,
  ◌++◌, ltb, leb, ◌==◌, if◌then◌else◌,
}

-- A user's function, or one that Ontimer runs only while the condition object lives.
pub data Callback : Type 0 where
  plain : ℕ → Callback
  conditional : ℕ → ℕ → Callback

-- m_isRecur, m_ms, m_next and m_cb; `none` is the empty std::function.
pub record Timer : Type 0 where
  pub is_recur : Bool
  pub ms : ℕ
  pub next : ℕ
  pub cb : Option Callback

-- `if(m_cb)`.
abbrev pub is_set : Option Callback → Bool
is_set none = false
is_set (some c) = true

abbrev pub Store : Type 0
Store = ℕ → Timer

unfoldable pub put : Store → ℕ → Timer → Store
put h a t b = if b == a then t else h b

pub record Manager : Type 0 where
  pub store : Store
  pub timers : List ℕ
  pub tickled : Bool
  pub previous_time : ℕ

-- uint64_t arithmetic.
unfoldable pub add64 : ℕ → ℕ → ℕ
add64 a b = (a + b) % 2 ^ 64

unfoldable pub sub64 : ℕ → ℕ → ℕ
sub64 a b = (a + 2 ^ 64 - b) % 2 ^ 64

-- Timer::Comparator on pointers that are not null.
unfoldable pub less : Store → ℕ → ℕ → Bool
less h a b =
    if ltb (h a).next (h b).next then true else if ltb (h b).next (h a).next then false else ltb a b

-- std::set::insert: the new set, and whether the element is then its first.
unfoldable pub insert : Store → ℕ → List ℕ → List ℕ
unfolding less
insert h a [] = a ∷ []
insert h a (b ∷ l) =
    let more = insert h a l in
    if less h a b then a ∷ (b ∷ l) else if less h b a then b ∷ more else b ∷ l

unfoldable pub is_first : ℕ → List ℕ → Bool
is_first a [] = false
is_first a (b ∷ l) = a == b

-- std::set::find and erase, by the equivalence that the comparator gives.
unfoldable pub same : Store → ℕ → ℕ → Bool
unfolding less
same h a b = not (less h a b) && not (less h b a)

unfoldable pub contains : Store → ℕ → List ℕ → Bool
unfolding same
contains h a [] = false
contains h a (b ∷ l) = same h a b || contains h a l

unfoldable pub erase : Store → ℕ → List ℕ → List ℕ
unfolding same
erase h a [] = []
erase h a (b ∷ l) = let more = erase h a l in if same h a b then l else b ∷ more

-- addTimer(timer, lock): the manager, and whether onTimerInsertedAtFront is called.
unfoldable pub add_ptr : Manager → ℕ → Manager × Bool
unfolding insert is_first
add_ptr m a =
    let timers = insert m.store a m.timers in
    let at_front = is_first a timers && not m.tickled in
    (record m { timers = timers; tickled = m.tickled || at_front }, at_front)

-- Timer(ms, cb, isRecur, manager); `none` is the empty function.
unfoldable pub new_timer : (now ms : ℕ) → Option Callback → Bool → Timer
unfolding add64
new_timer now ms cb is_recur = record { is_recur = is_recur; ms = ms; next = add64 now ms; cb = cb }

-- addTimer(ms, cb, isRecur); `a` is the address of the new object.
unfoldable pub add_timer : (a now ms : ℕ) → Option Callback → Bool → Manager → Manager × Bool
unfolding put new_timer add_ptr
add_timer a now ms cb is_recur m =
    add_ptr (record m { store = put m.store a (new_timer now ms cb is_recur) }) a

unfoldable pub add_cond_timer : (a now ms cb cond : ℕ) → Bool → Manager → Manager × Bool
unfolding add_timer
add_cond_timer a now ms cb cond is_recur m =
    add_timer a now ms (some (conditional cond cb)) is_recur m

-- The user's function that a callback runs, if any, given which condition objects live (Ontimer).
unfoldable pub runs : (ℕ → Bool) → Callback → Option ℕ
runs alive (plain f) = some f
runs alive (conditional cond f) = if alive cond then some f else none

-- `none`: std::set::erase of the end iterator, which is undefined.
unfoldable pub cancel : ℕ → Manager → Option (Manager × Bool)
unfolding put contains erase
cancel a m =
    if is_set (m.store a).cb
    then (let store = put m.store a (record (m.store a) { cb = none }) in
        if contains store a m.timers
        then some (record m { store = store; timers = erase store a m.timers }, true)
        else none)
    else some (m, false)

unfoldable pub refresh : (a now : ℕ) → Manager → Manager × Bool
unfolding put contains erase insert add64
refresh a now m =
    if not (is_set (m.store a).cb)
    then (m, false)
    else if contains m.store a m.timers
    then (let rest = erase m.store a m.timers in
        let store = put m.store a (record (m.store a) { next = add64 now (m.store a).ms }) in
        (record m { store = store; timers = insert store a rest }, true))
    else (m, false)

-- The timer with its interval and its time set anew.
unfoldable pub rescheduled : Timer → (ms now : ℕ) → Bool → Timer
unfolding add64 sub64
rescheduled t ms now from_now = record t {
  ms = ms;
  next = add64 (if from_now then now else sub64 t.next t.ms) ms;
}

-- The manager, the result, and whether onTimerInsertedAtFront is called.
unfoldable pub reset : (a ms now : ℕ) → Bool → Manager → Manager × Bool × Bool
unfolding put contains erase add_ptr rescheduled
reset a ms now from_now m =
    if (ms == (m.store a).ms) && not from_now
    then (m, true, false)
    else if not (is_set (m.store a).cb)
    then (m, false, false)
    else if contains m.store a m.timers
    then (let rest = erase m.store a m.timers in
        let store = put m.store a (rescheduled (m.store a) ms now from_now) in
        let r = add_ptr (record m { store = store; timers = rest }) a in (r.0, true, r.1))
    else (m, false, false)

-- ~0ull where there is no timer.
unfoldable pub time_of_next_timer : ℕ → Manager → Manager × ℕ
time_of_next_timer now m = elim m.timers [
  | [] ↦ (m, 2 ^ 64 - 1)
  | a ∷ _ ↦
      (record m { tickled = false }, if leb (m.store a).next now then 0 else (m.store a).next - now)
]

unfoldable pub rollover : (now previous : ℕ) → Bool
unfolding sub64
rollover now previous = ltb now previous && ltb now (sub64 previous 3600000)

-- The elements before lower_bound(now_timer), where now_timer is a timer for `now` at address `a`.
unfoldable pub before_bound : Store → (now a : ℕ) → List ℕ → List ℕ × List ℕ
before_bound h now a [] = ([], [])
before_bound h now a (b ∷ l) =
    let rest = before_bound h now a l in
    if ltb (h b).next now || ((h b).next == now && ltb b a)
    then (b ∷ rest.0, rest.1)
    else ([], b ∷ l)

-- `while(it != end && (*it)->m_next == now_ms) ++it;`
unfoldable pub skip_due : Store → ℕ → List ℕ → List ℕ × List ℕ
skip_due h now [] = ([], [])
skip_due h now (b ∷ l) =
    let rest = skip_due h now l in if (h b).next == now then (b ∷ rest.0, rest.1) else ([], b ∷ l)

-- [begin, it) and [it, end).
unfoldable pub split_expired : Store → (now a : ℕ) → Bool → List ℕ → List ℕ × List ℕ
unfolding before_bound skip_due
split_expired h now a rolled l =
    if rolled
    then (l, [])
    else (let (before, rest) = before_bound h now a l in
        let (due, later) = skip_due h now rest in (before ++ due, later))

-- One expired timer: a recurring one goes back into the set, another loses its callback.
unfoldable pub expire : ℕ → Store × List ℕ → ℕ → Store × List ℕ
unfolding put insert add64
expire now (h, l) a =
    if (h a).is_recur
    then (let h' = put h a (record (h a) { next = add64 now (h a).ms }) in (h', insert h' a l))
    else (put h a (record (h a) { cb = none }), l)

unfoldable pub expire_all : ℕ → List ℕ → Store × List ℕ → Store × List ℕ
unfolding expire
expire_all now [] s = s
expire_all now (a ∷ l) s = expire_all now l (expire now s a)

-- The callbacks that are pushed: `m_cb` of each timer when its turn comes.
unfoldable pub pushed : ℕ → List ℕ → Store × List ℕ → List (Option Callback)
unfolding expire
pushed now [] s = []
pushed now (a ∷ l) s = (s.0 a).cb ∷ pushed now l (expire now s a)

-- The timers [begin, it) are taken out, and each is expired.
unfoldable pub take_expired :
    (now : ℕ) → Manager → List ℕ × List ℕ → Manager × List (Option Callback)
unfolding expire_all pushed
take_expired now m (expired, kept) =
    let s = expire_all now expired (m.store, kept) in
    (record m { store = s.0; timers = s.1 }, pushed now expired (m.store, kept))

-- listExpiredCbs on a set that is seen to be `l`.
unfoldable pub expired_of : (now a : ℕ) → Manager → List ℕ → Manager × List (Option Callback)
unfolding rollover split_expired take_expired
expired_of now a m [] = (m, [])
expired_of now a m (first ∷ others) =
    let rolled = rollover now m.previous_time in
    let m' = record m { previous_time = now } in
    if not rolled && ltb now (m.store first).next
    then (m', [])
    else take_expired now m' (split_expired m.store now a rolled (first ∷ others))

-- `a` is the address of now_timer.
unfoldable pub list_expired_cbs : (now a : ℕ) → Manager → Manager × List (Option Callback)
unfolding expired_of
list_expired_cbs now a m = expired_of now a m m.timers

unfoldable pub has_timer : Manager → Bool
has_timer m = elim m.timers [ [] ↦ false | _ ∷ _ ↦ true ]

-- TimerManager(), at the time `now`.
unfoldable pub timer_manager : ℕ → Manager
timer_manager now = record {
  store = λ a. record { is_recur = false; ms = 0; next = 0; cb = none };
  timers = [];
  tickled = false;
  previous_time = now;
}
