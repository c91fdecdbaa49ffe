-- ===== src/Scheduler/Queue.antt =====
-- Scheduler::schedule (windgent/scheduler.h). A fiber and a callback are addresses, and `none` is
-- the null pointer or the empty function.
use hpserver_fw.Prelude.{
  ℕ, Bool, true, false, ◌||◌, Option, none, some, List, [], ◌∷◌, ◌++◌, if◌then◌else◌,
}

-- FiberAndThread; `thread` is `none` for -1, any thread.
pub record Task : Type 0 where
  pub fiber : Option ℕ
  pub cb : Option ℕ
  pub thread : Option ℕ

abbrev pub is_some : Option ℕ → Bool
is_some none = false
is_some (some x) = true

abbrev pub is_empty : List Task → Bool
is_empty [] = true
is_empty (t ∷ q) = false

-- scheduleNoLock: the queue, and whether tickle is to be called.
unfoldable pub schedule_no_lock : Task → List Task → List Task × Bool
schedule_no_lock t q = (if is_some t.fiber || is_some t.cb then q ++ (t ∷ []) else q, is_empty q)

-- schedule(begin, end) on a list of callbacks; each is swapped out of the list.
unfoldable pub schedule_all : List (Option ℕ) → List Task → List Task × Bool
unfolding schedule_no_lock
schedule_all [] q = (q, false)
schedule_all (cb ∷ cbs) q =
    let r = schedule_no_lock (record { fiber = none; cb = cb; thread = none }) q in
    let rest = schedule_all cbs r.0 in (rest.0, r.1 || rest.1)
