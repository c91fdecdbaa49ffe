-- ===== src/Servlets/Dispatcher.antt =====
-- The class ServletDispatcher (windgent/http/servlet.cc). fnmatch is the C library's: an argument.
use hpserver_fw.Prelude.{
  c_str, ℕ, Bool, true, false, Option, none, some, List, [], ◌∷◌, ◌++◌, if◌then◌else◌, ◌&&◌, not,
}
use hpserver_fw.Servlets.Table.{Uri, Table, find, assign, erase_first}

-- A FunctionServlet with its callback, a NotFoundServlet with its name, or an object of a class
-- that a user of the framework derives, by its address.
pub data Servlet : Type 0 where
  function_servlet : ℕ → Servlet
  not_found_servlet : List ℕ → Servlet
  user_servlet : ℕ → Servlet

-- Servlet::ptr, which may be null.
abbrev pub ServletPtr : Type 0
ServletPtr = Option Servlet

-- m_datas, m_globs, m_default, and whether this thread holds m_mutex. `detects`: the lock refuses a
-- thread that holds it with EDEADLK, a result that the source does not look at, and does not block.
pub record Dispatcher : Type 0 where
  pub detects : Bool
  pub locked : Bool
  pub datas : Table ServletPtr
  pub globs : Table ServletPtr
  pub fallback : ServletPtr

-- The scope of a lock. `none`: the thread takes the lock that it holds, and is blocked for good. Where
-- the lock refuses it, the body runs all the same; its end releases the lock, and the end of the outer
-- scope releases it once more, which POSIX leaves undefined and which is taken here to do nothing.
unfoldable pub with_lock : (Dispatcher → Option Dispatcher) → Dispatcher → Option Dispatcher
with_lock body d =
    if d.locked && not d.detects then none else elim (body (record d { locked = true })) [
      | none ↦ none
      | some d' ↦ some (record d' { locked = false })
    ]

-- ServletDispatcher(): the name of the default is "nothing".
unfoldable pub servlet_dispatcher : (detects : Bool) → Dispatcher
servlet_dispatcher detects = record {
  detects = detects;
  locked = false;
  datas = [];
  globs = [];
  fallback = some (not_found_servlet (110 ∷ 111 ∷ 116 ∷ 104 ∷ 105 ∷ 110 ∷ 103 ∷ []));
}

unfoldable pub set_default : ServletPtr → Dispatcher → Dispatcher
set_default v d = record d { fallback = v }

unfoldable pub add_servlet : Uri → ServletPtr → Dispatcher → Option Dispatcher
unfolding with_lock assign
add_servlet uri slt d = with_lock (λ s. some (record s { datas = assign uri slt s.datas })) d

-- addServlet(uri, cb).
unfoldable pub add_function : Uri → ℕ → Dispatcher → Option Dispatcher
unfolding with_lock assign
add_function uri cb d =
    with_lock (λ s. some (record s { datas = assign uri (some (function_servlet cb)) s.datas })) d

unfoldable pub add_glob_servlet : Uri → ServletPtr → Dispatcher → Option Dispatcher
unfolding with_lock erase_first
add_glob_servlet uri slt d =
    with_lock (λ s. some (record s { globs = erase_first uri s.globs ++ ((uri, slt) ∷ []) })) d

-- addGlobServlet(uri, cb), which calls the other one under its own lock.
unfoldable pub add_glob_function : Uri → ℕ → Dispatcher → Option Dispatcher
unfolding with_lock add_glob_servlet
add_glob_function uri cb d = with_lock (λ s. add_glob_servlet uri (some (function_servlet cb)) s) d

unfoldable pub del_servlet : Uri → Dispatcher → Option Dispatcher
unfolding with_lock erase_first
del_servlet uri d = with_lock (λ s. some (record s { datas = erase_first uri s.datas })) d

unfoldable pub del_glob_servlet : Uri → Dispatcher → Option Dispatcher
unfolding with_lock erase_first
del_glob_servlet uri d = with_lock (λ s. some (record s { globs = erase_first uri s.globs })) d

-- The pointer of an entry, null where there is none.
unfoldable pub found : Option ServletPtr → ServletPtr
found none = none
found (some slt) = slt

unfoldable pub get_servlet : Uri → Dispatcher → ServletPtr
unfolding find found
get_servlet uri d = found (find uri d.datas)

unfoldable pub get_glob_servlet : Uri → Dispatcher → ServletPtr
unfolding find found
get_glob_servlet uri d = found (find uri d.globs)

-- `fnmatch pattern uri` is true where fnmatch(pattern, uri, 0) returns 0.
module _ (fnmatch : Uri → Uri → Bool) where
  -- The loop over m_globs.
  unfoldable pub first_match : Uri → ServletPtr → Table ServletPtr → ServletPtr
  unfolding c_str
  first_match uri fallback [] = fallback
  first_match uri fallback ((p, slt) ∷ t) =
      let rest = first_match uri fallback t in if fnmatch (c_str p) (c_str uri) then slt else rest

  unfoldable pub matched_or : Uri → Dispatcher → Option ServletPtr → ServletPtr
  unfolding first_match
  matched_or uri d none = first_match uri d.fallback d.globs
  matched_or uri d (some slt) = slt

  unfoldable pub get_matched_servlet : Uri → Dispatcher → ServletPtr
  unfolding find matched_or
  get_matched_servlet uri d = matched_or uri d (find uri d.datas)

  -- handle: the servlet that is called, if any; the result is 0. `call` is the servlet's effect
  -- on the response.
  unfoldable pub handle {ℓ} : {R : Type ℓ} → (Servlet → R → R) → Uri → Dispatcher → R → R × ℕ
  unfolding get_matched_servlet
  handle call path d r = elim (get_matched_servlet path d) [
    | none ↦ (r, 0)
    | some slt ↦ (call slt r, 0)
  ]
