-- ===== src/Descriptors/Manager.antt =====
-- The classes FdCtx and FdManager (windgent/fd_manager.cc). fstat and the flags that fcntl keeps
-- are the system's: the first is an argument, the second a part of the state. Contexts are shared,
-- so they stand in a store by address.
use hpserver_fw.Prelude.{
  ℕ, zero, suc, ◌-◌, ◌*◌, ◌/◌, ◌^◌, Bool, true, false, Option, none, some, [], not, ◌&&◌, ◌==◌,
  if◌then◌else◌, length,
}
use hpserver_fw.Prelude.Int.{ℤ, pos, negsuc, int_of, int_le}
use hpserver_fw.Descriptors.Table.{Fds, get_elem?, set_elem, resize}

pub record FdCtx : Type 0 where
  pub is_init : Bool
  pub is_socket : Bool
  pub sys_nonblock : Bool
  pub user_nonblock : Bool
  pub is_closed : Bool
  pub fd : ℕ
  pub recv_timeout : ℕ
  pub send_timeout : ℕ

-- Which descriptors have O_NONBLOCK.
abbrev pub Flags : Type 0
Flags = ℕ → Bool

-- fstat: `none` for -1, else S_ISSOCK of the mode.
module _ (fstat : ℕ → Option Bool) where
  -- The context after fstat: m_isInit and m_isSocket.
  unfoldable pub stat_result : Option Bool → FdCtx → FdCtx
  stat_result none c = record c { is_init = false; is_socket = false }
  stat_result (some socket) c = record c { is_init = true; is_socket = socket }

  -- A socket gets O_NONBLOCK.
  unfoldable pub set_nonblock : ℕ → Flags → Flags
  set_nonblock fd flags i = if i == fd then true else flags i

  -- The result of the source is m_isInit, which is a field of the context.
  unfoldable pub init : Flags → FdCtx → FdCtx × Flags
  unfolding stat_result set_nonblock
  init flags c =
      if c.is_init
      then (c, flags)
      else (let c' =
            stat_result (fstat c.fd)
              (record c { recv_timeout = 2 ^ 64 - 1; send_timeout = 2 ^ 64 - 1 }) in
          (
            record c' { sys_nonblock = c'.is_socket; user_nonblock = false; is_closed = false },
            if c'.is_socket then set_nonblock c.fd flags else flags,
          ))

  -- FdCtx(fd).
  unfoldable pub fd_ctx : Flags → ℕ → FdCtx × Flags
  unfolding init
  fd_ctx flags fd = init flags (record {
    is_init = false;
    is_socket = false;
    sys_nonblock = false;
    user_nonblock = false;
    is_closed = false;
    fd = fd;
    recv_timeout = 2 ^ 64 - 1;
    send_timeout = 2 ^ 64 - 1;
  })

-- `receive`: the type is SO_RCVTIMEO.
unfoldable pub set_timeout : (receive : Bool) → ℕ → FdCtx → FdCtx
set_timeout receive v c =
    if receive then record c { recv_timeout = v } else record c { send_timeout = v }

unfoldable pub get_timeout : (receive : Bool) → FdCtx → ℕ
get_timeout receive c = if receive then c.recv_timeout else c.send_timeout

pub record FdManager : Type 0 where
  pub fds : Fds
  pub contexts : ℕ → FdCtx
  pub flags : Flags

-- FdManager(): 64 null pointers.
unfoldable pub fd_manager : (ℕ → FdCtx) → Flags → FdManager
unfolding resize
fd_manager contexts flags = record { fds = resize [] 64; contexts = contexts; flags = flags }

-- The result of `get`; `none` is an access out of the vector's range.
abbrev pub Got : Type 0
Got = Option (FdManager × Option ℕ)

unfoldable pub put_context : (ℕ → FdCtx) → ℕ → FdCtx → ℕ → FdCtx
put_context h a c i = if i == a then c else h i

-- `m_fds[fd] = ctx; return ctx;`
unfoldable pub stored_at : FdManager → ℕ → Option Fds → Got
stored_at m a none = none
stored_at m a (some fds) = some (record m { fds = fds }, some a)

-- The part of `get` behind the second lock; `a` is the address of the new context, and
-- m_fds.resize(fd * 1.5) is to 3 fd / 2, rounded down.
unfoldable pub create : (ℕ → Option Bool) → (fd a : ℕ) → FdManager → Got
unfolding fd_ctx set_elem resize put_context stored_at int_of int_le
create fstat fd a m =
    let ctx = fd_ctx fstat m.flags fd in
    let fds =
      if int_le (int_of (length m.fds)) (pos fd) then resize m.fds (fd * 3 / 2) else m.fds in
    stored_at (record m { contexts = put_context m.contexts a ctx.0; flags = ctx.1 }) a
      (set_elem fds fd (some a))

-- m_fds[fd]: it is returned if it is set or nothing is to be created.
unfoldable pub get_entry :
    (ℕ → Option Bool) → (fd : ℕ) → Bool → (a : ℕ) → FdManager → Option (Option ℕ) → Got
unfolding create
get_entry fstat fd auto_create a m none = none
get_entry fstat fd auto_create a m (some (some p)) = some (m, some p)
get_entry fstat fd auto_create a m (some none) =
    if auto_create then create fstat fd a m else some (m, none)

unfoldable pub get : (ℕ → Option Bool) → ℤ → Bool → (a : ℕ) → FdManager → Got
unfolding create get_entry get_elem? int_of int_le
get fstat (negsuc zero) auto_create a m = some (m, none)
get fstat (negsuc (suc n)) auto_create a m =
    if int_le (int_of (length m.fds)) (negsuc (suc n)) && not auto_create
    then some (m, none)
    else none
get fstat (pos fd) auto_create a m =
    if int_le (int_of (length m.fds)) (pos fd)
    then (if auto_create then create fstat fd a m else some (m, none))
    else get_entry fstat fd auto_create a m (get_elem? m.fds fd)

unfoldable pub deleted : FdManager → Option Fds → Option FdManager
deleted m none = none
deleted m (some fds) = some (record m { fds = fds })

-- del: m_fds[fd] with a negative fd is out of range.
unfoldable pub del : ℤ → FdManager → Option FdManager
unfolding set_elem deleted int_of int_le
del (negsuc n) m = if int_le (int_of (length m.fds)) (negsuc n) then some m else none
del (pos fd) m =
    if int_le (int_of (length m.fds)) (pos fd) then some m else deleted m (set_elem m.fds fd none)
