-- ===== src/Descriptors/Examples.antt =====
-- Runs of the descriptor table (windgent/fd_manager.cc) where every descriptor is a socket.
use hpserver_fw.Prelude.{ℕ, ◌≡◌, ◌≢◌, ◌⊎◌, none, Bool, true, false, Option, some, none, arith}
use hpserver_fw.Prelude.Int.{pos}
use hpserver_fw.Descriptors.Manager.{FdCtx, FdManager, fd_manager, get, del}
use hpserver_fw.Descriptors.Contexts.{IsTable, pointer, Created, get-Created, del-pointer}

abbrev socket : ℕ → Option Bool
socket fd = some true

abbrev blank : FdCtx
blank = record {
  is_init = false;
  is_socket = false;
  sys_nonblock = false;
  user_nonblock = false;
  is_closed = false;
  fd = 0;
  recv_timeout = 0;
  send_timeout = 0;
}

abbrev new_table : FdManager
new_table = fd_manager (λ a. blank) (λ fd. false)

new_table-IsTable : IsTable new_table
new_table-IsTable = unfold fd_manager in (omega arith, omega arith)

get-Created_example :
    (m' : FdManager) × (p : ℕ) × (get socket (pos 100) true 7 new_table ≡ some (m', some p))
    × (((pointer new_table.fds 100 ≡ some p) × (m' ≡ new_table))
        ⊎ ((pointer new_table.fds 100 ≡ none) × (p ≡ 7) × Created socket new_table 100 7 m'))
get-Created_example = get-Created socket new_table 100 7 new_table-IsTable (omega arith)

del-pointer_example :
    (m' : FdManager) × (del (pos 5) new_table ≡ some m')
    × IsTable m'
    × (pointer m'.fds 5 ≡ none)
    × ((j : ℕ) → j ≢ 5 → pointer m'.fds j ≡ pointer new_table.fds j)
del-pointer_example = del-pointer new_table 5 new_table-IsTable
