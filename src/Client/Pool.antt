-- ===== src/Client/Pool.antt =====
-- HttpConnectionPool (windgent/http/http_connection.{h,cc}): the pooled connections, which of them
-- getConnection hands out, and what releasePtr does with one that is given back. The sockets, the
-- resolver and the clock are arguments: which socket is connected, what opening a connection gave,
-- and the time that each call of the clock returned.
use hpserver_fw.Prelude.{
  ℕ, ◌+◌, ◌-◌, ◌%◌, Bool, not, ◌||◌, Option, none, some, List, [], ◌∷◌, ◌++◌, length, ltb,
  if◌then◌else◌, Text,
}

-- HttpConnection: its socket, m_createTime and m_request.
pub record Connection : Type 0 where
  pub socket : ℕ
  pub create_time : ℕ
  pub request : ℕ

pub record Pool : Type 0 where
  pub host : Text
  pub vhost : Text
  pub port : ℕ
  pub max_size : ℕ
  pub max_alive_time : ℕ
  pub max_request : ℕ
  pub conns : List Connection
  pub total : ℕ

abbrev pub http_connection_pool : Text → Text → ℕ → ℕ → ℕ → ℕ → Pool
http_connection_pool h v p size alive requests = record {
  host = h;
  vhost = v;
  port = p;
  max_size = size;
  max_alive_time = alive;
  max_request = requests;
  conns = [];
  total = 0;
}

-- m_total is 32 bits wide.
abbrev pub add_total : ℕ → ℕ → ℕ
add_total n t = (t + n) % 4294967296

abbrev pub sub_total : ℕ → ℕ → ℕ
sub_total n t = (t + (4294967296 - n % 4294967296)) % 4294967296

-- `(m_createTime + m_maxAliveTime) < now`, on 64 bits.
unfoldable pub is_expired : ℕ → ℕ → Connection → Bool
is_expired alive now c = ltb ((c.create_time + alive) % 18446744073709551616) now

module _ (is_connected : ℕ → Bool) where
  unfoldable pub is_stale : ℕ → ℕ → Connection → Bool
  unfolding is_expired
  is_stale alive now c = not (is_connected c.socket) || is_expired alive now c

-- What the loop of getConnection found: ptr, the rest of m_conns, and invalid_conns.
pub record Picked : Type 0 where
  pub ptr : Option Connection
  pub rest : List Connection
  pub invalid_conns : List Connection

unfoldable pub with_invalid : Connection → Picked → Picked
with_invalid c p = record p { invalid_conns = c ∷ p.invalid_conns }

module _ (is_connected : ℕ → Bool) where
  unfoldable pub pick : ℕ → ℕ → List Connection → Picked
  unfolding is_stale with_invalid
  pick alive now [] = record { ptr = none; rest = []; invalid_conns = [] }
  pick alive now (c ∷ conns) =
      let more = pick alive now conns in
      if is_stale is_connected alive now c
      then with_invalid c more
      else record { ptr = some c; rest = conns; invalid_conns = [] }

-- A connection over a socket that the creation gave, at the time the clock said then.
unfoldable pub new_connection : ℕ → ℕ → Connection
new_connection sock now = record { socket = sock; create_time = now; request = 0 }

-- The end of getConnection: a pooled connection, or a new one if opening a socket succeeded.
unfoldable pub hand_out : Option Connection → Option ℕ → ℕ → Pool → Option Connection × Pool
unfolding new_connection
hand_out (some c) opened now p = (some c, p)
hand_out none none now p = (none, p)
hand_out none (some sock) now p =
    (some (new_connection sock now), record p { total = add_total 1 p.total })

module _ (is_connected : ℕ → Bool) where
  -- The pool after the loop of getConnection and the deletions.
  unfoldable pub drop_invalid : Picked → Pool → Pool
  drop_invalid k p = record p { conns = k.rest; total = sub_total (length k.invalid_conns) p.total }

  -- getConnection, with the deleted connections.
  unfoldable pub get_connection :
      ℕ → Option ℕ → ℕ → Pool → (Option Connection × Pool) × List Connection
  unfolding pick hand_out drop_invalid
  get_connection now opened later p =
      let k = pick is_connected p.max_alive_time now p.conns in
      (hand_out k.ptr opened later (drop_invalid k p), k.invalid_conns)

  -- releasePtr, with the request that is counted first.
  unfoldable pub count_request : Connection → Connection
  count_request c = record c { request = (c.request + 1) % 18446744073709551616 }

  unfoldable pub release_ptr : ℕ → Connection → Pool → Pool
  unfolding is_stale count_request
  release_ptr now c p =
      if is_stale is_connected p.max_alive_time now (count_request c)
        || ltb p.max_request (count_request c).request
      then record p { total = sub_total 1 p.total }
      else record p { conns = p.conns ++ (count_request c ∷ []) }
