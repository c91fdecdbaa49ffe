-- ===== src/Client/Exchange.antt =====
-- HttpResult and the two doRequest that send a request and wait for the response
-- (windgent/http/http_connection.{h,cc}). Everything that touches the network or the clock is a
-- parameter over a state W of the world; the texts that describe an error are not modelled.
use hpserver_fw.Prelude.{ℕ, Bool, true, false, Option, none, some, Text, if◌then◌else◌}
use hpserver_fw.Http.Messages.{HttpRequest, HttpResponse}
use hpserver_fw.Client.Requests.{Uri}
use hpserver_fw.Client.Pool.{Connection, Pool, pick, get_connection, release_ptr}

-- HttpResult::Error.
pub data Error : Type 0 where
  ok invalid_url invalid_host connect_failed closed_by_peer send_socket_error timeout
        create_socket_error pool_get_conn_failed pool_invalid_conn :
      Error

pub record HttpResult : Type 0 where
  pub result : Error
  pub response : Option HttpResponse

abbrev pub failure : Error → HttpResult
failure e = record { result = e; response = none }

-- What sendRequest returned: zero, less, or more.
pub data Sent : Type 0 where
  nothing_sent send_failed request_sent : Sent

unfoldable pub received : Option HttpResponse → HttpResult
received none = failure timeout
received (some rsp) = record { result = ok; response = some rsp }

-- The end of both doRequest: what the sending and the receiving gave.
module _ {W : Type 0} (recv_response : W → Option HttpResponse × W) where
  unfoldable pub answer : Sent → W → HttpResult × W
  unfolding received
  answer nothing_sent w = (failure closed_by_peer, w)
  answer send_failed w = (failure send_socket_error, w)
  answer request_sent w = let r = recv_response w in (received r.0, r.1)

-- HttpConnection::doRequest(req, uri, timeout_ms).
module _ {W A : Type 0} (get_addr_from_uri : Uri → W → Option A × W)
    (create_tcp : A → W → Option ℕ × W) (connect : ℕ → A → W → Bool × W)
    (set_recv_timeout : ℕ → ℕ → W → W) (send_request : ℕ → HttpRequest → W → Sent × W)
    (recv_response : ℕ → W → Option HttpResponse × W) where
  unfoldable pub on_connected : HttpRequest → ℕ → ℕ → Bool → W → HttpResult × W
  unfolding answer
  on_connected req timeout_ms sock false w = (failure connect_failed, w)
  on_connected req timeout_ms sock true w =
      let s = send_request sock req (set_recv_timeout sock timeout_ms w) in
      answer (recv_response sock) s.0 s.1

  unfoldable pub on_created : HttpRequest → ℕ → A → Option ℕ → W → HttpResult × W
  unfolding on_connected
  on_created req timeout_ms addr none w = (failure create_socket_error, w)
  on_created req timeout_ms addr (some sock) w =
      let c = connect sock addr w in on_connected req timeout_ms sock c.0 c.1

  unfoldable pub on_address : HttpRequest → ℕ → Option A → W → HttpResult × W
  unfolding on_created
  on_address req timeout_ms none w = (failure invalid_host, w)
  on_address req timeout_ms (some addr) w =
      let s = create_tcp addr w in on_created req timeout_ms addr s.0 s.1

  unfoldable pub connection_do_request : HttpRequest → Uri → ℕ → W → HttpResult × W
  unfolding on_address
  connection_do_request req uri timeout_ms w =
      let a = get_addr_from_uri uri w in on_address req timeout_ms a.0 a.1

-- HttpConnectionPool::doRequest(req, timeout_ms). The connection goes back to the pool when its
-- last pointer goes, at the return.
module _ {W : Type 0} (is_connected : W → ℕ → Bool) (get_current_ms : W → ℕ × W)
    (open_socket : Text → ℕ → W → Option ℕ × W) (has_socket : ℕ → Bool)
    (set_recv_timeout : ℕ → ℕ → W → W) (send_request : ℕ → HttpRequest → W → Sent × W)
    (recv_response : ℕ → W → Option HttpResponse × W) where
  unfoldable pub with_time : Option ℕ × W → (Option ℕ × ℕ) × W
  with_time (none, w) = ((none, 0), w)
  with_time (some sock, w) = let t = get_current_ms w in ((some sock, t.0), t.1)

  -- A socket is opened where no pooled connection was usable.
  unfoldable pub opened_for : Option Connection → Pool → W → (Option ℕ × ℕ) × W
  unfolding with_time
  opened_for (some c) p w = ((none, 0), w)
  opened_for none p w = with_time (open_socket p.host p.port w)

  unfoldable pub on_connection : HttpRequest → ℕ → Connection → W → HttpResult × W
  unfolding answer
  on_connection req timeout_ms c w =
      let s = send_request c.socket req (set_recv_timeout c.socket timeout_ms w) in
      let a = answer (recv_response c.socket) s.0 s.1 in
      if has_socket c.socket then a else (failure pool_invalid_conn, w)

  unfoldable pub given_back : Connection → Pool → HttpResult × W → HttpResult × (Pool × W)
  unfolding release_ptr
  given_back c p (r, w) =
      let t = get_current_ms w in (r, (release_ptr (is_connected t.1) t.0 c p, t.1))

  unfoldable pub on_handed_out :
      HttpRequest → ℕ → Option Connection → Pool → W → HttpResult × (Pool × W)
  unfolding on_connection given_back
  on_handed_out req timeout_ms none p w = (failure pool_get_conn_failed, (p, w))
  on_handed_out req timeout_ms (some c) p w = given_back c p (on_connection req timeout_ms c w)

  unfoldable pub pool_do_request : HttpRequest → ℕ → Pool → W → HttpResult × (Pool × W)
  unfolding on_handed_out opened_for get_connection pick
  pool_do_request req timeout_ms p w =
      let t = get_current_ms w in
      let k = pick (is_connected t.1) p.max_alive_time t.0 p.conns in
      let o = opened_for k.ptr p t.1 in
      let g = get_connection (is_connected t.1) t.0 o.0.0 o.0.1 p in
      on_handed_out req timeout_ms g.0.0 g.0.1 o.1
