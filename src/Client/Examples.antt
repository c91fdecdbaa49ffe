-- ===== src/Client/Examples.antt =====
-- Runs of the connection pool of windgent/http/http_connection.cc.
use hpserver_fw.Prelude.{ℕ, Bool, not, none, List, [], ◌∷◌, ◌==◌, Text, codes}
use hpserver_fw.Http.Methods.{http_get}
use hpserver_fw.Client.Requests.{pool_request}
use hpserver_fw.Client.RequestLaws.{IsPoolRequest, the_host, pool_request-Requests}
use hpserver_fw.Client.Pool.{Connection, Pool, http_connection_pool}
use hpserver_fw.Client.PoolLaws.{Gets, get_connection-Gets}

abbrev one_header : List (Text × Text)
one_header = (codes "Connection", codes "close") ∷ (codes "Accept", codes "text/html") ∷ []

pool_request-Requests_example :
    IsPoolRequest
      (the_host (codes "localhost") [])
      http_get
      (codes "/index")
      one_header
      []
      (pool_request (codes "localhost") [] http_get (codes "/index") one_header [])
pool_request-Requests_example =
    pool_request-Requests (codes "localhost") [] http_get (codes "/index") one_header []

abbrev not_three : ℕ → Bool
not_three n = not (n == 3)

abbrev idle : Connection
idle = record { socket = 7; create_time = 100; request = 2 }

abbrev closed : Connection
closed = record { socket = 3; create_time = 100; request = 1 }

abbrev two_pool : Pool
two_pool = record (http_connection_pool (codes "localhost") [] 80 1 1000 5) {
  conns = closed ∷ idle ∷ [];
  total = 3;
}

get_connection-Gets_example : Gets not_three 500 none 0 two_pool
get_connection-Gets_example = get_connection-Gets not_three 500 none 0 two_pool
