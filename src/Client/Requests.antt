-- ===== src/Client/Requests.antt =====
-- The request that HttpConnection::doRequest and HttpConnectionPool::doRequest build from a method, a
-- target, headers and a body (windgent/http/http_connection.cc).
use hpserver_fw.Prelude.{
  Bool, true, false, not, ◌&&◌, Option, none, some, List, [], ◌∷◌, ◌++◌, if◌then◌else◌, Text, codes,
}
use hpserver_fw.Http.Methods.{HttpMethod, http_get, http_post}
use hpserver_fw.Http.Headers.{same_nocase}
use hpserver_fw.Http.Messages.{HttpRequest, http_request, set_header, empty_text}
use hpserver_fw.Http.Dump.{after_mark}

-- The parts of a Uri that are read: getPath, getQuery, getFragment and getHost.
pub record Uri : Type 0 where
  pub path : Text
  pub query : Text
  pub fragment : Text
  pub host : Text

-- What the loop does to the request for one header.
unfoldable pub take_header : Text → Text → HttpRequest → HttpRequest
unfolding same_nocase set_header
take_header k v r =
    if same_nocase k (codes "connection")
    then (if same_nocase v (codes "keep-alive") then record r { close = false } else r)
    else set_header k v r

-- has_host after one header.
unfoldable pub see_host : Text → Text → Bool → Bool
unfolding same_nocase empty_text
see_host k v has_host =
    if same_nocase k (codes "connection")
    then has_host
    else if not has_host && same_nocase k (codes "host")
    then not (empty_text v)
    else has_host

-- The loop over the headers.
unfoldable pub take_headers : List (Text × Text) → HttpRequest → Bool → HttpRequest × Bool
unfolding take_header see_host
take_headers [] r has_host = (r, has_host)
take_headers ((k, v) ∷ headers) r has_host =
    take_headers headers (take_header k v r) (see_host k v has_host)

-- The Host header, where none was given.
unfoldable pub complete : Text → HttpRequest × Bool → HttpRequest
unfolding set_header
complete host (r, has_host) = if has_host then r else set_header (codes "Host") host r

-- HttpConnection::doRequest(method, uri, ...), up to the sending.
unfoldable pub connection_request : HttpMethod → Uri → List (Text × Text) → Text → HttpRequest
unfolding complete take_headers
connection_request method uri headers body = complete uri.host (
    take_headers headers
      (record (http_request 0x11 true) {
        method = method;
        path = uri.path;
        query = uri.query;
        fragment = uri.fragment;
        body = body;
      })
      false)

unfoldable pub host_name : Text → Text → Text
unfolding empty_text
host_name host vhost = if empty_text vhost then host else vhost

-- HttpConnectionPool::doRequest(method, url, ...), up to the call of doRequest(req, timeout_ms).
unfoldable pub pool_request :
    Text → Text → HttpMethod → Text → List (Text × Text) → Text → HttpRequest
unfolding complete take_headers host_name
pool_request host vhost method url headers body =
    record (complete (host_name host vhost) (
      take_headers headers
        (record (http_request 0x11 true) { method = method; path = url; close = false }) false)) {
          body = body;
        }

-- The text that a Uri is given to the pool as.
unfoldable pub target : Uri → Text
unfolding after_mark
target uri = uri.path ++ (after_mark (codes "?") uri.query ++ after_mark (codes "#") uri.fragment)

-- doGet and doPost of the pool, with the text of a url or with a Uri.
unfoldable pub pool_get : Text → Text → Text → List (Text × Text) → Text → HttpRequest
unfolding pool_request
pool_get host vhost = pool_request host vhost http_get

unfoldable pub pool_post : Text → Text → Text → List (Text × Text) → Text → HttpRequest
unfolding pool_request
pool_post host vhost = pool_request host vhost http_post

unfoldable pub pool_get_uri : Text → Text → Uri → List (Text × Text) → Text → HttpRequest
unfolding pool_get target
pool_get_uri host vhost uri = pool_get host vhost (target uri)

unfoldable pub pool_post_uri : Text → Text → Uri → List (Text × Text) → Text → HttpRequest
unfolding pool_post target
pool_post_uri host vhost uri = pool_post host vhost (target uri)

unfoldable pub pool_request_uri :
    Text → Text → HttpMethod → Uri → List (Text × Text) → Text → HttpRequest
unfolding pool_request target
pool_request_uri host vhost method uri = pool_request host vhost method (target uri)

-- doGet, doPost and doRequest of HttpConnection, with the text of a url: no request where Uri::Create
-- refuses it (INVALID_URL).
module _ (create : Text → Option Uri) where
  unfoldable pub request_of :
      HttpMethod → Option Uri → List (Text × Text) → Text → Option HttpRequest
  unfolding connection_request
  request_of method none headers body = none
  request_of method (some uri) headers body = some (connection_request method uri headers body)

  unfoldable pub connection_request_url :
      HttpMethod → Text → List (Text × Text) → Text → Option HttpRequest
  unfolding request_of
  connection_request_url method url = request_of method (create url)

  unfoldable pub connection_get_url : Text → List (Text × Text) → Text → Option HttpRequest
  unfolding connection_request_url
  connection_get_url = connection_request_url http_get

  unfoldable pub connection_post_url : Text → List (Text × Text) → Text → Option HttpRequest
  unfolding connection_request_url
  connection_post_url = connection_request_url http_post
