-- ===== src/Http/RoundTrip.antt =====
-- The dump of a request and of a response (windgent/http/http.cc) is read back by the reader of Http.Frames.
use hpserver_fw.Prelude.{
  ℕ, zero, suc, ◌+◌, ◌<◌, ◌+◌, ◌/◌, ◌%◌, ◌≡◌, refl, ap, ◌∙◌, Bool, true, false, ◌&&◌, some, List,
  [], ◌∷◌, ◌++◌, length, ◌==◌, arith, Bool-cases, if-true, if-false, inl, inr, append_assoc, Text,
  codes,
}
use hpserver_fw.Http.Messages.{HttpRequest, HttpResponse, empty_text}
use hpserver_fw.Http.Dump.{decimal, connection, dump_headers}
use hpserver_fw.Http.Frames.{lacks, lacks-append, plain_fields, frame, read_frame, read_frame-frame}
use hpserver_fw.Http.Fields.{
  content_fields, other_fields, connection_field, response_fields, request_fields,
  dump_headers-append, dump_body-fields, dump_others-fields, plain_fields-append,
  plain-other_fields,
}
use hpserver_fw.Http.Methods.{HttpMethod, http_method_map, name_at, number, http_method2_string}
use hpserver_fw.Http.Statuses.{HttpStatus, http_status_map, status_text, http_status2_string}
use hpserver_fw.Http.Dump.{digits, after_mark, http_version, reason_of, dump_request, dump_response}

lacks-digits : (k n : ℕ) (t : Text) → lacks b'\r' t ≡ true → lacks b'\r' (digits k n t) ≡ true
unfolding digits lacks
lacks-digits zero n t h = ground arith
lacks-digits (suc k) n t h =
    ground (arith, lacks-digits k (n / 10) ((n % 10 + 48) ∷ t) (ground arith))

lacks-decimal : (n : ℕ) → lacks b'\r' (decimal n) ≡ true
unfolding decimal lacks
lacks-decimal n = lacks-digits n n [] refl

lacks-connection : (c : Bool) → lacks b'\r' (connection c) ≡ true
unfolding lacks connection
lacks-connection true = refl
lacks-connection false = refl

lacks_both :
    (s t : Text) → lacks b'\r' s ≡ true → lacks b'\r' t ≡ true → lacks b'\r' (s ++ t) ≡ true
lacks_both s t h g = ground (arith, lacks-append b'\r' s t)

plain-content_fields : (body : Text) → plain_fields (content_fields body) ≡ true
unfolding plain_fields content_fields lacks
plain-content_fields [] = refl
plain-content_fields (x ∷ body) = ground (arith, lacks-decimal (suc (length body)))

lacks-http_version : (v : ℕ) → lacks b'\r' (http_version v) ≡ true
unfolding http_version lacks
lacks-http_version v =
    lacks_both (decimal (v / 16)) (codes "." ++ decimal (v % 16)) (lacks-decimal (v / 16))
      (lacks-decimal (v % 16))

plain_names : List (HttpMethod × Text) → Bool
unfolding lacks
plain_names [] = true
plain_names ((m, name) ∷ t) = lacks b'\r' name && plain_names t

lacks-name_at :
    (i : ℕ) (t : List (HttpMethod × Text)) → plain_names t ≡ true → lacks b'\r' (name_at i t) ≡ true
unfolding lacks name_at plain_names
lacks-name_at i [] h = refl
lacks-name_at zero ((m, name) ∷ t) h = ground arith
lacks-name_at (suc i) ((m, name) ∷ t) h = lacks-name_at i t (ground arith)

lacks-http_method2_string : (m : HttpMethod) → lacks b'\r' (http_method2_string m) ≡ true
unfolding http_method2_string plain_names lacks
lacks-http_method2_string m = lacks-name_at (number m) http_method_map refl

plain_texts : List (HttpStatus × Text) → Bool
unfolding lacks
plain_texts [] = true
plain_texts ((m, name) ∷ t) = lacks b'\r' name && plain_texts t

lacks-status_text :
    (s : HttpStatus) (t : List (HttpStatus × Text))
    → plain_texts t ≡ true
    → lacks b'\r' (status_text s t) ≡ true
unfolding lacks status_text plain_texts
lacks-status_text s [] h = refl
lacks-status_text s ((k, text) ∷ t) h = ground (arith, lacks-status_text s t (ground arith))

lacks-http_status2_string : (s : HttpStatus) → lacks b'\r' (http_status2_string s) ≡ true
unfolding http_status2_string plain_texts lacks
lacks-http_status2_string s = lacks-status_text s http_status_map refl

lacks-reason_of :
    (r : HttpResponse) → lacks b'\r' r.reason ≡ true → lacks b'\r' (reason_of r) ≡ true
unfolding reason_of
lacks-reason_of r h = elim (Bool-cases (empty_text r.reason)) [
  | inl e ↦ ap (lacks b'\r') (if-true _ _ e) ∙ lacks-http_status2_string r.status
  | inr e ↦ ap (lacks b'\r') (if-false _ _ e) ∙ h
]

lacks-after_mark :
    (c : ℕ) (t : Text)
    → (c == b'\r') ≡ false
    → lacks b'\r' t ≡ true
    → lacks b'\r' (after_mark (c ∷ []) t) ≡ true
unfolding after_mark lacks
lacks-after_mark c [] e h = refl
lacks-after_mark c (x ∷ t) e h = ground (arith, h)

abbrev pub status_line : HttpResponse → Text
status_line r =
    http_version r.version ++ (codes " " ++ (decimal r.status ++ (codes " " ++ reason_of r)))

abbrev pub request_line : HttpRequest → Text
request_line r =
    http_method2_string r.method
    ++ (codes " "
        ++ (r.path
            ++ (after_mark (codes "?") r.query
                ++ (after_mark (codes "#") r.fragment ++ (codes " " ++ http_version r.version)))))

plain-response_fields :
    (r : HttpResponse) → plain_fields r.headers ≡ true → plain_fields (response_fields r) ≡ true
unfolding response_fields plain_fields lacks
plain-response_fields r h =
    plain_fields-append (other_fields r.headers) (connection_field r.close ∷ content_fields r.body)
      (plain-other_fields r.headers h)
      (ground (arith, lacks-connection r.close, plain-content_fields r.body))

plain-request_fields :
    (r : HttpRequest) → plain_fields r.headers ≡ true → plain_fields (request_fields r) ≡ true
unfolding request_fields plain_fields lacks
plain-request_fields r h = ground (
  arith,
  lacks-connection r.close,
  plain_fields-append r.headers (content_fields r.body) h (plain-content_fields r.body),
)

lacks-status_line :
    (r : HttpResponse) → lacks b'\r' r.reason ≡ true → lacks b'\r' (status_line r) ≡ true
unfolding lacks
lacks-status_line r h =
    lacks_both (http_version r.version)
      (codes " " ++ (decimal r.status ++ (codes " " ++ reason_of r))) (lacks-http_version r.version)
      (lacks_both (decimal r.status) (codes " " ++ reason_of r) (lacks-decimal r.status)
        (lacks-reason_of r h))

lacks-request_line :
    (r : HttpRequest)
    → lacks b'\r' r.path ≡ true
    → lacks b'\r' r.query ≡ true
    → lacks b'\r' r.fragment ≡ true
    → lacks b'\r' (request_line r) ≡ true
unfolding lacks
lacks-request_line r h g f =
    let query = after_mark (codes "?") r.query in
    let fragment = after_mark (codes "#") r.fragment in
    let tail = codes " " ++ http_version r.version in
    lacks_both (http_method2_string r.method)
      (codes " " ++ (r.path ++ (query ++ (fragment ++ tail)))) (lacks-http_method2_string r.method)
      (lacks_both r.path (query ++ (fragment ++ tail)) h (
        lacks_both query (fragment ++ tail) (lacks-after_mark b'?' r.query refl g) (
          lacks_both fragment tail (lacks-after_mark b'#' r.fragment refl f)
            (lacks-http_version r.version))))

dump_response-frame :
    (r : HttpResponse) → dump_response r ≡ frame (status_line r) (response_fields r) r.body
unfolding dump_response frame response_fields dump_headers
dump_response-frame r = simp (
  append_assoc,
  dump_others-fields r.headers,
  dump_body-fields r.body,
  dump_headers-append (other_fields r.headers) (connection_field r.close ∷ content_fields r.body),
)

dump_request-frame :
    (r : HttpRequest) → dump_request r ≡ frame (request_line r) (request_fields r) r.body
unfolding dump_request frame request_fields dump_headers
dump_request-frame r =
    simp
      (append_assoc, dump_body-fields r.body, dump_headers-append r.headers (content_fields r.body))

-- The dump of a response whose reason and header values have no line end, and whose header names
-- have neither a line end nor a colon, is read back by a reader of start line, fields up to an
-- empty line and the rest: it gives the status line, the headers but those named Connection, one
-- Connection field, for a body that is not empty its Content-Length, and the body.
pub read_frame-dump_response :
    (k : ℕ) (r : HttpResponse)
    → length (response_fields r) < k
    → lacks b'\r' r.reason ≡ true
    → plain_fields r.headers ≡ true
    → read_frame k (dump_response r) ≡ some (status_line r, response_fields r, r.body)
read_frame-dump_response k r hk hr hm =
    ap (read_frame k) (dump_response-frame r)
    ∙ read_frame-frame k (status_line r) (response_fields r) r.body (lacks-status_line r hr) hk
        (plain-response_fields r hm)

-- The dump of a request whose path, query, fragment and header values have no line end, and whose
-- header names have neither a line end nor a colon, is read back by the same reader: it gives the
-- request line, a Connection field, all headers, for a body that is not empty its Content-Length,
-- and the body.
pub read_frame-dump_request :
    (k : ℕ) (r : HttpRequest)
    → length (request_fields r) < k
    → lacks b'\r' r.path ≡ true
    → lacks b'\r' r.query ≡ true
    → lacks b'\r' r.fragment ≡ true
    → plain_fields r.headers ≡ true
    → read_frame k (dump_request r) ≡ some (request_line r, request_fields r, r.body)
read_frame-dump_request k r hk hp hq hf hm =
    ap (read_frame k) (dump_request-frame r)
    ∙ read_frame-frame k (request_line r) (request_fields r) r.body (lacks-request_line r hp hq hf)
        hk (plain-request_fields r hm)
