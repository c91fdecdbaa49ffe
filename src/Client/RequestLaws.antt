-- ===== src/Client/RequestLaws.antt =====
-- What the requests of windgent/http/http_connection.cc carry.
use hpserver_fw.Prelude.{
  ◌≡◌, refl, sym, subst, ap, ◌∙◌, Bool, true, false, not, ◌&&◌, ◌||◌, ℕ, Option, none, some, List,
  [], ◌∷◌, if◌then◌else◌, arith, Bool-cases, inl, inr, Text, codes, same_text, same_text_refl,
  same_text→eq,
}
use hpserver_fw.Http.Methods.{HttpMethod}
use hpserver_fw.Http.Headers.{MapType, same_nocase, find, assign, folded}
use hpserver_fw.Http.HeaderLaws.{find-assign}
use hpserver_fw.Http.Messages.{HttpRequest, http_request, set_header, empty_text}
use hpserver_fw.Client.Requests.{
  take_header, see_host, take_headers, complete, host_name, pool_request,
}

-- What the last header named as j, none of them a Connection header, says; without one, what was said before.
pub last_given : Text → List (Text × Text) → Option Text → Option Text
unfolding same_nocase
last_given j [] before = before
last_given j ((k, v) ∷ headers) before = last_given j headers (
    if same_nocase k (codes "connection")
    then before
    else if same_nocase j k
    then some v
    else before)

find-take_header :
    (j k v : Text) (r : HttpRequest)
    → find j (take_header k v r).headers ≡ (
        if same_nocase k (codes "connection")
        then find j r.headers
        else if same_nocase j k
        then some v
        else find j r.headers)
unfolding take_header set_header
find-take_header j k v r = elim (Bool-cases (same_nocase k (codes "connection"))) [
  | inl e ↦ elim (Bool-cases (same_nocase v (codes "keep-alive"))) [
    | inl f ↦ rw (e, f) refl
    | inr f ↦ rw (e, f) refl
  ]
  | inr e ↦ rw (e) (find-assign j k v r.headers)
]

find-take_headers :
    (j : Text) (headers : List (Text × Text)) (r : HttpRequest) (has_host : Bool)
    → find j ((take_headers headers r has_host).0).headers ≡ last_given j headers (find j r.headers)
unfolding take_headers last_given
find-take_headers j [] r has_host = refl
find-take_headers j ((k, v) ∷ headers) r has_host =
    find-take_headers j headers (take_header k v r) (see_host k v has_host)
    ∙ ap (last_given j headers) (find-take_header j k v r)

-- A header that names the host, with a value that is not empty, is among the headers.
unfoldable pub names_host : List (Text × Text) → Bool
unfolding same_nocase
names_host [] = false
names_host ((k, []) ∷ headers) = names_host headers
names_host ((k, c ∷ v) ∷ headers) =
    (not (same_nocase k (codes "connection")) && same_nocase k (codes "host")) || names_host headers

-- The virtual host or, if that is empty, the host.
unfoldable pub the_host : (host vhost : Text) → Text
the_host host [] = host
the_host host (c ∷ vhost) = c ∷ vhost

host_name-the_host : (host vhost : Text) → host_name host vhost ≡ the_host host vhost
unfolding host_name the_host empty_text
host_name-the_host host [] = refl
host_name-the_host host (c ∷ vhost) = refl

or_assoc : (a b c : Bool) → ((a || b) || c) ≡ (a || (b || c))
or_assoc true b c = refl
or_assoc false b c = refl

see_host-empty : (k : Text) (has_host : Bool) → see_host k [] has_host ≡ has_host
unfolding see_host empty_text
see_host-empty k true = ground arith
see_host-empty k false = ground arith

see_host-value :
    (k : Text) (c : ℕ) (v : Text) (has_host : Bool)
    → see_host k (c ∷ v) has_host
      ≡ (has_host || (not (same_nocase k (codes "connection")) && same_nocase k (codes "host")))
unfolding see_host empty_text
see_host-value k c v true = ground arith
see_host-value k c v false = ground arith

has_host-take_headers :
    (headers : List (Text × Text)) (r : HttpRequest) (has_host : Bool)
    → (take_headers headers r has_host).1 ≡ (has_host || names_host headers)
unfolding take_headers names_host
has_host-take_headers [] r true = refl
has_host-take_headers [] r false = refl
has_host-take_headers ((k, []) ∷ headers) r has_host =
    has_host-take_headers headers (take_header k [] r) (see_host k [] has_host)
    ∙ ap (λ b. b || names_host headers) (see_host-empty k has_host)
has_host-take_headers ((k, c ∷ v) ∷ headers) r has_host =
    let named = not (same_nocase k (codes "connection")) && same_nocase k (codes "host") in
    has_host-take_headers headers (take_header k (c ∷ v) r) (see_host k (c ∷ v) has_host)
    ∙ ap (λ b. b || names_host headers) (see_host-value k c v has_host)
    ∙ or_assoc has_host named (names_host headers)

find-complete :
    (j host : Text) (p : HttpRequest × Bool)
    → find j (complete host p).headers ≡ (
        if p.1
        then find j (p.0).headers
        else if same_nocase j (codes "Host")
        then some host
        else find j (p.0).headers)
unfolding complete set_header
find-complete j host (r, true) = refl
find-complete j host (r, false) = find-assign j (codes "Host") host r.headers

-- What the headers of a request say after the loop and the Host header.
pub carried : Text → Text → List (Text × Text) → Option Text
unfolding same_nocase
carried host j headers =
    if names_host headers
    then last_given j headers none
    else if same_nocase j (codes "Host")
    then some host
    else last_given j headers none

find-built :
    (j host : Text) (headers : List (Text × Text)) (r : HttpRequest)
    → r.headers ≡ []
    → find j (complete host (take_headers headers r false)).headers ≡ carried host j headers
unfolding carried find
find-built j host headers r e =
    let found : find j ((take_headers headers r false).0).headers ≡ last_given j headers none =
      find-take_headers j headers r false ∙ ap (λ m. last_given j headers (find j m)) e in
    find-complete j host (take_headers headers r false)
    ∙ rw (found, has_host-take_headers headers r false) refl

same_nocase_sym : (j k : Text) → same_nocase j k ≡ true → same_nocase k j ≡ true
unfolding same_nocase
same_nocase_sym j k e =
    subst (λ t. same_text (folded k) t ≡ true) (sym (same_text→eq (folded j) (folded k) e))
      (same_text_refl (folded k))

last_given-connection :
    (headers : List (Text × Text)) → last_given (codes "connection") headers none ≡ none
unfolding last_given
last_given-connection [] = refl
last_given-connection ((k, v) ∷ headers) = elim (Bool-cases (same_nocase k (codes "connection"))) [
  | inl e ↦ rw (e) (last_given-connection headers)
  | inr e ↦ elim (Bool-cases (same_nocase (codes "connection") k)) [
    | inl f ↦ absurd (ground (arith, e, same_nocase_sym (codes "connection") k f))
    | inr f ↦ rw (e, f) (last_given-connection headers)
  ]
]

-- What no header changes.
module _ {A : Type 0} (part : HttpRequest → A)
    (of_headers : (r : HttpRequest) (m : MapType) → part (record r { headers = m }) ≡ part r) where
  kept-take_header :
      (k v : Text) (r : HttpRequest)
      → part (record r { close = false }) ≡ part r
      → part (take_header k v r) ≡ part r
  unfolding take_header set_header
  kept-take_header k v r h = elim (Bool-cases (same_nocase k (codes "connection"))) [
    | inl e ↦ elim (Bool-cases (same_nocase v (codes "keep-alive"))) [
      | inl f ↦ rw (e, f) h
      | inr f ↦ rw (e, f) refl
    ]
    | inr e ↦ rw (e) (of_headers r (assign k v r.headers))
  ]

  kept-complete : (host : Text) (p : HttpRequest × Bool) → part (complete host p) ≡ part (p.0)
  unfolding complete set_header
  kept-complete host (r, true) = refl
  kept-complete host (r, false) = of_headers r (assign (codes "Host") host r.headers)

  kept-take_headers :
      ((r : HttpRequest) → part (record r { close = false }) ≡ part r)
      → (headers : List (Text × Text)) (r : HttpRequest) (has_host : Bool)
      → part ((take_headers headers r has_host).0) ≡ part r
  unfolding take_headers
  kept-take_headers of_close [] r has_host = refl
  kept-take_headers of_close ((k, v) ∷ headers) r has_host =
      kept-take_headers of_close headers (take_header k v r) (see_host k v has_host)
      ∙ kept-take_header k v r (of_close r)

close-take_headers :
    (headers : List (Text × Text)) (r : HttpRequest) (has_host : Bool)
    → r.close ≡ false
    → ((take_headers headers r has_host).0).close ≡ false
unfolding take_headers
close-take_headers [] r has_host h = h
close-take_headers ((k, v) ∷ headers) r has_host h =
    close-take_headers headers (take_header k v r) (see_host k v has_host)
      (kept-take_header (λ q. q.close) (λ q m. refl) k v r (sym h) ∙ h)

-- A request of the given method, target and body, with the headers that `carried` names.
pub record Carries (host : Text) (headers : List (Text × Text)) (r : HttpRequest) : Type 0 where
  pub header : (j : Text) → find j r.headers ≡ carried host j headers
  pub no_connection : find (codes "connection") r.headers ≡ none

carries :
    (host : Text) (headers : List (Text × Text)) (r : HttpRequest)
    → r.headers ≡ []
    → Carries host headers (complete host (take_headers headers r false))
unfolding carried same_nocase
carries host headers r e = record {
  header = λ j. find-built j host headers r e;
  no_connection =
      find-built (codes "connection") host headers r e ∙ elim (Bool-cases (names_host headers)) [
        | inl f ↦ rw (f) (last_given-connection headers)
        | inr f ↦ rw (f) (last_given-connection headers)
      ];
}

pub record IsPoolRequest (host : Text) (method : HttpMethod) (url : Text)
    (headers : List (Text × Text)) (body : Text) (r : HttpRequest) : Type 0 where
  pub line : (r.method ≡ method) × (r.path ≡ url)
  pub content : r.body ≡ body
  pub keep_alive : r.close ≡ false
  pub fields : Carries host headers r

-- The request that the pool's doRequest builds has the given method, url and body and keeps the
-- connection alive; it carries no Connection header, the last given value of each other header,
-- and, where the given headers name no host, the pool's virtual host or, if that is empty, its
-- host.
pub pool_request-Requests :
    (host vhost : Text) (method : HttpMethod) (url : Text) (headers : List (Text × Text))
    (body : Text)
    → IsPoolRequest
        (the_host host vhost)
        method
        url
        headers
        body
        (pool_request host vhost method url headers body)
unfolding pool_request
pool_request-Requests host vhost method url headers body =
    let r : HttpRequest = record (http_request 0x11 true) {
      method = method;
      path = url;
      close = false;
    } in
    let p = take_headers headers r false in
    let c = carries (host_name host vhost) headers r refl in
    record {
      line = (
        kept-complete (λ q. q.method) (λ q m. refl) (host_name host vhost) p
            ∙ kept-take_headers (λ q. q.method) (λ q m. refl) (λ q. refl) headers r false,
        kept-complete (λ q. q.path) (λ q m. refl) (host_name host vhost) p
            ∙ kept-take_headers (λ q. q.path) (λ q m. refl) (λ q. refl) headers r false,
      );
      content = refl;
      keep_alive =
          kept-complete (λ q. q.close) (λ q m. refl) (host_name host vhost) p
          ∙ close-take_headers headers r false refl;
      fields =
          subst
            (λ t. Carries t headers (record (complete (host_name host vhost) p) { body = body }))
            (host_name-the_host host vhost)
            (record { header = c.header; no_connection = c.no_connection });
    }
