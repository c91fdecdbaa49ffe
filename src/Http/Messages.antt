-- ===== src/Http/Messages.antt =====
-- HttpRequest and HttpResponse (windgent/http/http.{h,cc}): the fields of a message and what sets
-- and reads them. The conversion of a value (boost::lexical_cast) is a parameter.
use hpserver_fw.Prelude.{
  ℕ, ◌≡◌, refl, Bool, true, false, Option, none, some, [], ◌∷◌, if◌then◌else◌, Text, codes,
}
use hpserver_fw.Http.Methods.{HttpMethod, http_get}
use hpserver_fw.Http.Statuses.{HttpStatus}
use hpserver_fw.Http.Headers.{MapType, find, assign, erase, same_nocase}

pub record HttpRequest : Type 0 where
  pub method : HttpMethod
  pub version : ℕ
  pub close : Bool
  pub path : Text
  pub query : Text
  pub fragment : Text
  pub body : Text
  pub headers : MapType
  pub params : MapType
  pub cookies : MapType

pub record HttpResponse : Type 0 where
  pub status : HttpStatus
  pub version : ℕ
  pub close : Bool
  pub reason : Text
  pub body : Text
  pub headers : MapType

abbrev pub http_request : ℕ → Bool → HttpRequest
http_request v c = record {
  method = http_get;
  version = v;
  close = c;
  path = codes "/";
  query = [];
  fragment = [];
  body = [];
  headers = [];
  params = [];
  cookies = [];
}

abbrev pub http_response : ℕ → Bool → HttpResponse
http_response v c = record {
  status = 200;
  version = v;
  close = c;
  reason = [];
  body = [];
  headers = [];
}

-- `it != end() ? it->second : def`.
unfoldable pub found_or : Option Text → Text → Text
found_or none def = def
found_or (some v) def = v

-- getHeader, getParam and getCookie, on the map that each of them reads.
unfoldable pub get_value : MapType → Text → Text → Text
unfolding find found_or
get_value m k def = found_or (find k m) def

-- hasHeader, hasParam and hasCookie: what they return, and what `val` points to after it
-- (none: the null pointer).
unfoldable pub has_value : Option Text → Option Text → Bool × Option Text
has_value none val = (false, val)
has_value (some v) none = (true, none)
has_value (some v) (some w) = (true, some v)

unfoldable pub get_header : HttpRequest → Text → Text → Text
unfolding get_value
get_header r = get_value r.headers

unfoldable pub get_param : HttpRequest → Text → Text → Text
unfolding get_value
get_param r = get_value r.params

unfoldable pub get_cookie : HttpRequest → Text → Text → Text
unfolding get_value
get_cookie r = get_value r.cookies

unfoldable pub set_header : Text → Text → HttpRequest → HttpRequest
unfolding assign
set_header k v r = record r { headers = assign k v r.headers }

unfoldable pub set_param : Text → Text → HttpRequest → HttpRequest
unfolding assign
set_param k v r = record r { params = assign k v r.params }

unfoldable pub set_cookie : Text → Text → HttpRequest → HttpRequest
unfolding assign
set_cookie k v r = record r { cookies = assign k v r.cookies }

unfoldable pub del_header : Text → HttpRequest → HttpRequest
unfolding erase
del_header k r = record r { headers = erase k r.headers }

unfoldable pub del_param : Text → HttpRequest → HttpRequest
unfolding erase
del_param k r = record r { params = erase k r.params }

unfoldable pub del_cookie : Text → HttpRequest → HttpRequest
unfolding erase
del_cookie k r = record r { cookies = erase k r.cookies }

unfoldable pub has_header : HttpRequest → Text → Option Text → Bool × Option Text
unfolding find has_value
has_header r k val = has_value (find k r.headers) val

unfoldable pub has_param : HttpRequest → Text → Option Text → Bool × Option Text
unfolding find has_value
has_param r k val = has_value (find k r.params) val

unfoldable pub has_cookie : HttpRequest → Text → Option Text → Bool × Option Text
unfolding find has_value
has_cookie r k val = has_value (find k r.cookies) val

-- HttpResponse::getHeader, setHeader and delHeader.
unfoldable pub get_response_header : HttpResponse → Text → Text → Text
unfolding get_value
get_response_header r = get_value r.headers

unfoldable pub set_response_header : Text → Text → HttpResponse → HttpResponse
unfolding assign
set_response_header k v r = record r { headers = assign k v r.headers }

unfoldable pub del_response_header : Text → HttpResponse → HttpResponse
unfolding erase
del_response_header k r = record r { headers = erase k r.headers }

module _ {ℓ} {A : Type ℓ} (lexical_cast : Text → Option A) where
  or_default : Option A → A → A
  or_default none def = def
  or_default (some a) def = a

  cast_or : Option Text → A → A
  cast_or none def = def
  cast_or (some t) def = or_default (lexical_cast t) def

  unfoldable pub get_as : MapType → Text → A → A
  unfolding find cast_or or_default
  get_as m k def = cast_or (find k m) def

  -- What is returned, and what `val` refers to after it.
  checked : Option A → A → Bool × A
  checked none def = (false, def)
  checked (some a) def = (true, a)

  check_cast : Option Text → A → Bool × A
  check_cast none def = (false, def)
  check_cast (some t) def = checked (lexical_cast t) def

  unfoldable pub check_get_as : MapType → Text → A → Bool × A
  unfolding find check_cast checked
  check_get_as m k def = check_cast (find k m) def

  checked_value : (o : Option A) (def : A) → (checked o def).1 ≡ or_default o def
  unfolding checked or_default
  checked_value none def = refl
  checked_value (some a) def = refl

  check_cast_value : (o : Option Text) (def : A) → (check_cast o def).1 ≡ cast_or o def
  unfolding check_cast cast_or
  check_cast_value none def = refl
  check_cast_value (some t) def = checked_value (lexical_cast t) def

  -- checkGetAs leaves in `val` what getAs returns.
  pub check_get_as-get_as :
      (m : MapType) (k : Text) (def : A) → (check_get_as m k def).1 ≡ get_as m k def
  unfolding get_as check_get_as
  check_get_as-get_as m k def = check_cast_value (find k m) def

-- init.
unfoldable pub empty_text : Text → Bool
empty_text [] = true
empty_text (x ∷ t) = false

unfoldable pub init : HttpRequest → HttpRequest
unfolding get_header empty_text same_nocase
init r =
    let conn = get_header r (codes "connection") [] in
    if empty_text conn
    then r
    else if same_nocase conn (codes "keep-alive")
    then (record r { close = false })
    else (record r { close = true })
