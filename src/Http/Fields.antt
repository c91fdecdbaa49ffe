-- ===== src/Http/Fields.antt =====
-- The start line and the fields that the dumps of windgent/http/http.cc write.
use hpserver_fw.Prelude.{
  ◌≡◌, refl, Bool, true, [], ◌∷◌, ◌++◌, length, arith, Bool-cases, if◌then◌else◌, inl, inr,
  append_assoc, Text, codes,
}
use hpserver_fw.Http.Headers.{MapType, same_nocase}
use hpserver_fw.Http.Messages.{HttpRequest, HttpResponse, empty_text}
use hpserver_fw.Http.Dump.{crlf, decimal, connection, dump_headers, dump_others, dump_body}
use hpserver_fw.Http.Frames.{plain_fields}

-- A body's field.
unfoldable pub content_fields : Text → MapType
unfolding empty_text decimal
content_fields body =
    if empty_text body then [] else (codes "Content-Length", decimal (length body)) ∷ []

-- The headers that are written.
unfoldable pub other_fields : MapType → MapType
unfolding same_nocase
other_fields [] = []
other_fields ((k, v) ∷ m) =
    let rest = other_fields m in if same_nocase k (codes "connection") then rest else (k, v) ∷ rest

abbrev pub connection_field : Bool → Text × Text
connection_field c = (codes "Connection", connection c)

unfoldable pub response_fields : HttpResponse → MapType
unfolding other_fields content_fields connection
response_fields r = other_fields r.headers ++ (connection_field r.close ∷ content_fields r.body)

unfoldable pub request_fields : HttpRequest → MapType
unfolding content_fields connection
request_fields r = connection_field r.close ∷ (r.headers ++ content_fields r.body)

pub dump_headers-append : (m n : MapType) → dump_headers (m ++ n) ≡ dump_headers m ++ dump_headers n
unfolding dump_headers
dump_headers-append [] n = refl
dump_headers-append ((k, v) ∷ m) n = simp (dump_headers-append m n, append_assoc)

pub dump_body-fields :
    (body : Text) → dump_body body ≡ dump_headers (content_fields body) ++ (crlf ++ body)
unfolding dump_body content_fields dump_headers
dump_body-fields [] = refl
dump_body-fields (x ∷ body) = simp (append_assoc)

pub dump_others-fields : (m : MapType) → dump_others m ≡ dump_headers (other_fields m)
unfolding dump_others other_fields dump_headers
dump_others-fields [] = refl
dump_others-fields ((k, v) ∷ m) = elim (Bool-cases (same_nocase k (codes "connection"))) [
  | inl e ↦ ground (arith, dump_others-fields m)
  | inr e ↦ ground (arith, dump_others-fields m)
]

pub plain_fields-append :
    (m n : MapType) → plain_fields m ≡ true → plain_fields n ≡ true → plain_fields (m ++ n) ≡ true
unfolding plain_fields
plain_fields-append [] n h g = g
plain_fields-append ((k, v) ∷ m) n h g = ground (arith, plain_fields-append m n (ground arith) g)

pub plain-other_fields :
    (m : MapType) → plain_fields m ≡ true → plain_fields (other_fields m) ≡ true
unfolding plain_fields other_fields
plain-other_fields [] h = h
plain-other_fields ((k, v) ∷ m) h = ground (arith, plain-other_fields m (ground arith))
