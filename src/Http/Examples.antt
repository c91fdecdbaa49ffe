-- ===== src/Http/Examples.antt =====
-- Messages of windgent/http/http.{h,cc}, written and read.
use hpserver_fw.Prelude.{◌≡◌, refl, ap, true, false, some, [], ◌∷◌, arith, if◌then◌else◌, codes}
use hpserver_fw.Http.Methods.{http_get, invalid_method, number}
use hpserver_fw.Http.Headers.{
  MapType, find, assign, case_insentive_less, same_nocase, precedes, folded,
}
use hpserver_fw.Http.HeaderLaws.{find-assign, IsOrdered, IsBefore}
use hpserver_fw.Http.Messages.{empty_text, HttpRequest, HttpResponse, http_request, http_response}
use hpserver_fw.Http.Dump.{dump_response, dump_request}
use hpserver_fw.Http.Frames.{read_frame, lacks, plain_fields}
use hpserver_fw.Http.Fields.{content_fields, other_fields, response_fields, request_fields}
use hpserver_fw.Http.RoundTrip.{
  status_line, request_line, read_frame-dump_response, read_frame-dump_request,
}

not_invalid : ¬ (http_get ≡ invalid_method)
unfolding number
not_invalid e = absurd (omega (arith, ap number e))

abbrev two_headers : MapType
two_headers = (codes "Connection", codes "upgrade") ∷ (codes "Server", codes "windgent") ∷ []

two_ordered : IsOrdered two_headers
unfolding IsOrdered IsBefore case_insentive_less folded precedes
two_ordered = ((refl, tt), (tt, tt))

find-assign_example : find (codes "SERVER") (assign (codes "server") (codes "x") two_headers) ≡ (
    if same_nocase (codes "SERVER") (codes "server")
    then some (codes "x")
    else find (codes "SERVER") two_headers)
find-assign_example = find-assign (codes "SERVER") (codes "server") (codes "x") two_headers

abbrev a_response : HttpResponse
a_response = record (http_response 0x11 false) { headers = two_headers; body = codes "hello" }

abbrev a_request : HttpRequest
a_request = record (http_request 0x11 true) { headers = two_headers; query = codes "a=1" }

read_frame-dump_response_example :
    read_frame 10 (dump_response a_response)
    ≡ some (status_line a_response, response_fields a_response, codes "hello")
unfolding lacks plain_fields response_fields other_fields content_fields empty_text same_nocase
    folded
read_frame-dump_response_example = read_frame-dump_response 10 a_response (omega arith) refl refl

read_frame-dump_request_example :
    read_frame 10 (dump_request a_request)
    ≡ some (request_line a_request, request_fields a_request, [])
unfolding lacks plain_fields request_fields content_fields empty_text
read_frame-dump_request_example =
    read_frame-dump_request 10 a_request (omega arith) refl refl refl refl
