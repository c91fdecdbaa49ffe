-- ===== src/Http/Dump.antt =====
-- dump (windgent/http/http.cc): the bytes that a request or a response is written as.
use hpserver_fw.Prelude.{
  ℕ, zero, suc, ◌+◌, ◌-◌, ◌*◌, ◌≤◌, ◌/◌, ◌%◌, ◌≡◌, ap, ◌∙◌, Bool, [], ◌∷◌, ◌++◌, length, ltb, arith,
  Bool-cases, if◌then◌else◌, if-true, if-false, inl, inr, Text, codes,
}
use hpserver_fw.Http.Methods.{http_method2_string}
use hpserver_fw.Http.Statuses.{http_status2_string}
use hpserver_fw.Http.Headers.{MapType, same_nocase}
use hpserver_fw.Http.Messages.{HttpRequest, HttpResponse, empty_text}

abbrev pub crlf : Text
crlf = codes "\r\n"

-- operator<< of an unsigned number: its decimal digits, the fuel a bound on their count less one.
unfoldable pub digits : ℕ → ℕ → Text → Text
digits zero n t = (n % 10 + 48) ∷ t
digits (suc k) n t =
    let more = digits k (n / 10) ((n % 10 + 48) ∷ t) in if ltb n 10 then (n % 10 + 48) ∷ t else more

unfoldable pub decimal : ℕ → Text
unfolding digits
decimal n = digits n n []

-- The number that decimal digits stand for.
unfoldable pub number_of : ℕ → Text → ℕ
number_of acc [] = acc
number_of acc (c ∷ t) = number_of (acc * 10 + (c - 48)) t

unfoldable pub after_mark : Text → Text → Text
unfolding empty_text
after_mark mark t = if empty_text t then [] else (mark ++ t)

unfoldable pub connection : Bool → Text
connection c = if c then codes "close" else codes "keep-alive"

unfoldable pub http_version : ℕ → Text
unfolding decimal
http_version v = codes "HTTP/" ++ (decimal (v / 16) ++ (codes "." ++ decimal (v % 16)))

unfoldable pub dump_headers : MapType → Text
dump_headers [] = []
dump_headers ((k, v) ∷ m) = k ++ (codes ": " ++ (v ++ (crlf ++ dump_headers m)))

unfoldable pub dump_body : Text → Text
unfolding empty_text decimal
dump_body body =
    if empty_text body
    then crlf
    else (codes "Content-Length: " ++ (decimal (length body) ++ (codes "\r\n\r\n" ++ body)))

-- HttpRequest::dump.
unfoldable pub dump_request : HttpRequest → Text
unfolding after_mark connection http_version dump_headers dump_body http_method2_string
dump_request r =
    http_method2_string r.method
    ++ (codes " "
        ++ (r.path
            ++ (after_mark (codes "?") r.query
                ++ (after_mark (codes "#") r.fragment
                    ++ (codes " "
                        ++ (http_version r.version
                            ++ (crlf
                                ++ (codes "Connection: "
                                    ++ (connection r.close
                                        ++ (crlf
                                            ++ (dump_headers r.headers
                                                ++ dump_body r.body)))))))))))

-- The headers of a response that are not skipped.
unfoldable pub dump_others : MapType → Text
unfolding same_nocase
dump_others [] = []
dump_others ((k, v) ∷ m) =
    let rest = dump_others m in
    if same_nocase k (codes "connection")
    then rest
    else (k ++ (codes ": " ++ (v ++ (crlf ++ rest))))

unfoldable pub reason_of : HttpResponse → Text
unfolding empty_text http_status2_string
reason_of r = if empty_text r.reason then http_status2_string r.status else r.reason

-- HttpResponse::dump.
unfoldable pub dump_response : HttpResponse → Text
unfolding connection http_version decimal dump_others dump_body reason_of
dump_response r =
    http_version r.version
    ++ (codes " "
        ++ (decimal r.status
            ++ (codes " "
                ++ (reason_of r
                    ++ (crlf
                        ++ (dump_others r.headers
                            ++ (codes "Connection: "
                                ++ (connection r.close ++ (crlf ++ dump_body r.body)))))))))

last_digit :
    (acc n : ℕ) (t : Text) (m : ℕ)
    → acc * 10 + n % 10 ≡ m
    → number_of acc ((n % 10 + 48) ∷ t) ≡ number_of m t
unfolding number_of
last_digit acc n t m e = ap (λ (x : ℕ). number_of x t) (omega (arith, e))

number_of-digits : (k n : ℕ) (t : Text) → n ≤ k → number_of 0 (digits k n t) ≡ number_of n t
unfolding digits
number_of-digits zero n t h = last_digit 0 n t n (omega arith)
number_of-digits (suc k) n t h = elim (Bool-cases (ltb n 10)) [
  | inl e ↦ ap (number_of 0) (if-true _ _ e) ∙ last_digit 0 n t n (ground arith)
  | inr e ↦
      ap (number_of 0) (if-false _ _ e)
      ∙ number_of-digits k (n / 10) ((n % 10 + 48) ∷ t) (omega arith)
      ∙ last_digit (n / 10) n t n (omega arith)
]

-- Decimal digits are read back.
pub number_of-decimal : (n : ℕ) → number_of 0 (decimal n) ≡ n
unfolding decimal number_of
number_of-decimal n = number_of-digits n n [] (omega arith)
