-- ===== src/Http/Methods.antt =====
-- HttpMethod (windgent/http/http.{h,cc}): the methods, their numbers and their names.
use hpserver_fw.Prelude.{
  ℕ, zero, suc, ◌≡◌, ◌≢◌, refl, Bool, true, false, ◌&&◌, List, [], ◌∷◌, ◌++◌, ◌==◌, if◌then◌else◌,
  Text, codes, same_text, c_str,
}

pub data HttpMethod : Type 0 where
  http_delete http_get http_head http_post http_put http_connect http_options http_trace http_copy
        http_lock http_mkcol http_move http_propfind http_proppatch http_search http_unlock
        http_bind http_rebind http_unbind http_acl http_report http_mkactivity http_checkout
        http_merge http_msearch http_notify http_subscribe http_unsubscribe http_patch http_purge
        http_mkcalendar http_link http_unlink http_source invalid_method :
      HttpMethod

-- HTTP_METHOD_MAP, in the order of the numbers.
abbrev pub http_method_map : List (HttpMethod × Text)
http_method_map =
    (http_delete, codes "DELETE")
    ∷ (http_get, codes "GET")
    ∷ (http_head, codes "HEAD")
    ∷ (http_post, codes "POST")
    ∷ (http_put, codes "PUT")
    ∷ (http_connect, codes "CONNECT")
    ∷ (http_options, codes "OPTIONS")
    ∷ (http_trace, codes "TRACE")
    ∷ (http_copy, codes "COPY")
    ∷ (http_lock, codes "LOCK")
    ∷ (http_mkcol, codes "MKCOL")
    ∷ (http_move, codes "MOVE")
    ∷ (http_propfind, codes "PROPFIND")
    ∷ (http_proppatch, codes "PROPPATCH")
    ∷ (http_search, codes "SEARCH")
    ∷ (http_unlock, codes "UNLOCK")
    ∷ (http_bind, codes "BIND")
    ∷ (http_rebind, codes "REBIND")
    ∷ (http_unbind, codes "UNBIND")
    ∷ (http_acl, codes "ACL")
    ∷ (http_report, codes "REPORT")
    ∷ (http_mkactivity, codes "MKACTIVITY")
    ∷ (http_checkout, codes "CHECKOUT")
    ∷ (http_merge, codes "MERGE")
    ∷ (http_msearch, codes "M-SEARCH")
    ∷ (http_notify, codes "NOTIFY")
    ∷ (http_subscribe, codes "SUBSCRIBE")
    ∷ (http_unsubscribe, codes "UNSUBSCRIBE")
    ∷ (http_patch, codes "PATCH")
    ∷ (http_purge, codes "PURGE")
    ∷ (http_mkcalendar, codes "MKCALENDAR")
    ∷ (http_link, codes "LINK")
    ∷ (http_unlink, codes "UNLINK")
    ∷ (http_source, codes "SOURCE")
    ∷ []

-- `(uint32_t)m`.
unfoldable pub number : HttpMethod → ℕ
number http_delete = 0
number http_get = 1
number http_head = 2
number http_post = 3
number http_put = 4
number http_connect = 5
number http_options = 6
number http_trace = 7
number http_copy = 8
number http_lock = 9
number http_mkcol = 10
number http_move = 11
number http_propfind = 12
number http_proppatch = 13
number http_search = 14
number http_unlock = 15
number http_bind = 16
number http_rebind = 17
number http_unbind = 18
number http_acl = 19
number http_report = 20
number http_mkactivity = 21
number http_checkout = 22
number http_merge = 23
number http_msearch = 24
number http_notify = 25
number http_subscribe = 26
number http_unsubscribe = 27
number http_patch = 28
number http_purge = 29
number http_mkcalendar = 30
number http_link = 31
number http_unlink = 32
number http_source = 33
number invalid_method = 34

-- The cascade of `if`s that XX makes of the table, with the test of the one or the other function.
unfoldable pub first_method : (Text → Bool) → List (HttpMethod × Text) → HttpMethod
first_method test [] = invalid_method
first_method test ((m, name) ∷ t) = let rest = first_method test t in if test name then m else rest

-- strcmp(name, m) == 0.
unfoldable pub string2_http_method : Text → HttpMethod
unfolding first_method same_text c_str
string2_http_method m = first_method (λ name. same_text name (c_str m)) http_method_map

-- strncmp(name, m, strlen(name)) == 0.
unfoldable pub starts_with : Text → Text → Bool
starts_with [] m = true
starts_with (x ∷ name) [] = false
starts_with (x ∷ name) (y ∷ m) = (x == y) && starts_with name m

unfoldable pub chars2_http_method : Text → HttpMethod
unfolding first_method starts_with c_str
chars2_http_method m = first_method (λ name. starts_with name (c_str m)) http_method_map

-- s_method_string[i], or "<unknown>" from the end of the array on.
unfoldable pub name_at : ℕ → List (HttpMethod × Text) → Text
name_at i [] = codes "<unknown>"
name_at zero ((m, name) ∷ t) = name
name_at (suc i) ((m, name) ∷ t) = name_at i t

unfoldable pub http_method2_string : HttpMethod → Text
unfolding number name_at
http_method2_string m = name_at (number m) http_method_map

-- The name of each method is read back.
pub string2_http_method-name :
    (m : HttpMethod) → m ≢ invalid_method → string2_http_method (http_method2_string m) ≡ m
unfolding string2_http_method http_method2_string
string2_http_method-name http_delete h = refl
string2_http_method-name http_get h = refl
string2_http_method-name http_head h = refl
string2_http_method-name http_post h = refl
string2_http_method-name http_put h = refl
string2_http_method-name http_connect h = refl
string2_http_method-name http_options h = refl
string2_http_method-name http_trace h = refl
string2_http_method-name http_copy h = refl
string2_http_method-name http_lock h = refl
string2_http_method-name http_mkcol h = refl
string2_http_method-name http_move h = refl
string2_http_method-name http_propfind h = refl
string2_http_method-name http_proppatch h = refl
string2_http_method-name http_search h = refl
string2_http_method-name http_unlock h = refl
string2_http_method-name http_bind h = refl
string2_http_method-name http_rebind h = refl
string2_http_method-name http_unbind h = refl
string2_http_method-name http_acl h = refl
string2_http_method-name http_report h = refl
string2_http_method-name http_mkactivity h = refl
string2_http_method-name http_checkout h = refl
string2_http_method-name http_merge h = refl
string2_http_method-name http_msearch h = refl
string2_http_method-name http_notify h = refl
string2_http_method-name http_subscribe h = refl
string2_http_method-name http_unsubscribe h = refl
string2_http_method-name http_patch h = refl
string2_http_method-name http_purge h = refl
string2_http_method-name http_mkcalendar h = refl
string2_http_method-name http_link h = refl
string2_http_method-name http_unlink h = refl
string2_http_method-name http_source h = refl
string2_http_method-name invalid_method h = absurd (h refl)

-- So it is with more text behind the name.
pub chars2_http_method-name :
    (m : HttpMethod) (rest : Text)
    → m ≢ invalid_method
    → chars2_http_method (http_method2_string m ++ rest) ≡ m
unfolding chars2_http_method http_method2_string
chars2_http_method-name http_delete rest h = refl
chars2_http_method-name http_get rest h = refl
chars2_http_method-name http_head rest h = refl
chars2_http_method-name http_post rest h = refl
chars2_http_method-name http_put rest h = refl
chars2_http_method-name http_connect rest h = refl
chars2_http_method-name http_options rest h = refl
chars2_http_method-name http_trace rest h = refl
chars2_http_method-name http_copy rest h = refl
chars2_http_method-name http_lock rest h = refl
chars2_http_method-name http_mkcol rest h = refl
chars2_http_method-name http_move rest h = refl
chars2_http_method-name http_propfind rest h = refl
chars2_http_method-name http_proppatch rest h = refl
chars2_http_method-name http_search rest h = refl
chars2_http_method-name http_unlock rest h = refl
chars2_http_method-name http_bind rest h = refl
chars2_http_method-name http_rebind rest h = refl
chars2_http_method-name http_unbind rest h = refl
chars2_http_method-name http_acl rest h = refl
chars2_http_method-name http_report rest h = refl
chars2_http_method-name http_mkactivity rest h = refl
chars2_http_method-name http_checkout rest h = refl
chars2_http_method-name http_merge rest h = refl
chars2_http_method-name http_msearch rest h = refl
chars2_http_method-name http_notify rest h = refl
chars2_http_method-name http_subscribe rest h = refl
chars2_http_method-name http_unsubscribe rest h = refl
chars2_http_method-name http_patch rest h = refl
chars2_http_method-name http_purge rest h = refl
chars2_http_method-name http_mkcalendar rest h = refl
chars2_http_method-name http_link rest h = refl
chars2_http_method-name http_unlink rest h = refl
chars2_http_method-name http_source rest h = refl
chars2_http_method-name invalid_method rest h = absurd (h refl)
