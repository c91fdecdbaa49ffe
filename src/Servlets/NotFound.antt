-- ===== src/Servlets/NotFound.antt =====
-- NotFoundServlet (windgent/http/servlet.{h,cc}): what it writes to the response.
use hpserver_fw.Prelude.{ℕ, ◌≡◌, refl, some, ◌++◌, Text, codes}
use hpserver_fw.Http.Headers.{find, same_nocase, folded}
use hpserver_fw.Http.HeaderLaws.{find-assign}
use hpserver_fw.Http.Messages.{HttpRequest, HttpResponse, set_response_header}

-- m_content, for the name of the server.
unfoldable pub not_found_content : Text → Text
not_found_content name =
    codes
      "<html><head><title>404 Not Found</title></head><body><center><h1>404 Not Found</h1></center><hr><center>"
    ++ (name ++ codes "</center></body></html>")

-- handle, with the response after it; the result is 0.
unfoldable pub not_found_handle : Text → HttpRequest → HttpResponse → HttpResponse × ℕ
unfolding set_response_header not_found_content
not_found_handle name request response =
    let r =
      set_response_header (codes "Server") (codes "windgent/1.0.0")
        (record response { status = 404 }) in
    let r2 = set_response_header (codes "Content-Type") (codes "text/html") r in
    (record r2 { body = not_found_content name }, 0)

-- The response says 404 and names the type of its body, whatever it said before.
pub not_found_handle-response :
    (name : Text) (request : HttpRequest) (response : HttpResponse)
    → let r = (not_found_handle name request response).0 in
      (r.status ≡ 404) × (find (codes "content-type") r.headers ≡ some (codes "text/html"))
unfolding not_found_handle set_response_header same_nocase folded
not_found_handle-response name request response = (
  refl,
  find-assign (codes "content-type") (codes "Content-Type") (codes "text/html")
      (set_response_header (codes "Server") (codes "windgent/1.0.0")
        (record response { status = 404 })).headers,
)
