-- ===== src/Http/Response/Laws.antt =====
-- The Content-Length that hound/src/http/http_response.h keeps with the body.
use my_project.Prelude.{
  to_decimal, ℕ, ◌≡◌, ◌∙◌, if◌then◌else◌, Bool, some, ◌++◌, length, Bytes, codes, lookup,
  lookup-insert, bytes_eq,
}
use my_project.Http.Response.{
  HttpResponse, set_content_type, set_body, append_body, set_cookie, set_keep_alive,
}

-- The response says how long its body is.
abbrev pub HasLength : HttpResponse → Type 0
HasLength r = lookup (codes "Content-Length") r.headers ≡ some (to_decimal (length r.body))

-- Whatever the response was: after its body is set, and after text is put behind its body, the
-- Content-Length header is the body's length.
pub body-HasLength :
    (b chunk : Bytes) (r : HttpResponse)
    → HasLength (set_body b r) × HasLength (append_body chunk r)
unfolding set_body append_body bytes_eq
body-HasLength b chunk r =
    let key = codes "Content-Length" in
    (
      lookup-insert key key (to_decimal (length b)) r.headers,
      lookup-insert key key (to_decimal (length (r.body ++ chunk))) r.headers,
    )

-- A response whose Content-Length header is its body's length stays one when a content type, a
-- cookie or keep-alive is set.
kept-HasLength :
    (ct name value path : Bytes) (max_age : ℕ) (http_only on : Bool) (r : HttpResponse)
    → HasLength r
    → HasLength (set_content_type ct r)
      × HasLength (set_cookie name value path max_age http_only r)
      × HasLength (set_keep_alive on r)
unfolding set_content_type set_cookie set_keep_alive bytes_eq
kept-HasLength ct name value path max_age http_only on r h =
    let key = codes "Content-Length" in
    (
      lookup-insert (codes "Content-Type") key ct r.headers ∙ h,
      h,
      lookup-insert (codes "Connection") key (if on then codes "keep-alive" else codes "close")
            r.headers
          ∙ h,
    )
