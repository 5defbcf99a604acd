-- ===== src/Http/Response.antt =====
-- hound/src/http/http_response.h and http_response.cpp: the response and its text. The order in
-- which serialize() walks the unordered map of headers is a parameter.
pub mod Laws
pub mod Length
pub mod Tests
use my_project.Prelude.{
  to_decimal, ℕ, zero, suc, ◌+◌, ◌/◌, ◌%◌, ◌==◌, ltb, if◌then◌else◌, Bool, true, false, List, [],
  ◌∷◌, ◌++◌, length, Bytes, codes, insert,
}

pub record HttpResponse : Type 0 where
  pub status_code : ℕ
  pub status_message : Bytes
  pub headers : List (Bytes × Bytes)
  pub body : Bytes
  pub cookies : List Bytes

-- `HttpResponse{}`
abbrev pub empty_response : HttpResponse
empty_response = record {
  status_code = 200;
  status_message = codes "OK";
  headers = [];
  body = [];
  cookies = [];
}

abbrev pub set_status : ℕ → Bytes → HttpResponse → HttpResponse
set_status code message r = record r { status_code = code; status_message = message }

abbrev pub set_header : Bytes → Bytes → HttpResponse → HttpResponse
set_header key value r = record r { headers = insert key value r.headers }

unfoldable pub set_content_type : Bytes → HttpResponse → HttpResponse
set_content_type ct r = set_header (codes "Content-Type") ct r

unfoldable pub set_body : Bytes → HttpResponse → HttpResponse
set_body b r = set_header (codes "Content-Length") (to_decimal (length b)) (record r { body = b })

unfoldable pub append_body : Bytes → HttpResponse → HttpResponse
append_body chunk r =
    set_header (codes "Content-Length") (to_decimal (length (r.body ++ chunk)))
      (record r { body = r.body ++ chunk })

-- `set_cookie(name, value, path, max_age, http_only)`; a negative max_age is as 0.
unfoldable pub set_cookie : Bytes → Bytes → Bytes → ℕ → Bool → HttpResponse → HttpResponse
set_cookie name value path max_age http_only r =
    let cookie = name ++ codes "=" ++ value ++ codes "; Path=" ++ path in
    let aged =
      if ltb 0 max_age then cookie ++ codes "; Max-Age=" ++ to_decimal max_age else cookie in
    let full = if http_only then aged ++ codes "; HttpOnly" else aged in
    record r { cookies = r.cookies ++ full ∷ [] }

unfoldable pub set_keep_alive : Bool → HttpResponse → HttpResponse
set_keep_alive on r =
    set_header (codes "Connection") (if on then codes "keep-alive" else codes "close") r

unfoldable pub header_lines : List (Bytes × Bytes) → Bytes
header_lines [] = []
header_lines ((k, v) ∷ hs) = k ++ codes ": " ++ v ++ codes "\r\n" ++ header_lines hs

unfoldable pub cookie_lines : List Bytes → Bytes
cookie_lines [] = []
cookie_lines (c ∷ cs) = codes "Set-Cookie: " ++ c ++ codes "\r\n" ++ cookie_lines cs

-- `serialize()`, where `order` is the order of the map
unfoldable pub serialize : (List (Bytes × Bytes) → List (Bytes × Bytes)) → HttpResponse → Bytes
serialize order r =
    codes "HTTP/1.1 "
    ++ to_decimal r.status_code
    ++ codes " "
    ++ r.status_message
    ++ codes "\r\n"
    ++ header_lines (order r.headers)
    ++ cookie_lines r.cookies
    ++ codes "\r\n"
    ++ r.body

unfoldable pub ok : Bytes → Bytes → HttpResponse
ok b content_type =
    let r = set_content_type content_type (set_status 200 (codes "OK") empty_response) in
    if length b == 0 then r else set_body b r

unfoldable pub not_found : Bytes → HttpResponse
not_found b =
    set_body b
      (set_content_type (codes "text/plain") (set_status 404 (codes "Not Found") empty_response))

unfoldable pub internal_error : Bytes → HttpResponse
internal_error b = set_body b (
    set_content_type (codes "text/plain")
      (set_status 500 (codes "Internal Server Error") empty_response))

unfoldable pub redirect : Bytes → ℕ → HttpResponse
redirect location code = set_header (codes "Location") location (
    set_status code (if code == 301 then codes "Moved Permanently" else codes "Found")
      empty_response)

unfoldable pub json : Bytes → HttpResponse
json json_body = ok json_body (codes "application/json; charset=utf-8")
