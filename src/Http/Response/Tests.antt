-- ===== src/Http/Response/Tests.antt =====
-- The theorems on the response at concrete responses.
use my_project.Prelude.{◌≡◌, some, lookup, length, Bytes, codes, arith}
use my_project.Http.Parser.Number.{strtoul}
use my_project.Http.Response.{HttpResponse, empty_response, set_body, append_body}
use my_project.Http.Response.Length.{content_length-strtoul}

abbrev hello : HttpResponse
hello = record empty_response { body = codes "hello" }

length_example :
    ((text : Bytes) × (lookup (codes "Content-Length") (set_body (codes "good day") hello).headers
        ≡ some text)
      × (strtoul 10 text ≡ length (set_body (codes "good day") hello).body))
    × ((text : Bytes) × (lookup
            (codes "Content-Length")
            (append_body (codes " world") hello).headers
          ≡ some text)
        × (strtoul 10 text ≡ length (append_body (codes " world") hello).body))
length_example =
    content_length-strtoul (codes "good day") (codes " world") hello (omega arith) (omega arith)
