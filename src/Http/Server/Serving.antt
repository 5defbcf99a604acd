-- ===== src/Http/Server/Serving.antt =====
-- What the loop of `on_message` in hound/src/http/http_server.cpp does with a whole request.
use my_project.Prelude.{
  ℕ, zero, suc, ◌<◌, ◌≡◌, ◌≢◌, refl, ap, sym, ◌∙◌, Bool, true, false, Option, some, List, [], ◌∷◌,
  ◌++◌, map, append-nil, append_assoc, Bytes, codes, length, All, arith,
}
use my_project.Io.Buffer.{Buffer}
use my_project.Http.Request.{HttpRequest, header}
use my_project.Http.Response.{not_found, serialize, set_keep_alive}
use my_project.Http.Parser.{done, error, HttpParser, new_parser}
use my_project.Http.Parser.Machine.{parse}
use my_project.Http.Parser.Encode.{line, request_text, headers_text, IsField}
use my_project.Http.Parser.RoundTrip.{Shows, size-Shows, IsRequestLine, parsed, parse-headers_text}
use my_project.Http.Parser.Unfinalized.{parse_unfinalized}
use my_project.Http.Router.Walk.{not_found_status}
use my_project.Http.Server.Closing.{on_close-closed, on_close-written}
use my_project.Http.Server.{
  HttpServer, Connection, on_close, has_error, is_done, send_response, respond, handle_request,
  serve,
}

-- The requests that a client writes one behind the other: method, path, version and headers.
pub record Asked : Type 0 where
  pub method : Bytes
  pub path : Bytes
  pub version : Bytes
  pub headers : List (Bytes × Bytes)

abbrev pub request_of : Asked → HttpRequest
request_of a = parsed a.method a.path a.version a.headers

abbrev pub pipeline : List Asked → Bytes
pipeline [] = []
pipeline (a ∷ asked) =
    line (request_text a.method a.path a.version) (headers_text a.headers (pipeline asked))

-- A request without a body, whose parts do not clash with the separators.
pub record IsPlain (a : Asked) : Type 0 where
  pub words : IsRequestLine a.method a.path a.version
  pub fields : All IsField a.headers
  pub no_chunks : header (codes "Transfer-Encoding") (request_of a) ≡ []
  pub no_length : header (codes "Content-Length") (request_of a) ≡ []

-- A connection whose socket was handed `raw` more, and that waits for the next request.
pub record Answered (c c' : Connection) (raws : List Bytes) (rest : Bytes) : Type 0 where
  pub written : c'.written ≡ c.written ++ raws
  pub fresh : c'.parser ≡ new_parser
  pub shows : Shows c'.read_buf rest
  pub same_open : c'.closed ≡ c.closed

module _ (order : List (Bytes × Bytes) → List (Bytes × Bytes)) (write : Bytes → Bool)
    (file : Bytes → Option Bytes) (server : HttpServer) where
  -- One turn of the loop, at a request that is complete.
  serve_done :
      (fuel : ℕ) (c : Connection) (r : ℕ × HttpParser × Buffer)
      → c.read_buf.size ≢ 0
      → parse c.parser c.read_buf ≡ r
      → r.1.thrown ≡ false
      → r.1.state ≡ done
      → serve order write file server (suc fuel) c
        ≡ serve order write file server fuel
            (record (handle_request order write file server
              (record c { parser = r.1; read_buf = r.2 })) { parser = new_parser })
  unfolding serve has_error is_done
  serve_done fuel c r more e fine d = ground arith

  serve_error :
      (fuel : ℕ) (c : Connection)
      → c.read_buf.size ≢ 0
      → (parse c.parser c.read_buf).1.thrown ≡ false
      → (parse c.parser c.read_buf).1.state ≡ error
      → write (serialize order (not_found (codes "400 Bad Request"))) ≡ true
      → serve order write file server (suc fuel) c
        ≡ some (
            on_close (record c {
              parser = (parse c.parser c.read_buf).1;
              read_buf = (parse c.parser c.read_buf).2;
              written = c.written ++ serialize order (not_found (codes "400 Bad Request")) ∷ [];
            }))
  unfolding serve has_error send_response
  serve_error fuel c more fine e w = ground arith

  serve_empty :
      (fuel : ℕ) (c : Connection)
      → c.read_buf.size ≡ 0
      → serve order write file server (suc fuel) c ≡ some c
  unfolding serve
  serve_empty fuel c e = ground arith

  -- Handling a request whose keep-alive flag is set, where the system takes the response.
  handle_request_lem :
      (c : Connection) (req : HttpRequest)
      → c.parser.request ≡ req
      → req.keep_alive ≡ true
      → write (serialize order (set_keep_alive true (respond order write file server req))) ≡ true
      → handle_request order write file server c ≡ record c {
        written =
            c.written
            ++ serialize order (set_keep_alive true (respond order write file server req)) ∷ [];
      }
  unfolding handle_request send_response
  handle_request_lem c req r k w = ground arith

  abbrev pub answer : HttpRequest → Bytes
  answer req = serialize order (set_keep_alive true (respond order write file server req))

  nonempty-line : (s rest : Bytes) → 0 < length (line s rest)
  nonempty-line [] rest = omega arith
  nonempty-line (x ∷ s) rest = omega arith

  serve_one :
      (fuel : ℕ) (c : Connection) (a : Asked) (rest : Bytes)
      → IsPlain a
      → c.parser ≡ new_parser
      → Shows c.read_buf
          (line (request_text a.method a.path a.version) (headers_text a.headers rest))
      → write (answer (request_of a)) ≡ true
      → (c' : Connection) × (serve order write file server (suc fuel) c
          ≡ serve order write file server fuel c')
        × Answered c c' (answer (request_of a) ∷ []) rest
  serve_one fuel c a rest plain fresh shows taken =
      let req = request_of a in
      let g =
        parse-headers_text a.method a.path a.version a.headers rest c.read_buf plain.words
          plain.fields plain.no_chunks plain.no_length shows in
      let k : req.keep_alive ≡ true =
        sym (ap (λ r. r.keep_alive) g.request) ∙ (parse_unfinalized c.read_buf).0 in
      let r = parse new_parser c.read_buf in
      let c1 = record c { parser = r.1; read_buf = r.2 } in
      let some_left : c.read_buf.size ≢ 0 = omega (
        arith,
        size-Shows c.read_buf
            (line (request_text a.method a.path a.version) (headers_text a.headers rest)) shows,
        nonempty-line (request_text a.method a.path a.version) (headers_text a.headers rest),
      ) in
      (
        record c1 { parser = new_parser; written = c.written ++ answer req ∷ [] },
        serve_done fuel c r some_left (ap (λ p. parse p c.read_buf) fresh) g.fine g.is_done
            ∙ ap (λ d. serve order write file server fuel (record d { parser = new_parser }))
                (handle_request_lem c1 req g.request k taken),
        record { written = refl; fresh = refl; shows = g.behind; same_open = refl },
      )

  -- Requests without a body that stand one behind the other in the buffer of a fresh connection,
  -- where the system takes every response, are all answered, in their order and each with its own
  -- response; the loop ends, the buffer is used up and the connection stays as open as it was.
  pub serve-pipeline :
      (asked : List Asked) (fuel : ℕ) (c : Connection)
      → All IsPlain asked
      → c.parser ≡ new_parser
      → Shows c.read_buf (pipeline asked)
      → ((raw : Bytes) → write raw ≡ true)
      → length asked < fuel
      → (c' : Connection) × (serve order write file server fuel c ≡ some c')
        × Answered c c' (map (λ a. answer (request_of a)) asked) []
  serve-pipeline asked zero c plain fresh shows taken enough = absurd (omega arith)
  serve-pipeline [] (suc fuel) c plain fresh shows taken enough = (
    c,
    serve_empty fuel c (size-Shows c.read_buf [] shows),
    record { written = sym (append-nil c.written); fresh = fresh; shows = shows; same_open = refl },
  )
  serve-pipeline (a ∷ asked) (suc fuel) c plain fresh shows taken enough =
      let (c1, e, one) =
        serve_one fuel c a (pipeline asked) plain.0 fresh shows (taken (answer (request_of a))) in
      let (c2, e', more) =
        serve-pipeline asked fuel c1 plain.1 one.fresh one.shows taken (omega arith) in
      (
        c2,
        e ∙ e',
        record {
          written =
              more.written
              ∙ ap (λ w. w ++ map (λ b. answer (request_of b)) asked) one.written
              ∙ append_assoc c.written (answer (request_of a) ∷ [])
                  (map (λ b. answer (request_of b)) asked);
          fresh = more.fresh;
          shows = more.shows;
          same_open = more.same_open ∙ one.same_open;
        },
      )

  -- Where the parser meets an error in what is in the buffer, and the system takes the response,
  -- the loop ends: the socket is handed a response with the status 404 and the text
  -- "400 Bad Request", and the connection is closed.
  serve_bad_request :
      (fuel : ℕ) (c : Connection)
      → c.read_buf.size ≢ 0
      → (parse c.parser c.read_buf).1.thrown ≡ false
      → (parse c.parser c.read_buf).1.state ≡ error
      → write (serialize order (not_found (codes "400 Bad Request"))) ≡ true
      → (c' : Connection) × (serve order write file server (suc fuel) c ≡ some c')
        × (c'.written ≡ c.written ++ serialize order (not_found (codes "400 Bad Request")) ∷ [])
        × ((not_found (codes "400 Bad Request")).status_code ≡ 404)
        × (c'.closed ≡ true)
  serve_bad_request fuel c more fine e w =
      let p = parse c.parser c.read_buf in
      let c1 = record c { parser = p.1; read_buf = p.2 } in
      let raw = serialize order (not_found (codes "400 Bad Request")) in
      (
        on_close (record c1 { written = c.written ++ raw ∷ [] }),
        serve_error fuel c more fine e w,
        on_close-written (record c1 { written = c.written ++ raw ∷ [] }),
        not_found_status (codes "400 Bad Request"),
        on_close-closed (record c1 { written = c.written ++ raw ∷ [] }),
      )
