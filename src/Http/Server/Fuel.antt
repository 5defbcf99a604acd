-- ===== src/Http/Server/Fuel.antt =====
-- The loop of `on_message` in hound/src/http/http_server.cpp comes to an end.
use my_project.Prelude.{
  ℕ, zero, suc, ◌+◌, ◌*◌, ◌<◌, ◌≤◌, ◌==◌, ◌≡◌, ◌⊎◌, refl, ap, sym, subst, Bool, true, false, Option,
  some, List, Bytes, codes, length, length-drop, Bool-cases, inl, inr, arith,
}
use my_project.Io.Buffer.{Buffer, peek, retrieve}
use my_project.Io.Buffer.Invariant.{IsValid, contents}
use my_project.Io.Buffer.Retrieve.{retrieve_lem}
use my_project.Http.Response.{not_found}
use my_project.Http.Parser.{
  State, start, request_line, headers, body, chunked_body, done, error, HttpParser, new_parser,
  request_fields, parse_request_line,
}
use my_project.Http.Parser.Machine.{dispatch, parse_loop, parse}
use my_project.Http.Parser.Consumed.{parse_lem, parse_loop-from}
use my_project.Http.Server.{
  HttpServer, Connection, on_close, has_error, is_done, send_response, handle_request, serve,
}

-- The request line does not finish a request.
parse_request_line_goes_on :
    (t : Bytes) (p : HttpParser) → p.state ≡ start → is_done (parse_request_line t p).1 ≡ false
unfolding parse_request_line request_fields is_done
parse_request_line_goes_on t p s = ground arith

parse_loop_idle :
    (fuel : ℕ) (p : HttpParser) (b : Buffer)
    → p.state ≡ start
    → (parse_loop (suc fuel) p b 0).0 ≡ 0
    → IsValid b
    → is_done (parse_loop (suc fuel) p b 0).1 ≡ false
unfolding parse_loop dispatch is_done
parse_loop_idle fuel p b s h v =
    let (n, q) = parse_request_line (peek b) p in
    ground (
      arith,
      parse_request_line_goes_on (peek b) p s,
      parse_loop-from fuel q (retrieve n b) (0 + n) (retrieve_lem n b v).0,
    )

parse_started :
    (p : HttpParser) (b : Buffer)
    → p.state ≡ start
    → is_done (parse p b).1 ≡ true
    → IsValid b
    → 0 < (parse p b).0
unfolding parse
parse_started p b s d v =
    let e : b.size + 1 ≡ suc b.size = omega arith in
    elim (Bool-cases ((parse p b).0 == 0)) [
      | inr more ↦ ground arith
      | inl idle ↦
          let z : (parse_loop (suc b.size) p b 0).0 ≡ 0 =
            subst (λ f. (parse_loop f p b 0).0 ≡ 0) e
              (let q : (parse p b).0 ≡ 0 = ground arith in q) in
          ground (
            arith,
            parse_loop_idle b.size p b s z v,
            subst (λ f. is_done (parse_loop f p b 0).1 ≡ true) e d,
          )
    ]

parse-size :
    (p : HttpParser) (b : Buffer)
    → IsValid b
    → IsValid (parse p b).2 × ((parse p b).2.size + (parse p b).0 ≡ b.size)
parse-size p b v =
    let (v', e, le) = parse_lem p b v in
    (v', omega (arith, v'.sized, ap length e, length-drop (parse p b).0 (contents b), le, v.sized))

-- What a turn of the loop takes away from.
abbrev pub waiting : State → ℕ
waiting start = 0
waiting request_line = 1
waiting headers = 1
waiting body = 1
waiting chunked_body = 1
waiting done = 1
waiting error = 1

waiting-cases : (st : State) → (st ≡ start) ⊎ (waiting st ≡ 1)
waiting-cases start = inl refl
waiting-cases request_line = inr refl
waiting-cases headers = inr refl
waiting-cases body = inr refl
waiting-cases chunked_body = inr refl
waiting-cases done = inr refl
waiting-cases error = inr refl

waiting-le : (st : State) → waiting st ≤ 1
waiting-le start = omega arith
waiting-le request_line = omega arith
waiting-le headers = omega arith
waiting-le body = omega arith
waiting-le chunked_body = omega arith
waiting-le done = omega arith
waiting-le error = omega arith

done_turn :
    (fuel : ℕ) (p : HttpParser) (b : Buffer)
    → IsValid b
    → is_done (parse p b).1 ≡ true
    → 2 * b.size + waiting p.state < suc fuel
    → 2 * (parse p b).2.size + 0 < fuel
done_turn fuel p b v d h = elim (waiting-cases p.state) [
  | inl s ↦ omega (arith, parse_started p b s d v, (parse-size p b v).1)
  | inr w ↦ omega (arith, (parse-size p b v).1)
]

module _ (order : List (Bytes × Bytes) → List (Bytes × Bytes)) (write : Bytes → Bool)
    (file : Bytes → Option Bytes) (server : HttpServer) where
  handle_request-read_buf :
      (c : Connection) → (handle_request order write file server c).read_buf ≡ c.read_buf
  unfolding handle_request send_response on_close
  handle_request-read_buf c = ground arith

  -- The loop ends on every connection with a well-formed buffer: two turns for each byte in the
  -- buffer, and two more, are enough.
  pub serve_ends :
      (fuel : ℕ) (c : Connection)
      → IsValid c.read_buf
      → 2 * c.read_buf.size + waiting c.parser.state < fuel
      → (c' : Connection) × (serve order write file server fuel c ≡ some c')
  unfolding serve
  serve_ends zero c v h = absurd (omega arith)
  serve_ends (suc fuel) c v h =
      let r = parse c.parser c.read_buf in
      let c1 = record c { parser = r.1; read_buf = r.2 } in
      let size = parse-size c.parser c.read_buf v in
      elim (Bool-cases (c.read_buf.size == 0)) [
        | inl e ↦ rw e (c, refl)
        | inr some_left ↦ elim (Bool-cases r.1.thrown) [
          | inl e ↦ rw (some_left, e) (c1, refl)
          | inr fine ↦ elim (Bool-cases (has_error r.1)) [
            | inl e ↦
                rw (some_left, fine, e)
                  (
                    on_close (
                        send_response order write file server (not_found (codes "400 Bad Request"))
                          c1),
                    refl,
                  )
            | inr good ↦ elim (Bool-cases (is_done r.1)) [
              | inl e ↦
                  let same = sym (handle_request-read_buf c1) in
                  rw (some_left, fine, good, e)
                    (serve_ends fuel
                      (record (handle_request order write file server c1) { parser = new_parser })
                      (subst IsValid same size.0)
                      (subst (λ b. 2 * b.size + 0 < fuel) same
                        (done_turn fuel c.parser c.read_buf v e h)))
              | inr not_yet ↦ elim (Bool-cases (r.0 == 0)) [
                | inl e ↦ rw (some_left, fine, good, not_yet, e) (c1, refl)
                | inr took ↦
                    let pos : 0 < r.0 = ground arith in
                    rw (some_left, fine, good, not_yet, took)
                      (serve_ends fuel c1 size.0 (omega (arith, size.1, pos, waiting-le r.1.state)))
              ]
            ]
          ]
        ]
      ]
