-- ===== src/Http/Server/Tests.antt =====
-- The theorems on the server at a connection with two pipelined requests.
use my_project.Prelude.{
  ℕ, ◌+◌, ◌*◌, ◌<◌, ◌≡◌, refl, Bool, true, false, Option, none, some, List, [], ◌∷◌, map, arith,
  Bytes, codes, length, find_byte,
}
use my_project.Io.Buffer.{peek}
use my_project.Io.Buffer.Invariant.{texts}
use my_project.Reactor.TimerWheel.{TimerWheel, new_wheel}
use my_project.Http.Parser.{error, new_parser, parse_request_line, find_crlf, request_fields}
use my_project.Http.Parser.Machine.{parse, parse_loop, dispatch}
use my_project.Http.Parser.Encode.{headers_text}
use my_project.Http.Parser.RoundTrip.{Shows}
use my_project.Http.Parser.Tests.{holding, host-IsField, get-IsRequestLine, get-no_body}
use my_project.Http.Server.{HttpServer, Connection, respond, serve}
use my_project.Http.Server.Routes.{get, post, put, del, set_static_dir, respond-registered}
use my_project.Http.Request
use my_project.Http.Request.{HttpRequest, empty_request}
use my_project.Http.Response.{HttpResponse, empty_response}
use my_project.Http.Router.{split_from, segments}
use my_project.Http.Server.Serving.{
  Asked, request_of, pipeline, IsPlain, Answered, answer, serve-pipeline,
}
use my_project.Http.Server.Fuel.{serve_ends}

abbrev same_order : List (Bytes × Bytes) → List (Bytes × Bytes)
same_order hs = hs

abbrev taken : Bytes → Bool
taken raw = true

abbrev no_file : Bytes → Option Bytes
no_file path = none

abbrev server : HttpServer
server = record { router = none; static_dir = [] }

abbrev wheel : TimerWheel ℕ
wheel = new_wheel 10 4 5000

abbrev asked : Asked
asked = record {
  method = codes "GET";
  path = codes "/";
  version = codes "HTTP/1.1";
  headers = (codes "Host", codes "a") ∷ [];
}

asked-IsPlain : IsPlain asked
asked-IsPlain = record {
  words = get-IsRequestLine;
  fields = host-IsField;
  no_chunks = get-no_body.0;
  no_length = get-no_body.1;
}

abbrev connected : Bytes → Connection
connected s = record {
  fd = 5;
  read_buf = holding s;
  parser = new_parser;
  closed = false;
  timeout_timer = 0;
  watching = true;
  erases = 0;
  written = [];
  wheel = wheel;
}

abbrev two_requests : Bytes
two_requests = pipeline (asked ∷ asked ∷ [])

two-Shows : Shows (holding two_requests) two_requests
unfolding texts headers_text
two-Shows = record {
  valid = record { full = tt; fits = omega arith; clean = tt; sized = refl };
  single = record { no_pending = refl; no_consumed = refl };
  holds = refl;
}

pipeline_example :
    (c' : Connection) × (serve same_order taken no_file server 3 (connected two_requests) ≡ some c')
    × Answered
        (connected two_requests)
        c'
        (map (λ a. answer same_order taken no_file server (request_of a)) (asked ∷ asked ∷ []))
        []
pipeline_example =
    serve-pipeline same_order taken no_file server (asked ∷ asked ∷ []) 3 (connected two_requests)
      (asked-IsPlain, (asked-IsPlain, tt)) refl two-Shows (λ raw. refl) (omega arith)

two_requests-fuel : 2 * length two_requests + 0 < 1000
unfolding headers_text
two_requests-fuel = omega arith

ends_example :
    (c' : Connection) × (serve same_order taken no_file server 1000 (connected two_requests)
      ≡ some c')
ends_example =
    serve_ends same_order taken no_file server 1000 (connected two_requests) two-Shows.valid
      two_requests-fuel

bad-error : (parse new_parser (holding (codes "X\r\n"))).1.state ≡ error
unfolding parse parse_loop dispatch parse_request_line find_crlf request_fields peek find_byte
bad-error = refl

bad-thrown : (parse new_parser (holding (codes "X\r\n"))).1.thrown ≡ false
unfolding parse parse_loop dispatch parse_request_line find_crlf request_fields peek find_byte
bad-thrown = refl

-- A handler that answers with the path.
abbrev echo_path : HttpRequest → HttpResponse → HttpResponse
echo_path req resp = record resp { body = req.path }

abbrev root_request : HttpRequest
root_request = record empty_request { path = codes "/u/me" }

abbrev answered : Bytes → HttpResponse
answered path = record empty_response { body = path }

u_segments : segments root_request.path ≡ segments (codes "u/me")
unfolding segments split_from
u_segments = refl

routes_example :
    (respond same_order taken no_file
        (set_static_dir (codes ".") (get (codes "u/me") echo_path server))
        (record root_request { method = Request.get })
      ≡ answered (codes "/u/me"))
    × (respond same_order taken no_file
          (set_static_dir (codes ".") (post (codes "u/me") echo_path server))
          (record root_request { method = Request.post })
        ≡ answered (codes "/u/me"))
    × (respond same_order taken no_file
          (set_static_dir (codes ".") (put (codes "u/me") echo_path server))
          (record root_request { method = Request.put })
        ≡ answered (codes "/u/me"))
    × (respond same_order taken no_file
          (set_static_dir (codes ".") (del (codes "u/me") echo_path server))
          (record root_request { method = Request.http_delete })
        ≡ answered (codes "/u/me"))
routes_example =
    respond-registered same_order taken no_file (codes "u/me") (codes ".") echo_path server
      root_request u_segments
