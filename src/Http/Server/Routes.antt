-- ===== src/Http/Server/Routes.antt =====
-- The registration of routes in hound/src/http/http_server.h, and what requests get then.
use my_project.Prelude.{◌≡◌, refl, ap, Bool, Option, List, Bytes, codes}
use my_project.Http.Request
use my_project.Http.Request.{HttpRequest, Method, method_str}
use my_project.Http.Response.{HttpResponse, empty_response}
use my_project.Http.Router.{add, segments}
use my_project.Http.Router.Walk.{route-add}
use my_project.Http.Server.{Handler, HttpServer, respond}

unfoldable pub get : Bytes → Handler → HttpServer → HttpServer
get pattern handler server = record server {
  router = add (codes "GET") pattern handler server.router;
}

unfoldable pub post : Bytes → Handler → HttpServer → HttpServer
post pattern handler server = record server {
  router = add (codes "POST") pattern handler server.router;
}

unfoldable pub put : Bytes → Handler → HttpServer → HttpServer
put pattern handler server = record server {
  router = add (codes "PUT") pattern handler server.router;
}

unfoldable pub del : Bytes → Handler → HttpServer → HttpServer
del pattern handler server = record server {
  router = add (codes "DELETE") pattern handler server.router;
}

unfoldable pub set_static_dir : Bytes → HttpServer → HttpServer
set_static_dir dir server = record server { static_dir = dir }

module _ (order : List (Bytes × Bytes) → List (Bytes × Bytes)) (write : Bytes → Bool)
    (file : Bytes → Option Bytes) where
  respond-add :
      (m : Method) (pattern : Bytes) (handler : Handler) (server : HttpServer) (req : HttpRequest)
      → segments req.path ≡ segments pattern
      → method_str req.method ≡ method_str m
      → respond order write file
          (record server { router = add (method_str m) pattern handler server.router })
          req
        ≡ handler req empty_response
  unfolding respond
  respond-add m pattern handler server req e f =
      let r = route-add server.router (method_str m) pattern req empty_response handler e f in
      rw (respond, r) (ap (λ x. handler req x.1) r)

  -- A handler that is registered for a pattern makes the response to every request of its method
  -- whose path has the pattern's segments, whatever was registered before and whatever the
  -- directory of static files is set to afterwards.
  pub respond-registered :
      (pattern dir : Bytes) (handler : Handler) (server : HttpServer) (req : HttpRequest)
      → segments req.path ≡ segments pattern
      → let answer : Method → HttpResponse =
          λ m. handler (record req { method = m }) empty_response in
        (respond order write file
            (set_static_dir dir (get pattern handler server))
            (record req { method = Request.get })
          ≡ answer Request.get)
        × (respond order write file
              (set_static_dir dir (post pattern handler server))
              (record req { method = Request.post })
            ≡ answer Request.post)
        × (respond order write file
              (set_static_dir dir (put pattern handler server))
              (record req { method = Request.put })
            ≡ answer Request.put)
        × (respond order write file
              (set_static_dir dir (del pattern handler server))
              (record req { method = Request.http_delete })
            ≡ answer Request.http_delete)
  unfolding get post put del set_static_dir method_str
  respond-registered pattern dir handler server req e = (
    respond-add Request.get pattern handler (record server { static_dir = dir }) _ e refl,
    respond-add Request.post pattern handler (record server { static_dir = dir }) _ e refl,
    respond-add Request.put pattern handler (record server { static_dir = dir }) _ e refl,
    respond-add Request.http_delete pattern handler (record server { static_dir = dir }) _ e refl,
  )
