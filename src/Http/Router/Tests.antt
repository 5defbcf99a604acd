-- ===== src/Http/Router/Tests.antt =====
-- The theorems on the router at two concrete tables of routes.
use my_project.Prelude.{ℕ, ◌≡◌, refl, false, ◌&&◌, some, [], ◌∷◌, codes, bytes_eq, lookup, insert}
use my_project.Http.Request.{HttpRequest, empty_request, get, method_str}
use my_project.Http.Response.{empty_response}
use my_project.Http.Router.{
  Node, split_from, segments, empty_node, new_child, update_child, add_path, route,
}
use my_project.Http.Router.Walk.{registered, segs_eq, route-registered}

-- GET /u/:id is handler 1, GET /u/me is handler 2.
abbrev root : Node ℕ
root =
    add_path (codes "u" ∷ codes "me" ∷ []) (codes "GET") 2
      (add_path (codes "u" ∷ codes ":id" ∷ []) (codes "GET") 1 empty_node)

abbrev get_me : HttpRequest
get_me = record empty_request { method = get; path = codes "/u/me" }

me_registered : registered (segments get_me.path) (method_str get_me.method) root ≡ some 2
unfolding segments split_from add_path update_child new_child bytes_eq insert lookup method_str
me_registered = refl

route_example : route (some root) get_me empty_response ≡ (some 2, empty_response)
route_example = route-registered root get_me empty_response 2 me_registered

same_segments : segments get_me.path ≡ segments (codes "u/me/")
unfolding segments split_from
same_segments = refl

other :
    (segs_eq (segments (codes "/u/:id")) (segments get_me.path)
      && bytes_eq (codes "GET") (method_str get_me.method))
    ≡ false
unfolding segments split_from bytes_eq method_str
other = refl
