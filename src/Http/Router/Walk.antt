-- ===== src/Http/Router/Walk.antt =====
-- What the trie of hound/src/http/router.cpp stores, and what `route` finds in it.
use my_project.Prelude.{
  ◌≡◌, refl, ap, sym, ◌∙◌, if◌then◌else◌, Bool, true, false, ◌&&◌, Option, none, some, List, [],
  ◌∷◌, ◌++◌, Bytes, codes, bytes_eq, bytes_eq_iff, lookup, lookup-insert, inl, inr, Option-cases,
  arith,
}
use my_project.Http.Request.{HttpRequest, method_str}
use my_project.Http.Response.{HttpResponse, not_found, set_body, set_content_type}
use my_project.Http.Router.{
  Node, node, Nodes, nil, cons, exact_match, segments, segment, is_param, is_wildcard, handlers,
  children, empty_node, new_child, update_child, add_path, add, first_of, choose, walk, pick, route,
}

abbrev pub segs_eq : List Bytes → List Bytes → Bool
segs_eq [] [] = true
segs_eq [] (t ∷ ts) = false
segs_eq (s ∷ ss) [] = false
segs_eq (s ∷ ss) (t ∷ ts) = bytes_eq s t && segs_eq ss ts

segs_eq_self : (ss : List Bytes) → segs_eq ss ss ≡ true
segs_eq_self [] = refl
segs_eq_self (s ∷ ss) = ground (arith, bytes_eq_iff s s, segs_eq_self ss)

pub not_found_status : (b : Bytes) → (not_found b).status_code ≡ 404
unfolding not_found set_body set_content_type
not_found_status b = refl

module _ {ℓ} {H : Type ℓ} where
  -- The first child of exactly that segment.
  abbrev exact_child : Bytes → Nodes H → Option (Node H)
  exact_child seg nil = none
  exact_child seg (cons c cs) = if bytes_eq (segment c) seg then some c else exact_child seg cs

  -- The handler at a path of segments, none of them read as a pattern: the abstract view of the
  -- trie, a table from segments and methods to handlers.
  abbrev pub registered : List Bytes → Bytes → Node H → Option H
  registered [] m n = lookup m (handlers n)
  registered (s ∷ ss) m n = elim (exact_child s (children n)) [
    | none ↦ none
    | some c ↦ registered ss m c
  ]

  registered-new_child : (ss : List Bytes) (m s : Bytes) → registered ss m (new_child s) ≡ none
  unfolding new_child lookup
  registered-new_child [] m s = refl
  registered-new_child (t ∷ ts) m s = refl

  abbrev or_new : Bytes → Option (Node H) → Node H
  or_new s none = new_child s
  or_new s (some c) = c

  exact_child-update_child :
      (s t : Bytes) (f : Node H → Node H) (cs : Nodes H)
      → ((c : Node H) → segment (f c) ≡ segment c)
      → exact_child s (update_child t f cs)
        ≡ (if bytes_eq t s then some (f (or_new t (exact_child t cs))) else exact_child s cs)
  unfolding update_child new_child
  exact_child-update_child s t f nil k = ground (arith, k (new_child t))
  exact_child-update_child s t f (cons c cs) k = ground (
    arith,
    k c,
    bytes_eq_iff (segment c) t,
    bytes_eq_iff (segment c) s,
    bytes_eq_iff t s,
    exact_child-update_child s t f cs k,
  )

  segment-add_path :
      (ss : List Bytes) (m : Bytes) (h : H) (n : Node H) → segment (add_path ss m h n) ≡ segment n
  unfolding add_path
  segment-add_path [] m h (node s p w hs cs) = refl
  segment-add_path (t ∷ ts) m h (node s p w hs cs) = refl

  -- The store law of the trie: after registering a handler, its own segments and method have it,
  -- and every other pair of segments and method has what it had.
  pub registered-add_path :
      (ss ts : List Bytes) (m m' : Bytes) (h : H) (n : Node H)
      → registered ss m (add_path ts m' h n)
        ≡ (if segs_eq ts ss && bytes_eq m' m then some h else registered ss m n)
  unfolding add_path
  registered-add_path [] [] m m' h (node s p w hs cs) = lookup-insert m' m h hs
  registered-add_path [] (t ∷ ts) m m' h (node s p w hs cs) = refl
  registered-add_path (x ∷ ss) [] m m' h (node s p w hs cs) = refl
  registered-add_path (x ∷ ss) (t ∷ ts) m m' h (node s p w hs cs) =
      let u = exact_child-update_child x t (add_path ts m' h) cs (segment-add_path ts m' h) in
      elim (Option-cases (exact_child x cs)) [
        | inl e ↦ ground (
          arith,
          u,
          bytes_eq_iff t x,
          e,
          registered-add_path ss ts m m' h (new_child t),
          registered-new_child ss m t,
        )
        | inr (c, e) ↦ ground (arith, u, bytes_eq_iff t x, e, registered-add_path ss ts m m' h c)
      ]

  choose-exact :
      (s : Bytes) (cs : Nodes H) (p w : Option (Node H)) (c : Node H)
      → exact_child s cs ≡ some c
      → choose s cs p w ≡ exact_match c
  unfolding choose
  choose-exact s nil p w c h = ground arith
  choose-exact s (cons d cs) p w c h =
      ground (arith, choose-exact s cs (first_of p (is_param d) d) (first_of w (is_wildcard d) d) c)

  pick-walk :
      (ss : List Bytes) (m path : Bytes) (n : Node H) (h : H) (resp : HttpResponse)
      → registered ss m n ≡ some h
      → (k : Node H) × (walk ss n ≡ some k) × (pick m path k resp ≡ (some h, resp))
  unfolding walk pick
  pick-walk [] m path n h resp r = (n, refl, rw (pick, r) refl)
  pick-walk (s ∷ ss) m path n h resp r = elim (Option-cases (exact_child s (children n))) [
    | inl e ↦ ground arith
    | inr (c, e) ↦
        let (k, a, b) =
          pick-walk ss m path c h resp (let q : registered ss m c ≡ some h = ground arith in q) in
        (k, rw (walk, choose-exact s (children n) none none c e) a, b)
  ]

  -- Where a handler is registered at the segments of the request's path for its method, `route`
  -- returns it and leaves the response, whatever parameters and wildcards stand beside.
  pub route-registered :
      (root : Node H) (req : HttpRequest) (resp : HttpResponse) (h : H)
      → registered (segments req.path) (method_str req.method) root ≡ some h
      → route (some root) req resp ≡ (some h, resp)
  unfolding route
  route-registered root req resp h r =
      let (k, a, b) =
        pick-walk (segments req.path) (method_str req.method) req.path root h resp r in
      rw (route, a) b

  registered_own :
      (ss ts : List Bytes) (m m' : Bytes) (h : H) (n : Node H)
      → ss ≡ ts
      → m ≡ m'
      → registered ss m (add_path ts m' h n) ≡ some h
  registered_own ss ts m m' h n e f =
      registered-add_path ss ts m m' h n
      ∙ rw (e, segs_eq_self ts, (bytes_eq_iff m' m).1 (sym f)) refl

  -- A handler added for a method and a pattern is what a request of that method gets whose path
  -- has the pattern's segments, whatever was added before.
  pub route-add :
      (root : Option (Node H)) (method pattern : Bytes) (req : HttpRequest) (resp : HttpResponse)
      (h : H)
      → segments req.path ≡ segments pattern
      → method_str req.method ≡ method
      → route (add method pattern h root) req resp ≡ (some h, resp)
  unfolding add
  route-add none method pattern req resp h e f =
      route-registered (add_path (segments pattern) method h empty_node) req resp h (
        registered_own (segments req.path) (segments pattern) (method_str req.method) method h
          empty_node e f)
  route-add (some root) method pattern req resp h e f =
      route-registered (add_path (segments pattern) method h root) req resp h (
        registered_own (segments req.path) (segments pattern) (method_str req.method) method h root
          e f)

  -- A handler that a request's own segments and method have is kept when another pattern or
  -- another method is registered, and the request still gets it.
  route-add_other :
      (root : Node H) (method pattern : Bytes) (req : HttpRequest) (resp : HttpResponse) (h h' : H)
      → registered (segments req.path) (method_str req.method) root ≡ some h
      → (segs_eq (segments pattern) (segments req.path) && bytes_eq method (method_str req.method))
        ≡ false
      → route (add method pattern h' (some root)) req resp ≡ (some h, resp)
  unfolding add
  route-add_other root method pattern req resp h h' r d =
      route-registered (add_path (segments pattern) method h' root) req resp h (
        registered-add_path (segments req.path) (segments pattern) (method_str req.method) method h'
          root
        ∙ rw d r)

  pick_status :
      (m path : Bytes) (n : Node H) (resp : HttpResponse)
      → (pick m path n resp).0 ≡ none
      → (pick m path n resp).1.status_code ≡ 404
  unfolding pick not_found set_body set_content_type
  pick_status m path n resp e = ground arith

  -- Where a router with routes finds no handler, the response is a 404, also where other methods
  -- are registered for the path.
  route_not_found :
      (root : Node H) (req : HttpRequest) (resp : HttpResponse)
      → (route (some root) req resp).0 ≡ none
      → (route (some root) req resp).1.status_code ≡ 404
  unfolding route
  route_not_found root req resp e = elim (Option-cases (walk (segments req.path) root)) [
    | inl o ↦ rw (route, o) (not_found_status (codes "404 Not Found: " ++ req.path))
    | inr (n, o) ↦
        let q : route (some root) req resp ≡ pick (method_str req.method) req.path n resp =
          rw (route, o) refl in
        ap (λ z. z.1.status_code) q
        ∙ pick_status (method_str req.method) req.path n resp (ap (λ z. z.0) (sym q) ∙ e)
  ]
