-- ===== src/Http/Router.antt =====
-- hound/src/http/router.h and router.cpp: the trie of routes. The handlers are values of a type H.
-- The captured parameters are left out: they are a local of route() that nothing reads.
pub mod Walk
pub mod Tests
use my_project.Prelude.{
  ℕ, zero, suc, ◌==◌, if◌then◌else◌, Bool, true, false, ◌||◌, not, ◌&&◌, Option, none, some, List,
  [], ◌∷◌, ◌++◌, Bytes, codes, bytes_eq, lookup, insert, length,
}
use my_project.Http.Request.{HttpRequest, Method, method_str}
use my_project.Http.Response.{HttpResponse, not_found}

mutual
  pub data Node {ℓ} (H : Type ℓ) : Type ℓ where
    node : Bytes → Bool → Bool → List (Bytes × H) → Nodes H → Node H

  pub data Nodes {ℓ} (H : Type ℓ) : Type ℓ where
    nil : Nodes H
    cons : Node H → Nodes H → Nodes H

-- What the loop of `route` over a node's children finds.
pub data Choice {ℓ} (H : Type ℓ) : Type ℓ where
  exact_match param_match wildcard_match : Node H → Choice H
  no_match : Choice H

-- The loop over std::getline(iss, seg, '/'), which skips the empty pieces: `seg` is the piece read so far.
unfoldable pub split_from : Bytes → Bytes → List Bytes
split_from [] [] = []
split_from (c ∷ seg) [] = (c ∷ seg) ∷ []
split_from [] (c ∷ s) = if c == 47 then split_from [] s else split_from (c ∷ []) s
split_from (d ∷ seg) (c ∷ s) =
    if c == 47 then (d ∷ seg) ∷ split_from [] s else split_from ((d ∷ seg) ++ c ∷ []) s

unfoldable pub segments : Bytes → List Bytes
segments path = split_from [] path

abbrev pub starts_with : ℕ → Bytes → Bool
starts_with c [] = false
starts_with c (d ∷ s) = d == c

module _ {ℓ} {H : Type ℓ} where
  abbrev pub segment : Node H → Bytes
  segment (node s p w hs cs) = s

  abbrev pub is_param : Node H → Bool
  is_param (node s p w hs cs) = p

  abbrev pub is_wildcard : Node H → Bool
  is_wildcard (node s p w hs cs) = w

  abbrev pub handlers : Node H → List (Bytes × H)
  handlers (node s p w hs cs) = hs

  abbrev pub children : Node H → Nodes H
  children (node s p w hs cs) = cs

  -- `Node{}`
  abbrev pub empty_node : Node H
  empty_node = node [] false false [] nil

  -- The node that `add` makes for a segment: ':' starts a parameter, '*' a wildcard.
  unfoldable pub new_child : Bytes → Node H
  new_child seg = node seg (starts_with 58 seg) (starts_with 42 seg) [] nil

  -- `Node::find_child(seg)`
  unfoldable pub find_child : Bytes → Nodes H → Option (Node H)
  find_child seg nil = none
  find_child seg (cons c cs) =
      if bytes_eq (segment c) seg || is_param c || is_wildcard c then some c else find_child seg cs

  -- One turn of `add`'s walk: the first child of that segment, or a new last one, is updated.
  unfoldable pub update_child : Bytes → (Node H → Node H) → Nodes H → Nodes H
  update_child seg f nil = cons (f (new_child seg)) nil
  update_child seg f (cons c cs) =
      if bytes_eq (segment c) seg then cons (f c) cs else cons c (update_child seg f cs)

  unfoldable pub add_path : List Bytes → Bytes → H → Node H → Node H
  add_path [] method h (node s p w hs cs) = node s p w (insert method h hs) cs
  add_path (seg ∷ segs) method h (node s p w hs cs) =
      node s p w hs (update_child seg (add_path segs method h) cs)

  -- `add(method, pattern, handler)`, on the router's root
  unfoldable pub add : Bytes → Bytes → H → Option (Node H) → Option (Node H)
  add method pattern h none = some (add_path (segments pattern) method h empty_node)
  add method pattern h (some root) = some (add_path (segments pattern) method h root)

  unfoldable pub first_of : Option (Node H) → Bool → Node H → Option (Node H)
  first_of (some m) b n = some m
  first_of none b n = if b then some n else none

  unfoldable pub choose : Bytes → Nodes H → Option (Node H) → Option (Node H) → Choice H
  choose seg nil (some p) w = param_match p
  choose seg nil none (some w) = wildcard_match w
  choose seg nil none none = no_match
  choose seg (cons c cs) p w =
      if bytes_eq (segment c) seg
      then exact_match c
      else choose seg cs (first_of p (is_param c) c) (first_of w (is_wildcard c) c)

  -- The loop of `route` over the segments of the path.
  unfoldable pub walk : List Bytes → Node H → Option (Node H)
  walk [] n = some n
  walk (seg ∷ segs) n = elim (choose seg (children n) none none) [
    | exact_match m ↦ walk segs m
    | param_match m ↦ walk segs m
    | wildcard_match m ↦ some m
    | no_match ↦ none
  ]

  -- The end of `route`: the handler of the method, or the response that says there is none.
  unfoldable pub pick : Bytes → Bytes → Node H → HttpResponse → Option H × HttpResponse
  pick method path n resp = elim (lookup method (handlers n)) [
    | some h ↦ (some h, resp)
    | none ↦ (
      none,
      if not (length (handlers n) == 0)
          then not_found (codes "405 Method Not Allowed")
          else not_found (codes "404 Not Found: " ++ path),
    )
  ]

  -- `route(req, &resp)`
  unfoldable pub route : Option (Node H) → HttpRequest → HttpResponse → Option H × HttpResponse
  route none req resp = (none, resp)
  route (some root) req resp = elim (walk (segments req.path) root) [
    | none ↦ (none, not_found (codes "404 Not Found: " ++ req.path))
    | some n ↦ pick (method_str req.method) req.path n resp
  ]
