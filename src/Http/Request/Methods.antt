-- ===== src/Http/Request/Methods.antt =====
-- The names of the methods in hound/src/http/http_request.cpp.
use my_project.Prelude.{◌≡◌, ◌≢◌, refl, Bytes, codes, bytes_eq_iff, arith}
use my_project.Http.Request.{
  Method, get, post, put, http_delete, head, options, patch, unknown, method_str, method_from_str,
}

-- A method is read back from its name, and a text that is read as a method is that method's name.
method_from_str-method_str :
    (m : Method) (s : Bytes)
    → method_from_str s ≢ unknown
    → (method_from_str (method_str m) ≡ m) × (method_str (method_from_str s) ≡ s)
unfolding method_from_str method_str
method_from_str-method_str m s d = (of_name m, name_of)
  where
    of_name : (m : Method) → method_from_str (method_str m) ≡ m
    of_name get = refl
    of_name post = refl
    of_name put = refl
    of_name http_delete = refl
    of_name head = refl
    of_name options = refl
    of_name patch = refl
    of_name unknown = refl

    name_of : method_str (method_from_str s) ≡ s
    name_of = ground (
      arith,
      d,
      bytes_eq_iff s (codes "GET"),
      bytes_eq_iff s (codes "POST"),
      bytes_eq_iff s (codes "PUT"),
      bytes_eq_iff s (codes "DELETE"),
      bytes_eq_iff s (codes "HEAD"),
      bytes_eq_iff s (codes "OPTIONS"),
      bytes_eq_iff s (codes "PATCH"),
    )
