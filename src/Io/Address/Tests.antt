-- ===== src/Io/Address/Tests.antt =====
-- The theorems on addresses, with texts that begin with 4 or 6 for the two families.
use my_project.Prelude.{ℕ, ◌≡◌, refl, Option, some, [], ◌∷◌, Bytes}
use my_project.Io.Address.{Address, is_valid, resolve, ip, to_string}
use my_project.Io.Address.RoundTrip.{ipv6_address, resolve-to_string}

abbrev same : ℕ → ℕ
same n = n

abbrev text4 : Bytes → Bytes
text4 b = b'4' ∷ b

abbrev text6 : Bytes → Bytes
text6 b = b'6' ∷ b

-- getaddrinfo finds this one address.
abbrev lookup_one : Bytes → Bytes → Option Address
lookup_one host service = some (ipv6_address (1 ∷ []) 80)

to_string_example :
    resolve lookup_one (to_string same text4 text6 (ipv6_address (1 ∷ []) 80))
    ≡ ipv6_address (1 ∷ []) 80
unfolding ip is_valid
to_string_example =
    resolve-to_string same same text4 text6 lookup_one (ipv6_address (1 ∷ []) 80) refl (cc) refl
      refl
