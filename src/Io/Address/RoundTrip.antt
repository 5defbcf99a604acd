-- ===== src/Io/Address/RoundTrip.antt =====
-- What `resolve` of hound/src/io/address.cpp takes for the host and for the port, and the addresses
-- that `to_string` writes read back.
use my_project.Prelude.{
  ℕ, suc, ◌+◌, ◌-◌, ◌≤◌, ◌<◌, ◌≡◌, ◌≢◌, inl, inr, refl, ap, ◌∙◌, true, false, Option, none, some,
  [], ◌∷◌, ◌++◌, length, length-append, get_elem?, take, drop, take_left, drop_past, Bytes, codes,
  Lacks, All-weaken, to_decimal, to_decimal-IsDigit, Bool-cases, arith,
}
use my_project.Io.Address.{
  inet, inet6, Address, empty_address, is_ipv6, is_valid, rfind_byte, is_byte, remove_brackets,
  resolve, parse, port, ip, to_string,
}

-- What `getaddrinfo` found, or the empty address.
abbrev found : Option Address → Address
found none = empty_address
found (some a) = a

rfind_byte-Lacks : (c : ℕ) (s : Bytes) → Lacks c s → rfind_byte c s ≡ none
unfolding rfind_byte
rfind_byte-Lacks c [] h = refl
rfind_byte-Lacks c (d ∷ s) (hd, hs) = ground (arith, rfind_byte-Lacks c s hs)

rfind_byte-right : (c : ℕ) (s t : Bytes) → Lacks c t → rfind_byte c (s ++ c ∷ t) ≡ some (length s)
unfolding rfind_byte
rfind_byte-right c [] t h = ground (arith, rfind_byte-Lacks c t h)
rfind_byte-right c (d ∷ s) t h = ground (arith, rfind_byte-right c s t h)

-- A host that does not begin with a bracket.
abbrev pub IsPlain : Bytes → Type 0
IsPlain host = is_byte b'[' (get_elem? host 0) ≡ false

remove_brackets-plain : (host : Bytes) → IsPlain host → remove_brackets host ≡ host
unfolding remove_brackets
remove_brackets-plain host h = ground arith

get_elem?-last : (c : ℕ) (s : Bytes) → get_elem? (s ++ c ∷ []) (length s) ≡ some c
get_elem?-last c [] = refl
get_elem?-last c (d ∷ s) = get_elem?-last c s

length-nonempty : (s : Bytes) → s ≢ [] → 1 ≤ length s
length-nonempty [] h = absurd (h refl)
length-nonempty (d ∷ s) h = omega arith

remove_brackets-bracketed :
    (host : Bytes) → host ≢ [] → remove_brackets (codes "[" ++ host ++ codes "]") ≡ host
unfolding remove_brackets
remove_brackets-bracketed host h =
    let l = codes "[" ++ host ++ codes "]" in
    let total : length l ≡ suc (suc (length host)) =
      omega (arith, length-append host (codes "]")) in
    let long : 2 < length l = omega (arith, length-nonempty host h) in
    let at_end : get_elem? l (length l - 1) ≡ some b']' =
      ap (get_elem? l) (let e : length l - 1 ≡ suc (length host) = omega arith in e)
      ∙ get_elem?-last b']' host in
    let inside : take (length l - 2) (drop 1 l) ≡ host =
      ap (λ n. take n (host ++ codes "]")) (let e : length l - 2 ≡ length host = omega arith in e)
      ∙ take_left host (codes "]") in
    ground (arith, at_end, inside, long)

resolve-split :
    (getaddrinfo : Bytes → Bytes → Option Address) (host service : Bytes)
    → Lacks b':' service
    → resolve getaddrinfo (host ++ (codes ":" ++ service))
      ≡ found (getaddrinfo (remove_brackets host) service)
unfolding resolve
resolve-split getaddrinfo host service h =
    let hp : Bytes = host ++ b':' ∷ service in
    let one_more : drop (length host + 1) hp ≡ drop (suc (length host)) hp =
      ap (λ n. drop n hp) (let e : length host + 1 ≡ suc (length host) = omega arith in e) in
    rw (rfind_byte-right b':' host service h, resolve)
      (ap (λ x. found (getaddrinfo (remove_brackets x) (drop (length host + 1) hp)))
          (take_left host (b':' ∷ service))
        ∙ ap (λ x. found (getaddrinfo (remove_brackets host) x))
            (one_more ∙ drop_past host b':' service))

-- `resolve` hands the host and the port to getaddrinfo: the port is what stands behind the last
-- colon, and the brackets of an IPv6 literal, which holds colons itself, are taken off.
resolve_lem :
    (getaddrinfo : Bytes → Bytes → Option Address) (host literal service : Bytes)
    → IsPlain host
    → literal ≢ []
    → Lacks b':' service
    → (resolve getaddrinfo (host ++ (codes ":" ++ service)) ≡ found (getaddrinfo host service))
      × (resolve getaddrinfo ((codes "[" ++ literal ++ codes "]") ++ (codes ":" ++ service))
          ≡ found (getaddrinfo literal service))
resolve_lem getaddrinfo host literal service p d h = (
  resolve-split getaddrinfo host service h
      ∙ ap (λ x. found (getaddrinfo x service)) (remove_brackets-plain host p),
  resolve-split getaddrinfo (codes "[" ++ literal ++ codes "]") service h
      ∙ ap (λ x. found (getaddrinfo x service)) (remove_brackets-bracketed literal d),
)

to_decimal-Lacks : (n : ℕ) → Lacks b':' (to_decimal n)
to_decimal-Lacks n = All-weaken (λ c h. omega arith) (to_decimal n) (to_decimal-IsDigit n)

abbrev pub ipv4_address : Bytes → ℕ → Address
ipv4_address b p = record { family = inet; addr = b; net_port = p; scope = []; socklen = 16 }

abbrev pub ipv6_address : Bytes → ℕ → Address
ipv6_address b p = record { family = inet6; addr = b; net_port = p; scope = []; socklen = 28 }

module _ (htons ntohs : ℕ → ℕ) (inet_ntop inet_ntop6 : Bytes → Bytes) where
  -- The address that `to_string` writes is resolved to itself, where getaddrinfo gives an address
  -- for the numeric form that inet_ntop wrote of it, which is not empty and does not begin with a
  -- bracket.
  pub resolve-to_string :
      (getaddrinfo : Bytes → Bytes → Option Address) (a : Address)
      → is_valid a ≡ true
      → ip ntohs inet_ntop inet_ntop6 a ≢ []
      → IsPlain (ip ntohs inet_ntop inet_ntop6 a)
      → getaddrinfo (ip ntohs inet_ntop inet_ntop6 a) (to_decimal (port ntohs a)) ≡ some a
      → resolve getaddrinfo (to_string ntohs inet_ntop inet_ntop6 a) ≡ a
  unfolding to_string
  resolve-to_string getaddrinfo a v d p g =
      let text = ip ntohs inet_ntop inet_ntop6 a in
      let both =
        resolve_lem getaddrinfo text text (to_decimal (port ntohs a)) p d
          (to_decimal-Lacks (port ntohs a)) in
      elim (Bool-cases (is_ipv6 a)) [
        | inl e ↦ rw (v, to_string) (rw e (both.1 ∙ ap found g))
        | inr e ↦ rw (v, to_string) (rw e (both.0 ∙ ap found g))
      ]

  -- What `ip` and `port` write of an address is parsed to that address, of either family, where
  -- inet_pton reads what inet_ntop wrote, that of IPv4 reads no IPv6 text, and htons undoes ntohs.
  -- An IPv6 address loses its flow and scope: it is stated of those that have none.
  parse-ip :
      (inet_pton inet_pton6 : Bytes → Option Bytes) (getaddrinfo : Bytes → Bytes → Option Address)
      (b : Bytes) (p : ℕ)
      → htons (ntohs p) ≡ p
      → inet_pton (inet_ntop b) ≡ some b
      → inet_pton (inet_ntop6 b) ≡ none
      → inet_pton6 (inet_ntop6 b) ≡ some b
      → (parse htons inet_pton inet_pton6 getaddrinfo
            (ip ntohs inet_ntop inet_ntop6 (ipv4_address b p))
            (port ntohs (ipv4_address b p))
          ≡ ipv4_address b p)
        × (parse htons inet_pton inet_pton6 getaddrinfo
              (ip ntohs inet_ntop inet_ntop6 (ipv6_address b p))
              (port ntohs (ipv6_address b p))
            ≡ ipv6_address b p)
  unfolding parse ip port
  parse-ip inet_pton inet_pton6 getaddrinfo b p hp h4 h46 h6 =
      (rw (h4, parse) (rw hp refl), rw (h46, parse) (rw (h6) (rw hp refl)))
