-- ===== src/Io/Address.antt =====
-- hound/src/io/address.h and address.cpp as compiled for Linux: an IP address with its port.
-- The calls of the system are parameters: inet_pton and inet_ntop of each family, getaddrinfo,
-- which gives the first address of its list, htons and ntohs. A C string is the list of its bytes,
-- none of them 0.
pub mod RoundTrip
pub mod Tests
use my_project.Prelude.{
  ℕ, zero, suc, ◌+◌, ◌-◌, ◌==◌, ltb, if◌then◌else◌, Bool, true, false, ◌&&◌, ◌||◌, Option, none,
  some, List, [], ◌∷◌, ◌++◌, length, get_elem?, take, drop, Bytes, codes, to_decimal,
}

pub data Family : Type 0 where
  unspecified inet inet6 : Family

-- `storage_` with its family, the bytes of the IP address, the port in the order of the network,
-- and what else sockaddr_in6 holds; and `socklen_`.
pub record Address : Type 0 where
  pub family : Family
  pub addr : Bytes
  pub net_port : ℕ
  pub scope : Bytes
  pub socklen : ℕ

-- `Address()`
abbrev pub empty_address : Address
empty_address = record { family = unspecified; addr = []; net_port = 0; scope = []; socklen = 0 }

abbrev pub is_ipv4 : Address → Bool
is_ipv4 a = elim a.family [ inet ↦ true | _ ↦ false ]

abbrev pub is_ipv6 : Address → Bool
is_ipv6 a = elim a.family [ inet6 ↦ true | _ ↦ false ]

unfoldable pub is_valid : Address → Bool
is_valid a = is_ipv4 a || is_ipv6 a

-- `s.rfind(c)`: the last index that holds `c`.
unfoldable pub rfind_byte : ℕ → Bytes → Option ℕ
rfind_byte c [] = none
rfind_byte c (d ∷ s) = elim (rfind_byte c s) [
  | some i ↦ some (suc i)
  | none ↦ if d == c then some 0 else none
]

abbrev pub is_byte : ℕ → Option ℕ → Bool
is_byte c none = false
is_byte c (some d) = d == c

-- The brackets of an IPv6 literal are taken off.
unfoldable pub remove_brackets : Bytes → Bytes
remove_brackets host =
    if ltb 2 (length host)
      && is_byte b'[' (get_elem? host 0)
      && is_byte b']' (get_elem? host (length host - 1))
    then take (length host - 2) (drop 1 host)
    else host

-- `resolve(host_port)`
unfoldable pub resolve : (Bytes → Bytes → Option Address) → Bytes → Address
resolve getaddrinfo hp = elim (rfind_byte b':' hp) [
  | none ↦ empty_address
  | some pos ↦ elim (getaddrinfo (remove_brackets (take pos hp)) (drop (pos + 1) hp)) [
    | none ↦ empty_address
    | some a ↦ a
  ]
]

module _ (htons : ℕ → ℕ) (inet_pton inet_pton6 : Bytes → Option Bytes)
    (getaddrinfo : Bytes → Bytes → Option Address) where
  -- `parse(ip, port)`
  unfoldable pub parse : Bytes → ℕ → Address
  parse ip port = elim (inet_pton ip) [
    | some a ↦ record { family = inet; addr = a; net_port = htons port; scope = []; socklen = 16 }
    | none ↦ elim (inet_pton6 ip) [
      | some a ↦ record {
        family = inet6;
        addr = a;
        net_port = htons port;
        scope = [];
        socklen = 28;
      }
      | none ↦ resolve getaddrinfo (ip ++ (codes ":" ++ to_decimal port))
    ]
  ]

  abbrev pub any_ipv4 : ℕ → Address
  any_ipv4 port = parse (codes "0.0.0.0") port

  abbrev pub loopback_v4 : ℕ → Address
  loopback_v4 port = parse (codes "127.0.0.1") port

  abbrev pub any_ipv6 : ℕ → Address
  any_ipv6 port = parse (codes "::") port

  abbrev pub loopback_v6 : ℕ → Address
  loopback_v6 port = parse (codes "::1") port

-- `port()`
unfoldable pub port : (ℕ → ℕ) → Address → ℕ
port ntohs a = elim a.family [
  | inet ↦ ntohs a.net_port
  | inet6 ↦ ntohs a.net_port
  | unspecified ↦ 0
]

module _ (ntohs : ℕ → ℕ) (inet_ntop inet_ntop6 : Bytes → Bytes) where
  -- `ip()`
  unfoldable pub ip : Address → Bytes
  ip a = elim a.family [ inet ↦ inet_ntop a.addr | inet6 ↦ inet_ntop6 a.addr | unspecified ↦ [] ]

  -- `to_string()`
  unfoldable pub to_string : Address → Bytes
  to_string a =
      let host = if is_ipv6 a then codes "[" ++ ip a ++ codes "]" else ip a in
      if is_valid a then host ++ (codes ":" ++ to_decimal (port ntohs a)) else codes "(invalid)"
