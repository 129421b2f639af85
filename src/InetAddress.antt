-- ===== src/InetAddress.antt =====
-- src/inet_address.h and src/inet_address.cc: an address is the bytes of its `sockaddr_storage`,
-- on a machine that stores the lowest byte first. A port is the pattern of its `short`, a number
-- below 2 ^ 16.
pub mod Comparing
pub mod Reading
mod Tests
use base_linux.Base.{
  ℕ, zero, suc, ◌+◌, ◌*◌, ◌/◌, ◌%◌, Bool, true, false, not, ◌&&◌, Option, none, some, List, [], ◌∷◌,
  ◌++◌, length, replicate, get_elem?, slice, take, blit, ltb, ◌==◌, if◌then◌else◌,
}

pub record InetAddress : Type 0 where
  pub address : List ℕ

abbrev pub af_inet : ℕ
af_inet = 2

abbrev pub af_inet6 : ℕ
af_inet6 = 10

-- `InetAddress()`, which `INVALID_ADDR` is too
abbrev pub invalid_addr : InetAddress
invalid_addr = record { address = replicate 128 0 }

-- `InetAddress(const sockaddr_storage&)`
abbrev pub of_storage : List ℕ → InetAddress
of_storage bytes = record { address = bytes }

-- `htobe16` as bytes in memory
abbrev pub htobe16 : ℕ → List ℕ
htobe16 v = (v / 256 % 256) ∷ (v % 256) ∷ []

-- `htobe32` as bytes in memory
abbrev pub htobe32 : ℕ → List ℕ
htobe32 v = (v / 16777216 % 256) ∷ (v / 65536 % 256) ∷ (v / 256 % 256) ∷ (v % 256) ∷ []

-- `sin_family` and `sin_port`, or those of `sockaddr_in6`, which stand at the same places
abbrev pub head : ℕ → ℕ → List ℕ
head family port = (family % 256) ∷ (family / 256 % 256) ∷ htobe16 port

-- A `sockaddr_in` in cleared storage, with the four bytes of `sin_addr`
unfoldable pub sockaddr_in : List ℕ → ℕ → InetAddress
unfolding blit
sockaddr_in ip port = record { address = blit (blit (replicate 128 0) 0 (head af_inet port)) 4 ip }

-- A `sockaddr_in6` in cleared storage, with the sixteen bytes of `sin6_addr`
unfoldable pub sockaddr_in6 : List ℕ → ℕ → InetAddress
unfolding blit
sockaddr_in6 ip port = record {
  address = blit (blit (replicate 128 0) 0 (head af_inet6 port)) 8 ip;
}

-- `in6addr_any` and `in6addr_loopback`
abbrev pub in6addr_any : List ℕ
in6addr_any = replicate 16 0

abbrev pub in6addr_loopback : List ℕ
in6addr_loopback = replicate 15 0 ++ 1 ∷ []

-- `InetAddress(port, is_ipv4, only_loopback)`
unfoldable pub of_port : ℕ → Bool → Bool → InetAddress
unfolding sockaddr_in sockaddr_in6
of_port port is_ipv4 only_loopback =
    if is_ipv4
    then sockaddr_in (htobe32 (if only_loopback then 2130706433 else 0)) port
    else sockaddr_in6 (if only_loopback then in6addr_loopback else in6addr_any) port

-- What `inet_pton` answers: 1 with the bytes of the address, 0, or -1.
pub data Pton : Type 0 where
  converted : List ℕ → Pton
  no_address : Pton
  no_family : Pton

-- `ip.find(':')`
unfoldable pub is_with_colon : List ℕ → Bool
is_with_colon [] = false
is_with_colon (c ∷ cs) = if c == 58 then true else is_with_colon cs

-- The address with what `inet_pton` wrote into it.
abbrev pub with_pton : Pton → (List ℕ → InetAddress) → List ℕ → InetAddress
with_pton (converted ip) address unwritten = address ip
with_pton no_address address unwritten = address unwritten
with_pton no_family address unwritten = invalid_addr

-- `InetAddress(ip, port)`, with `inet_pton` for the two families
unfoldable pub of_ip : (List ℕ → Pton) → (List ℕ → Pton) → List ℕ → ℕ → InetAddress
unfolding sockaddr_in sockaddr_in6 is_with_colon
of_ip pton4 pton6 ip port =
    if is_with_colon ip
    then with_pton (pton6 ip) (λ raw. sockaddr_in6 raw port) (replicate 16 0)
    else with_pton (pton4 ip) (λ raw. sockaddr_in raw port) (replicate 4 0)

-- the byte at a place, 0 beyond the end
abbrev pub byte : InetAddress → ℕ → ℕ
byte a i = elim (get_elem? a.address i) [ none ↦ 0 | some b ↦ b ]

-- `ss_family`
abbrev pub ss_family : InetAddress → ℕ
ss_family a = byte a 0 + 256 * byte a 1

-- `IsV4`
abbrev pub is_v4 : InetAddress → Bool
is_v4 a = ss_family a == af_inet

-- `port`, with `be16toh`
abbrev pub port : InetAddress → ℕ
port a = 256 * byte a 2 + byte a 3

-- `memcmp` of as many bytes, whether it is 0
abbrev pub same_bytes : List ℕ → List ℕ → Bool
same_bytes [] [] = true
same_bytes [] (y ∷ ys) = false
same_bytes (x ∷ xs) [] = false
same_bytes (x ∷ xs) (y ∷ ys) = (x == y) && same_bytes xs ys

-- `operator==`, with `sizeof(sockaddr_in)`
unfoldable pub is_equal : InetAddress → InetAddress → Bool
is_equal left right = same_bytes (slice left.address 0 16) (slice right.address 0 16)

-- `operator!=`
abbrev pub is_different : InetAddress → InetAddress → Bool
is_different left right = not (is_equal left right)

-- one of the results of `getaddrinfo`: its family, and the bytes of its address structure
pub record AddrInfo : Type 0 where
  pub ai_family : ℕ
  pub ai_addr : List ℕ

-- the loop of `GetList`, which looks at the family of the first result for each
unfoldable pub read_list : ℕ → List AddrInfo → ℕ → List InetAddress
unfolding sockaddr_in sockaddr_in6
read_list first [] port = []
read_list first (rp ∷ rest) port =
    (if first == af_inet
      then sockaddr_in (slice rp.ai_addr 4 4) port
      else sockaddr_in6 (slice rp.ai_addr 8 16) port)
    ∷ read_list first rest port

-- `GetList`, with the answers of `gethostname` and of `getaddrinfo`
unfoldable pub found_list : Option (List AddrInfo) → ℕ → List InetAddress
unfolding read_list
found_list none port = []
found_list (some []) port = []
found_list (some (info ∷ rest)) port = read_list info.ai_family (info ∷ rest) port

unfoldable pub get_list :
    Option (List ℕ) → (List ℕ → Option (List AddrInfo)) → List ℕ → ℕ → List InetAddress
unfolding found_list
get_list host_name getaddrinfo [] port = elim host_name [
  | none ↦ []
  | some name ↦ found_list (getaddrinfo name) port
]
get_list host_name getaddrinfo (c ∷ cs) port = found_list (getaddrinfo (c ∷ cs)) port

-- `Ip`, with `inet_ntop` for the two families
abbrev pub ip : (List ℕ → List ℕ) → (List ℕ → List ℕ) → InetAddress → List ℕ
ip ntop4 ntop6 a = if is_v4 a then ntop4 (slice a.address 4 4) else ntop6 (slice a.address 8 16)

-- the decimal digits of a number below 10 ^ (n + 1), as `%u` prints them
unfoldable pub digits : ℕ → ℕ → List ℕ
digits zero v = (48 + v) ∷ []
digits (suc n) v =
    let rest = digits n (v / 10) in if ltb v 10 then (48 + v) ∷ [] else rest ++ (48 + v % 10) ∷ []

-- `Port`: `snprintf` keeps as much as fits into `buf[8]` before the zero. The two families have
-- it at one place.
abbrev pub port_text : InetAddress → List ℕ
port_text a = take 7 (digits 4 (port a))

-- `IpPort`
abbrev pub ip_port : (List ℕ → List ℕ) → (List ℕ → List ℕ) → InetAddress → List ℕ
ip_port ntop4 ntop6 a = ip ntop4 ntop6 a ++ 58 ∷ port_text a
