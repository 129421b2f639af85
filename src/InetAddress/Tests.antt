-- ===== src/InetAddress/Tests.antt =====
-- Runs of src/inet_address.cc and of the comparison of src/inet_address.h.
use base_linux.Base.{ℕ, ◌≡◌, refl, true, false, some, List, [], ◌∷◌, ◌++◌, arith, replicate}
use base_linux.InetAddress.{
  sockaddr_in, sockaddr_in6, of_port, of_ip, converted, no_address, is_equal, in6addr_loopback,
  found_list, read_list, port_text, is_with_colon, digits,
}
use base_linux.InetAddress.Reading.{Reads, of_ip-Reads}

abbrev localhost : List ℕ
localhost = 127 ∷ 0 ∷ 0 ∷ 1 ∷ []

-- "::1" and "1.x"
abbrev loopback_text : List ℕ
loopback_text = 58 ∷ 58 ∷ 49 ∷ []

abbrev bad_text : List ℕ
bad_text = 49 ∷ 46 ∷ 120 ∷ []

-- `INADDR_LOOPBACK`
of_port_run : of_port 8080 true true ≡ sockaddr_in localhost 8080
unfolding of_port
of_port_run = refl

-- Two hosts of one network of IPv6 are equal.
two_hosts_run :
    is_equal
      (sockaddr_in6 (replicate 15 0 ++ 1 ∷ []) 80)
      (sockaddr_in6 (replicate 15 0 ++ 2 ∷ []) 80)
    ≡ true
unfolding is_equal sockaddr_in6
two_hosts_run = refl

port_text_run : port_text (sockaddr_in localhost 65535) ≡ 54 ∷ 53 ∷ 53 ∷ 51 ∷ 53 ∷ []
unfolding sockaddr_in digits
port_text_run = refl

-- The second result is one of IPv6, and is read as one of IPv4.
mixed_run :
    found_list
      (some (
        record { ai_family = 2; ai_addr = 2 ∷ 0 ∷ 0 ∷ 0 ∷ localhost }
        ∷ record { ai_family = 10; ai_addr = 10 ∷ 0 ∷ (replicate 6 0 ++ in6addr_loopback) }
        ∷ []))
      80
    ≡ sockaddr_in localhost 80 ∷ sockaddr_in (replicate 4 0) 80 ∷ []
unfolding found_list read_list sockaddr_in
mixed_run = refl

of_ip-Reads_example :
    Reads false in6addr_loopback 443
      (of_ip (λ text. no_address) (λ text. converted in6addr_loopback) loopback_text 443)
unfolding is_with_colon
of_ip-Reads_example =
    of_ip-Reads (λ text. no_address) (λ text. converted in6addr_loopback) loopback_text
      in6addr_loopback 443 (omega arith) refl refl
