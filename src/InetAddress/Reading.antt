-- ===== src/InetAddress/Reading.antt =====
-- What is read back from an address of src/inet_address.cc: its family, its port as a number and
-- as text, its text.
use base_linux.Base.{
  ℕ, zero, suc, ◌+◌, ◌-◌, ◌*◌, ◌/◌, ◌%◌, ◌^◌, ◌≤◌, ◌<◌, ◌≡◌, ◌≢◌, refl, ap, ◌∙◌, Bool, true, false,
  not, List, [], ◌∷◌, ◌++◌, length, Bool-cases, take, drop, replicate, slice, blit, blit-zero,
  take-append_of_eq, arith, inl, inr, ltb, if◌then◌else◌, length-append, take_all,
}
use base_linux.InetAddress.{
  InetAddress, sockaddr_in, sockaddr_in6, of_port, of_ip, Pton, converted, no_address,
  is_with_colon, invalid_addr, byte, port, is_v4, ip, digits, port_text,
}

-- The number that decimal digits write, behind a number already read
abbrev pub value : ℕ → List ℕ → ℕ
value acc [] = acc
value acc (c ∷ cs) = value (acc * 10 + (c - 48)) cs

value-append : (acc c : ℕ) (cs : List ℕ) → value acc (cs ++ c ∷ []) ≡ value acc cs * 10 + (c - 48)
value-append acc c [] = refl
value-append acc c (d ∷ cs) = value-append (acc * 10 + (d - 48)) c cs

-- 10 ^ (n + 1)
power : ℕ → ℕ
power zero = 10
power (suc n) = 10 * power n

value-digits : (n v : ℕ) → v < power n → value 0 (digits n v) ≡ v
unfolding digits power
value-digits zero v h = omega arith
value-digits (suc n) v h = elim (Bool-cases (ltb v 10)) [
  | inl e ↦ rw e (omega arith)
  | inr e ↦
      rw
        (e, value-append 0 (48 + v % 10) (digits n (v / 10)), value-digits n (v / 10) (omega arith))
        (omega arith)
]

pub length-digits : (n v : ℕ) → length (digits n v) ≤ suc n
unfolding digits
length-digits zero v = omega arith
length-digits (suc n) v = elim (Bool-cases (ltb v 10)) [
  | inl e ↦ rw e (omega arith)
  | inr e ↦
      let shorter = length-digits n (v / 10) in
      rw (e, length-append (digits n (v / 10)) ((48 + v % 10) ∷ [])) (omega arith)
]

-- The text of a port is complete in its buffer.
value-port_text : (a : InetAddress) (p : ℕ) → port a ≡ p → p < 2 ^ 16 → value 0 (port_text a) ≡ p
unfolding power
value-port_text a p e below =
    let short = length-digits 4 p in
    let small : p < power 4 = omega arith in
    rw (e, take_all (digits 4 p) 7 (omega arith)) (value-digits 4 p small)

-- What is read from an address: its family, its port, the text of the port, the bytes of the
-- address.
abbrev pub Reads : Bool → List ℕ → ℕ → InetAddress → Type 0
Reads v4 raw p a =
    (is_v4 a ≡ v4)
    × (port a ≡ p)
    × (value 0 (port_text a) ≡ p)
    × ((ntop4 ntop6 : List ℕ → List ℕ) → ip ntop4 ntop6 a ≡ (if v4 then ntop4 raw else ntop6 raw))

sockaddr_in-Reads :
    (raw : List ℕ) (p : ℕ) → length raw ≡ 4 → p < 2 ^ 16 → Reads true raw p (sockaddr_in raw p)
unfolding sockaddr_in blit
sockaddr_in-Reads raw p four below =
    let e : port (sockaddr_in raw p) ≡ p = omega arith in
    let bytes : slice (sockaddr_in raw p).address 4 4 ≡ raw =
      ap (take 4) (blit-zero (replicate 124 0) raw (omega arith))
      ∙ take-append_of_eq 4 raw (drop (length raw) (replicate 124 0)) four in
    (refl, e, value-port_text (sockaddr_in raw p) p e below, λ ntop4 ntop6. ap ntop4 bytes)

sockaddr_in6-Reads :
    (raw : List ℕ) (p : ℕ) → length raw ≡ 16 → p < 2 ^ 16 → Reads false raw p (sockaddr_in6 raw p)
unfolding sockaddr_in6 blit
sockaddr_in6-Reads raw p long below =
    let e : port (sockaddr_in6 raw p) ≡ p = omega arith in
    let bytes : slice (sockaddr_in6 raw p).address 8 16 ≡ raw =
      ap (take 16) (blit-zero (replicate 120 0) raw (omega arith))
      ∙ take-append_of_eq 16 raw (drop (length raw) (replicate 120 0)) long in
    (refl, e, value-port_text (sockaddr_in6 raw p) p e below, λ ntop4 ntop6. ap ntop6 bytes)

-- When inet_pton converts a text into the 4 bytes of an address, or into the 16 of one of IPv6
-- where the text has a colon, the address made of the text and a port below 2^16 has its family
-- by the colon; port() is the port again, and Port() its decimal digits, which fit into their
-- buffer; and Ip() is what inet_ntop for this family makes of the bytes that inet_pton wrote.
pub of_ip-Reads :
    (pton4 pton6 : List ℕ → Pton) (text raw : List ℕ) (p : ℕ)
    → p < 2 ^ 16
    → (if is_with_colon text then pton6 text else pton4 text) ≡ converted raw
    → length raw ≡ (if is_with_colon text then 16 else 4)
    → Reads (not (is_with_colon text)) raw p (of_ip pton4 pton6 text p)
unfolding of_ip
of_ip-Reads pton4 pton6 text raw p below answer size = elim (Bool-cases (is_with_colon text)) [
  | inl e ↦
      let answer6 : pton6 text ≡ converted raw = rw e at answer in
      rw (e, answer6) (sockaddr_in6-Reads raw p (rw e at size) below)
  | inr e ↦
      let answer4 : pton4 text ≡ converted raw = rw e at answer in
      rw (e, answer4) (sockaddr_in-Reads raw p (rw e at size) below)
]

-- A text that inet_pton takes for no address, to which it answers 0, does not become
-- INVALID_ADDR: the address is the one that the constructor from a port makes for every
-- interface, of the family that the colon says, and with the port.
pub of_ip-no_address :
    (pton4 pton6 : List ℕ → Pton) (text : List ℕ) (p : ℕ)
    → (if is_with_colon text then pton6 text else pton4 text) ≡ no_address
    → (of_ip pton4 pton6 text p ≡ of_port p (not (is_with_colon text)) false)
      × (of_ip pton4 pton6 text p ≢ invalid_addr)
unfolding of_ip of_port sockaddr_in sockaddr_in6 blit
of_ip-no_address pton4 pton6 text p answer = elim (Bool-cases (is_with_colon text)) [
  | inl e ↦
      let answer6 : pton6 text ≡ no_address = rw e at answer in
      rw (e, answer6) (refl, λ same. let no : 10 ≡ 0 = ap (λ a. byte a 0) same in omega arith)
  | inr e ↦
      let answer4 : pton4 text ≡ no_address = rw e at answer in
      rw (e, answer4) (refl, λ same. let no : 2 ≡ 0 = ap (λ a. byte a 0) same in omega arith)
]
