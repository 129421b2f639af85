-- ===== src/Socket/Addresses.antt =====
-- `IsSelfConnect` of src/socket.cc on what the kernel writes for a connection.
use base_linux.Base.{
  if◌then◌else◌, Bool, ℕ, ◌^◌, ◌<◌, ◌≡◌, refl, ap, ◌↔◌, true, false, none, some, List, length, take,
  Bool-cases, inl, inr,
}
use base_linux.InetAddress.{InetAddress, sockaddr_in, sockaddr_in6, is_equal}
use base_linux.InetAddress.Comparing.{is_equal-sockaddr_in, is_equal-sockaddr_in6}
use base_linux.Socket.{is_self_connect}

-- The call holds exactly when the comparison does.
self_connect_iff :
    (local peer : InetAddress)
    → (is_self_connect (some local.address) (some peer.address) ≡ some true)
      ↔ (is_equal local peer ≡ true)
unfolding is_self_connect
self_connect_iff local peer = elim (Bool-cases (is_equal local peer)) [
  | inl e ↦ rw e (λ h. refl, λ h. refl)
  | inr e ↦ rw e (
    (λ h. let no : false ≡ true = ap (λ o. elim o [ none ↦ false | some b ↦ b ]) h in no),
    λ h. absurd (cc),
  )
]

-- An address of IPv4 or of IPv6, how many bytes it has, and which of them are compared
abbrev pub address_of : Bool → List ℕ → ℕ → InetAddress
address_of v4 bytes port = if v4 then sockaddr_in bytes port else sockaddr_in6 bytes port

abbrev pub size_of : Bool → ℕ
size_of v4 = if v4 then 4 else 16

abbrev pub compared : Bool → List ℕ → List ℕ
compared v4 bytes = if v4 then bytes else take 8 bytes

is_equal-address_of :
    (v4 : Bool) (xs ys : List ℕ) (p q : ℕ)
    → length xs ≡ size_of v4
    → length ys ≡ size_of v4
    → p < 2 ^ 16
    → q < 2 ^ 16
    → (is_equal (address_of v4 xs p) (address_of v4 ys q) ≡ true)
      ↔ ((compared v4 xs ≡ compared v4 ys) × (p ≡ q))
is_equal-address_of true xs ys p q = is_equal-sockaddr_in xs ys p q
is_equal-address_of false xs ys p q = is_equal-sockaddr_in6 xs ys p q

-- For ports below 2^16, IsSelfConnect holds on two addresses of IPv4 exactly when their bytes and
-- their ports are the same, as it should; but on two addresses of IPv6 exactly when their ports
-- and the first 8 of their 16 bytes are the same, so that it takes a connection of two hosts of
-- one network for one to itself.
pub is_self_connect_lem :
    (v4 : Bool) (xs ys : List ℕ) (p q : ℕ)
    → length xs ≡ size_of v4
    → length ys ≡ size_of v4
    → p < 2 ^ 16
    → q < 2 ^ 16
    → (is_self_connect (some (address_of v4 xs p).address) (some (address_of v4 ys q).address)
        ≡ some true)
      ↔ ((compared v4 xs ≡ compared v4 ys) × (p ≡ q))
is_self_connect_lem v4 xs ys p q size size' below below' =
    let (to, from) = self_connect_iff (address_of v4 xs p) (address_of v4 ys q) in
    let (to', from') = is_equal-address_of v4 xs ys p q size size' below below' in
    ((λ h. to' (to h)), λ h. from (from' h))
