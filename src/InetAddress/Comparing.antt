-- ===== src/InetAddress/Comparing.antt =====
-- `operator==` of src/inet_address.h on the addresses that the constructors build.
use base_linux.Base.{
  ℕ, ◌/◌, ◌%◌, ◌^◌, ◌<◌, ◌≡◌, refl, sym, ap, ◌∙◌, subst, ◌↔◌, true, List, [], ◌∷◌, ◌++◌, length,
  Bool-cases, take, drop, replicate, get_elem?, none, some, slice, blit, blit-zero,
  take-append_left, ◌==◌, ==_iff, arith, inl, inr, take-append_of_eq,
}
use base_linux.InetAddress.{
  InetAddress, sockaddr_in, sockaddr_in6, same_bytes, is_equal, port, htobe16,
}

same_bytes_self : (xs : List ℕ) → same_bytes xs xs ≡ true
same_bytes_self [] = refl
same_bytes_self (x ∷ xs) = rw ((==_iff x x).1 refl) (same_bytes_self xs)

same_bytes→eq : (xs ys : List ℕ) → same_bytes xs ys ≡ true → xs ≡ ys
same_bytes→eq [] [] h = refl
same_bytes→eq [] (y ∷ ys) h = absurd (cc)
same_bytes→eq (x ∷ xs) [] h = absurd (cc)
same_bytes→eq (x ∷ xs) (y ∷ ys) h = elim (Bool-cases (x == y)) [
  | inr e ↦ absurd (cc)
  | inl e ↦
      let rest : same_bytes xs ys ≡ true = rw e at h in
      ap (λ b. b ∷ xs) ((==_iff x y).0 e) ∙ ap (◌∷◌ y) (same_bytes→eq xs ys (rest))
]

same_bytes_iff : (xs ys : List ℕ) → (same_bytes xs ys ≡ true) ↔ (xs ≡ ys)
same_bytes_iff xs ys =
    (same_bytes→eq xs ys, λ e. subst (λ zs. same_bytes xs zs ≡ true) e (same_bytes_self xs))

-- the byte at a place
byte_or : List ℕ → ℕ → ℕ
byte_or xs i = elim (get_elem? xs i) [ none ↦ 0 | some b ↦ b ]

port_of_bytes : (p q : ℕ) → p < 2 ^ 16 → q < 2 ^ 16 → htobe16 p ≡ htobe16 q → p ≡ q
unfolding byte_or
port_of_bytes p q below below' e =
    let high : p / 256 % 256 ≡ q / 256 % 256 = ap (λ xs. byte_or xs 0) e in
    let low : p % 256 ≡ q % 256 = ap (λ xs. byte_or xs 1) e in omega arith

-- A list of four bytes, byte by byte
four_bytes : (xs : List ℕ) → length xs ≡ 4 → (a b c d : ℕ) × (xs ≡ a ∷ b ∷ c ∷ d ∷ [])
four_bytes [] h = absurd (omega arith)
four_bytes (a ∷ []) h = absurd (omega arith)
four_bytes (a ∷ b ∷ []) h = absurd (omega arith)
four_bytes (a ∷ b ∷ c ∷ []) h = absurd (omega arith)
four_bytes (a ∷ b ∷ c ∷ d ∷ []) h = (a, b, c, d, refl)
four_bytes (a ∷ b ∷ c ∷ d ∷ e ∷ xs) h = absurd (omega arith)

-- The bytes that `operator==` compares
front-sockaddr_in :
    (xs : List ℕ) (p : ℕ)
    → length xs ≡ 4
    → slice (sockaddr_in xs p).address 0 16 ≡ 2 ∷ 0 ∷ (htobe16 p ++ (xs ++ replicate 8 0))
unfolding sockaddr_in blit
front-sockaddr_in xs p h = let (a, b, c, d, e) = four_bytes xs h in rw e refl

front-sockaddr_in6 :
    (xs : List ℕ) (p : ℕ)
    → length xs ≡ 16
    → slice (sockaddr_in6 xs p).address 0 16 ≡ 10 ∷ 0 ∷ (htobe16 p ++ (replicate 4 0 ++ take 8 xs))
unfolding sockaddr_in6 blit
front-sockaddr_in6 xs p h =
    ap (λ zs. 10 ∷ 0 ∷ (htobe16 p ++ (replicate 4 0 ++ zs)))
      (ap (take 8) (blit-zero (replicate 120 0) xs (omega arith))
        ∙ take-append_left xs (drop (length xs) (replicate 120 0)) 8 (omega arith))

-- Two fronts are the same exactly when the ports and the compared bytes of the addresses are.
fronts_iff :
    (family p q : ℕ) (xs ys : List ℕ)
    → p < 2 ^ 16
    → q < 2 ^ 16
    → (family ∷ 0 ∷ (htobe16 p ++ xs) ≡ family ∷ 0 ∷ (htobe16 q ++ ys)) ↔ ((xs ≡ ys) × (p ≡ q))
fronts_iff family p q xs ys below below' = (
  λ e. (ap (drop 4) e, port_of_bytes p q below below' (ap (λ bytes. take 2 (drop 2 bytes)) e)),
  λ (same, same'). rw (same, same') refl,
)

is_equal_iff :
    (a b : InetAddress) (front front' : List ℕ)
    → slice a.address 0 16 ≡ front
    → slice b.address 0 16 ≡ front'
    → (is_equal a b ≡ true) ↔ (front ≡ front')
unfolding is_equal
is_equal_iff a b front front' e e' = rw (e, e') (same_bytes_iff front front')

-- For ports below 2 ^ 16 and addresses of four bytes, `operator==` holds for two addresses of
-- IPv4 exactly when their bytes and their ports are the same.
pub is_equal-sockaddr_in :
    (xs ys : List ℕ) (p q : ℕ)
    → length xs ≡ 4
    → length ys ≡ 4
    → p < 2 ^ 16
    → q < 2 ^ 16
    → (is_equal (sockaddr_in xs p) (sockaddr_in ys q) ≡ true) ↔ ((xs ≡ ys) × (p ≡ q))
is_equal-sockaddr_in xs ys p q four four' below below' =
    let (to, from) =
      is_equal_iff (sockaddr_in xs p) (sockaddr_in ys q)
        (2 ∷ 0 ∷ (htobe16 p ++ (xs ++ replicate 8 0)))
        (2 ∷ 0 ∷ (htobe16 q ++ (ys ++ replicate 8 0))) (front-sockaddr_in xs p four)
        (front-sockaddr_in ys q four') in
    let (split, join) = fronts_iff 2 p q (xs ++ replicate 8 0) (ys ++ replicate 8 0) below below' in
    (
      λ h.
          let (same, port) = split (to h) in
          (
            sym (take-append_of_eq 4 xs (replicate 8 0) four)
                ∙ ap (take 4) same
                ∙ take-append_of_eq 4 ys (replicate 8 0) four',
            port,
          ),
      λ (same, port). from (join (ap (λ bytes. bytes ++ replicate 8 0) same, port)),
    )

-- For ports below 2 ^ 16 and addresses of sixteen bytes, `operator==` holds for two addresses of
-- IPv6 exactly when their first eight bytes and their ports are the same: the last eight are not
-- compared.
pub is_equal-sockaddr_in6 :
    (xs ys : List ℕ) (p q : ℕ)
    → length xs ≡ 16
    → length ys ≡ 16
    → p < 2 ^ 16
    → q < 2 ^ 16
    → (is_equal (sockaddr_in6 xs p) (sockaddr_in6 ys q) ≡ true)
      ↔ ((take 8 xs ≡ take 8 ys) × (p ≡ q))
is_equal-sockaddr_in6 xs ys p q long long' below below' =
    let (to, from) =
      is_equal_iff (sockaddr_in6 xs p) (sockaddr_in6 ys q)
        (10 ∷ 0 ∷ (htobe16 p ++ (replicate 4 0 ++ take 8 xs)))
        (10 ∷ 0 ∷ (htobe16 q ++ (replicate 4 0 ++ take 8 ys))) (front-sockaddr_in6 xs p long)
        (front-sockaddr_in6 ys q long') in
    let (split, join) =
      fronts_iff 10 p q (replicate 4 0 ++ take 8 xs) (replicate 4 0 ++ take 8 ys) below below' in
    (
      λ h. let (same, port) = split (to h) in (ap (drop 4) same, port),
      λ (same, port). from (join (ap (λ bytes. replicate 4 0 ++ bytes) same, port)),
    )
