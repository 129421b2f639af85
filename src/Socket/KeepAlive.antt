-- ===== src/Socket/KeepAlive.antt =====
-- `SetKeepAlive` of src/socket.cc on a kernel with the bounds that tcp(7) and Linux give its
-- options.
use base_linux.Base.{
  ℕ, ◌+◌, ◌*◌, ◌/◌, ◌≤◌, ◌<◌, ◌≡◌, refl, ◌∙◌, ap, ◌≢◌, ◌⊎◌, inl, inr, Bool, true, false, ◌&&◌,
  Option, none, some, List, [], ◌∷◌, ◌++◌, leb, if◌then◌else◌, arith, Bool-cases,
}
use base_linux.Base.Int.{ℤ, pos, negsuc}
use base_linux.Socket.{
  Socket, Setting, so_keepalive, tcp_keepidle, tcp_keepintvl, tcp_keepcnt, set_option,
  set_keep_alive, third,
}

-- The seconds that Linux takes for TCP_KEEPIDLE and TCP_KEEPINTVL
abbrev pub is_taken : ℤ → Bool
is_taken (pos n) = leb 1 n && leb n 32767
is_taken (negsuc n) = false

-- What `setsockopt` answers for the four options of an open connection
pub record IsLinux (setsockopt : Setting → Bool) : Type 0 where
  pub alive : setsockopt (record { option = so_keepalive; value = pos 1 }) ≡ true
  pub idle : (v : ℤ) → setsockopt (record { option = tcp_keepidle; value = v }) ≡ is_taken v
  pub between : (v : ℤ) → setsockopt (record { option = tcp_keepintvl; value = v }) ≡ is_taken v
  pub count : setsockopt (record { option = tcp_keepcnt; value = pos 3 }) ≡ true

-- The four settings for an interval, the last one first
abbrev pub keeping : ℤ → List Setting
keeping interval =
    record { option = tcp_keepcnt; value = pos 3 }
    ∷ record { option = tcp_keepintvl; value = third interval }
    ∷ record { option = tcp_keepidle; value = interval }
    ∷ record { option = so_keepalive; value = pos 1 }
    ∷ []

pub set_keep_alive_cases :
    (setsockopt : Setting → Bool) (interval : ℤ) (s : Socket)
    → IsLinux setsockopt
    → set_keep_alive setsockopt interval s ≡ (
        if is_taken interval && is_taken (third interval)
        then some (record s { settings = keeping interval ++ s.settings })
        else none)
unfolding set_keep_alive set_option
set_keep_alive_cases setsockopt interval s linux =
    rw (linux.alive, linux.idle interval, linux.between (third interval), linux.count)
      (elim (Bool-cases (is_taken interval)) [
        | inr e ↦ rw e refl
        | inl e ↦ rw e (elim (Bool-cases (is_taken (third interval))) [
          | inr e' ↦ rw e' refl
          | inl e' ↦ rw e' refl
        ])
      ])

abbrev is_nonnegative : ℤ → Bool
is_nonnegative (pos n) = true
is_nonnegative (negsuc n) = false

negsuc-ne-pos : (n m : ℕ) → negsuc n ≢ pos m
negsuc-ne-pos n m e = let no : false ≡ true = ap is_nonnegative e in absurd (cc)

-- What is left of a call of `SetKeepAlive`: for 3 to 32767 seconds the settings, and the time in
-- which three probes detect a lost peer; else the failed assertion.
pub Detects : ℤ → Socket → Option Socket → Type 0
Detects interval s out =
    ((n : ℕ) × (interval ≡ pos n)
      × (3 ≤ n)
      × (n ≤ 32767)
      × (out ≡ some (record s { settings = keeping (pos n) ++ s.settings }))
      × (n + 3 * (n / 3) ≤ 2 * n)
      × (2 * n ≤ n + 3 * (n / 3) + 2))
    ⊎ (((n : ℕ) → interval ≡ pos n → (n < 3) ⊎ (32767 < n)) × (out ≡ none))

-- On a kernel that takes 1 to 32767 seconds for TCP_KEEPIDLE and TCP_KEEPINTVL, SetKeepAlive runs
-- through exactly for intervals of 3 to 32767 seconds, and else fails an assert. Where it does,
-- the four options are set, with a third of the interval between the probes, and the idle time
-- and three probes take twice the interval, or up to two seconds less.
pub set_keep_alive-Detects :
    (setsockopt : Setting → Bool) (interval : ℤ) (s : Socket)
    → IsLinux setsockopt
    → Detects interval s (set_keep_alive setsockopt interval s)
unfolding Detects
set_keep_alive-Detects setsockopt (negsuc n) s linux =
    inr ((λ m e. absurd (negsuc-ne-pos n m e)), set_keep_alive_cases setsockopt (negsuc n) s linux)
set_keep_alive-Detects setsockopt (pos n) s linux =
    let run = set_keep_alive_cases setsockopt (pos n) s linux in
    elim (Bool-cases (is_taken (pos n) && is_taken (third (pos n)))) [
      | inl e ↦ inl (n, refl, ground arith, ground arith, run ∙ rw e refl, omega arith, omega arith)
      | inr e ↦ inr (
        (λ m e'.
            let same : n ≡ m = ap (λ v. elim v [ negsuc k ↦ 0 | pos k ↦ k ]) e' in ground arith),
        run ∙ rw e refl,
      )
    ]
