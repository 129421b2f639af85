-- ===== src/Socket/Tests.antt =====
-- Runs of src/socket.cc on small kernels.
use base_linux.Base.{ℕ, ◌≡◌, ◌↔◌, refl, Bool, true, none, some, List, [], ◌∷◌, arith}
use base_linux.Base.Int.{pos}
use base_linux.Socket.{
  Socket, Setting, tcp_keepidle, tcp_keepintvl, set_keep_alive, set_option, is_self_connect,
  TcpInfo, move, close,
}
use base_linux.Socket.KeepAlive.{IsLinux, Detects, set_keep_alive-Detects, is_taken}
use base_linux.Socket.Owning.{close_all, move_all}
use base_linux.Socket.Addresses.{address_of, compared, is_self_connect_lem}

-- The kernel of `IsLinux`
linux : Setting → Bool
linux setting = elim setting.option [
  | tcp_keepidle ↦ is_taken setting.value
  | tcp_keepintvl ↦ is_taken setting.value
  | _ ↦ true
]

linux-IsLinux : IsLinux linux
unfolding linux
linux-IsLinux = record { alive = refl; idle = λ v. refl; between = λ v. refl; count = refl }

abbrev three : Socket
three = record { fd = pos 3; settings = [] }

-- A third of two seconds is no interval.
two_seconds_run : set_keep_alive linux (pos 2) three ≡ none
unfolding set_keep_alive set_option linux
two_seconds_run = refl

set_keep_alive-Detects_example : Detects (pos 30) three (set_keep_alive linux (pos 30) three)
set_keep_alive-Detects_example = set_keep_alive-Detects linux (pos 30) three linux-IsLinux

close_run : close_all (move_all (0 ∷ 1 ∷ 0 ∷ []) (three ∷ [])) ≡ pos 3 ∷ []
unfolding close_all move_all move close
close_run = refl

abbrev cleared : TcpInfo → TcpInfo
cleared info = info

abbrev lo : List ℕ
lo = 127 ∷ 0 ∷ 0 ∷ 1 ∷ []

abbrev http : ℕ
http = 80

is_self_connect_example :
    (is_self_connect
        (some (address_of true lo http).address)
        (some (address_of true lo http).address)
      ≡ some true)
    ↔ ((compared true lo ≡ compared true lo) × (http ≡ http))
is_self_connect_example =
    is_self_connect_lem true lo lo http http refl refl (omega arith) (omega arith)
