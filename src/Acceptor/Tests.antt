-- ===== src/Acceptor/Tests.antt =====
-- The theorem on an acceptor, applied to three connections and then no more descriptors.
use base_linux.Base.{◌≡◌, refl, Bool, true, false, none, some, List, [], ◌∷◌, ◌++◌, ◌==◌, arith}
use base_linux.Socket.{Setting, tcp_keepidle, tcp_keepintvl}
use base_linux.Socket.KeepAlive.{IsLinux, is_taken}
use base_linux.Acceptor.{Acceptor, Accept, accepts, fails, eagain, emfile, handle_read}
use base_linux.Acceptor.Descriptors.{
  IsValid, AllNew, good_ones, passed, spare_after, handle_read-IsValid,
}

abbrev spare : Acceptor
spare = record { idle_fd = some 4; new_conn_cb = true; opened = λ fd. fd == 4; handed = [] }

abbrev answers : List Accept
answers =
    accepts 5 true eagain
    ∷ accepts 6 false eagain
    ∷ accepts 7 true eagain
    ∷ fails (emfile (some 4) none)
    ∷ []

answers-AllNew : AllNew (some 4) answers
unfolding AllNew
answers-AllNew = ((ground arith, refl, (ground arith, refl, (ground arith, refl, tt))))

-- what the kernel answers
linux : Setting → Bool
linux setting = elim setting.option [
  | tcp_keepidle ↦ is_taken setting.value
  | tcp_keepintvl ↦ is_taken setting.value
  | _ ↦ true
]

linux-IsLinux : IsLinux linux
unfolding linux
linux-IsLinux = record { alive = refl; idle = λ v. refl; between = λ v. refl; count = refl }

handle_read-IsValid_example :
    (a' : Acceptor) × (handle_read linux spare answers ≡ some a')
    × IsValid a'
    × (a'.idle_fd ≡ spare_after (some 4) answers)
    × (a'.handed ≡ [] ++ passed true (good_ones answers))
handle_read-IsValid_example =
    handle_read-IsValid linux answers spare linux-IsLinux (λ _. refl) answers-AllNew
