-- ===== src/Acceptor/Descriptors.antt =====
-- No descriptor is lost.
use base_linux.Base.{
  ℕ, ◌<◌, Option, ◌≡◌, refl, sym, ap, subst, ◌∙◌, inl, inr, Bool, true, false, none, some, List, [],
  ◌∷◌, ◌++◌, append_assoc, append-nil, update, ◌==◌, if◌then◌else◌, arith, Bool-cases,
}
use base_linux.Acceptor.{
  Acceptor, Accept, accepts, eagain, emfile, other_error, Errno, fails, handle_client, drop_client,
  handle_read, close_any, open_any,
}
use base_linux.Base.Int.{pos}
use base_linux.Socket.{Socket, Setting, of_fd, set_keep_alive}
use base_linux.Socket.KeepAlive.{IsLinux, keeping, set_keep_alive_cases}

-- whether a descriptor is the spare one, if there is one
abbrev pub is_spare : Option ℕ → ℕ → Bool
is_spare none fd = false
is_spare (some idle_fd) fd = fd == idle_fd

-- The one open descriptor of the acceptor is the spare one.
abbrev pub IsValid : Acceptor → Type 0
IsValid a = (fd : ℕ) → a.opened fd ≡ is_spare a.idle_fd fd

-- The kernel gives no descriptor that is open, and the standard input is.
unfoldable pub AllNew : Option ℕ → List Accept → Type 0
AllNew idle_fd [] = Unit {0}
AllNew idle_fd (accepts client_fd good errno ∷ rest) =
    (0 < client_fd) × (is_spare idle_fd client_fd ≡ false) × AllNew idle_fd rest
AllNew idle_fd (fails errno ∷ rest) = Unit {0}

-- The connections that are good, up to the first answer that is none.
pub good_ones : List Accept → List ℕ
good_ones [] = []
good_ones (accepts client_fd good errno ∷ rest) =
    let others = good_ones rest in if good then client_fd ∷ others else others
good_ones (fails errno ∷ rest) = []

abbrev spare_of : Option ℕ → Errno → Option ℕ
spare_of idle_fd eagain = idle_fd
spare_of idle_fd (emfile accepted reopened) = reopened
spare_of idle_fd other_error = idle_fd

-- The spare descriptor afterwards: the one that was opened again, if there were no more.
unfoldable pub spare_after : Option ℕ → List Accept → Option ℕ
spare_after idle_fd [] = idle_fd
spare_after idle_fd (accepts client_fd good errno ∷ rest) = spare_after idle_fd rest
spare_after idle_fd (fails errno ∷ rest) = spare_of idle_fd errno

-- what is given to a callback that may be set
abbrev pub passed : Bool → List ℕ → List ℕ
passed true fds = fds
passed false fds = []

passed_nothing : (set : Bool) (fds : List ℕ) → fds ≡ fds ++ passed set []
passed_nothing true fds = sym (append-nil fds)
passed_nothing false fds = sym (append-nil fds)

passed_more :
    (set good : Bool) (fd : ℕ) (old later : List ℕ)
    → (old ++ passed set (if good then fd ∷ [] else [])) ++ passed set later
      ≡ old ++ passed set (if good then fd ∷ later else later)
passed_more true true fd old later = append_assoc old (fd ∷ []) later
passed_more true false fd old later = ap (λ xs. xs ++ later) (append-nil old)
passed_more false good fd old later = ap (λ xs. xs ++ []) (append-nil old)

-- The keep-alive of 30 seconds
keeps_alive :
    (setsockopt : Setting → Bool) (fd : ℕ)
    → IsLinux setsockopt
    → 0 < fd
    → (s : Socket) × (s' : Socket) × (of_fd (pos fd) ≡ some s)
      × (set_keep_alive setsockopt (pos 30) s ≡ some s')
keeps_alive setsockopt fd linux there =
    let s : Socket = record { fd = pos fd; settings = [] } in
    (
      s,
      record s { settings = keeping (pos 30) ++ [] },
      ground (arith, there),
      set_keep_alive_cases setsockopt (pos 30) s linux,
    )

module _ (setsockopt : Setting → Bool) (linux : IsLinux setsockopt) where
  handle_client-Kept :
      (a : Acceptor) (client_fd : ℕ) (good : Bool)
      → IsValid a
      → 0 < client_fd
      → is_spare a.idle_fd client_fd ≡ false
      → (a' : Acceptor) × (handle_client setsockopt a client_fd good ≡ some a')
        × IsValid a'
        × (a'.idle_fd ≡ a.idle_fd)
        × (a'.new_conn_cb ≡ a.new_conn_cb)
        × (a'.handed ≡ a.handed ++ passed a.new_conn_cb (if good then client_fd ∷ [] else []))
  unfolding handle_client
  handle_client-Kept a client_fd good v there new =
      let k = keeps_alive setsockopt client_fd linux there in
      (
        record a {
          opened = update (update a.opened client_fd true) client_fd false;
          handed = a.handed ++ passed a.new_conn_cb (if good then client_fd ∷ [] else []);
        },
        elim (Bool-cases good) [
          | inr bad ↦ ground (arith, bad, passed_nothing a.new_conn_cb a.handed)
          | inl fine ↦ elim (Bool-cases a.new_conn_cb) [
            | inl set ↦ ground (arith, fine, set, k.2, k.3)
            | inr unset ↦ ground (arith, fine, unset, append-nil a.handed)
          ]
        ],
        λ fd. elim (Bool-cases (fd == client_fd)) [
          | inl same ↦
              let same' : fd ≡ client_fd = ground (arith, same) in
              ground (arith, same, new, ap (is_spare a.idle_fd) same')
          | inr other ↦ ground (arith, other, v fd)
        ],
        refl,
        refl,
        refl,
      )

-- Nothing is open.
abbrev IsBare : (ℕ → Bool) → Type 0
IsBare opened = (fd : ℕ) → opened fd ≡ false

-- The spare descriptor is closed, if there is one.
close_spare :
    (a : Acceptor) (idle_fd : Option ℕ)
    → ((fd : ℕ) → a.opened fd ≡ is_spare idle_fd fd)
    → (f : ℕ → Bool) × (close_any a idle_fd ≡ some (record a { opened = f })) × IsBare f
close_spare a none v = (a.opened, refl, v)
close_spare a (some idle) v =
    (update a.opened idle false, ground (arith, v idle), λ fd. ground (arith, v fd))

-- A connection is accepted and closed, if there is one.
close_accepted :
    (a : Acceptor) (accepted : Option ℕ)
    → IsBare a.opened
    → (f : ℕ → Bool) × (close_any (record a { opened = open_any a.opened accepted }) accepted
        ≡ some (record a { opened = f }))
      × IsBare f
close_accepted a none v = (a.opened, refl, v)
close_accepted a (some fd) v =
    (update (update a.opened fd true) fd false, ground arith, λ j. ground (arith, v j))

open_spare :
    (opened : ℕ → Bool) (idle_fd : Option ℕ)
    → IsBare opened
    → (fd : ℕ) → open_any opened idle_fd fd ≡ is_spare idle_fd fd
open_spare opened none v fd = v fd
open_spare opened (some idle) v fd = ground (arith, v fd)

-- The spare descriptor is given up and opened again, if that can be.
drop_client-Kept :
    (a : Acceptor) (accepted reopened : Option ℕ)
    → IsValid a
    → (a' : Acceptor) × (drop_client a accepted reopened ≡ some a')
      × IsValid a'
      × (a'.idle_fd ≡ reopened)
      × (a'.handed ≡ a.handed)
unfolding drop_client
drop_client-Kept a accepted reopened v =
    let (f, first, bare) = close_spare a a.idle_fd v in
    let (g, second, bare') = close_accepted (record a { opened = f }) accepted bare in
    (
      record a { idle_fd = reopened; opened = open_any g reopened },
      ground (arith, first, second),
      open_spare g reopened bare',
      refl,
      refl,
    )

-- From an acceptor whose one open descriptor is the spare one, or that has none, however many
-- connections come, and whatever becomes of them: no assert fails, no descriptor is closed twice,
-- and afterwards the acceptor has no open descriptor but the spare one. That is the one of
-- before, or, where there were no more descriptors, the one with which /dev/null was opened
-- again, and none if that failed. The descriptors that are good have been given to the callback,
-- if it is set, in the order in which they came; every other that was accepted has been closed.
-- The kernel gives no descriptor that is open or that of the standard input, and takes 1 to 32767
-- seconds for the options of SetKeepAlive.
pub handle_read-IsValid :
    (setsockopt : Setting → Bool) (answers : List Accept) (a : Acceptor)
    → IsLinux setsockopt
    → IsValid a
    → AllNew a.idle_fd answers
    → (a' : Acceptor) × (handle_read setsockopt a answers ≡ some a')
      × IsValid a'
      × (a'.idle_fd ≡ spare_after a.idle_fd answers)
      × (a'.handed ≡ a.handed ++ passed a.new_conn_cb (good_ones answers))
unfolding handle_read good_ones AllNew spare_after
handle_read-IsValid setsockopt [] a linux v new =
    (a, refl, v, refl, passed_nothing a.new_conn_cb a.handed)
handle_read-IsValid setsockopt (accepts client_fd good errno ∷ rest) a linux v new =
    let m = handle_client-Kept setsockopt linux a client_fd good v new.0 new.1 in
    let n =
      handle_read-IsValid setsockopt rest m.0 linux m.2
        (subst (λ idle. AllNew idle rest) (sym m.3) new.2) in
    (
      n.0,
      ground (arith, new.0, m.1, n.1),
      n.2,
      n.3 ∙ ap (λ idle. spare_after idle rest) m.3,
      n.4
          ∙ ap (λ set. m.0.handed ++ passed set (good_ones rest)) m.4
          ∙ ap (λ xs. xs ++ passed a.new_conn_cb (good_ones rest)) m.5
          ∙ passed_more a.new_conn_cb good client_fd a.handed (good_ones rest),
    )
handle_read-IsValid setsockopt (fails eagain ∷ rest) a linux v new =
    (a, refl, v, refl, passed_nothing a.new_conn_cb a.handed)
handle_read-IsValid setsockopt (fails (emfile accepted reopened) ∷ rest) a linux v new =
    let m = drop_client-Kept a accepted reopened v in
    (m.0, m.1, m.2, m.3, m.4 ∙ passed_nothing a.new_conn_cb a.handed)
handle_read-IsValid setsockopt (fails other_error ∷ rest) a linux v new =
    (a, refl, v, refl, passed_nothing a.new_conn_cb a.handed)
