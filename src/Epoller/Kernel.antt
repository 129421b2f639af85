-- ===== src/Epoller/Kernel.antt =====
-- A kernel's epoll as the table of what is registered, to run the poller on.
use base_linux.Base.{
  ℕ, ◌≡◌, ap, inl, inr, Option, none, some, arith, update, ◌==◌, if◌then◌else◌, Bool-cases,
}
use base_linux.Epoller.{EpollLib, EpollEvent, Operator, is_proper, registered}

-- an epoll that accepts each request that fits
abbrev pub kernel_ctl :
    (ℕ → Option EpollEvent) → Operator → ℕ → EpollEvent → Option (ℕ → Option EpollEvent)
kernel_ctl s op fd event =
    if is_proper op (s fd) then some (update s fd (registered op event)) else none

abbrev pub table : Option (ℕ → Option EpollEvent) → ℕ → Option EpollEvent
table none j = none
table (some f) j = f j

pub kernel_interest :
    (s : ℕ → Option EpollEvent) (op : Operator) (fd : ℕ) (event : EpollEvent)
    (s' : ℕ → Option EpollEvent)
    → kernel_ctl s op fd event ≡ some s'
    → (j : ℕ) → s' j ≡ (if j == fd then registered op event else s j)
kernel_interest s op fd event s' h j = elim (Bool-cases (is_proper op (s fd))) [
  | inl proper ↦ ground (arith, proper, ap (λ o. table o j) h)
  | inr improper ↦ ground (arith, improper, h)
]

abbrev pub kernel : EpollLib
kernel = record {
  State = ℕ → Option EpollEvent;
  epoll_ctl = kernel_ctl;
  interest = λ s fd. s fd;
  ctl_interest = kernel_interest;
}
