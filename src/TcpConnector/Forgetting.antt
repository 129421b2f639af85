-- ===== src/TcpConnector/Forgetting.antt =====
-- A descriptor that the connector of src/tcp_connector.cc has forgotten stays open.
use base_linux.Base.{
  ℕ, suc, ◌-◌, ◌≡◌, refl, ap, sym, subst, ◌∙◌, inl, inr, Bool, true, false, ◌||◌, Option, none,
  some, List, [], ◌∷◌, ◌++◌, ◌==◌, ltb, update, arith, Bool-cases, Option-cases,
}
use base_linux.Connector.{is_under_way}
use base_linux.TcpConnector.{
  TcpConnector, disconnected, connecting, connected, is_disconnected, retry, Attempt, no_socket,
  opens, begin_connecting, connect, start_in_loop, remove_and_reset_channel, reset_channel, without,
  stop_in_loop, handle_write, handle_error, Event, starts, restarts, stops, stops_away, stops_late,
  writes, errs, clears, expires, run,
}
use base_linux.TcpConnector.Valid.{state_cases}

-- whether a descriptor is that of the channel
abbrev pub is_of : Option ℕ → ℕ → Bool
is_of none fd = false
is_of (some other) fd = fd == other

-- The descriptor is open, not given to the callback, and not that of the channel.
pub record Forgotten (fd : ℕ) (c : TcpConnector) : Type 0 where
  pub opened : c.opened fd ≡ true
  pub channel : is_of c.channel fd ≡ false

-- An attempt gets another descriptor: the kernel gives none that is open.
abbrev pub IsApart : ℕ → Attempt → Type 0
IsApart fd no_socket = Unit {0}
IsApart fd (opens other err_no) = (fd == other) ≡ false

unfoldable pub AllApart : ℕ → List Event → Type 0
AllApart fd [] = Unit {0}
AllApart fd (starts attempt ∷ es) = IsApart fd attempt × AllApart fd es
AllApart fd (restarts attempt ∷ es) = IsApart fd attempt × AllApart fd es
AllApart fd (stops ∷ es) = AllApart fd es
AllApart fd (stops_away ∷ es) = AllApart fd es
AllApart fd (stops_late ∷ es) = AllApart fd es
AllApart fd (writes err_code self ∷ es) = AllApart fd es
AllApart fd (errs ∷ es) = AllApart fd es
AllApart fd (clears ∷ es) = AllApart fd es
AllApart fd (expires id attempt ∷ es) = IsApart fd attempt × AllApart fd es

-- What comes of a connector that has forgotten a descriptor
abbrev pub Forgets : ℕ → Option TcpConnector → Type 0
Forgets fd o = (c' : TcpConnector) → o ≡ some c' → Forgotten fd c'

some-inj : {a b : TcpConnector} → some a ≡ some b → a ≡ b
some-inj {a} e = ap (λ o. elim o [ none ↦ a | some x ↦ x ]) e

pub forgets :
    (fd : ℕ) (o : Option TcpConnector) (d : TcpConnector)
    → o ≡ some d
    → Forgotten fd d
    → Forgets fd o
forgets fd o d run f c' h = subst (Forgotten fd) (some-inj (sym run ∙ h)) f

pub fails : (fd : ℕ) (o : Option TcpConnector) → o ≡ none → Forgets fd o
fails fd o run c' h = (let no : ⊥ = cc in elim no [ ])

retry-Forgotten : (fd : ℕ) (c : TcpConnector) → Forgotten fd c → Forgotten fd (retry c)
unfolding retry
retry-Forgotten fd c f = elim (Bool-cases c.running) [
  | inl on ↦ rw on (record { opened = f.opened; channel = f.channel })
  | inr off ↦ rw off (record { opened = f.opened; channel = f.channel })
]

module _ (fd : ℕ) (c : TcpConnector) (f : Forgotten fd c) where
  connect-Forgets : (attempt : Attempt) → IsApart fd attempt → Forgets fd (connect c attempt)
  unfolding connect begin_connecting
  connect-Forgets no_socket apart =
      forgets fd (some (retry c)) (retry c) refl (retry-Forgotten fd c f)
  connect-Forgets (opens other err_no) apart = elim (Bool-cases (is_under_way err_no)) [
    | inr failed ↦
        let d : TcpConnector = record c {
          opened = update (update c.opened other true) other false;
        } in
        forgets fd (connect c (opens other err_no)) (retry d) (ground (arith, failed)) (
          retry-Forgotten fd d
            (record { opened = ground (arith, apart, f.opened); channel = f.channel }))
    | inl on ↦ elim (Option-cases c.channel) [
      | inr busy ↦ fails fd (connect c (opens other err_no)) (ground (arith, on, busy.1))
      | inl free ↦ elim (Bool-cases (is_disconnected c.state)) [
        | inr else ↦ fails fd (connect c (opens other err_no)) (ground (arith, on, else))
        | inl at ↦ elim (Bool-cases (ltb 0 other)) [
          | inr input ↦
              fails fd (connect c (opens other err_no)) (ground (arith, on, at, free, input))
          | inl there ↦
              forgets fd (connect c (opens other err_no))
                (record c {
                  opened = update c.opened other true;
                  state = connecting;
                  channel = some other;
                  watching = true;
                })
                (ground (arith, on, at, free, there))
                (record { opened = ground (arith, apart, f.opened); channel = apart })
        ]
      ]
    ]
  ]

  pub start_in_loop-Forgets :
      (attempt : Attempt) → IsApart fd attempt → Forgets fd (start_in_loop c attempt)
  unfolding start_in_loop
  start_in_loop-Forgets attempt apart = elim (Bool-cases (is_disconnected c.state)) [
    | inr else ↦ fails fd (start_in_loop c attempt) (ground (arith, else))
    | inl at ↦ elim (Bool-cases c.running) [
      | inr off ↦ forgets fd (start_in_loop c attempt) c (ground (arith, at, off)) f
      | inl on ↦ λ c' h. connect-Forgets attempt apart c' (ground (arith, at, on, h))
    ]
  ]

  pub stop_in_loop-Forgets : Forgets fd (stop_in_loop c)
  unfolding stop_in_loop remove_and_reset_channel
  stop_in_loop-Forgets = elim (state_cases c.state) [
    | inr other ↦
        forgets fd (stop_in_loop c) (record c { timers = without c.timer_id c.timers })
          (ground (arith, other.0)) (record { opened = f.opened; channel = f.channel })
    | inl busy ↦ elim (Option-cases c.channel) [
      | inl gone ↦ fails fd (stop_in_loop c) (ground (arith, busy, gone))
      | inr x ↦
          forgets fd (stop_in_loop c)
            (record c {
              timers = without c.timer_id c.timers;
              state = disconnected;
              watching = false;
              resets = suc c.resets;
            })
            (ground (arith, busy, x.1)) (record { opened = f.opened; channel = f.channel })
    ]
  ]

  pub reset_channel-Forgets : Forgets fd (reset_channel c)
  unfolding reset_channel
  reset_channel-Forgets = elim (Bool-cases (ltb 0 c.resets)) [
    | inr none_due ↦ fails fd (reset_channel c) (ground (arith, none_due))
    | inl due ↦
        forgets fd (reset_channel c) (record c { channel = none; resets = c.resets - 1 })
          (ground (arith, due)) (record { opened = f.opened; channel = refl })
  ]

  -- the attempt is given up, and its descriptor closed
  given_up : ℕ → TcpConnector
  given_up x = record c {
    watching = false;
    resets = suc c.resets;
    opened = update c.opened x false;
  }

  given_up-Forgotten : (x : ℕ) → c.channel ≡ some x → Forgotten fd (given_up x)
  unfolding given_up
  given_up-Forgotten x at =
      let apart : (fd == x) ≡ false = sym (ap (λ o. is_of o fd) at) ∙ f.channel in
      record { opened = ground (arith, apart, f.opened); channel = f.channel }

  pub handle_error-Forgets : Forgets fd (handle_error c)
  unfolding handle_error remove_and_reset_channel given_up
  handle_error-Forgets = elim (state_cases c.state) [
    | inr other ↦ forgets fd (handle_error c) c (ground (arith, other.0)) f
    | inl busy ↦ elim (Option-cases c.channel) [
      | inl gone ↦ fails fd (handle_error c) (ground (arith, busy, gone))
      | inr x ↦ elim (Bool-cases (c.opened x.0)) [
        | inr shut ↦ fails fd (handle_error c) (ground (arith, busy, x.1, shut))
        | inl there ↦
            forgets fd (handle_error c) (retry (given_up x.0)) (ground (arith, busy, x.1, there))
              (retry-Forgotten fd (given_up x.0) (given_up-Forgotten x.0 x.1))
      ]
    ]
  ]

  pub handle_write-Forgets :
      (err_code : ℕ) (self : Bool) → Forgets fd (handle_write c err_code self)
  unfolding handle_write remove_and_reset_channel given_up
  handle_write-Forgets err_code self = elim (state_cases c.state) [
    | inr other ↦ fails fd (handle_write c err_code self) (ground (arith, other.0))
    | inl busy ↦ elim (Option-cases c.channel) [
      | inl gone ↦ fails fd (handle_write c err_code self) (ground (arith, busy, gone))
      | inr x ↦
          let g = given_up-Forgotten x.0 x.1 in
          elim (Bool-cases (ltb 0 err_code || self)) [
            | inl bad ↦ elim (Bool-cases (c.opened x.0)) [
              | inr shut ↦
                  fails fd (handle_write c err_code self) (ground (arith, busy, x.1, bad, shut))
              | inl there ↦
                  forgets fd (handle_write c err_code self) (retry (given_up x.0))
                    (ground (arith, busy, x.1, bad, there)) (retry-Forgotten fd (given_up x.0) g)
            ]
            | inr good ↦ elim (Bool-cases c.running) [
              | inl on ↦
                  forgets fd (handle_write c err_code self)
                    (record (given_up x.0) { state = connected; handed = c.handed ++ x.0 ∷ [] })
                    (ground (arith, busy, x.1, good, on))
                    (record { opened = g.opened; channel = g.channel })
              | inr off ↦ elim (Bool-cases (c.opened x.0)) [
                | inr shut ↦
                    fails fd (handle_write c err_code self)
                      (ground (arith, busy, x.1, good, off, shut))
                | inl there ↦
                    forgets fd (handle_write c err_code self)
                      (record (given_up x.0) { state = connected })
                      (ground (arith, busy, x.1, good, off, there))
                      (record { opened = g.opened; channel = g.channel })
              ]
            ]
          ]
    ]
  ]
