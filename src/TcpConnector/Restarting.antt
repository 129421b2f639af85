-- ===== src/TcpConnector/Restarting.antt =====
-- What a start and a restart leave a connector with.
use base_linux.Base.{
  ◌≡◌, inl, inr, sym, ap, ◌∙◌, true, false, none, some, arith, Bool-cases, Option-cases, update,
}
use base_linux.Connector.{is_under_way}
use base_linux.TcpConnector.{
  TcpConnector, connected, disconnected, is_disconnected, k_init_retry_delay, Attempt, no_socket,
  opens, retry, connect, begin_connecting, start, restart, start_in_loop,
}

retry_running : (c : TcpConnector) → (retry c).running ≡ c.running
unfolding retry
retry_running c = elim (Bool-cases c.running) [
  | inl on ↦ ground (arith, on)
  | inr off ↦ ground (arith, off)
]

connect_running :
    (c c' : TcpConnector) (attempt : Attempt) → connect c attempt ≡ some c' → c'.running ≡ c.running
unfolding connect begin_connecting
connect_running c c' no_socket h =
    let e : retry c ≡ c' = ground (arith, h) in
    ap (λ (x : TcpConnector). x.running) (sym e) ∙ retry_running c
connect_running c c' (opens fd err_no) h = elim (Bool-cases (is_under_way err_no)) [
  | inr failed ↦
      let e : retry (record c { opened = update (update c.opened fd true) fd false }) ≡ c' =
        ground (arith, failed, h) in
      ap (λ (x : TcpConnector). x.running) (sym e)
      ∙ retry_running (record c { opened = update (update c.opened fd true) fd false })
  | inl on ↦ elim (Option-cases c.channel) [
    | inr busy ↦ ground (arith, on, busy.1, h)
    | inl free ↦ elim (Bool-cases (is_disconnected c.state)) [
      | inl at ↦ ground (arith, on, free, at, h)
      | inr other ↦ ground (arith, on, free, other, h)
    ]
  ]
]

-- A connector that was restarted runs.
pub restart_running :
    (c c' : TcpConnector) (attempt : Attempt) → restart c attempt ≡ some c' → c'.running ≡ true
unfolding restart start_in_loop
restart_running c c' attempt h =
    connect_running
      (record c { running = true; state = disconnected; retry_delay = k_init_retry_delay }) c'
      attempt (ground (arith, h))

-- A connector whose last attempt succeeded does not start.
pub start_connected :
    (c : TcpConnector) (attempt : Attempt) → c.state ≡ connected → start c attempt ≡ none
unfolding start start_in_loop
start_connected c attempt at = ground (arith, at)
