-- ===== src/TcpConnector/Running.antt =====
-- A connector through any sequence of calls and events.
use base_linux.Base.{◌≡◌, ◌⊎◌, inl, inr, refl, ap, ◌∙◌, true, some, List, [], ◌∷◌, arith}
use base_linux.TcpConnector.{
  State, disconnected, connecting, connected, is_connecting, is_disconnected, TcpConnector, Event,
  starts, restarts, stops, stops_away, stops_late, writes, errs, clears, expires, step, run,
}
use base_linux.TcpConnector.Valid.{IsValid, Allowed, Stepped}
use base_linux.TcpConnector.Steps.{
  handle_error-Stepped, handle_write-Stepped, reset_channel-Stepped, start-Stepped, restart-Stepped,
  expire-Stepped,
}
use base_linux.TcpConnector.Stopping.{stop-Stepped, stop_away-Stepped, stop_late-Stepped}

step-Stepped : (c : TcpConnector) (e : Event) → IsValid c → Allowed c e → Stepped (step c e)
unfolding step
step-Stepped c (starts attempt) v ok = start-Stepped c attempt v ok.0 ok.1 ok.2
step-Stepped c (restarts attempt) v ok = restart-Stepped c attempt v ok.0 ok.1 ok.2
step-Stepped c stops v ok = stop-Stepped c v
step-Stepped c stops_away v ok = stop_away-Stepped c v
step-Stepped c stops_late v ok = stop_late-Stepped c v ok
step-Stepped c (writes err_code self) v ok = handle_write-Stepped c err_code self v ok
step-Stepped c errs v ok = handle_error-Stepped c v
step-Stepped c clears v ok = reset_channel-Stepped c v ok
step-Stepped c (expires id attempt) v ok = expire-Stepped c id attempt v ok.0 ok.1 ok.2

-- Each of the calls and events may come when it does.
unfoldable pub AllAllowed : TcpConnector → List Event → Type 0
AllAllowed c [] = Unit {0}
AllAllowed c (e ∷ es) = Allowed c e × ((c' : TcpConnector) → step c e ≡ some c' → AllAllowed c' es)

pub run-IsValid :
    (es : List Event) (c : TcpConnector)
    → IsValid c
    → AllAllowed c es
    → (c' : TcpConnector) × (run c es ≡ some c') × IsValid c'
unfolding run AllAllowed
run-IsValid [] c v all = (c, refl, v)
run-IsValid (e ∷ es) c v all =
    let m = step-Stepped c e v all.0 in
    let n = run-IsValid es m.0 m.2 (all.1 m.0 m.1) in (n.0, ground (arith, m.1, n.1), n.2)

pub alive_cases :
    (c : TcpConnector) (s : State)
    → c.state ≡ s
    → IsValid c
    → c.running ≡ true
    → (c.state ≡ connected)
      ⊎ (((c.state ≡ connecting) × (c.watching ≡ true))
          ⊎ ((c.state ≡ disconnected) × (c.timers ≡ c.timer_id ∷ [])))
alive_cases c disconnected h v on = inr (inr (h, v.alive on (ap is_disconnected h)))
alive_cases c connecting h v on = inr (inl (h, v.watching ∙ ap is_connecting h))
alive_cases c connected h v on = inl h
