-- ===== src/TcpConnector/Tests.antt =====
-- The theorems on the connector of TCP clients, applied to one that waits and one that connects.
use base_linux.Base.{◌≡◌, inl, refl, true, false, none, some, List, [], ◌∷◌, arith, ◌==◌}
use base_linux.TcpConnector.{
  disconnected, connecting, TcpConnector, opens, Event, writes, expires, step, starts, stops,
  clears, start, stop_in_loop, remove_and_reset_channel, run, start_in_loop, connect,
  begin_connecting, without, stop, reset_channel,
}
use base_linux.TcpConnector.Valid.{IsValid}
use base_linux.TcpConnector.Running.{AllAllowed}
use base_linux.TcpConnector.Forgetting.{AllApart}
use base_linux.TcpConnector.Leaking.{run-opened}

-- waits for its timer
abbrev waiting : TcpConnector
waiting = record {
  running = true;
  state = disconnected;
  channel = none;
  watching = false;
  retry_delay = 2000;
  timer_id = 4;
  timers = 4 ∷ [];
  next_timer = 5;
  waits = 1 ∷ [];
  resets = 0;
  stops = 0;
  opened = λ _. false;
  handed = [];
}

-- connects with the descriptor 9
abbrev busy : TcpConnector
busy = record waiting {
  state = connecting;
  channel = some 9;
  watching = true;
  timers = [];
  opened = λ fd. fd == 9;
}

busy-IsValid : IsValid busy
busy-IsValid = record {
  opened = refl;
  watching = refl;
  resets = refl;
  least = ground arith;
  most = ground arith;
  one = inl refl;
  none_else = λ _. refl;
  alive = λ _ h. cc;
  stays = λ _. refl;
}

abbrev events : List Event
events = expires 4 (opens 9 115) ∷ writes 0 false ∷ []

-- after the stop another attempt, which succeeds
abbrev stopped_events : List Event
stopped_events = starts (opens 10 115) ∷ writes 0 false ∷ []

stopped_events-AllAllowed : AllAllowed busy (stops ∷ clears ∷ stopped_events)
unfolding AllAllowed step stop stop_in_loop remove_and_reset_channel reset_channel start
    start_in_loop connect begin_connecting without
stopped_events-AllAllowed = (
  tt,
  λ c1 h1. (
    ground (arith, h1),
    λ c2 h2. (
      (
        ground (arith, h1, h2),
        (ground (arith, h1, h2), ground (arith, h1, h2), ground (arith, h1, h2)),
        ground arith,
      ),
      λ c3 h3. (ground (arith, h1, h2, h3), λ _ _. tt),
    ),
  ),
)

stopped_events-AllApart : AllApart 9 stopped_events
unfolding AllApart
stopped_events-AllApart = (refl, tt)

run-opened_example :
    (c1 : TcpConnector) × (c2 : TcpConnector) × (run busy (stops ∷ clears ∷ []) ≡ some c1)
    × (c1.state ≡ disconnected)
    × (c1.channel ≡ none)
    × (c1.watching ≡ false)
    × (c1.timers ≡ [])
    × (c1.handed ≡ [])
    × (run c1 stopped_events ≡ some c2)
    × (c2.opened 9 ≡ true)
run-opened_example =
    run-opened stopped_events busy 9 busy-IsValid refl refl stopped_events-AllAllowed
      stopped_events-AllApart
