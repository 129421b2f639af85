-- ===== src/Connector/Steps.antt =====
-- The connector through any sequence of calls and events.
use base_linux.Base.{ℕ, ◌<◌, ◌≤◌, ◌≡◌, Bool, true, false, Option, none, some, List, [], ◌∷◌, ◌==◌}
use base_linux.Connector.{
  States, disconnected, connecting, connected, is_connecting, is_disconnected, Connector,
  k_max_retry_delay, Attempt, no_socket, opens, Event, starts, restarts, stops, writes, errs,
  clears, step,
}

-- The descriptor that the connector owns: that of the channel while it connects, and none
-- otherwise.
abbrev pub owns : States → Option ℕ → ℕ → Bool
owns connecting none j = false
owns connecting (some fd) j = j == fd
owns disconnected o j = false
owns connected o j = false

-- the calls of `ResetChannel` that are due
abbrev pub due_resets : States → Option ℕ → ℕ
due_resets connecting o = 0
due_resets disconnected none = 0
due_resets disconnected (some fd) = 1
due_resets connected none = 0
due_resets connected (some fd) = 1

abbrev pub is_channel : States → Option ℕ → Bool
is_channel connecting none = false
is_channel connecting (some fd) = true
is_channel disconnected o = true
is_channel connected o = true

pub record IsValid (c : Connector) : Type 0 where
  pub opened : (j : ℕ) → c.opened j ≡ owns c.states c.channel j
  pub resets : c.resets ≡ due_resets c.states c.channel
  pub channel : is_channel c.states c.channel ≡ true
  pub watching : c.watching ≡ is_connecting c.states
  pub delay : c.retry_delay ≤ k_max_retry_delay

-- A descriptor that `socket` returns is not that of the standard input.
abbrev pub IsUsable : Attempt → Type 0
IsUsable no_socket = Unit {0}
IsUsable (opens fd err_no) = 0 < fd

-- When each of them may come: a start only while nothing is under way and the last channel is
-- gone, an event only from a channel that the poller has, and not from a connection to itself.
abbrev pub Allowed : Connector → Event → Type 0
Allowed c (starts attempt) =
    (is_disconnected c.states ≡ true) × (c.channel ≡ none) × IsUsable attempt
Allowed c (restarts attempt) =
    (is_connecting c.states ≡ false) × (c.channel ≡ none) × IsUsable attempt
Allowed c stops = Unit {0}
Allowed c (writes err_code self) = (c.watching ≡ true) × (self ≡ false)
Allowed c errs = c.watching ≡ true
Allowed c clears = 0 < c.resets

abbrev Stepped : Option Connector → Type 0
Stepped o = (c' : Connector) × (o ≡ some c') × IsValid c'

-- Each of the calls and events may come when it does.
abbrev pub AllAllowed : Connector → List Event → Type 0
AllAllowed c [] = Unit {0}
AllAllowed c (e ∷ es) = Allowed c e × ((c' : Connector) → step c e ≡ some c' → AllAllowed c' es)
