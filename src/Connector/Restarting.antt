-- ===== src/Connector/Restarting.antt =====
-- Two ways to break the connector: a start right after a stop, and a connection to itself.
use base_linux.Base.{ℕ, suc, ◌≡◌, refl, true, false, none, some, ◌∷◌, arith, update}
use base_linux.Connector.{
  disconnected, connecting, connected, Connector, k_init_retry_delay, is_under_way, opens,
  wait_longer, retry, begin_connecting, connect, start_in_loop, start, remove_and_reset_channel,
  stop, handle_write,
}
use base_linux.Connector.Steps.{IsValid}

-- While a connector connects, `Stop` and then `Start` in the same turn of the loop, before
-- `ResetChannel` has run, fails the assert of `Connecting`, if the new attempt gets under way.
pub stop-start :
    (c : Connector) (fd sockfd err_no : ℕ)
    → IsValid c
    → c.states ≡ connecting
    → c.channel ≡ some fd
    → is_under_way err_no ≡ true
    → (c' : Connector) × (stop c ≡ some c') × (start c' (opens sockfd err_no) ≡ none)
unfolding stop remove_and_reset_channel start start_in_loop connect begin_connecting
stop-start c fd sockfd err_no v busy h on = (
  record c {
    running = false;
    states = disconnected;
    watching = false;
    resets = suc c.resets;
    opened = update c.opened fd false;
    closed = fd ∷ c.closed;
  },
  ground (arith, busy, h, v.opened fd),
  ground (arith, on, h),
)

-- When the socket of a running connector is connected to itself, `HandleWrite` closes its
-- descriptor and gives the closed descriptor to the callback all the same.
pub handle_write_self :
    (c : Connector) (fd : ℕ)
    → IsValid c
    → c.states ≡ connecting
    → c.channel ≡ some fd
    → c.running ≡ true
    → (c' : Connector) × (handle_write c 0 true ≡ some c')
      × (c'.handed ≡ fd ∷ c.handed)
      × (c'.closed ≡ fd ∷ c.closed)
unfolding handle_write remove_and_reset_channel retry wait_longer
handle_write_self c fd v busy h on = (
  record c {
    states = connected;
    watching = false;
    retry_delay = k_init_retry_delay;
    resets = suc c.resets;
    opened = update (update c.opened fd false) fd false;
    closed = fd ∷ c.closed;
    handed = fd ∷ c.handed;
  },
  ground (arith, busy, h, on, v.opened fd),
  refl,
  refl,
)
