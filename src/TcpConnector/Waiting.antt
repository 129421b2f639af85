-- ===== src/TcpConnector/Waiting.antt =====
-- How long a connector waits between attempts that fail.
use base_linux.Base.{
  ℕ, zero, suc, ◌*◌, ◌/◌, ◌^◌, min, ◌≡◌, Bool, true, not, Option, some, List, [], ◌∷◌, ◌>>=◌,
}
use base_linux.Connector.{is_under_way}
use base_linux.TcpConnector.{
  disconnected, TcpConnector, k_init_retry_delay, k_max_retry_delay, Attempt, no_socket, opens,
  expire,
}

-- An attempt that `Connect` gives up.
abbrev pub is_failed : Attempt → Bool
is_failed no_socket = true
is_failed (opens fd err_no) = not (is_under_way err_no)

-- The timer fires for each of the attempts.
unfoldable pub retries : TcpConnector → List Attempt → Option TcpConnector
retries c [] = some c
retries c (attempt ∷ attempts) = do c' ← expire c c.timer_id attempt; retries c' attempts

unfoldable pub AllFailed : List Attempt → Type 0
AllFailed [] = Unit {0}
AllFailed (attempt ∷ attempts) = (is_failed attempt ≡ true) × AllFailed attempts

-- the delay in milliseconds after so many attempts
abbrev pub delay : ℕ → ℕ
delay n = min (k_init_retry_delay * 2 ^ n) k_max_retry_delay

-- the waits in seconds of so many attempts, from the one with the first number
pub delays : ℕ → ℕ → List ℕ
delays first zero = []
delays first (suc n) = delay first / 1000 ∷ delays (suc first) n

-- A connector that runs and waits for its timer.
pub record IsWaiting (c : TcpConnector) (n : ℕ) : Type 0 where
  pub on : c.running ≡ true
  pub at : c.state ≡ disconnected
  pub due : c.timers ≡ c.timer_id ∷ []
  pub delay : c.retry_delay ≡ delay n
