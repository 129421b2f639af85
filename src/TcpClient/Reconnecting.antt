-- ===== src/TcpClient/Reconnecting.antt =====
-- What a client does when its connection is gone.
use base_linux.Base.{
  ℕ, ◌≡◌, ◌⊎◌, inl, inr, refl, ap, true, false, ◌&&◌, none, some, [], ◌∷◌, ◌++◌, arith, Bool-cases,
}
use base_linux.Connector.Steps.{IsUsable}
use base_linux.TcpConnector.{Attempt, disconnected, connecting, connected, is_connecting}
use base_linux.TcpConnector.Valid.{IsValid, IsIdle}
use base_linux.TcpConnector.Steps.{restart-Stepped}
use base_linux.TcpConnector.Running.{alive_cases}
use base_linux.TcpConnector.Restarting.{restart_running, start_connected}
use base_linux.TcpClient.{TcpClient, connect_call, remove_connection}

-- A client connected with a valid connector that has nothing else under way, for which the
-- descriptors of sockets are above 0, loses its connection, which is then destroyed in the loop.
-- If it is to retry and was not disconnected, its connector, valid still, is connected, connects
-- with a channel that the poller watches, or has the timer of the next attempt. Otherwise the
-- connector stays as it is, connected, and a later Connect fails its assert.
pub remove_connection_lem :
    (c : TcpClient) (fd : ℕ) (attempt : Attempt)
    → c.connection ≡ some fd
    → IsValid c.connector
    → c.connector.state ≡ connected
    → IsIdle c.connector
    → IsUsable attempt
    → (c' : TcpClient) × (remove_connection c fd attempt ≡ some c')
      × (c'.connection ≡ none)
      × (c'.destroyed ≡ c.destroyed ++ fd ∷ [])
      × (c.retry && c.connect ≡ true
          → IsValid c'.connector
            × ((c'.connector.state ≡ connected)
                ⊎ (((c'.connector.state ≡ connecting) × (c'.connector.watching ≡ true))
                    ⊎ ((c'.connector.state ≡ disconnected)
                        × (c'.connector.timers ≡ c'.connector.timer_id ∷ [])))))
      × (c.retry && c.connect ≡ false → c'.connector ≡ c.connector)
      × (c.retry && c.connect ≡ false → (again : Attempt) → connect_call c' again ≡ none)
unfolding remove_connection connect_call
remove_connection_lem c fd attempt own v at idle usable = elim (Bool-cases (c.retry && c.connect)) [
  | inl again ↦
      let m = restart-Stepped c.connector attempt v (ap is_connecting at) idle usable in
      (
        record c { connection = none; destroyed = c.destroyed ++ fd ∷ []; connector = m.0 },
        ground (arith, own, again, m.1),
        refl,
        refl,
        λ _.
            (m.2, alive_cases m.0 m.0.state refl m.2 (restart_running c.connector m.0 attempt m.1)),
        λ h. ground (arith, again, h),
        λ h. ground (arith, again, h),
      )
  | inr never ↦ (
    record c { connection = none; destroyed = c.destroyed ++ fd ∷ [] },
    ground (arith, own, never),
    refl,
    refl,
    λ h. ground (arith, never, h),
    λ _. refl,
    λ _ later. let stuck = start_connected c.connector later at in ground (arith, stuck),
  )
]
