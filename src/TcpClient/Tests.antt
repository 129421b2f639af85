-- ===== src/TcpClient/Tests.antt =====
-- The theorem on a client, applied to one that is to retry.
use base_linux.Base.{◌≡◌, ◌⊎◌, inl, refl, true, false, ◌&&◌, none, some, [], ◌∷◌, ◌++◌, arith}
use base_linux.TcpConnector
use base_linux.TcpConnector.{Attempt, opens, disconnected, connecting, connected}
use base_linux.TcpConnector.Valid.{IsValid}
use base_linux.TcpClient.{TcpClient, connect_call, remove_connection}
use base_linux.TcpClient.Reconnecting.{remove_connection_lem}

abbrev done : TcpConnector.TcpConnector
done = record {
  running = true;
  state = connected;
  channel = none;
  watching = false;
  retry_delay = 1000;
  timer_id = 0;
  timers = [];
  next_timer = 1;
  waits = [];
  resets = 0;
  stops = 0;
  opened = λ _. false;
  handed = 9 ∷ [];
}

done-IsValid : IsValid done
done-IsValid = record {
  opened = refl;
  watching = refl;
  resets = refl;
  least = ground arith;
  most = ground arith;
  one = inl refl;
  none_else = λ _. refl;
  alive = λ _ h. cc;
  stays = λ _. refl;
}

abbrev client : TcpClient
client = record {
  retry = true;
  connect = true;
  connection = some 9;
  connector = done;
  forced = [];
  destroyed = [];
  established = 9 ∷ [];
}

remove_connection_lem_example :
    (c' : TcpClient) × (remove_connection client 9 (opens 9 115) ≡ some c')
    × (c'.connection ≡ none)
    × (c'.destroyed ≡ [] ++ 9 ∷ [])
    × (true && true ≡ true
        → IsValid c'.connector
          × ((c'.connector.state ≡ connected)
              ⊎ (((c'.connector.state ≡ connecting) × (c'.connector.watching ≡ true))
                  ⊎ ((c'.connector.state ≡ disconnected)
                      × (c'.connector.timers ≡ c'.connector.timer_id ∷ [])))))
    × (true && true ≡ false → c'.connector ≡ done)
    × (true && true ≡ false → (again : Attempt) → connect_call c' again ≡ none)
remove_connection_lem_example =
    remove_connection_lem client 9 (opens 9 115) refl done-IsValid refl (refl, refl, refl)
      (ground arith)
