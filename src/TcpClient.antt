-- ===== src/TcpClient.antt =====
-- src/tcp_client.h and src/tcp_client.cc: a client with its connector and its connection, on its
-- loop's thread. A connection is the descriptor of its socket. `none` is a failed assert, or one
-- of the connector's.
pub mod Reconnecting
mod Tests
use base_linux.Base.{
  ℕ, Bool, true, false, ◌&&◌, Option, none, some, List, [], ◌∷◌, ◌++◌, length, drop, ◌==◌,
  if◌then◌else◌, ◌>>=◌, ◌>>◌, assert,
}
use base_linux.TcpConnector
use base_linux.TcpConnector.{Attempt}

pub record TcpClient : Type 0 where
  pub retry : Bool
  pub connect : Bool
  pub connection : Option ℕ
  pub connector : TcpConnector.TcpConnector
  -- the connections that `ForceClose` was called for, and those for which `ConnectionDestroy` was
  -- queued
  pub forced : List ℕ
  pub destroyed : List ℕ
  -- the connections that were established, in order
  pub established : List ℕ

-- `Connect`
pub connect_call : TcpClient → Attempt → Option TcpClient
connect_call c attempt = do
  connector ← TcpConnector.start c.connector attempt
  some (record c { connect = true; connector = connector })

-- `Disconnect`
pub disconnect : TcpClient → Option TcpClient
disconnect c = do
  connector ← TcpConnector.stop c.connector
  some (record c {
    connect = false;
    connector = connector;
    forced = c.forced ++ elim c.connection [ none ↦ [] | some fd ↦ fd ∷ [] ];
  })

-- `NewConnection`
pub new_connection : TcpClient → ℕ → TcpClient
new_connection c fd = record c { connection = some fd; established = c.established ++ fd ∷ [] }

-- The connector's `HandleWrite`, with `NewConnection` as its callback.
pub handle_write : TcpClient → ℕ → Bool → Option TcpClient
handle_write c err_code self = do
  connector ← TcpConnector.handle_write c.connector err_code self
  let c' : TcpClient = record c { connector = connector }
  some (elim (drop (length c.connector.handed) connector.handed) [
    | [] ↦ c'
    | fd ∷ fds ↦ new_connection c' fd
  ])

-- `RemoveConnection`, with what a new attempt of the connector meets
pub remove_connection : TcpClient → ℕ → Attempt → Option TcpClient
remove_connection c fd attempt = do
  own ← c.connection
  assert (own == fd)
  let c' : TcpClient = record c { connection = none; destroyed = c.destroyed ++ fd ∷ [] }
  if c.retry && c.connect
      then (do
        connector ← TcpConnector.restart c.connector attempt
        some (record c' { connector = connector }))
      else some c'
