-- ===== src/TcpServer.antt =====
-- src/tcp_server.h and src/tcp_server.cc: the connections of a server, by their descriptors. The
-- calls run on the server's loop, where `RunInLoop` of this loop calls at once. `none` is a
-- failed assert or an index out of bounds.
pub mod Table
pub mod Entries
pub mod Serving
pub mod Limits
pub mod Lives
pub mod Ledger
pub mod Names
pub mod Destroying
pub mod Stopping
mod Tests
use base_linux.Base.{
  ℕ, suc, ◌+◌, ◌*◌, ◌%◌, ◌^◌, Bool, true, false, not, ◌&&◌, Option, none, some, List, [], ◌∷◌, ◌++◌,
  length, replicate, get_elem?, set, sub_size, leb, ltb, ◌==◌, if◌then◌else◌, ◌>>=◌, ◌>>◌, assert,
}
use base_linux.EventLoopThreadPool
use base_linux.EventLoopThreadPool.{EventLoopThreadPool, new_pool, get_next_event_loop}

-- A connection by its number, the descriptor of its socket and its loop.
pub record Conn : Type 0 where
  pub name : ℕ
  pub fd : ℕ
  pub owner_loop : ℕ

-- What the server gives to `RunInLoop` of a connection's loop.
pub data Task : Type 0 where
  connection_established : Conn → Task
  connection_destroy : Conn → Task

pub record TcpServer : Type 0 where
  pub next_connect_id : ℕ
  pub tcp_conn_list : List (Option Conn)
  pub tcp_conn_count : ℕ
  pub loop_thread_pool : EventLoopThreadPool
  -- what was given to the connections' loops, in order
  pub given : List Task

-- `kConnSize`
abbrev pub k_conn_size : ℕ
k_conn_size = 1048576

-- The constructors, with the size to which the list is resized, `kConnSize`. The acceptors are those of Acceptor.
abbrev pub new_server : ℕ → ℕ → TcpServer
new_server size loop_main = record {
  next_connect_id = 0;
  tcp_conn_list = replicate size none;
  tcp_conn_count = 0;
  loop_thread_pool = new_pool loop_main;
  given = [];
}

-- `set_event_loop_nums`
abbrev pub set_event_loop_nums : TcpServer → ℕ → TcpServer
set_event_loop_nums s nums = record s {
  loop_thread_pool = record s.loop_thread_pool { thread_nums = nums };
}

-- `Start`, with the loops of the pool's threads, but for the acceptors' `Listen`
unfoldable pub start : TcpServer → (ℕ → ℕ) → Option TcpServer
start s start_loop = do
  pool ← EventLoopThreadPool.start s.loop_thread_pool start_loop
  some (record s { loop_thread_pool = pool })

-- `resize(size * 2)` where the descriptor is not below the size
abbrev pub grow : List (Option Conn) → ℕ → List (Option Conn)
grow conns fd = if leb (length conns) fd then conns ++ replicate (length conns) none else conns

-- `AddConnListItem`
pub add_conn_list_item : TcpServer → Conn → Option (Bool × TcpServer)
add_conn_list_item s conn =
    let conns = grow s.tcp_conn_list conn.fd in
    if ltb (length conns) conn.fd then some (false, record s { tcp_conn_list = conns }) else (do
      item ← get_elem? conns conn.fd
      assert (elim item [ none ↦ true | some other ↦ false ])
      some (
        true,
        record s {
          tcp_conn_list = set conns conn.fd (some conn);
          tcp_conn_count = (s.tcp_conn_count + 1) % 2 ^ 64;
        },
      ))

-- `DelConnListItem`
pub del_conn_list_item : TcpServer → Conn → Option TcpServer
del_conn_list_item s conn = do
  item ← get_elem? s.tcp_conn_list conn.fd
  assert (elim item [ none ↦ false | some other ↦ true ])
  some (record s {
    tcp_conn_list = set s.tcp_conn_list conn.fd none;
    tcp_conn_count = sub_size s.tcp_conn_count 1;
  })

-- `OnNewConnection`. A connection that is not added is destroyed at once while it is still
-- CONNECTING, which fails the assert of its destructor.
pub on_new_connection : TcpServer → ℕ → Option TcpServer
on_new_connection s fd = do
  (loop, pool) ← get_next_event_loop s.loop_thread_pool
  -- of the constructor of `TCPConnection`
  assert (ltb 0 fd)
  let conn : Conn = record { name = s.next_connect_id; fd = fd; owner_loop = loop }
  (added, s') ←
      add_conn_list_item
        (record s { next_connect_id = (s.next_connect_id + 1) % 2 ^ 64; loop_thread_pool = pool })
        conn
  assert added
  some (record s' { given = s'.given ++ connection_established conn ∷ [] })

-- `OnConnectionRemoveInLoop`
pub on_connection_remove_in_loop : TcpServer → Conn → Option TcpServer
on_connection_remove_in_loop s conn = do
  s' ← del_conn_list_item s conn
  some (record s' { given = s'.given ++ connection_destroy conn ∷ [] })

-- the loop of `DumpConnections` from an index on: how many connections there are
pub count_from : List (Option Conn) → ℕ → Option ℕ
count_from [] i = some 0
count_from (none ∷ conns) i = count_from conns (suc i)
count_from (some conn ∷ conns) i = do
  assert (conn.fd == i)
  count ← count_from conns (suc i)
  some (suc count)

-- `DumpConnections`
pub dump_connections : TcpServer → Option (Unit {0})
dump_connections s = do count ← count_from s.tcp_conn_list 0; assert (count == s.tcp_conn_count)

-- the loop of `Stop`, once the threads of the pool have ended: of the loops only the main one is
-- still there.
unfoldable pub destroy_all : ℕ → List (Option Conn) → Option (List Task)
destroy_all loop_main [] = some []
destroy_all loop_main (none ∷ conns) = destroy_all loop_main conns
destroy_all loop_main (some conn ∷ conns) = do
  assert (conn.owner_loop == loop_main)
  tasks ← destroy_all loop_main conns
  some (connection_destroy conn ∷ tasks)

-- `Stop`
unfoldable pub stop : TcpServer → Option TcpServer
unfolding destroy_all
stop s = do
  pool ← EventLoopThreadPool.stop s.loop_thread_pool
  tasks ← destroy_all s.loop_thread_pool.loop_main s.tcp_conn_list
  some (record s { given = s.given ++ tasks; loop_thread_pool = pool })

-- What happens to the server.
pub data Event : Type 0 where
  opens : ℕ → Event
  closes : Conn → Event

pub step : TcpServer → Event → Option TcpServer
step s (opens fd) = on_new_connection s fd
step s (closes conn) = on_connection_remove_in_loop s conn

pub run : TcpServer → List Event → Option TcpServer
run s [] = some s
run s (e ∷ es) = do s' ← step s e; run s' es
