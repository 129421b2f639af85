-- ===== src/TcpServer/Tests.antt =====
-- The theorems on a server, applied to one with room for two descriptors.
use base_linux.Base.{
  ℕ, zero, suc, ◌<◌, ◌≡◌, refl, true, none, some, List, [], ◌∷◌, arith, ◌==◌, if◌then◌else◌,
}
use base_linux.EventLoopThreadPool
use base_linux.EventLoopThreadPool.{EventLoopThreadPool, get_next_event_loop}
use base_linux.TcpServer.{
  new_server, start, stop, add_conn_list_item, on_new_connection, Conn, TcpServer,
  connection_established, connection_destroy, dump_connections, Event, opens, closes, run,
}
use base_linux.TcpServer.Table.{item_at, count_items}
use base_linux.TcpServer.Entries.{IsValid}
use base_linux.TcpServer.Serving.{Registry, registry_step, registry_run, Keeps, AllFit, run-Served}
use base_linux.TcpServer.Lives.{Serves, idle, opened}
use base_linux.TcpServer.Names.{opened_count}
use base_linux.TcpServer.Stopping.{Ended, stop-Ended}

-- no thread of its own: each connection is on the main loop, 5
abbrev pool : EventLoopThreadPool
pool = record { loop_main = 5; is_running = true; thread_nums = 0; next = 0; loops = [] }

abbrev two : TcpServer
two = record {
  next_connect_id = 0;
  tcp_conn_list = none ∷ none ∷ [];
  tcp_conn_count = 0;
  loop_thread_pool = pool;
  given = [];
}

empty_item : (i : ℕ) → item_at (none ∷ none ∷ []) i ≡ none
unfolding item_at
empty_item zero = refl
empty_item (suc zero) = refl
empty_item (suc (suc i)) = refl

two-IsValid : IsValid 2 two
unfolding item_at count_items
two-IsValid = record {
  room = omega arith;
  limit = omega arith;
  placed = λ i conn h. ground (arith, empty_item i, h);
  counted = refl;
}

abbrev nobody : Registry
nobody = record { conns = λ _. none; next_connect_id = 0; loop_thread_pool = pool; given = [] }

two-Keeps : Keeps two nobody
unfolding item_at
two-Keeps = record {
  conns = empty_item;
  next_connect_id = refl;
  loop_thread_pool = refl;
  given = refl;
}

abbrev conn : Conn
conn = record { name = 0; fd = 3; owner_loop = 5 }

-- the descriptor 3 makes the list grow
abbrev events : List Event
events = opens 3 ∷ closes conn ∷ []

events-AllFit : AllFit 2 events
unfolding AllFit
events-AllFit = (omega arith, omega arith, tt)

abbrev gone : Registry
gone = record {
  conns = λ j. if j == 3 then none else (if j == 3 then some conn else none);
  next_connect_id = 1;
  loop_thread_pool = pool;
  given = connection_established conn ∷ connection_destroy conn ∷ [];
}

gone_of_nobody : registry_run nobody events ≡ some gone
unfolding registry_run registry_step get_next_event_loop
gone_of_nobody = refl

run-Served_example :
    (s' : TcpServer) × (run two events ≡ some s')
    × IsValid 2 s'
    × Keeps s' gone
    × (dump_connections s' ≡ some tt)
run-Served_example =
    run-Served 2 events two nobody gone two-IsValid two-Keeps events-AllFit gone_of_nobody

abbrev first : Conn
first = record { name = 0; fd = 1; owner_loop = 5 }

-- after a connection at the descriptor 1
abbrev served_one : TcpServer
served_one = record two {
  next_connect_id = 1;
  tcp_conn_list = none ∷ some first ∷ [];
  tcp_conn_count = 1;
  given = connection_established first ∷ [];
}

two-Serves : Serves 2 two served_one
unfolding on_new_connection add_conn_list_item get_next_event_loop item_at
two-Serves =
    opened two two served_one 1 (idle two) (omega arith) (omega arith) (omega arith) refl refl

-- no thread starts, so that there is no loop of one
abbrev no_loop : ℕ → ℕ
no_loop i = 0

two_starts : start (new_server 2 5) no_loop ≡ some two
unfolding start EventLoopThreadPool.start EventLoopThreadPool.start_threads
two_starts = refl

one_opened : 0 < opened_count 2 two served_one two-Serves
unfolding opened_count two-Serves
one_opened = omega arith

stop-Ended_example : (v : TcpServer) × (stop served_one ≡ some v) × Ended v 0
stop-Ended_example =
    stop-Ended 2 5 0 no_loop two served_one (omega arith) (omega arith) two_starts two-Serves
      one_opened

-- on the loop 9 of a thread
abbrev elsewhere : TcpServer
elsewhere = record two {
  tcp_conn_list = none ∷ some (record first { owner_loop = 9 }) ∷ [];
  tcp_conn_count = 1;
}
