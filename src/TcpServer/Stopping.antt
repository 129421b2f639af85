-- ===== src/TcpServer/Stopping.antt =====
-- `Stop` of a server of src/tcp_server.cc after any sequence of calls.
use base_linux.Base.{
  length, subst, true, inl, replicate, length-replicate, ◌≤◌, ◌^◌, ℕ, zero, suc, ◌<◌, ◌≡◌, ◌≢◌, inl,
  inr, refl, sym, ap, ◌∙◌, false, Option, none, some, List, [], ◌∷◌, ◌++◌, arith, append-nil,
  lt→ltb,
}
use base_linux.EventLoopThreadPool
use base_linux.EventLoopThreadPool.{new_pool}
use base_linux.TcpServer.{
  start, new_server, Conn, TcpServer, Task, connection_established, connection_destroy, destroy_all,
  stop,
}
use base_linux.TcpServer.Table.{count_items, item_at}
use base_linux.TcpServer.Entries.{IsValid}
use base_linux.TcpServer.Lives.{tasks_of, tasks_of-append, Serves, Life, IsLedger}
use base_linux.TcpServer.Ledger.{IsSingle, Serves-IsLedger, Serves-IsSingle, cons-ne-nil, est-inj}
use base_linux.TcpServer.Names.{opened_count, Serves-tasks_of}
use base_linux.TcpServer.Destroying.{destroys_none, destroys_one}

rest_of : List Task → List Task
rest_of [] = []
rest_of (task ∷ rest) = rest

-- A name with the two tasks of a connection
pub Ended : TcpServer → ℕ → Type 0
Ended s n =
    (conn : Conn) × (conn.name ≡ n)
    × (tasks_of n s.given ≡ connection_established conn ∷ connection_destroy conn ∷ [])

-- `Stop` where the loop over the connections runs through
stop_run :
    (loop_main n : ℕ) (u : TcpServer) (tasks : List Task)
    → u.loop_thread_pool.loop_main ≡ loop_main
    → 0 < loop_main
    → destroy_all loop_main u.tcp_conn_list ≡ some tasks
    → (v : TcpServer) × (stop u ≡ some v)
      × (tasks_of n v.given ≡ tasks_of n u.given ++ tasks_of n tasks)
unfolding stop EventLoopThreadPool.stop
stop_run loop_main n u tasks main positive run = (
  record u {
    given = u.given ++ tasks;
    loop_thread_pool = record u.loop_thread_pool { is_running = false; loop_main = 0 };
  },
  rw (main, lt→ltb 0 loop_main positive, run) refl,
  tasks_of-append n u.given tasks,
)

-- A name that is not listed
unlisted :
    (loop_main n : ℕ) (u : TcpServer)
    → IsLedger u
    → IsSingle loop_main u
    → 0 < loop_main
    → ((conn : Conn) → tasks_of n u.given ≢ connection_established conn ∷ [])
    → (v : TcpServer) × (stop u ≡ some v) × (tasks_of n v.given ≡ tasks_of n u.given)
unlisted loop_main n u ledger single positive absent =
    let (tasks, run, nothing) =
      destroys_none loop_main n u.tcp_conn_list single.owned (λ i conn at called.
        absent conn (ap (λ m. tasks_of m u.given) (sym called) ∙ ledger.listed i conn at)) in
    let (v, stopped, given) = stop_run loop_main n u tasks single.main positive run in
    (v, stopped, given ∙ rw nothing (append-nil (tasks_of n u.given)))

stop-Life :
    (size loop_main n : ℕ) (u : TcpServer)
    → IsValid size u
    → IsLedger u
    → IsSingle loop_main u
    → 0 < loop_main
    → 0 < length (tasks_of n u.given)
    → Life u n
    → (v : TcpServer) × (stop u ≡ some v) × Ended v n
unfolding Life Ended rest_of
stop-Life size loop_main n u valid ledger single positive was (inl never) =
    let gone = ap length never in absurd (omega (arith, was, gone))
stop-Life size loop_main n u valid ledger single positive was
      (inr (inl (conn, called, opened, there))) =
    let (tasks, run, last) =
      destroys_one loop_main n conn.fd conn u.tcp_conn_list single.owned there called
        (λ i c at named.
          let same : c ≡ conn =
            est-inj c conn
              (sym (ledger.listed i c at) ∙ ap (λ m. tasks_of m u.given) named ∙ opened) in
          sym (valid.placed i c at) ∙ ap (λ (x : Conn). x.fd) same) in
    let (v, stopped, given) = stop_run loop_main n u tasks single.main positive run in
    (v, stopped, (conn, called, given ∙ rw (opened, last) refl))
stop-Life size loop_main n u valid ledger single positive was (inr (inr (conn, called, closed))) =
    let (v, stopped, same) =
      unlisted loop_main n u ledger single positive
        (λ c e. cons-ne-nil (connection_destroy conn) [] (ap rest_of (sym closed ∙ e))) in
    (v, stopped, (conn, called, same ∙ closed))

item_at-replicate : (size i : ℕ) → item_at (replicate size none) i ≡ none
unfolding item_at
item_at-replicate zero i = refl
item_at-replicate (suc size) zero = refl
item_at-replicate (suc size) (suc i) = item_at-replicate size i

count_items-replicate : (size : ℕ) → count_items (replicate size none) ≡ 0
unfolding count_items
count_items-replicate zero = refl
count_items-replicate (suc size) = let rest = count_items-replicate size in omega (arith, rest)

-- A new server that is started without threads
started_server :
    (size loop_main : ℕ) (start_loop : ℕ → ℕ) (s : TcpServer)
    → start (new_server size loop_main) start_loop ≡ some s
    → s ≡ record (new_server size loop_main) {
      loop_thread_pool = record (new_pool loop_main) { is_running = true };
    }
unfolding start EventLoopThreadPool.start EventLoopThreadPool.start_threads
started_server size loop_main start_loop s h = ground (arith, h)

-- `Stop` of a server with its list and its ledger in order, after any sequence of calls
served-Ended :
    (size loop_main n : ℕ) (s u : TcpServer) (serves : Serves size s u)
    → n < opened_count size s u serves
    → s.next_connect_id ≡ 0
    → IsValid size s
    → IsLedger s
    → IsSingle loop_main s
    → 0 < loop_main
    → (v : TcpServer) × (stop u ≡ some v) × Ended v n
served-Ended size loop_main n s u serves below fresh valid ledger single positive =
    let (valid', ledger') = Serves-IsLedger size s u serves valid ledger in
    stop-Life size loop_main n u valid' ledger'
      (Serves-IsSingle size loop_main s u serves valid ledger single) positive
      (Serves-tasks_of size n s u serves valid ledger (omega (arith, fresh))
        (omega (arith, fresh, below)))
      (ledger'.lives n)

some-ne-none : (conn : Conn) → some conn ≢ none
some-ne-none conn e =
    let no : true ≡ false = ap (λ o. elim o [ none ↦ false | some c ↦ true ]) e in absurd (cc)

abbrev no_conn : Option Conn
no_conn = none

-- A server that is made with a list of any size up to 2^32 and started without threads of its own
-- takes any sequence of connections, at free descriptors below twice the size and those of an
-- int, as long as the numbers for their names do not run out, and of removals of connections that
-- are in its list. Stop then runs through, and after it the connection of each call of
-- OnNewConnection, under the number of the call, has been given to its loop exactly twice: first
-- ConnectionEstablished, then ConnectionDestroy, be it at its removal or by Stop.
pub stop-Ended :
    (size loop_main n : ℕ) (start_loop : ℕ → ℕ) (s u : TcpServer)
    → 0 < loop_main
    → size ≤ 2 ^ 32
    → start (new_server size loop_main) start_loop ≡ some s
    → (serves : Serves size s u) → n < opened_count size s u serves
    → (v : TcpServer) × (stop u ≡ some v) × Ended v n
unfolding Life tasks_of
stop-Ended size loop_main n start_loop s u positive small started serves below =
    let begun = started_server size loop_main start_loop s started in
    let first : TcpServer = record (new_server size loop_main) {
      loop_thread_pool = record (new_pool loop_main) { is_running = true };
    } in
    let empty : (i : ℕ) (conn : Conn) → item_at first.tcp_conn_list i ≢ some conn =
      λ i conn at. some-ne-none conn (sym at ∙ item_at-replicate size i) in
    let valid : IsValid size first = record {
      room = omega (arith, length-replicate size no_conn);
      limit = omega (arith, length-replicate size no_conn);
      placed = λ i conn at. absurd (empty i conn at);
      counted = sym (count_items-replicate size);
    } in
    let ledger : IsLedger first = record {
      listed = λ i conn at. absurd (empty i conn at);
      lives = λ m. inl refl;
      ahead = λ m below. refl;
    } in
    let single : IsSingle loop_main first = record {
      main = refl;
      alone = refl;
      owned = λ i conn at. absurd (empty i conn at);
    } in
    served-Ended size loop_main n s u serves below (ap (λ (t : TcpServer). t.next_connect_id) begun)
      (subst (λ t. IsValid size t) (sym begun) valid) (subst (λ t. IsLedger t) (sym begun) ledger)
      (subst (λ t. IsSingle loop_main t) (sym begun) single) positive
