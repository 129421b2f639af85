-- ===== src/TcpServer/Lives.antt =====
-- The life of each connection of a server, from `OnNewConnection` to `OnConnectionRemoveInLoop`
-- or `Stop`.
use base_linux.Base.{
  ℕ, ◌+◌, ◌*◌, ◌%◌, ◌^◌, ◌<◌, ◌≤◌, ◌≡◌, ◌⊎◌, inl, inr, refl, sym, ap, subst, ◌∙◌, true, none, some,
  List, [], ◌∷◌, ◌++◌, Bool-cases, Option-cases, ltb, ◌==◌, if◌then◌else◌, arith,
}
use base_linux.EventLoopThreadPool.{get_next_event_loop}
use base_linux.TcpServer.{
  Conn, TcpServer, Task, connection_established, connection_destroy, on_new_connection,
  on_connection_remove_in_loop, step,
}
use base_linux.TcpServer.Table.{item_at}
use base_linux.TcpServer.Entries.{IsValid, del_conn_list_item_lem}
use base_linux.TcpServer.Serving.{Registry, registry_step, Keeps, opens-Served}

-- the name of the connection of a task
abbrev pub task_name : Task → ℕ
task_name (connection_established conn) = conn.name
task_name (connection_destroy conn) = conn.name

-- The tasks of the connection with a name
unfoldable pub tasks_of : ℕ → List Task → List Task
tasks_of n [] = []
tasks_of n (task ∷ tasks) =
    let rest = tasks_of n tasks in if task_name task == n then task ∷ rest else rest

pub tasks_of-append :
    (n : ℕ) (xs ys : List Task) → tasks_of n (xs ++ ys) ≡ tasks_of n xs ++ tasks_of n ys
unfolding tasks_of
tasks_of-append n [] ys = refl
tasks_of-append n (x ∷ xs) ys =
    let rest = tasks_of-append n xs ys in
    elim (Bool-cases (task_name x == n)) [ inl e ↦ rw (e, rest) refl | inr e ↦ rw (e, rest) refl ]

-- What a server does from one state to another: connections come, at descriptors that are free,
-- and are removed, each by the callback of a connection that is in the list.
pub data Serves (size : ℕ) : TcpServer → TcpServer → Type 0 where
  idle : (s : TcpServer) → Serves size s s
  opened :
      (s t u : TcpServer) (fd : ℕ)
      → Serves size s t
      → fd < 2 * size
      → fd < 2 ^ 31
      → t.next_connect_id + 1 < 2 ^ 64
      → item_at t.tcp_conn_list fd ≡ none
      → on_new_connection t fd ≡ some u
      → Serves size s u
  closed :
      (s t u : TcpServer) (conn : Conn)
      → Serves size s t
      → item_at t.tcp_conn_list conn.fd ≡ some conn
      → on_connection_remove_in_loop t conn ≡ some u
      → Serves size s u

-- A connection that never was, one in the list, or one that was removed, by the tasks for its name
unfoldable pub Life : TcpServer → ℕ → Type 0
Life s n =
    (tasks_of n s.given ≡ [])
    ⊎ ((conn : Conn) × (conn.name ≡ n)
        × (tasks_of n s.given ≡ connection_established conn ∷ [])
        × (item_at s.tcp_conn_list conn.fd ≡ some conn))
    ⊎ ((conn : Conn) × (conn.name ≡ n)
        × (tasks_of n s.given ≡ connection_established conn ∷ connection_destroy conn ∷ []))

-- The list and the tasks go together.
pub record IsLedger (s : TcpServer) : Type 0 where
  pub listed :
      (i : ℕ) (conn : Conn)
      → item_at s.tcp_conn_list i ≡ some conn
      → tasks_of conn.name s.given ≡ connection_established conn ∷ []
  pub lives : (n : ℕ) → Life s n
  pub ahead : (n : ℕ) → s.next_connect_id ≤ n → tasks_of n s.given ≡ []

pub some-inj {ℓ} : {A : Type ℓ} {a b : A} → some a ≡ some b → a ≡ b
some-inj {a = a} e = ap (λ o. elim o [ none ↦ a | some x ↦ x ]) e

-- What an opened connection changes
unfoldable pub Opens : ℕ → TcpServer → ℕ → TcpServer → Type 0
Opens size t fd u =
    (conn : Conn) × (conn.name ≡ t.next_connect_id)
    × (conn.fd ≡ fd)
    × IsValid size u
    × ((i : ℕ)
        → item_at u.tcp_conn_list i ≡ (if i == fd then some conn else item_at t.tcp_conn_list i))
    × (u.next_connect_id ≡ (t.next_connect_id + 1) % 2 ^ 64)
    × (u.given ≡ t.given ++ connection_established conn ∷ [])
    × (get_next_event_loop t.loop_thread_pool ≡ some (conn.owner_loop, u.loop_thread_pool))

pub opened-Opens :
    (size : ℕ) (t u : TcpServer) (fd : ℕ)
    → IsValid size t
    → fd < 2 * size
    → fd < 2 ^ 31
    → item_at t.tcp_conn_list fd ≡ none
    → on_new_connection t fd ≡ some u
    → Opens size t fd u
unfolding step on_new_connection Opens registry_step
opened-Opens size t u fd v fits int free h =
    elim (Option-cases (get_next_event_loop t.loop_thread_pool)) [
      | inl stuck ↦ ground (arith, stuck, h)
      | inr m ↦
          let there : ltb 0 fd ≡ true = elim (Bool-cases (ltb 0 fd)) [
            | inl above ↦ above
            | inr input ↦ ground (arith, m.1, input, h)
          ] in
          let r : Registry = record {
            conns = item_at t.tcp_conn_list;
            next_connect_id = t.next_connect_id;
            loop_thread_pool = t.loop_thread_pool;
            given = t.given;
          } in
          let conn : Conn = record { name = t.next_connect_id; fd = fd; owner_loop = m.0.0 } in
          let r' : Registry = record {
            conns = λ j. if j == fd then some conn else item_at t.tcp_conn_list j;
            next_connect_id = (t.next_connect_id + 1) % 2 ^ 64;
            loop_thread_pool = m.0.1;
            given = t.given ++ connection_established conn ∷ [];
          } in
          let same : Keeps t r = record {
            conns = λ i. refl;
            next_connect_id = refl;
            loop_thread_pool = refl;
            given = refl;
          } in
          let (s', run, valid, keeps) =
            opens-Served size t r r' fd v same fits int (rw (m.1, free, there) refl) in
          subst (Opens size t fd) (some-inj (sym run ∙ h)) (
            conn,
            refl,
            refl,
            valid,
            keeps.conns,
            keeps.next_connect_id,
            keeps.given,
            m.1 ∙ ap (λ pool. some (m.0.0, pool)) (sym keeps.loop_thread_pool),
          )
    ]

unfoldable pub Closes : ℕ → TcpServer → Conn → TcpServer → Type 0
Closes size t conn u =
    IsValid size u
    × ((i : ℕ)
        → item_at u.tcp_conn_list i ≡ (if i == conn.fd then none else item_at t.tcp_conn_list i))
    × (u.next_connect_id ≡ t.next_connect_id)
    × (u.given ≡ t.given ++ connection_destroy conn ∷ [])
    × (u.loop_thread_pool ≡ t.loop_thread_pool)

pub closed-Closes :
    (size : ℕ) (t u : TcpServer) (conn : Conn)
    → IsValid size t
    → item_at t.tcp_conn_list conn.fd ≡ some conn
    → on_connection_remove_in_loop t conn ≡ some u
    → Closes size t conn u
unfolding on_connection_remove_in_loop Closes
closed-Closes size t u conn v there h =
    let (s', run, valid, items, next, pool, given) =
      del_conn_list_item_lem size t conn conn v there in
    let h' : some (record s' { given = s'.given ++ connection_destroy conn ∷ [] }) ≡ some u =
      rw run at h in
    subst (Closes size t conn) (some-inj h') (
      record {
        room = valid.room;
        limit = valid.limit;
        placed = valid.placed;
        counted = valid.counted;
      },
      items,
      next,
      ap (λ xs. xs ++ connection_destroy conn ∷ []) given,
      pool,
    )
