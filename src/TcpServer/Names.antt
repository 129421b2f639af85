-- ===== src/TcpServer/Names.antt =====
-- The connections that `OnNewConnection` of src/tcp_server.cc has made, by their names.
use base_linux.Base.{
  ℕ, suc, ◌+◌, ◌<◌, ◌≤◌, ◌≡◌, refl, ap, ◌∙◌, inl, inr, List, [], ◌∷◌, ◌++◌, length, length-append,
  ◌==◌, Bool-cases, arith,
}
use base_linux.TcpServer.{TcpServer, Task, connection_established, connection_destroy}
use base_linux.TcpServer.Entries.{IsValid}
use base_linux.TcpServer.Lives.{
  tasks_of, tasks_of-append, Serves, idle, opened, closed, IsLedger, Opens, Closes, opened-Opens,
  closed-Closes,
}
use base_linux.TcpServer.Ledger.{Serves-IsLedger}

-- How often `OnNewConnection` was called
unfoldable pub opened_count : (size : ℕ) (s u : TcpServer) → Serves size s u → ℕ
opened_count size _ _ (idle s) = 0
opened_count size _ _ (opened s t u fd before fits int room free h) =
    suc (opened_count size s t before)
opened_count size _ _ (closed s t u conn before there h) = opened_count size s t before

-- Each call takes the next number for a name.
Serves-next :
    (size : ℕ) (s u : TcpServer) (serves : Serves size s u)
    → IsValid size s
    → IsLedger s
    → u.next_connect_id ≡ s.next_connect_id + opened_count size s u serves
unfolding opened_count Opens Closes
Serves-next size _ _ (idle s) v ledger = omega arith
Serves-next size _ _ (opened s t u fd before fits int room free h) v ledger =
    let (v', ledger') = Serves-IsLedger size s t before v ledger in
    let (conn, name, at, valid, items, next, given, pool) =
      opened-Opens size t u fd v' fits int free h in
    let old = Serves-next size s t before v ledger in omega (arith, next, old, room)
Serves-next size _ _ (closed s t u conn before there h) v ledger =
    let (v', ledger') = Serves-IsLedger size s t before v ledger in
    let (valid, items, next, given, pool) = closed-Closes size t u conn v' there h in
    next ∙ Serves-next size s t before v ledger

-- Whatever comes later, a name keeps its tasks.
more_tasks :
    (n : ℕ) (t u : TcpServer) (more : List Task)
    → u.given ≡ t.given ++ more
    → length (tasks_of n u.given) ≡ length (tasks_of n t.given) + length (tasks_of n more)
more_tasks n t u more given =
    ap (λ tasks. length (tasks_of n tasks)) given
    ∙ ap length (tasks_of-append n t.given more)
    ∙ length-append (tasks_of n t.given) (tasks_of n more)

-- Each of the calls has given a task to a loop, under the name of the connection that it made.
pub Serves-tasks_of :
    (size n : ℕ) (s u : TcpServer) (serves : Serves size s u)
    → IsValid size s
    → IsLedger s
    → s.next_connect_id ≤ n
    → n < s.next_connect_id + opened_count size s u serves
    → 0 < length (tasks_of n u.given)
unfolding opened_count Opens Closes tasks_of
Serves-tasks_of size n _ _ (idle s) v ledger from below = absurd (omega (arith, from, below))
Serves-tasks_of size n _ _ (opened s t u fd before fits int room free h) v ledger from below =
    let (v', ledger') = Serves-IsLedger size s t before v ledger in
    let (conn, name, at, valid, items, next, given, pool) =
      opened-Opens size t u fd v' fits int free h in
    let more = more_tasks n t u (connection_established conn ∷ []) given in
    elim (Bool-cases (conn.name == n)) [
      | inl new ↦
          let one : length (tasks_of n (connection_established conn ∷ [])) ≡ 1 = rw new refl in
          omega (arith, more, one)
      | inr old ↦
          let number = Serves-next size s t before v ledger in
          let earlier =
            Serves-tasks_of size n s t before v ledger from
              (ground (arith, old, name, number, below)) in
          omega (arith, more, earlier)
    ]
Serves-tasks_of size n _ _ (closed s t u conn before there h) v ledger from below =
    let (v', ledger') = Serves-IsLedger size s t before v ledger in
    let (valid, items, next, given, pool) = closed-Closes size t u conn v' there h in
    let more = more_tasks n t u (connection_destroy conn ∷ []) given in
    let earlier = Serves-tasks_of size n s t before v ledger from below in
    omega (arith, more, earlier)
