-- ===== src/TcpServer/Ledger.antt =====
-- The list of a server of src/tcp_server.cc and the tasks it has given, through every sequence of
-- calls.
use base_linux.Base.{
  ℕ, ◌+◌, ◌^◌, ◌<◌, ◌≤◌, ◌≡◌, ◌≢◌, inl, inr, refl, sym, ap, subst, ◌∙◌, true, false, none, some,
  List, [], ◌∷◌, ◌++◌, Bool-cases, ◌==◌, ==_iff, if◌then◌else◌, arith, append-nil,
}
use base_linux.EventLoopThreadPool.{EventLoopThreadPool, get_next_event_loop}
use base_linux.TcpServer.{Conn, TcpServer, Task, connection_established, connection_destroy}
use base_linux.TcpServer.Table.{item_at}
use base_linux.TcpServer.Entries.{IsValid}
use base_linux.TcpServer.Lives.{
  task_name, tasks_of, tasks_of-append, Serves, idle, opened, closed, Life, IsLedger, some-inj,
  Opens, opened-Opens, Closes, closed-Closes,
}

-- One more task
tasks_of_last :
    (n : ℕ) (xs ys : List Task) (task : Task)
    → ys ≡ xs ++ task ∷ []
    → tasks_of n ys ≡ tasks_of n xs ++ (if task_name task == n then task ∷ [] else [])
unfolding tasks_of
tasks_of_last n xs ys task e = rw e (tasks_of-append n xs (task ∷ []))

-- The same tasks of a name as before, where the new one has another name
tasks_of_other :
    (n : ℕ) (xs ys : List Task) (task : Task)
    → ys ≡ xs ++ task ∷ []
    → (task_name task == n) ≡ false
    → tasks_of n ys ≡ tasks_of n xs
tasks_of_other n xs ys task e other =
    tasks_of_last n xs ys task e ∙ rw other (append-nil (tasks_of n xs))

tasks_of_own :
    (n : ℕ) (xs ys : List Task) (task : Task)
    → ys ≡ xs ++ task ∷ []
    → (task_name task == n) ≡ true
    → tasks_of n ys ≡ tasks_of n xs ++ task ∷ []
tasks_of_own n xs ys task e own = tasks_of_last n xs ys task e ∙ rw own refl

pub cons-ne-nil : (task : Task) (tasks : List Task) → task ∷ tasks ≢ []
cons-ne-nil task tasks e =
    let no : true ≡ false = ap (λ xs. elim xs [ [] ↦ false | x ∷ rest ↦ true ]) e in absurd (cc)

opened-IsLedger :
    (size : ℕ) (t u : TcpServer) (fd : ℕ)
    → IsLedger t
    → t.next_connect_id + 1 < 2 ^ 64
    → item_at t.tcp_conn_list fd ≡ none
    → Opens size t fd u
    → IsLedger u
unfolding Opens Life
opened-IsLedger size t u fd ledger room free (conn, name, at, valid, items, next, given, pool) =
    let own : (n : ℕ)
        → (conn.name == n) ≡ true
        → tasks_of n u.given ≡ connection_established conn ∷ [] =
      λ n e.
        tasks_of_own n t.given u.given (connection_established conn) given e
        ∙ ap (λ xs. xs ++ connection_established conn ∷ [])
            (ledger.ahead n (ground (arith, e, name))) in
    record {
      listed = λ i c there. elim (Bool-cases (i == fd)) [
        | inl here ↦
            let item : item_at u.tcp_conn_list i ≡ some conn = items i ∙ rw here refl in
            let same : conn ≡ c = some-inj (sym item ∙ there) in
            subst (λ x. tasks_of x.name u.given ≡ connection_established x ∷ []) same
              (own conn.name (ground (arith)))
        | inr away ↦
            let there' : item_at t.tcp_conn_list i ≡ some c =
              ground (arith, away, items i, there) in
            elim (Bool-cases (conn.name == c.name)) [
              | inl e ↦ absurd (
                  cons-ne-nil (connection_established c) [] (
                    sym (ledger.listed i c there') ∙ ledger.ahead c.name (ground (arith, e, name))))
              | inr e ↦
                  tasks_of_other c.name t.given u.given (connection_established conn) given e
                  ∙ ledger.listed i c there'
            ]
      ];
      lives = λ n. elim (Bool-cases (conn.name == n)) [
        | inl e ↦
            inr (inl (conn, (==_iff conn.name n).0 e, own n e, items conn.fd ∙ ground (arith, at)))
        | inr e ↦
            let kept = tasks_of_other n t.given u.given (connection_established conn) given e in
            elim (ledger.lives n) [
              | inl never ↦ inl (kept ∙ never)
              | inr (inl (c, called, tasks, there)) ↦
                  inr (inl (c, called, kept ∙ tasks, items c.fd ∙ grind (arith, free, there)))
              | inr (inr (c, called, tasks)) ↦ inr (inr (c, called, kept ∙ tasks))
            ]
      ];
      ahead = λ n below.
          tasks_of_other n t.given u.given (connection_established conn) given
            (ground (arith, name, next, room))
          ∙ ledger.ahead n (omega (arith, next, room, below));
    }

pub est-inj : (c d : Conn) → connection_established c ∷ [] ≡ connection_established d ∷ [] → c ≡ d
est-inj c d e =
    ap
      (λ (tasks : List Task). elim tasks [
        | [] ↦ c
        | task ∷ rest ↦ elim task [ connection_established x ↦ x | connection_destroy x ↦ x ]
      ])
      e

closed-IsLedger :
    (size : ℕ) (t u : TcpServer) (conn : Conn)
    → IsValid size t
    → IsLedger t
    → item_at t.tcp_conn_list conn.fd ≡ some conn
    → Closes size t conn u
    → IsLedger u
unfolding Closes Life
closed-IsLedger size t u conn v ledger there (valid, items, next, given, pool) =
    let before : tasks_of conn.name t.given ≡ connection_established conn ∷ [] =
      ledger.listed conn.fd conn there in
    let young : (n : ℕ) → u.next_connect_id ≤ n → (conn.name == n) ≡ false = λ n below.
      elim (Bool-cases (conn.name == n)) [
        | inr e ↦ e
        | inl e ↦ absurd (
            cons-ne-nil (connection_established conn) []
              (sym before ∙ ledger.ahead conn.name (ground (arith, next, below, e))))
      ] in
    let not_at : (c : Conn) (n : ℕ)
        → c.name ≡ n
        → (conn.name == n) ≡ false
        → item_at t.tcp_conn_list c.fd ≡ some c
        → (if c.fd == conn.fd then none else item_at t.tcp_conn_list c.fd) ≡ some c =
      λ c n called other at. elim (Bool-cases (c.fd == conn.fd)) [
        | inr e ↦ rw e at
        | inl e ↦
            let one : c ≡ conn =
              some-inj
                (sym at ∙ ap (item_at t.tcp_conn_list) ((==_iff c.fd conn.fd).0 e) ∙ there) in
            absurd (ground (arith, other, called, ap (λ (x : Conn). x.name) one))
      ] in
    record {
      listed = λ i c at. elim (Bool-cases (i == conn.fd)) [
        | inl here ↦ ground (arith, here, items i, at)
        | inr away ↦
            let at' : item_at t.tcp_conn_list i ≡ some c = ground (arith, away, items i, at) in
            elim (Bool-cases (conn.name == c.name)) [
              | inl e ↦
                  let names : conn.name ≡ c.name = (==_iff conn.name c.name).0 e in
                  let same : conn ≡ c =
                    est-inj conn c
                      (sym before ∙ ap (λ n. tasks_of n t.given) names ∙ ledger.listed i c at') in
                  ground (arith, away, ap (λ (x : Conn). x.fd) same, v.placed i c at')
              | inr e ↦
                  tasks_of_other c.name t.given u.given (connection_destroy conn) given e
                  ∙ ledger.listed i c at'
            ]
      ];
      lives = λ n. elim (Bool-cases (conn.name == n)) [
        | inl e ↦ inr (
            inr (
              conn,
              (==_iff conn.name n).0 e,
              tasks_of_own n t.given u.given (connection_destroy conn) given e
                  ∙ ap (λ xs. xs ++ connection_destroy conn ∷ [])
                      (ap (λ m. tasks_of m t.given) (sym ((==_iff conn.name n).0 e)) ∙ before),
            ))
        | inr e ↦
            let kept = tasks_of_other n t.given u.given (connection_destroy conn) given e in
            elim (ledger.lives n) [
              | inl never ↦ inl (kept ∙ never)
              | inr (inl (c, called, tasks, at)) ↦
                  inr (inl (c, called, kept ∙ tasks, items c.fd ∙ not_at c n called e at))
              | inr (inr (c, called, tasks)) ↦ inr (inr (c, called, kept ∙ tasks))
            ]
      ];
      ahead = λ n below.
          tasks_of_other n t.given u.given (connection_destroy conn) given (young n below)
          ∙ ledger.ahead n (omega (arith, next, below));
    }

-- All connections are on the main loop, of a pool that has no other.
pub record IsSingle (loop_main : ℕ) (s : TcpServer) : Type 0 where
  pub main : s.loop_thread_pool.loop_main ≡ loop_main
  pub alone : s.loop_thread_pool.loops ≡ []
  pub owned :
      (i : ℕ) (conn : Conn) → item_at s.tcp_conn_list i ≡ some conn → conn.owner_loop ≡ loop_main

get_next_event_loop-alone :
    (pool next : EventLoopThreadPool) (loop : ℕ)
    → pool.loops ≡ []
    → get_next_event_loop pool ≡ some (loop, next)
    → (loop ≡ pool.loop_main) × (next ≡ pool)
unfolding get_next_event_loop
get_next_event_loop-alone pool next loop alone h =
    (ground (arith, alone, h), ground (arith, alone, h))

opened-IsSingle :
    (size loop_main : ℕ) (t u : TcpServer) (fd : ℕ)
    → IsSingle loop_main t
    → Opens size t fd u
    → IsSingle loop_main u
unfolding Opens
opened-IsSingle size loop_main t u fd single (conn, name, at, valid, items, next, given, pool) =
    let (here, kept) =
      get_next_event_loop-alone t.loop_thread_pool u.loop_thread_pool conn.owner_loop single.alone
        pool in
    record {
      main = ap (λ (p : EventLoopThreadPool). p.loop_main) kept ∙ single.main;
      alone = ap (λ (p : EventLoopThreadPool). p.loops) kept ∙ single.alone;
      owned = λ i c there. elim (Bool-cases (i == fd)) [
        | inl e ↦
            let item : item_at u.tcp_conn_list i ≡ some conn = items i ∙ rw e refl in
            ap (λ (x : Conn). x.owner_loop) (some-inj (sym there ∙ item)) ∙ here ∙ single.main
        | inr e ↦ single.owned i c (ground (arith, e, items i, there))
      ];
    }

closed-IsSingle :
    (size loop_main : ℕ) (t u : TcpServer) (conn : Conn)
    → IsSingle loop_main t
    → Closes size t conn u
    → IsSingle loop_main u
unfolding Closes
closed-IsSingle size loop_main t u conn single (valid, items, next, given, pool) = record {
  main = ap (λ (p : EventLoopThreadPool). p.loop_main) pool ∙ single.main;
  alone = ap (λ (p : EventLoopThreadPool). p.loops) pool ∙ single.alone;
  owned = λ i c there. single.owned i c (ground (arith, items i, there));
}

-- Every state that a server comes to keeps its invariant and its ledger.
pub Serves-IsLedger :
    (size : ℕ) (s u : TcpServer)
    → Serves size s u
    → IsValid size s
    → IsLedger s
    → IsValid size u × IsLedger u
unfolding Opens Closes
Serves-IsLedger size s u (idle _) v ledger = (v, ledger)
Serves-IsLedger size _ _ (opened s t u fd before fits int room free h) v ledger =
    let (v', ledger') = Serves-IsLedger size s t before v ledger in
    let opens = opened-Opens size t u fd v' fits int free h in
    (opens.3, opened-IsLedger size t u fd ledger' room free opens)
Serves-IsLedger size _ _ (closed s t u conn before there h) v ledger =
    let (v', ledger') = Serves-IsLedger size s t before v ledger in
    let closes = closed-Closes size t u conn v' there h in
    (closes.0, closed-IsLedger size t u conn v' ledger' there closes)

pub Serves-IsSingle :
    (size loop_main : ℕ) (s u : TcpServer)
    → Serves size s u
    → IsValid size s
    → IsLedger s
    → IsSingle loop_main s
    → IsSingle loop_main u
Serves-IsSingle size loop_main s u (idle _) v ledger single = single
Serves-IsSingle size loop_main _ _ (opened s t u fd before fits int room free h) v ledger single =
    let (v', ledger') = Serves-IsLedger size s t before v ledger in
    opened-IsSingle size loop_main t u fd
      (Serves-IsSingle size loop_main s t before v ledger single)
      (opened-Opens size t u fd v' fits int free h)
Serves-IsSingle size loop_main _ _ (closed s t u conn before there h) v ledger single =
    let (v', ledger') = Serves-IsLedger size s t before v ledger in
    closed-IsSingle size loop_main t u conn
      (Serves-IsSingle size loop_main s t before v ledger single)
      (closed-Closes size t u conn v' there h)
