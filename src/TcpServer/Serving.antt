-- ===== src/TcpServer/Serving.antt =====
-- A server promises a map from descriptors to connections.
use base_linux.Base.{
  ℕ, ◌+◌, ◌*◌, ◌^◌, ◌%◌, ◌<◌, ◌≡◌, refl, ap, subst, ◌∙◌, inl, inr, true, false, Option, none, some,
  List, [], ◌∷◌, ◌++◌, ◌==◌, if◌then◌else◌, arith, Bool-cases, Option-cases, ltb, ◌>>=◌, ◌>>◌,
  assert,
}
use base_linux.EventLoopThreadPool.{EventLoopThreadPool, get_next_event_loop}
use base_linux.TcpServer.{
  Conn, TcpServer, Task, connection_established, connection_destroy, on_new_connection,
  on_connection_remove_in_loop, dump_connections, Event, opens, closes, step, run,
}
use base_linux.TcpServer.Table.{item_at, count_from_lem}
use base_linux.TcpServer.Entries.{IsValid, add_conn_list_item_lem, del_conn_list_item_lem}

-- The connections by their descriptors, what names and loops come next, and what the loops were
-- given.
pub record Registry : Type 0 where
  pub conns : ℕ → Option Conn
  pub next_connect_id : ℕ
  pub loop_thread_pool : EventLoopThreadPool
  pub given : List Task

-- To open: the next name and loop, at a descriptor that is free and above 0. To close: the connection of a
-- descriptor.
unfoldable pub registry_step : Registry → Event → Option Registry
registry_step r (opens fd) = do
  (loop, pool) ← get_next_event_loop r.loop_thread_pool
  assert (ltb 0 fd)
  assert (elim (r.conns fd) [ none ↦ true | some other ↦ false ])
  let conn : Conn = record { name = r.next_connect_id; fd = fd; owner_loop = loop }
  some (record {
    conns = λ j. if j == fd then some conn else r.conns j;
    next_connect_id = (r.next_connect_id + 1) % 2 ^ 64;
    loop_thread_pool = pool;
    given = r.given ++ connection_established conn ∷ [];
  })
registry_step r (closes conn) = do
  assert (elim (r.conns conn.fd) [ none ↦ false | some other ↦ true ])
  some (record r {
    conns = λ j. if j == conn.fd then none else r.conns j;
    given = r.given ++ connection_destroy conn ∷ [];
  })

unfoldable pub registry_run : Registry → List Event → Option Registry
registry_run r [] = some r
registry_run r (e ∷ es) = do r' ← registry_step r e; registry_run r' es

-- What the server has is what the registry has.
pub record Keeps (s : TcpServer) (r : Registry) : Type 0 where
  pub conns : (i : ℕ) → item_at s.tcp_conn_list i ≡ r.conns i
  pub next_connect_id : s.next_connect_id ≡ r.next_connect_id
  pub loop_thread_pool : s.loop_thread_pool ≡ r.loop_thread_pool
  pub given : s.given ≡ r.given

module _ (size : ℕ) where
  -- The descriptors of new connections are below twice that, and those of an `int`.
  unfoldable pub AllFit : List Event → Type 0
  AllFit [] = Unit {0}
  AllFit (opens fd ∷ es) = (fd < 2 * size) × (fd < 2 ^ 31) × AllFit es
  AllFit (closes conn ∷ es) = AllFit es

  abbrev pub Served : Option TcpServer → Registry → Type 0
  Served o r = (s : TcpServer) × (o ≡ some s) × IsValid size s × Keeps s r

  dump_connections-Valid : (s : TcpServer) → IsValid size s → dump_connections s ≡ some tt
  unfolding dump_connections
  dump_connections-Valid s v =
      let c = count_from_lem s.tcp_conn_list 0 (λ i conn h. v.placed i conn h ∙ omega arith) in
      ground (arith, c, v.counted)

  pub opens-Served :
      (s : TcpServer) (r r' : Registry) (fd : ℕ)
      → IsValid size s
      → Keeps s r
      → fd < 2 * size
      → fd < 2 ^ 31
      → registry_step r (opens fd) ≡ some r'
      → Served (step s (opens fd)) r'
  unfolding registry_step step on_new_connection
  opens-Served s r r' fd v k fits int h =
      elim (Option-cases (get_next_event_loop s.loop_thread_pool)) [
        | inl stuck ↦ ground (arith, stuck, k.loop_thread_pool, h)
        | inr m ↦ elim (Option-cases (r.conns fd)) [
          | inr taken ↦ ground (arith, m.1, k.loop_thread_pool, taken.1, h)
          | inl free ↦
              let there : ltb 0 fd ≡ true = elim (Bool-cases (ltb 0 fd)) [
                | inl above ↦ above
                | inr input ↦ ground (arith, m.1, k.loop_thread_pool, input, h)
              ] in
              let conn : Conn = record { name = r.next_connect_id; fd = fd; owner_loop = m.0.0 } in
              let s1 : TcpServer = record s {
                next_connect_id = (s.next_connect_id + 1) % 2 ^ 64;
                loop_thread_pool = m.0.1;
              } in
              let a =
                add_conn_list_item_lem size s1 conn
                  (record {
                    room = v.room;
                    limit = v.limit;
                    placed = v.placed;
                    counted = v.counted;
                  })
                  fits int (k.conns fd ∙ free) in
              let e : record {
                conns = λ j. if j == fd then some conn else r.conns j;
                next_connect_id = (r.next_connect_id + 1) % 2 ^ 64;
                loop_thread_pool = m.0.1;
                given = r.given ++ connection_established conn ∷ [];
              }
                  ≡ r' =
                ground (arith, m.1, k.loop_thread_pool, free, there, h) in
              (
                record a.0 { given = a.0.given ++ connection_established conn ∷ [] },
                ground (arith, m.1, a.1, k.next_connect_id, there),
                record {
                  room = a.2.room;
                  limit = a.2.limit;
                  placed = a.2.placed;
                  counted = a.2.counted;
                },
                record {
                  conns = λ i.
                      a.3 i
                      ∙ ap (λ item. if i == fd then some conn else item) (k.conns i)
                      ∙ ap (λ (x : Registry). x.conns i) e;
                  next_connect_id =
                      a.4
                      ∙ ap (λ n. (n + 1) % 2 ^ 64) k.next_connect_id
                      ∙ ap (λ (x : Registry). x.next_connect_id) e;
                  loop_thread_pool = a.5 ∙ ap (λ (x : Registry). x.loop_thread_pool) e;
                  given =
                      ap (λ xs. xs ++ connection_established conn ∷ []) (a.6 ∙ k.given)
                      ∙ ap (λ (x : Registry). x.given) e;
                },
              )
        ]
      ]

  closes-Served :
      (s : TcpServer) (r r' : Registry) (conn : Conn)
      → IsValid size s
      → Keeps s r
      → registry_step r (closes conn) ≡ some r'
      → Served (step s (closes conn)) r'
  unfolding registry_step step on_connection_remove_in_loop
  closes-Served s r r' conn v k h = elim (Option-cases (r.conns conn.fd)) [
    | inl free ↦ ground (arith, free, h)
    | inr there ↦
        let a = del_conn_list_item_lem size s conn there.0 v (k.conns conn.fd ∙ there.1) in
        let e : record r {
          conns = λ j. if j == conn.fd then none else r.conns j;
          given = r.given ++ connection_destroy conn ∷ [];
        }
            ≡ r' =
          ground (arith, there.1, h) in
        (
          record a.0 { given = a.0.given ++ connection_destroy conn ∷ [] },
          ground (arith, a.1),
          record { room = a.2.room; limit = a.2.limit; placed = a.2.placed; counted = a.2.counted },
          record {
            conns = λ i.
                a.3 i
                ∙ ap (λ item. if i == conn.fd then none else item) (k.conns i)
                ∙ ap (λ (x : Registry). x.conns i) e;
            next_connect_id = a.4 ∙ k.next_connect_id ∙ ap (λ (x : Registry). x.next_connect_id) e;
            loop_thread_pool =
                a.5 ∙ k.loop_thread_pool ∙ ap (λ (x : Registry). x.loop_thread_pool) e;
            given =
                ap (λ xs. xs ++ connection_destroy conn ∷ []) (a.6 ∙ k.given)
                ∙ ap (λ (x : Registry). x.given) e;
          },
        )
  ]

  -- As long as descriptors are below twice the size and those of an int, a server that keeps
  -- the invariant does with any sequence of connections and removals what the map from
  -- descriptors to connections does: where the map goes through (a new descriptor is free and
  -- above 0, a connection that is removed is there, the pool gives its loops), no assert fails
  -- and no index is out of bounds, the server then has the connections of the map, has given
  -- the loops the same tasks in the same order, and DumpConnections finds nothing wrong.
  pub run-Served :
      (es : List Event) (s : TcpServer) (r r' : Registry)
      → IsValid size s
      → Keeps s r
      → AllFit es
      → registry_run r es ≡ some r'
      → (s' : TcpServer) × (run s es ≡ some s')
        × IsValid size s'
        × Keeps s' r'
        × (dump_connections s' ≡ some tt)
  unfolding run registry_run AllFit
  run-Served [] s r r' v k fits h =
      let e : r ≡ r' = ground (arith, h) in
      (s, refl, v, subst (Keeps s) e k, dump_connections-Valid s v)
  run-Served (opens fd ∷ es) s r r' v k fits h = elim (Option-cases (registry_step r (opens fd))) [
    | inl stuck ↦ ground (arith, stuck, h)
    | inr next ↦
        let m = opens-Served s r next.0 fd v k fits.0 fits.1 next.1 in
        let n = run-Served es m.0 next.0 r' m.2 m.3 fits.2 (ground (arith, next.1, h)) in
        (n.0, ground (arith, m.1, n.1), n.2, n.3, n.4)
  ]
  run-Served (closes conn ∷ es) s r r' v k fits h =
      elim (Option-cases (registry_step r (closes conn))) [
        | inl stuck ↦ ground (arith, stuck, h)
        | inr next ↦
            let m = closes-Served s r next.0 conn v k next.1 in
            let n = run-Served es m.0 next.0 r' m.2 m.3 fits (ground (arith, next.1, h)) in
            (n.0, ground (arith, m.1, n.1), n.2, n.3, n.4)
      ]
