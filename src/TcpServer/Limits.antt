-- ===== src/TcpServer/Limits.antt =====
-- A connection for which the list of connections has no room.
use base_linux.Base.{
  ℕ, zero, suc, ◌+◌, ◌*◌, ◌^◌, ◌%◌, ◌<◌, ◌≤◌, ◌≡◌, refl, ap, ◌∙◌, inl, inr, true, false, Option,
  none, some, List, [], ◌∷◌, ◌++◌, length, replicate, get_elem?, leb, ltb, arith, Bool-cases,
  Option-cases, length-append, length-replicate,
}
use base_linux.EventLoopThreadPool.{get_next_event_loop}
use base_linux.TcpServer.{Conn, TcpServer, grow, add_conn_list_item, on_new_connection}

get_elem?_out : (items : List (Option Conn)) (i : ℕ) → length items ≤ i → get_elem? items i ≡ none
get_elem?_out [] i h = refl
get_elem?_out (item ∷ items) zero h = (let no : ⊥ = omega (arith, h) in elim no [ ])
get_elem?_out (item ∷ items) (suc i) h = get_elem?_out items i (omega arith)

length-grow :
    (items : List (Option Conn)) (fd : ℕ)
    → 2 * length items ≤ fd
    → length (grow items fd) ≡ 2 * length items
length-grow items fd h =
    let null : Option Conn = none in
    let more : leb (length items) fd ≡ true = ground (arith, h) in
    let same : grow items fd ≡ items ++ replicate (length items) none = rw more refl in
    ap length same
    ∙ length-append items (replicate (length items) none)
    ∙ omega (arith, length-replicate (length items) null)

add_at :
    (s : TcpServer) (conn : Conn)
    → conn.fd ≡ 2 * length s.tcp_conn_list
    → add_conn_list_item s conn ≡ none
unfolding add_conn_list_item
add_at s conn h =
    let l = length-grow s.tcp_conn_list conn.fd (omega (arith, h)) in
    let out = get_elem?_out (grow s.tcp_conn_list conn.fd) conn.fd (omega (arith, l, h)) in
    ground (arith, l, h, out)

add_above :
    (s : TcpServer) (conn : Conn)
    → 2 * length s.tcp_conn_list < conn.fd
    → add_conn_list_item s conn
      ≡ some (false, record s { tcp_conn_list = grow s.tcp_conn_list conn.fd })
unfolding add_conn_list_item
add_above s conn h =
    let l = length-grow s.tcp_conn_list conn.fd (omega (arith, h)) in ground (arith, l, h)

-- A new connection whose descriptor is twice the size of the list or above is not turned away: an
-- assert fails or an index is out of bounds, and OnNewConnection does not return.
pub on_new_connection-add_conn_list_item :
    (s : TcpServer) (fd : ℕ) → 2 * length s.tcp_conn_list ≤ fd → on_new_connection s fd ≡ none
unfolding on_new_connection
on_new_connection-add_conn_list_item s fd h =
    elim (Option-cases (get_next_event_loop s.loop_thread_pool)) [
      | inl stuck ↦ ground (arith, stuck)
      | inr m ↦
          let conn : Conn = record { name = s.next_connect_id; fd = fd; owner_loop = m.0.0 } in
          let s1 : TcpServer = record s {
            next_connect_id = (s.next_connect_id + 1) % 2 ^ 64;
            loop_thread_pool = m.0.1;
          } in
          elim (Bool-cases (ltb 0 fd)) [
            | inr input ↦ ground (arith, m.1, input)
            | inl there ↦ elim (Bool-cases (ltb (2 * length s.tcp_conn_list) fd)) [
              | inl above ↦
                  let a = add_above s1 conn (ground (arith, above)) in ground (arith, m.1, there, a)
              | inr at ↦
                  let a = add_at s1 conn (ground (arith, at, h)) in ground (arith, m.1, there, a)
            ]
          ]
    ]
