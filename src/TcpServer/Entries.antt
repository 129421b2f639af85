-- ===== src/TcpServer/Entries.antt =====
-- When the list of connections is right, and what each change does to it.
use base_linux.Base.{
  ℕ, ◌+◌, ◌*◌, ◌^◌, ◌%◌, ◌<◌, ◌≤◌, ◌≡◌, refl, sym, ap, ◌∙◌, inl, inr, true, Option, none, some,
  length, get_elem?, set, sub_size, ◌==◌, if◌then◌else◌, arith, Bool-cases, length-set,
}
use base_linux.TcpServer.{Conn, TcpServer, grow, add_conn_list_item, del_conn_list_item}
use base_linux.TcpServer.Table.{
  item_at, one, count_items, get_elem?_item, item_at-short, item_at-set, count_items-set,
  count_items_short, grow_lem,
}

module _ (size : ℕ) where
  -- The list has room for so many descriptors at least, each item stands at its descriptor, and
  -- the items are counted.
  pub record IsValid (s : TcpServer) : Type 0 where
    pub room : size ≤ length s.tcp_conn_list
    pub limit : length s.tcp_conn_list ≤ 2 ^ 32
    pub placed : (i : ℕ) (conn : Conn) → item_at s.tcp_conn_list i ≡ some conn → conn.fd ≡ i
    pub counted : s.tcp_conn_count ≡ count_items s.tcp_conn_list

  -- A change at one descriptor.
  set-IsValid :
      (s s' : TcpServer) (fd : ℕ) (new : Option Conn)
      → IsValid s
      → fd < length s.tcp_conn_list
      → s'.tcp_conn_list ≡ set s.tcp_conn_list fd new
      → ((conn : Conn) → new ≡ some conn → conn.fd ≡ fd)
      → s'.tcp_conn_count + one (item_at s.tcp_conn_list fd) ≡ s.tcp_conn_count + one new
      → IsValid s'
  set-IsValid s s' fd new v short e fits counted = record {
    room = omega (arith, ap length e, length-set s.tcp_conn_list fd new, v.room);
    limit = omega (arith, ap length e, length-set s.tcp_conn_list fd new, v.limit);
    placed = λ i conn h.
        let at : (if i == fd then new else item_at s.tcp_conn_list i) ≡ some conn =
          sym (item_at-set s.tcp_conn_list fd i new short)
          ∙ ap (λ items. item_at items i) (sym e)
          ∙ h in
        elim (Bool-cases (i == fd)) [
          | inl same ↦
              let is_new : new ≡ some conn = ground (arith, at, same) in
              ground (arith, fits conn is_new, same)
          | inr other ↦ v.placed i conn (ground (arith, at, other))
        ];
    counted =
        omega (
          arith,
          counted,
          v.counted,
          ap count_items e,
          count_items-set s.tcp_conn_list fd new short,
        );
  }

  grow-IsValid :
      (s : TcpServer) (fd : ℕ)
      → IsValid s
      → fd < 2 ^ 31
      → IsValid (record s { tcp_conn_list = grow s.tcp_conn_list fd })
  grow-IsValid s fd v int =
      let g = grow_lem s.tcp_conn_list fd in
      record {
        room = omega (arith, g.2, v.room);
        limit = g.4 int v.limit;
        placed = λ i conn h. v.placed i conn (sym (g.0 i) ∙ h);
        counted = v.counted ∙ sym g.1;
      }

  -- A connection at a free descriptor.
  pub add_conn_list_item_lem :
      (s : TcpServer) (conn : Conn)
      → IsValid s
      → conn.fd < 2 * size
      → conn.fd < 2 ^ 31
      → item_at s.tcp_conn_list conn.fd ≡ none
      → (s' : TcpServer) × (add_conn_list_item s conn ≡ some (true, s'))
        × IsValid s'
        × ((i : ℕ)
            → item_at s'.tcp_conn_list i
              ≡ (if i == conn.fd then some conn else item_at s.tcp_conn_list i))
        × (s'.next_connect_id ≡ s.next_connect_id)
        × (s'.loop_thread_pool ≡ s.loop_thread_pool)
        × (s'.given ≡ s.given)
  unfolding add_conn_list_item
  add_conn_list_item_lem s conn v fits int free =
      let items = grow s.tcp_conn_list conn.fd in
      let g = grow_lem s.tcp_conn_list conn.fd in
      let short : conn.fd < length items = g.3 (omega (arith, fits, v.room)) in
      let here : get_elem? items conn.fd ≡ some none =
        get_elem?_item items conn.fd short ∙ ap some (g.0 conn.fd ∙ free) in
      let few : s.tcp_conn_count + 1 < 2 ^ 64 =
        omega (arith, v.counted, count_items_short s.tcp_conn_list, v.limit) in
      let s1 : TcpServer = record s { tcp_conn_list = items } in
      let s2 : TcpServer = record s {
        tcp_conn_list = set items conn.fd (some conn);
        tcp_conn_count = (s.tcp_conn_count + 1) % 2 ^ 64;
      } in
      (
        s2,
        ground (arith, short, here),
        set-IsValid s1 s2 conn.fd (some conn) (grow-IsValid s conn.fd v int) short refl
            (λ conn' e. ground (arith, e)) (omega (arith, few, ap one (g.0 conn.fd ∙ free))),
        λ i.
            item_at-set items conn.fd i (some conn) short
            ∙ ap (λ item. if i == conn.fd then some conn else item) (g.0 i),
        refl,
        refl,
        refl,
      )

  pub del_conn_list_item_lem :
      (s : TcpServer) (conn other : Conn)
      → IsValid s
      → item_at s.tcp_conn_list conn.fd ≡ some other
      → (s' : TcpServer) × (del_conn_list_item s conn ≡ some s')
        × IsValid s'
        × ((i : ℕ)
            → item_at s'.tcp_conn_list i
              ≡ (if i == conn.fd then none else item_at s.tcp_conn_list i))
        × (s'.next_connect_id ≡ s.next_connect_id)
        × (s'.loop_thread_pool ≡ s.loop_thread_pool)
        × (s'.given ≡ s.given)
  unfolding del_conn_list_item
  del_conn_list_item_lem s conn other v there =
      let short : conn.fd < length s.tcp_conn_list =
        item_at-short s.tcp_conn_list conn.fd (λ e. ground (arith, e, there)) in
      let here : get_elem? s.tcp_conn_list conn.fd ≡ some (some other) =
        get_elem?_item s.tcp_conn_list conn.fd short ∙ ap some there in
      let left = count_items-set s.tcp_conn_list conn.fd none short in
      let s2 : TcpServer = record s {
        tcp_conn_list = set s.tcp_conn_list conn.fd none;
        tcp_conn_count = sub_size s.tcp_conn_count 1;
      } in
      (
        s2,
        ground (arith, here),
        set-IsValid s s2 conn.fd none v short refl (λ conn' e. ground (arith, e))
            (omega
              (arith, left, v.counted, ap one there, count_items_short s.tcp_conn_list, v.limit)),
        λ i. item_at-set s.tcp_conn_list conn.fd i none short,
        refl,
        refl,
        refl,
      )
