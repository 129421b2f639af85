-- ===== src/Epoller/Updating.antt =====
-- `EnableReading`, `DisableAll` and their like, with the `UpdateChannel` that follows.
use base_linux.Base.{
  ℕ, suc, ◌<◌, ◌≡◌, refl, sym, ap, ◌∙◌, inl, inr, Option, none, some, arith, update, ltb, ◌==◌,
  if◌then◌else◌, Bool-cases, add_size,
}
use base_linux.Channel.{EventMask, Channel, is_some_event, k_new, k_added, k_del}
use base_linux.Epoller.{
  EpollLib, EpollEvent, Epoller, epoll_ctl_add, epoll_ctl_mod, epoll_ctl_del, total_size,
  add_channel_list_item, update_new, update_added, update_del, update_channel, change_events,
}
use base_linux.Epoller.Counting.{count_to, count_to-bound, count_to-above, count_to-put}
use base_linux.Epoller.Table.{IsValid, settled, watched}
use base_linux.Epoller.Settling.{
  Settles, Accepts, Settles-IsValid, Listed-Elsewhere, Listed-here, one_channel, Elsewhere,
}

module _ {lib : EpollLib} (e : Epoller lib) (p : ℕ) (c : Channel) (v : IsValid e)
    (live : e.objects p ≡ some c) (small : c.fd < total_size) where
  -- the channel with its new events
  abbrev with_events : EventMask → Channel
  with_events m = record c { events = m }

  -- the poller when `UpdateChannel` starts, with what epoll watches by then
  abbrev changed : EventMask → ℕ → lib.State → Epoller lib
  changed m status k = record e {
    objects =
        update (update e.objects p (some (with_events m))) p
          (some (record c { events = m; status = status }));
    kernel = k;
  }

  -- the same with the channel in the table
  abbrev placed : EventMask → ℕ → lib.State → Epoller lib
  placed m status k = record (changed m status k) {
    channels = update e.channels c.fd (some p);
    channel_nums = add_size e.channel_nums 1;
    cur_max_fd = if ltb e.cur_max_fd c.fd then c.fd else e.cur_max_fd;
  }

  placed-count :
      e.channels c.fd ≡ none
      → add_size e.channel_nums 1
        ≡ count_to
            (update e.channels c.fd (some p))
            (suc (if ltb e.cur_max_fd c.fd then c.fd else e.cur_max_fd))
  placed-count free =
      let top = if ltb e.cur_max_fd c.fd then c.fd else e.cur_max_fd in
      ground (
        arith,
        v.count,
        v.max_small,
        count_to-bound e.channels (suc e.cur_max_fd),
        count_to-put e.channels c.fd p (suc top) free (ground arith),
        count_to-above e.channels (suc e.cur_max_fd) (suc top) (λ i h. v.above i h) (ground arith),
      )

  -- A new channel is nowhere in the table.
  new-Elsewhere : c.status ≡ k_new → Elsewhere e p c v live
  new-Elsewhere new i r h other = elim (Bool-cases (r == p)) [
    | inl same ↦
        let l = v.listed i r h in
        let one = one_channel e.objects r p l.live live (ground (arith, same)) in
        ground (arith, l.status, one, new)
    | inr apart ↦ apart
  ]

  placed-IsValid :
      (m : EventMask) (k : lib.State)
      → c.status ≡ k_new
      → e.channels c.fd ≡ none
      → Settles e p c m (placed m (settled m) k)
      → IsValid (placed m (settled m) k)
  placed-IsValid m k new free s =
      Settles-IsValid e p c v live m (placed m (settled m) k) s (new-Elsewhere new) (λ r h. cc)
        small (λ i h. ground (arith, h, v.above i)) (ground (arith, small, v.max_small))
        (placed-count free)

  -- the poller with other channels in memory
  abbrev rewritten : (ℕ → Option Channel) → lib.State → Epoller lib
  rewritten o k = record e { objects = o; kernel = k }

  -- A channel that is in the table stays there.
  rewritten-holds :
      (m : EventMask) (o : ℕ → Option Channel) (k : lib.State)
      → e.channels c.fd ≡ some p
      → ((r : ℕ)
          → o r
            ≡ (if r == p then some (record c { events = m; status = settled m }) else e.objects r))
      → ((j : ℕ) → lib.interest k j ≡ (if j == c.fd then watched m p else lib.interest e.kernel j))
      → IsValid (rewritten o k) × Settles e p c m (rewritten o k)
  rewritten-holds m o k held objects h =
      let s : Settles e p c m (rewritten o k) = record {
        objects = objects;
        channels = λ j. elim (Bool-cases (j == c.fd)) [
          | inl here ↦
              let same : j ≡ c.fd = ground (arith, here) in ground (arith, held, ap e.channels same)
          | inr there ↦ ground (arith, there)
        ];
        interest = h;
      } in
      (
        Settles-IsValid e p c v live m (rewritten o k) s (Listed-Elsewhere e p c v live)
            (λ r h. ground (arith, h, held)) small v.above v.max_small v.count,
        s,
      )

  placed-Settles :
      (m : EventMask) (k : lib.State)
      → ((j : ℕ) → lib.interest k j ≡ (if j == c.fd then watched m p else lib.interest e.kernel j))
      → Settles e p c m (placed m (settled m) k)
  placed-Settles m k h = record { objects = λ r. ground arith; channels = λ j. refl; interest = h }

  -- where epoll watches the descriptor as it should, nothing needs to change
  same_watch :
      (o : Option EpollEvent)
      → lib.interest e.kernel c.fd ≡ o
      → (j : ℕ) → lib.interest e.kernel j ≡ (if j == c.fd then o else lib.interest e.kernel j)
  same_watch o h j = elim (Bool-cases (j == c.fd)) [
    | inl here ↦
        let same : j ≡ c.fd = ground (arith, here) in
        ground (arith, here, h, ap (lib.interest e.kernel) same)
    | inr there ↦ ground (arith, there)
  ]

  -- What the call of `UpdateChannel` has done.
  Changes : (EventMask → EventMask) → Type 0
  Changes change =
      (e' : Epoller lib) × (change_events change e p ≡ some e')
      × IsValid e'
      × Settles e p c (change c.events) e'

  -- A channel that is new is put into the table,
  new-Changes :
      (change : EventMask → EventMask)
      → c.status ≡ k_new
      → e.channels c.fd ≡ none
      → Accepts e c.fd
      → Changes change
  unfolding Changes change_events update_channel update_new add_channel_list_item
  new-Changes change new free accepts =
      let m = change c.events in
      elim (Bool-cases (is_some_event m)) [
        | inl busy ↦
            let k = accepts epoll_ctl_add (m, p) (ground (arith, v.unwatched c.fd free)) in
            let s = placed-Settles m k.0 (λ j.
              ground
                (arith, busy, lib.ctl_interest e.kernel epoll_ctl_add c.fd (m, p) k.0 k.1 j)) in
            (
              placed m (settled m) k.0,
              ground (arith, live, new, free, small, busy, k.1),
              placed-IsValid m k.0 new free s,
              s,
            )
        | inr idle ↦
            let s =
              placed-Settles m e.kernel
                (λ j. ground (arith, idle, same_watch none (v.unwatched c.fd free) j)) in
            (
              placed m (settled m) e.kernel,
              ground (arith, live, new, free, small, idle),
              placed-IsValid m e.kernel new free s,
              s,
            )
      ]

  -- one that is in the table stays there, and epoll is told of the change.
  busy-Changes :
      (change : EventMask → EventMask)
      → e.channels c.fd ≡ some p
      → c.status ≡ k_added
      → lib.interest e.kernel c.fd ≡ some (c.events, p)
      → Accepts e c.fd
      → Changes change
  unfolding Changes change_events update_channel update_added
  busy-Changes change held status interest accepts =
      let m = change c.events in
      elim (Bool-cases (is_some_event m)) [
        | inl busy ↦
            let k = accepts epoll_ctl_mod (m, p) (ground (arith, interest)) in
            let o = update e.objects p (some (with_events m)) in
            let z =
              rewritten-holds m o k.0 held (λ r. ground (arith, status, busy))
                (λ j.
                  ground
                    (arith, busy, lib.ctl_interest e.kernel epoll_ctl_mod c.fd (m, p) k.0 k.1 j)) in
            (rewritten o k.0, ground (arith, live, held, small, status, busy, k.1), z.0, z.1)
        | inr idle ↦
            let k = accepts epoll_ctl_del (m, p) (ground (arith, interest)) in
            let e' = changed m k_del k.0 in
            let z =
              rewritten-holds m e'.objects k.0 held (λ r. ground (arith, idle))
                (λ j.
                  ground
                    (arith, idle, lib.ctl_interest e.kernel epoll_ctl_del c.fd (m, p) k.0 k.1 j)) in
            (e', ground (arith, live, held, small, status, idle, k.1), z.0, z.1)
      ]

  idle-Changes :
      (change : EventMask → EventMask)
      → e.channels c.fd ≡ some p
      → c.status ≡ k_del
      → lib.interest e.kernel c.fd ≡ none
      → Accepts e c.fd
      → Changes change
  unfolding Changes change_events update_channel update_del
  idle-Changes change held status interest accepts =
      let m = change c.events in
      elim (Bool-cases (is_some_event m)) [
        | inl busy ↦
            let k = accepts epoll_ctl_add (m, p) (ground (arith, interest)) in
            let e' = changed m k_added k.0 in
            let z =
              rewritten-holds m e'.objects k.0 held (λ r. ground (arith, busy))
                (λ j.
                  ground
                    (arith, busy, lib.ctl_interest e.kernel epoll_ctl_add c.fd (m, p) k.0 k.1 j)) in
            (e', ground (arith, live, held, small, status, busy, k.1), z.0, z.1)
        | inr idle ↦
            let o = update e.objects p (some (with_events m)) in
            let z =
              rewritten-holds m o e.kernel held (λ r. ground (arith, status, idle))
                (λ j. ground (arith, idle, same_watch none interest j)) in
            (rewritten o e.kernel, ground (arith, live, held, small, status, idle), z.0, z.1)
      ]

  listed-Changes :
      (change : EventMask → EventMask) → e.channels c.fd ≡ some p → Accepts e c.fd → Changes change
  listed-Changes change held accepts =
      let l = Listed-here e p c v live held in
      let status : c.status ≡ settled c.events =
        sym (ap (λ (x : Channel). x.status) l.1)
        ∙ l.0.status
        ∙ ap (λ (x : Channel). settled x.events) l.1 in
      let interest : lib.interest e.kernel c.fd ≡ watched c.events p =
        l.0.interest ∙ ap (λ (x : Channel). watched x.events p) l.1 in
      elim (Bool-cases (is_some_event c.events)) [
        | inl busy ↦
            busy-Changes change held (ground (arith, status, busy)) (ground (arith, interest, busy))
              accepts
        | inr idle ↦
            idle-Changes change held (ground (arith, status, idle)) (ground (arith, interest, idle))
              accepts
      ]

-- `EnableReading`, `EnableWriting`, `DisableReading`, `DisableWriting` and `DisableAll` keep the
-- invariant and trip no assert, for a channel with a descriptor that `channels_` has room for and
-- that, if the channel is new, no other channel in the table has, and with an epoll that refuses
-- no request that fits what is registered for the descriptor. Afterwards the channel is in the
-- table, its status says whether it has events, and epoll watches its descriptor for just these
-- events, with its pointer, or not at all; every other channel, entry and descriptor is as
-- before.
pub change_events_lem :
    {lib : EpollLib} (e : Epoller lib) (p : ℕ) (c : Channel) (change : EventMask → EventMask)
    → IsValid e
    → e.objects p ≡ some c
    → c.fd < total_size
    → (c.status ≡ k_new → e.channels c.fd ≡ none)
    → Accepts e c.fd
    → (e' : Epoller lib) × (change_events change e p ≡ some e')
      × IsValid e'
      × Settles e p c (change c.events) e'
unfolding Changes
change_events_lem e p c change v live small unique accepts = elim (v.known p c live) [
  | inl new ↦ new-Changes e p c v live small change new (unique new) accepts
  | inr held ↦ listed-Changes e p c v live small change held accepts
]
