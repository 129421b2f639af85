-- ===== src/Epoller/Removing.antt =====
-- `RemoveChannel`.
use base_linux.Base.{
  ℕ, suc, ◌-◌, ◌<◌, ◌≤◌, ◌≡◌, refl, sym, ap, ◌∙◌, inl, inr, ◌⊎◌, false, none, some, arith, update,
  ◌==◌, if◌then◌else◌, Bool-cases, sub_size,
}
use base_linux.Channel.{Channel, is_some_event, k_new}
use base_linux.Epoller.{
  EpollLib, Epoller, epoll_ctl_del, total_size, last_below, del_channel_list_item, remove_channel,
}
use base_linux.Epoller.Counting.{
  count_to, count_to-bound, count_to-above, count_to-clear, last_below-bound, last_below-gap,
}
use base_linux.Epoller.Table.{Listed, IsValid, settled, watched}
use base_linux.Epoller.Settling.{Accepts, Listed-Elsewhere, Listed-here}

-- The channel `c` at `p` has left the table and epoll, and is as new; the rest is as it was.
pub record Removes {lib : EpollLib} (e : Epoller lib) (p : ℕ) (c : Channel) (e' : Epoller lib)
    : Type 0 where
  pub objects :
      (r : ℕ) → e'.objects r ≡ (if r == p then some (record c { status = k_new }) else e.objects r)
  pub channels : (j : ℕ) → e'.channels j ≡ (if j == c.fd then none else e.channels j)
  pub interest :
      (j : ℕ) → lib.interest e'.kernel j ≡ (if j == c.fd then none else lib.interest e.kernel j)

module _ {lib : EpollLib} (e : Epoller lib) (p : ℕ) (c : Channel) (v : IsValid e)
    (live : e.objects p ≡ some c) (held : e.channels c.fd ≡ some p) where
  -- the largest descriptor that is left
  abbrev top : ℕ
  top =
      if e.cur_max_fd == c.fd
      then last_below (update e.channels c.fd none) (c.fd - 1)
      else e.cur_max_fd

  abbrev removed : lib.State → Epoller lib
  removed k = record e {
    objects = update e.objects p (some (record c { status = k_new }));
    channels = update e.channels c.fd none;
    channel_nums = sub_size e.channel_nums 1;
    cur_max_fd = top;
    kernel = k;
  }

  in_range : c.fd ≤ e.cur_max_fd
  in_range = ground (arith, v.above c.fd, held)

  top-bound : top ≤ e.cur_max_fd
  top-bound = ground (arith, in_range, last_below-bound (update e.channels c.fd none) (c.fd - 1))

  top-above : (i : ℕ) → top < i → update e.channels c.fd none i ≡ none
  top-above i h =
      ground (arith, h, v.above i, last_below-gap (update e.channels c.fd none) (c.fd - 1) i)

  removed-count : sub_size e.channel_nums 1 ≡ count_to (update e.channels c.fd none) (suc top)
  removed-count =
      let f = update e.channels c.fd none in
      ground (
        arith,
        v.count,
        v.max_small,
        in_range,
        top-bound,
        count_to-bound e.channels (suc e.cur_max_fd),
        count_to-clear e.channels c.fd p (suc e.cur_max_fd) held (ground (arith, in_range)),
        count_to-above f (suc top) (suc e.cur_max_fd) (λ i h. top-above i h)
            (ground (arith, top-bound)),
      )

  removed-Listed :
      (k : lib.State)
      → Removes e p c (removed k)
      → (i r : ℕ) → (removed k).channels i ≡ some r
      → Listed (removed k) i r
  removed-Listed k z i r h =
      let other : (i == c.fd) ≡ false = ground (arith, h) in
      let old : e.channels i ≡ some r = ground (arith, h) in
      let l = v.listed i r old in
      record {
        channel = l.channel;
        live = ground (arith, Listed-Elsewhere e p c v live i r old other, l.live);
        own = l.own;
        small = l.small;
        status = l.status;
        interest = ground (arith, z.interest i, other, l.interest);
      }

  removed-known :
      (k : lib.State) (r : ℕ) (d : Channel)
      → (removed k).objects r ≡ some d
      → (d.status ≡ k_new) ⊎ ((removed k).channels d.fd ≡ some r)
  removed-known k r d h = elim (Bool-cases (r == p)) [
    | inl here ↦ inl (ground (arith, here, h))
    | inr there ↦ elim (v.known r d (ground (arith, there, h))) [
      | inl new ↦ inl new
      | inr l ↦ elim (Bool-cases (d.fd == c.fd)) [
        | inl same ↦
            let same' : d.fd ≡ c.fd = ground (arith, same) in
            ground (arith, l, held, there, ap e.channels same')
        | inr differs ↦ inr (ground (arith, l, differs))
      ]
    ]
  ]

  removed-IsValid : (k : lib.State) → Removes e p c (removed k) → IsValid (removed k)
  removed-IsValid k z = record {
    listed = removed-Listed k z;
    unwatched = λ i h. ground (arith, h, z.interest i, v.unwatched i);
    known = removed-known k;
    above = top-above;
    max_small = ground (arith, top-bound, v.max_small);
    count = removed-count;
  }

  removed-Removes :
      (k : lib.State)
      → ((j : ℕ) → lib.interest k j ≡ (if j == c.fd then none else lib.interest e.kernel j))
      → Removes e p c (removed k)
  removed-Removes k h = record { objects = λ r. refl; channels = λ j. refl; interest = h }

  idle_interest :
      lib.interest e.kernel c.fd ≡ none
      → (j : ℕ) → lib.interest e.kernel j ≡ (if j == c.fd then none else lib.interest e.kernel j)
  idle_interest h j = elim (Bool-cases (j == c.fd)) [
    | inl here ↦
        let same : j ≡ c.fd = ground (arith, here) in
        ground (arith, here, h, ap (lib.interest e.kernel) same)
    | inr there ↦ ground (arith, there)
  ]

-- `RemoveChannel` of a channel in the table keeps the invariant and trips no assert, with an
-- epoll that refuses no request that fits what is registered for the descriptor. Afterwards
-- neither the table nor epoll has the channel's descriptor, the channel is as new, and every
-- other channel, entry and descriptor is as before.
pub remove_channel_lem :
    {lib : EpollLib} (e : Epoller lib) (p : ℕ) (c : Channel)
    → IsValid e
    → e.objects p ≡ some c
    → e.channels c.fd ≡ some p
    → Accepts e c.fd
    → (e' : Epoller lib) × (remove_channel e p ≡ some e') × IsValid e' × Removes e p c e'
unfolding remove_channel del_channel_list_item
remove_channel_lem {lib} e p c v live held accepts =
    let l = Listed-here e p c v live held in
    let small : c.fd < total_size = l.0.small in
    let status : c.status ≡ settled c.events =
      sym (ap (λ (x : Channel). x.status) l.1)
      ∙ l.0.status
      ∙ ap (λ (x : Channel). settled x.events) l.1 in
    let interest : lib.interest e.kernel c.fd ≡ watched c.events p =
      l.0.interest ∙ ap (λ (x : Channel). watched x.events p) l.1 in
    elim (Bool-cases (is_some_event c.events)) [
      | inl busy ↦
          let k = accepts epoll_ctl_del (c.events, p) (ground (arith, interest, busy)) in
          let z =
            removed-Removes e p c v live held k.0
              (λ j. lib.ctl_interest e.kernel epoll_ctl_del c.fd (c.events, p) k.0 k.1 j) in
          (
            removed e p c v live held k.0,
            ground (arith, live, held, small, status, busy, k.1),
            removed-IsValid e p c v live held k.0 z,
            z,
          )
      | inr idle ↦
          let z =
            removed-Removes e p c v live held e.kernel
              (idle_interest e p c v live held (ground (arith, interest, idle))) in
          (
            removed e p c v live held e.kernel,
            ground (arith, live, held, small, status, idle),
            removed-IsValid e p c v live held e.kernel z,
            z,
          )
    ]
