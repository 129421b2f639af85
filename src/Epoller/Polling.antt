-- ===== src/Epoller/Polling.antt =====
-- `Poll` and `FillActiveChannel`.
use base_linux.Base.{
  ℕ, zero, suc, ◌+◌, ◌*◌, ◌<◌, ◌≤◌, ◌≡◌, refl, sym, ap, ◌∙◌, inl, inr, true, Option, none, some,
  List, [], ◌∷◌, arith, update, ◌==◌, Bool-cases, Option-cases, length, get_elem?, set, drop,
  replicate, All, length-set, length-replicate, get_elem?-set_self, get_elem?-set_ne,
}
use base_linux.Channel.{EventMask, Channel, is_some_event}
use base_linux.Epoller.{EpollLib, EpollEvent, Epoller, fill_active_channel, poll, visited}
use base_linux.Epoller.Table.{IsValid}
use base_linux.Epoller.Settling.{one_channel}

-- what `data.ptr` points to
abbrev pub pointers : List EpollEvent → List ℕ
pointers [] = []
pointers ((m, p) ∷ events) = p ∷ pointers events

-- `epoll_wait` delivers what was registered.
abbrev pub IsDelivered : (lib : EpollLib) → lib.State → EpollEvent → Type 0
IsDelivered lib k event = (i : ℕ) × (m : EventMask) × (lib.interest k i ≡ some (m, event.1))

module _ {lib : EpollLib} where
  -- the channel of an event has events, so that it is not spurious
  delivered_channel :
      (e : Epoller lib) (event : EpollEvent)
      → IsValid e
      → IsDelivered lib e.kernel event
      → (c : Channel) × (e.objects event.1 ≡ some c) × (is_some_event c.events ≡ true)
  delivered_channel e event v d = elim (Option-cases (e.channels d.0)) [
    | inl h ↦ cc (v.unwatched d.0 h, d.2)
    | inr h ↦
        let l = v.listed d.0 h.0 h.1 in
        let one : event.1 ≡ h.0 = ground (arith, l.interest, d.2) in
        (l.channel, ap e.objects one ∙ l.live, ground (arith, l.interest, d.2))
  ]

  -- To note the events that came in leaves the table as it is.
  noted-IsValid :
      (e : Epoller lib) (p : ℕ) (c : Channel) (m : EventMask)
      → IsValid e
      → e.objects p ≡ some c
      → IsValid (record e { objects = update e.objects p (some (record c { revents = m })) })
  noted-IsValid e p c m v live = record {
    listed = λ i r h.
        let l = v.listed i r h in
        elim (Bool-cases (r == p)) [
          | inl same ↦
              let one = one_channel e.objects r p l.live live (ground (arith, same)) in
              record {
                channel = record c { revents = m };
                live = ground (arith, same);
                own = sym (ap (λ (x : Channel). x.fd) one) ∙ l.own;
                small = l.small;
                status = ground (arith, one, l.status);
                interest = ground (arith, one, l.interest);
              }
          | inr other ↦ record {
            channel = l.channel;
            live = ground (arith, other, l.live);
            own = l.own;
            small = l.small;
            status = l.status;
            interest = l.interest;
          }
        ];
    unwatched = v.unwatched;
    known = λ r d h. elim (Bool-cases (r == p)) [
      | inl same ↦
          let same' : r ≡ p = ground (arith, same) in
          let k = v.known p c live in ground (arith, same', h, k)
      | inr other ↦ v.known r d (ground (arith, other, h))
    ];
    above = v.above;
    max_small = v.max_small;
    count = v.count;
  }

drop-get_elem? {ℓ} :
    {A : Type ℓ} (xs : List A) (i : ℕ) (a : A)
    → get_elem? xs i ≡ some a
    → drop i xs ≡ a ∷ drop (suc i) xs
drop-get_elem? [] i a h = cc
drop-get_elem? (x ∷ xs) zero a h = ground (arith, h)
drop-get_elem? (x ∷ xs) (suc i) a h = drop-get_elem? xs i a h

-- `active_channels_` and the size of `event_list_` do not matter for the table.
refilled-IsValid :
    {lib : EpollLib} (e : Epoller lib) (active : List (Option ℕ)) (size : ℕ)
    → IsValid e
    → IsValid (record e { active_channels = active; event_list_size = size })
refilled-IsValid e active size v = record {
  listed = λ i r h.
      let l = v.listed i r h in
      record {
        channel = l.channel;
        live = l.live;
        own = l.own;
        small = l.small;
        status = l.status;
        interest = l.interest;
      };
  unwatched = v.unwatched;
  known = v.known;
  above = v.above;
  max_small = v.max_small;
  count = v.count;
}

-- What `FillActiveChannel` has done from the index `i` on.
pub record Fills {lib : EpollLib} (e : Epoller lib) (events : List EpollEvent) (i : ℕ)
    (e' : Epoller lib) : Type 0 where
  pub valid : IsValid e'
  pub before : (j : ℕ) → j < i → get_elem? e'.active_channels j ≡ get_elem? e.active_channels j
  pub visits : visited (drop i e'.active_channels) ≡ pointers events
  pub size : length e'.active_channels ≡ length e.active_channels
  pub list_size : e'.event_list_size ≡ e.event_list_size
  pub calm : e'.egen ≡ e.egen

fill_active_channel_lem :
    {lib : EpollLib} (events : List EpollEvent) (e : Epoller lib) (i : ℕ)
    → IsValid e
    → All (IsDelivered lib e.kernel) events
    → i + length events < length e.active_channels
    → (e' : Epoller lib) × (fill_active_channel e events i ≡ some e') × Fills e events i e'
unfolding fill_active_channel visited
fill_active_channel_lem {lib} [] e i v all room =
    let active = set e.active_channels i none in
    let here =
      drop-get_elem? active i none
        (get_elem?-set_self e.active_channels i none (ground (arith, room))) in
    (
      record e { active_channels = active },
      ground (arith, room),
      record {
        valid = refilled-IsValid e active e.event_list_size v;
        before =
            λ j h. get_elem?-set_ne e.active_channels i j none (λ same. ground (arith, h, same));
        visits = ap visited here;
        size = length-set e.active_channels i none;
        list_size = refl;
        calm = refl;
      },
    )
fill_active_channel_lem {lib} ((m, p) ∷ events) e i v all room =
    let d = delivered_channel e (m, p) v all.0 in
    let active = set e.active_channels i (some p) in
    let noted = record e {
      objects = update e.objects p (some (record d.0 { revents = m }));
      active_channels = active;
    } in
    let noted-valid =
      noted-IsValid (record e { active_channels = active }) p d.0 m
        (refilled-IsValid e active e.event_list_size v) d.1 in
    let same_length = length-set e.active_channels i (some p) in
    let n =
      fill_active_channel_lem events noted (suc i) noted-valid all.1
        (ground (arith, same_length, room)) in
    let f = n.2 in
    let here = drop-get_elem? n.0.active_channels i (some p) (
      f.before i (ground arith)
      ∙ get_elem?-set_self e.active_channels i (some p) (ground (arith, room))) in
    (
      n.0,
      ground (arith, room, d.1, d.2, n.1),
      record {
        valid = f.valid;
        before = λ j h.
            f.before j (ground (arith, h))
            ∙ get_elem?-set_ne e.active_channels i j (some p) (λ same. ground (arith, h, same));
        visits = ap visited here ∙ ap (◌∷◌ p) f.visits;
        size = f.size ∙ same_length;
        list_size = f.list_size;
        calm = f.calm;
      },
    )

-- What `Poll` has done.
pub record Polls {lib : EpollLib} (e : Epoller lib) (events : List EpollEvent) (e' : Epoller lib)
    : Type 0 where
  pub valid : IsValid e'
  pub visits : visited e'.active_channels ≡ pointers events
  pub size : length e'.active_channels ≡ e'.event_list_size
  pub room : 0 < e'.event_list_size
  pub calm : e'.egen ≡ e.egen

-- `Poll` keeps the invariant and stays within `active_channels_`, where this is as long as the
-- list for the events, not empty, and where epoll delivers at most as many events as fit into
-- that list, all of registered descriptors. The loop then visits exactly the channels of these
-- events, in order, whether or not the two lists had to grow, no notification is taken for a
-- spurious one, and the two lists are as long as each other again.
pub poll_lem :
    {lib : EpollLib} (e : Epoller lib) (events : List EpollEvent)
    → IsValid e
    → length e.active_channels ≡ e.event_list_size
    → 0 < e.event_list_size
    → length events ≤ e.event_list_size
    → All (IsDelivered lib e.kernel) events
    → (e' : Epoller lib) × (poll e events ≡ some e') × Polls e events e'
unfolding poll fill_active_channel
poll_lem e [] v size room fit all =
    let n = fill_active_channel_lem [] e 0 v tt (ground (arith, room, size)) in
    let f = n.2 in
    (
      n.0,
      ground (arith, size, room, n.1),
      record {
        valid = f.valid;
        visits = f.visits;
        size = f.size ∙ size ∙ sym f.list_size;
        room = ground (arith, room, f.list_size);
        calm = f.calm;
      },
    )
poll_lem e (event ∷ events) v size room fit all =
    let cleared = set e.active_channels 0 none in
    elim (Bool-cases (length (event ∷ events) == e.event_list_size)) [
      | inl full ↦
          let double = e.event_list_size * 2 in
          let empty : Option ℕ = none in
          let fresh = replicate double empty in
          let n =
            fill_active_channel_lem (event ∷ events)
              (record e { active_channels = fresh; event_list_size = double }) 0
              (refilled-IsValid e fresh double v) all
              (ground (arith, full, room, length-replicate double empty)) in
          let f = n.2 in
          (
            n.0,
            ground (arith, full, size, room, n.1),
            record {
              valid = f.valid;
              visits = f.visits;
              size = f.size ∙ length-replicate double empty ∙ sym f.list_size;
              room = ground (arith, room, f.list_size);
              calm = f.calm;
            },
          )
      | inr some_left ↦
          let n =
            fill_active_channel_lem (event ∷ events) (record e { active_channels = cleared }) 0
              (refilled-IsValid e cleared e.event_list_size v) all
              (ground (arith, some_left, fit, size, length-set e.active_channels 0 none)) in
          let f = n.2 in
          (
            n.0,
            ground (arith, some_left, size, room, n.1),
            record {
              valid = f.valid;
              visits = f.visits;
              size = f.size ∙ length-set e.active_channels 0 none ∙ size ∙ sym f.list_size;
              room = ground (arith, room, f.list_size);
              calm = f.calm;
            },
          )
    ]
