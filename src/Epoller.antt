-- ===== src/Epoller.antt =====
-- src/poller.h, poller.cc, epoller.h and epoller.cc: the table of channels and the descriptors
-- that epoll watches. A channel's pointer is a number, `objects` the memory behind it. `none` is
-- a failed assert of the default build, a bad pointer or an index out of `channels_`.
mod Tests
pub mod Counting
pub mod Table
pub mod Settling
pub mod Updating
pub mod Removing
pub mod Dumping
pub mod Handling
pub mod Kernel
pub mod Starting
pub mod Polling
use base_linux.Base.{
  ℕ, zero, suc, ◌-◌, ◌^◌, Bool, true, false, not, ◌&&◌, ◌||◌, Option, none, some, List, [], ◌∷◌,
  ◌*◌, ◌≡◌, length, set, replicate, add_size, sub_size, update, ltb, ◌==◌, if◌then◌else◌, ◌>>=◌,
  ◌>>◌, assert,
}
use base_linux.Channel.{EventMask, Channel, is_some_event, k_new, k_added, k_del}

-- `EPOLL_CTL_ADD`, `EPOLL_CTL_MOD` and `EPOLL_CTL_DEL`
pub data Operator : Type 0 where
  epoll_ctl_add : Operator
  epoll_ctl_mod : Operator
  epoll_ctl_del : Operator

-- `events` and `data.ptr` of an `epoll_event`
abbrev pub EpollEvent : Type 0
EpollEvent = EventMask × ℕ

-- what is registered for the descriptor afterwards
abbrev pub registered : Operator → EpollEvent → Option EpollEvent
registered epoll_ctl_add e = some e
registered epoll_ctl_mod e = some e
registered epoll_ctl_del e = none

-- An addition wants a descriptor that is not registered, the other requests one that is.
abbrev pub is_proper : Operator → Option EpollEvent → Bool
is_proper epoll_ctl_add none = true
is_proper epoll_ctl_add (some e) = false
is_proper epoll_ctl_mod none = false
is_proper epoll_ctl_mod (some e) = true
is_proper epoll_ctl_del none = false
is_proper epoll_ctl_del (some e) = true

-- The kernel's epoll instance: its states, `epoll_ctl` (`none` for a negative result), the event
-- registered for a descriptor, and what a call that succeeds has changed.
pub record EpollLib : Type 1 where
  pub State : Type 0
  pub epoll_ctl : State → Operator → ℕ → EpollEvent → Option State
  pub interest : State → ℕ → Option EpollEvent
  pub ctl_interest :
      (s : State) (op : Operator) (fd : ℕ) (event : EpollEvent) (s' : State)
      → epoll_ctl s op fd event ≡ some s'
      → (j : ℕ) → interest s' j ≡ (if j == fd then registered op event else interest s j)

-- `kInitTotalChannelSize`, the size of `channels_`
abbrev pub total_size : ℕ
total_size = 2 ^ 20

-- `channel == channels_[fd]`
abbrev pub is_slot : ℕ → Option ℕ → Bool
is_slot p none = false
is_slot p (some r) = p == r

abbrev pub is_null : Option ℕ → Bool
is_null none = true
is_null (some r) = false

-- The search of `DelChannelListItem` downwards from an index.
unfoldable pub last_below : (ℕ → Option ℕ) → ℕ → ℕ
last_below channels zero = zero
last_below channels (suc i) =
    let rest = last_below channels i in if is_null (channels (suc i)) then rest else suc i

module _ (lib : EpollLib) where
  pub record Epoller : Type 0 where
    pub objects : ℕ → Option Channel
    pub channels : ℕ → Option ℕ
    pub channel_nums : ℕ
    pub cur_max_fd : ℕ
    pub active_channels : List (Option ℕ)
    -- the size of `event_list_`
    pub event_list_size : ℕ
    pub egen : ℕ
    pub kernel : lib.State

module _ {lib : EpollLib} where
  -- `Epoller(event_loop)`, with the memory of the channels and the state of the new epoll instance
  unfoldable pub new_poller : (ℕ → Option Channel) → lib.State → Epoller lib
  new_poller objects kernel = record {
    objects = objects;
    channels = λ _. none;
    channel_nums = 0;
    cur_max_fd = 0;
    active_channels = replicate 512 none;
    event_list_size = 512;
    egen = 0;
    kernel = kernel;
  }

  -- `~Epoller`
  unfoldable pub destroy : Epoller lib → Option (Unit {0})
  destroy e = assert (e.channel_nums == 0)

  -- `channels_[fd]`
  abbrev pub slot : Epoller lib → ℕ → Option (Option ℕ)
  slot e fd = do assert (ltb fd total_size); some (e.channels fd)

  abbrev pub set_status : Epoller lib → ℕ → Channel → ℕ → Epoller lib
  set_status e p c s = record e { objects = update e.objects p (some (record c { status = s })) }

  -- `Update`: a failure trips its assert.
  abbrev pub update_kernel : Epoller lib → Operator → ℕ → Channel → Option (Epoller lib)
  update_kernel e op p c = do
    k ← lib.epoll_ctl e.kernel op c.fd (c.events, p)
    some (record e { kernel = k })

  unfoldable pub add_channel_list_item : Epoller lib → ℕ → ℕ → Option (Epoller lib)
  add_channel_list_item e p fd = do
    assert (ltb fd total_size)
    some (record e {
      channels = update e.channels fd (some p);
      channel_nums = add_size e.channel_nums 1;
      cur_max_fd = if ltb e.cur_max_fd fd then fd else e.cur_max_fd;
    })

  -- A descriptor is positive, by the assert of `Channel`'s constructor.
  unfoldable pub del_channel_list_item : Epoller lib → ℕ → Option (Epoller lib)
  del_channel_list_item e fd = do
    assert (ltb fd total_size)
    let channels : ℕ → Option ℕ = update e.channels fd none
    some (record e {
      channels = channels;
      channel_nums = sub_size e.channel_nums 1;
      cur_max_fd = if e.cur_max_fd == fd then last_below channels (fd - 1) else e.cur_max_fd;
    })

  -- The cases of `UpdateChannel`.
  unfoldable pub update_new : Epoller lib → ℕ → Channel → Option (Epoller lib)
  update_new e p c = do
    old ← slot e c.fd
    assert (is_null old)
    e' ←
        if is_some_event c.events
        then (do e'' ← update_kernel e epoll_ctl_add p c; some (set_status e'' p c k_added))
        else some (set_status e p c k_del)
    add_channel_list_item e' p c.fd

  unfoldable pub update_added : Epoller lib → ℕ → Channel → Option (Epoller lib)
  update_added e p c = do
    old ← slot e c.fd
    assert (is_slot p old)
    if is_some_event c.events
        then update_kernel e epoll_ctl_mod p c
        else (do e' ← update_kernel e epoll_ctl_del p c; some (set_status e' p c k_del))

  unfoldable pub update_del : Epoller lib → ℕ → Channel → Option (Epoller lib)
  update_del e p c = do
    old ← slot e c.fd
    assert (is_slot p old)
    if is_some_event c.events
        then (do e' ← update_kernel e epoll_ctl_add p c; some (set_status e' p c k_added))
        else some e

  unfoldable pub update_channel : Epoller lib → ℕ → Option (Epoller lib)
  update_channel e p = do
    c ← e.objects p
    if c.status == k_new
        then update_new e p c
        else if c.status == k_added
        then update_added e p c
        else if c.status == k_del
        then update_del e p c
        else none

  -- `EnableReading` and its like: a change of `events_`, then `UpdateEvent`.
  unfoldable pub change_events : (EventMask → EventMask) → Epoller lib → ℕ → Option (Epoller lib)
  change_events change e p = do
    c ← e.objects p
    update_channel
        (record e { objects = update e.objects p (some (record c { events = change c.events })) }) p

  unfoldable pub remove_channel : Epoller lib → ℕ → Option (Epoller lib)
  remove_channel e p = do
    c ← e.objects p
    if c.status == k_new then some e else (do
      old ← slot e c.fd
      assert (is_slot p old)
      e' ←
          if is_some_event c.events
          then (do assert (c.status == k_added); update_kernel e epoll_ctl_del p c)
          else (do assert (c.status == k_del); some e)
      del_channel_list_item (set_status e' p c k_new) c.fd)

  -- The loop of `DumpChannels` over the first indices.
  pub dump_count : Epoller lib → ℕ → Option ℕ
  dump_count e zero = some 0
  dump_count e (suc i) = do
    count ← dump_count e i
    elim (e.channels i) [
      | none ↦ some count
      | some p ↦ (do c ← e.objects p; assert (c.fd == i); some (suc count))
    ]

  -- `DumpChannels`, which counts the channels and checks the table; it is compiled in under
  -- `_DEBUG`.
  pub dump_channels : Epoller lib → Option ℕ
  dump_channels e = do
    assert (ltb e.cur_max_fd total_size)
    count ← dump_count e (suc e.cur_max_fd)
    assert (count == e.channel_nums)
    some count

  -- `active_channels_[i] = channel`
  abbrev pub put_active : Epoller lib → ℕ → Option ℕ → Option (Epoller lib)
  put_active e i channel = do
    assert (ltb i (length e.active_channels))
    some (record e { active_channels = set e.active_channels i channel })

  -- The loop of `FillActiveChannel` from an index on, and the `nullptr` behind it.
  pub fill_active_channel : Epoller lib → List EpollEvent → ℕ → Option (Epoller lib)
  fill_active_channel e [] i = put_active e i none
  fill_active_channel e ((revents, p) ∷ events) i = do
    c ← e.objects p
    e' ←
        if is_some_event c.events
        then put_active
            (record e { objects = update e.objects p (some (record c { revents = revents })) }) i
            (some p)
        else some (record e { egen = add_size e.egen 1 })
    fill_active_channel e' events (suc i)

  -- `Poll`, with the events that `epoll_wait` delivers: none on a time-out and on an error.
  pub poll : Epoller lib → List EpollEvent → Option (Epoller lib)
  poll e events = do
    e' ← put_active e 0 none
    let size = e'.event_list_size
    if length events == 0
        then some e'
        else fill_active_channel
            (if length events == size
              then record e' {
                event_list_size = size * 2;
                active_channels = replicate (size * 2) none;
              }
              else e')
            events 0

-- What the loop of `EventLoop::Loop` over `active_channels` visits.
pub visited : List (Option ℕ) → List ℕ
visited [] = []
visited (none ∷ channels) = []
visited (some p ∷ channels) = p ∷ visited channels
