-- ===== src/Epoller/Table.antt =====
-- The invariant of the poller: the table, the channels and what epoll watches agree.
use base_linux.Base.{ℕ, suc, ◌<◌, ◌≡◌, ◌⊎◌, Option, none, some, if◌then◌else◌}
use base_linux.Channel.{EventMask, Channel, is_some_event, k_new, k_added, k_del}
use base_linux.Epoller.{EpollLib, EpollEvent, Epoller, total_size}
use base_linux.Epoller.Counting.{count_to}

-- the status of a channel in the table
abbrev pub settled : EventMask → ℕ
settled m = if is_some_event m then k_added else k_del

-- what epoll watches for it
abbrev pub watched : EventMask → ℕ → Option EpollEvent
watched m p = if is_some_event m then some (m, p) else none

module _ {lib : EpollLib} where
  -- The channel at `p` is in the table at `i`, and epoll watches it exactly for its events.
  pub record Listed (e : Epoller lib) (i p : ℕ) : Type 0 where
    pub channel : Channel
    pub live : e.objects p ≡ some channel
    pub own : channel.fd ≡ i
    pub small : i < total_size
    pub status : channel.status ≡ settled channel.events
    pub interest : lib.interest e.kernel i ≡ watched channel.events p

  pub record IsValid (e : Epoller lib) : Type 0 where
    pub listed : (i p : ℕ) → e.channels i ≡ some p → Listed e i p
    pub unwatched : (i : ℕ) → e.channels i ≡ none → lib.interest e.kernel i ≡ none
    pub known :
        (p : ℕ) (c : Channel)
        → e.objects p ≡ some c
        → (c.status ≡ k_new) ⊎ (e.channels c.fd ≡ some p)
    pub above : (i : ℕ) → e.cur_max_fd < i → e.channels i ≡ none
    pub max_small : e.cur_max_fd < total_size
    pub count : e.channel_nums ≡ count_to e.channels (suc e.cur_max_fd)
