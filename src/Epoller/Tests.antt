-- ===== src/Epoller/Tests.antt =====
-- The theorems on the poller, applied to one with a channel that is watched and a new one.
use base_linux.Base.{
  ℕ, ◌≡◌, refl, ap, inl, inr, true, false, none, some, [], ◌∷◌, arith, ◌==◌, Bool-cases, update,
}
use base_linux.Channel.{EventMask, Channel, none_event, k_new, k_added, reading_on}
use base_linux.Epoller.{Epoller, registered, change_events, remove_channel, poll}
use base_linux.Epoller.Counting.{count_to}
use base_linux.Epoller.Table.{IsValid}
use base_linux.Epoller.Settling.{Settles, Accepts, one_channel}
use base_linux.Epoller.Updating.{change_events_lem}
use base_linux.Epoller.Removing.{Removes, remove_channel_lem}
use base_linux.Epoller.Polling.{Polls, poll_lem}
use base_linux.Epoller.Kernel.{kernel}

abbrev reading : EventMask
reading = record none_event { epollin = true; epollpri = true }

abbrev watched_channel : Channel
watched_channel = record {
  fd = 5;
  events = reading;
  revents = none_event;
  status = k_added;
  handling = false;
  tied = false;
  read_cb = true;
  write_cb = false;
  close_cb = false;
  error_cb = false;
}

abbrev new_channel : Channel
new_channel = record watched_channel { fd = 3; events = none_event; status = k_new }

abbrev poller : Epoller kernel
poller = record {
  objects = update (update (λ _. none) 8 (some new_channel)) 7 (some watched_channel);
  channels = update (λ _. none) 5 (some 7);
  channel_nums = 1;
  cur_max_fd = 5;
  active_channels = none ∷ none ∷ [];
  event_list_size = 2;
  egen = 0;
  kernel = update (λ _. none) 5 (some (reading, 7));
}

poller-IsValid : IsValid poller
unfolding count_to
poller-IsValid = record {
  listed = λ i p h.
      let fd : i ≡ 5 = ground (arith, h) in
      let pointer : p ≡ 7 = ground (arith, h) in
      rw (fd, pointer)
        (record {
          channel = watched_channel;
          live = refl;
          own = refl;
          small = ground arith;
          status = refl;
          interest = refl;
        });
  unwatched = λ i h. ground (arith, h);
  known = λ p c h. elim (Bool-cases (p == 7)) [
    | inl here ↦
        let same : p ≡ 7 = ground (arith, here) in
        let one : c ≡ watched_channel = one_channel poller.objects p 7 h refl same in
        inr (rw (one, same) refl)
    | inr there ↦
        let same : p ≡ 8 = ground (arith, there, h) in
        let one : c ≡ new_channel = one_channel poller.objects p 8 h refl same in
        inl (ap (λ (x : Channel). x.status) one)
  ];
  above = λ i h. ground (arith, h);
  max_small = ground arith;
  count = refl;
}

poller-Accepts : (fd : ℕ) → Accepts poller fd
poller-Accepts fd op event proper =
    (update poller.kernel fd (registered op event), ground (arith, proper))

change_events_lem_example :
    (e' : Epoller kernel) × (change_events reading_on poller 8 ≡ some e')
    × IsValid e'
    × Settles poller 8 new_channel (reading_on none_event) e'
change_events_lem_example =
    change_events_lem poller 8 new_channel reading_on poller-IsValid refl (ground arith) (λ _. refl)
      (poller-Accepts 3)

remove_channel_lem_example :
    (e' : Epoller kernel) × (remove_channel poller 7 ≡ some e')
    × IsValid e'
    × Removes poller 7 watched_channel e'
remove_channel_lem_example =
    remove_channel_lem poller 7 watched_channel poller-IsValid refl refl (poller-Accepts 5)

poll_lem_example :
    (e' : Epoller kernel) × (poll poller ((reading, 7) ∷ []) ≡ some e')
    × Polls poller ((reading, 7) ∷ []) e'
poll_lem_example =
    poll_lem poller ((reading, 7) ∷ []) poller-IsValid refl (ground arith) (ground arith)
      ((5, reading, refl), tt)
