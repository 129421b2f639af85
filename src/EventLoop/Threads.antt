-- ===== src/EventLoop/Threads.antt =====
-- Which loop belongs to which thread, in src/event_loop.h and src/event_loop.cc:
-- `t_loop_in_current_thread`, the loops that are alive, and the calls that are only for the
-- loop's thread. A loop is its address, a thread its number.
use base_linux.Base.{
  ℕ, suc, Bool, true, false, not, Option, none, some, update, ◌==◌, if◌then◌else◌, ◌>>=◌, ◌>>◌,
  assert,
}
use base_linux.Epoller.{EpollLib, Epoller, slot, update_channel, remove_channel}
use base_linux.EventLoop.{EventLoop, push_back}

-- `tid_` and `looping_`
pub record Owned : Type 0 where
  pub tid : ℕ
  pub looping : Bool

pub record Threads : Type 0 where
  -- `t_loop_in_current_thread` of each thread
  pub current : ℕ → Option ℕ
  -- the loops that are alive
  pub loops : ℕ → Option Owned

abbrev pub is_nothing {ℓ} : {A : Type ℓ} → Option A → Bool
is_nothing none = true
is_nothing (some a) = false

-- `IsInLoopThread`
abbrev pub is_in_loop_thread : Owned → ℕ → Bool
is_in_loop_thread l tid = l.tid == tid

-- `AssertInLoopThread`, with `AbortNotInLoopThread`
abbrev pub assert_in_loop_thread : Owned → ℕ → Option (Unit {0})
assert_in_loop_thread l tid = assert (is_in_loop_thread l tid)

-- `EventLoop()` on a thread, at an address
unfoldable pub create : ℕ → ℕ → Threads → Option Threads
create tid loop s = do
  assert (is_nothing (s.current tid))
  some (record s {
    current = update s.current tid (some loop);
    loops = update s.loops loop (some (record { tid = tid; looping = false }));
  })

-- `~EventLoop` on a thread; `DisableAll` of the wake-up channel asserts that it is the loop's.
unfoldable pub destroy : ℕ → ℕ → Threads → Option Threads
destroy tid loop s = do
  l ← s.loops loop
  assert (not l.looping)
  assert_in_loop_thread l tid
  some (record s { current = update s.current tid none; loops = update s.loops loop none })

-- the start of `Loop`, and its end, which only a loop that loops comes to, on its thread
unfoldable pub loop_starts : ℕ → ℕ → Threads → Option Threads
loop_starts tid loop s = do
  l ← s.loops loop
  assert (not l.looping)
  assert_in_loop_thread l tid
  some (record s { loops = update s.loops loop (some (record l { looping = true })) })

unfoldable pub loop_ends : ℕ → ℕ → Threads → Option Threads
loop_ends tid loop s = do
  l ← s.loops loop
  assert_in_loop_thread l tid
  assert l.looping
  some (record s { loops = update s.loops loop (some (record l { looping = false })) })

-- `GetEventLoopOfCurrentThread`
abbrev pub get_event_loop_of_current_thread : Threads → ℕ → Option ℕ
get_event_loop_of_current_thread s tid = s.current tid

-- `RunInLoop` on a thread: whether it calls the task at once, and the loop with the task queued
-- if it does not. Another thread's `Wakeup` comes after its `push_back`.
abbrev pub run_in_loop : Owned → ℕ → EventLoop → ℕ → Bool × EventLoop
run_in_loop l tid loop task =
    if is_in_loop_thread l tid
    then (true, loop)
    else (false, record (push_back loop task) { posting = suc loop.posting })

module _ {lib : EpollLib} where
  -- `UpdateChannel` and `RemoveChannel` of a loop, for a channel of the loop `owner`
  abbrev pub loop_update_channel : Owned → ℕ → ℕ → ℕ → Epoller lib → ℕ → Option (Epoller lib)
  loop_update_channel l tid loop owner poller channel = do
    assert_in_loop_thread l tid
    assert (owner == loop)
    update_channel poller channel

  abbrev pub loop_remove_channel : Owned → ℕ → ℕ → ℕ → Epoller lib → ℕ → Option (Epoller lib)
  loop_remove_channel l tid loop owner poller channel = do
    assert_in_loop_thread l tid
    assert (owner == loop)
    remove_channel poller channel

  -- `HasChannel` of the poller, and of a loop
  unfoldable pub has_channel : Epoller lib → ℕ → ℕ → Option Bool
  has_channel poller channel fd = do
    held ← slot poller fd
    elim held [ none ↦ some false | some other ↦ (do assert (other == channel); some true) ]

  abbrev pub loop_has_channel : Owned → ℕ → ℕ → ℕ → Epoller lib → ℕ → ℕ → Option Bool
  loop_has_channel l tid loop owner poller channel fd = do
    assert_in_loop_thread l tid
    assert (owner == loop)
    has_channel poller channel fd

-- One of the calls, on a thread
pub data Call : Type 0 where
  creates destroys starts ends : ℕ → ℕ → Call

unfoldable pub step : Threads → Call → Option Threads
unfolding create destroy loop_starts loop_ends
step s (creates tid loop) = create tid loop s
step s (destroys tid loop) = destroy tid loop s
step s (starts tid loop) = loop_starts tid loop s
step s (ends tid loop) = loop_ends tid loop s
