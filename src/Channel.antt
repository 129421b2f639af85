-- ===== src/Channel.antt =====
-- src/channel.h and src/channel.cc: one descriptor's events and what is called for them. A mask of
-- epoll's bits is the record of the bits that the code looks at.
use base_linux.Base.{
  assert, ltb, not, Option, some, ◌>>◌, ◌&&◌, if◌then◌else◌, List, [], ◌∷◌, ◌++◌, ℕ, Bool, true,
  false, ◌||◌,
}

pub record EventMask : Type 0 where
  pub epollin : Bool
  pub epollpri : Bool
  pub epollout : Bool
  pub epollhup : Bool
  pub epollrdhup : Bool
  pub epollerr : Bool

-- `kNoneEvent`
abbrev pub none_event : EventMask
none_event = record {
  epollin = false;
  epollpri = false;
  epollout = false;
  epollhup = false;
  epollrdhup = false;
  epollerr = false;
}

-- Whether some bit is set: `!IsNoneEvent()` of `events_`.
abbrev pub is_some_event : EventMask → Bool
is_some_event m = m.epollin || m.epollpri || m.epollout || m.epollhup || m.epollrdhup || m.epollerr

-- `kNew`, `kAdded` and `kDel` of epoller.cc
abbrev pub k_new : ℕ
k_new = 1

abbrev pub k_added : ℕ
k_added = 2

abbrev pub k_del : ℕ
k_del = 3

-- A callback is a flag: whether one is set.
pub record Channel : Type 0 where
  pub fd : ℕ
  pub events : EventMask
  pub revents : EventMask
  pub status : ℕ
  pub handling : Bool
  pub tied : Bool
  pub read_cb : Bool
  pub write_cb : Bool
  pub close_cb : Bool
  pub error_cb : Bool

-- `Channel(event_loop, fd, name)`
unfoldable pub new_channel : ℕ → Option Channel
new_channel fd = do
  assert (ltb 0 fd)
  some (record {
    fd = fd;
    events = none_event;
    revents = none_event;
    status = k_new;
    handling = false;
    tied = false;
    read_cb = false;
    write_cb = false;
    close_cb = false;
    error_cb = false;
  })

-- `~Channel`
abbrev pub delete_channel : Channel → Option (Unit {0})
delete_channel c = assert (not c.handling)

-- `Tie`
abbrev pub tie : Channel → Channel
tie c = record c { tied = true }

-- What the methods do to `events_` before `UpdateEvent`.
abbrev pub reading_on : EventMask → EventMask
reading_on m = record m { epollin = true; epollpri = true }

abbrev pub reading_off : EventMask → EventMask
reading_off m = record m { epollin = false; epollpri = false }

abbrev pub writing_on : EventMask → EventMask
writing_on m = record m { epollout = true }

abbrev pub writing_off : EventMask → EventMask
writing_off m = record m { epollout = false }

abbrev pub all_off : EventMask → EventMask
all_off m = none_event

-- Which callback is called.
pub data Call : Type 0 where
  closes : Call
  errs : Call
  reads : Call
  writes : Call

abbrev pub call_if : Bool → Call → List Call
call_if true call = call ∷ []
call_if false call = []

-- The calls of `HandleEvent_`, in order. `handling_` is true from the first to the last.
unfoldable pub called : Channel → List Call
called c =
    if c.revents.epollhup || c.revents.epollrdhup
    then call_if c.close_cb closes
    else if c.revents.epollerr
    then call_if c.error_cb errs
    else call_if ((c.revents.epollin || c.revents.epollpri) && c.read_cb) reads
      ++ call_if (c.revents.epollout && c.write_cb) writes

-- `HandleEvent`, given whether the owner is still there.
unfoldable pub handle_event : Channel → Bool → List Call
unfolding called
handle_event c owner = if c.tied then if owner then called c else [] else called c
