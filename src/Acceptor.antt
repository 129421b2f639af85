-- ===== src/Acceptor.antt =====
-- src/acceptor.h and src/acceptor.cc: the descriptors of connections that come to a listening
-- socket, and the spare descriptor that is given up when there are no more. `none` is a
-- descriptor that is closed twice, or a failed assert of `Socket`.
pub mod Descriptors
mod Tests
use base_linux.Base.{
  ℕ, suc, Bool, true, false, not, Option, none, some, List, [], ◌∷◌, ◌++◌, update, ltb, ◌==◌,
  if◌then◌else◌, ◌>>=◌, ◌>>◌, assert,
}
use base_linux.Base.Int.{pos}
use base_linux.Socket.{Setting, of_fd, set_keep_alive}

pub record Acceptor : Type 0 where
  -- `none` where it is -1
  pub idle_fd : Option ℕ
  -- whether the callback for new connections is set
  pub new_conn_cb : Bool
  -- the open descriptors that are the acceptor's to close
  pub opened : ℕ → Bool
  -- the descriptors given to the callback, in order
  pub handed : List ℕ

-- What `HandleRead` finds in `errno`: EAGAIN, EMFILE, with what the next `accept4` and the `open`
-- of `/dev/null` answer then, or something else.
pub data Errno : Type 0 where
  eagain : Errno
  emfile : Option ℕ → Option ℕ → Errno
  other_error : Errno

-- What `accept4` answers: a descriptor, with what `CheckConnection` says of it and with the `errno`
-- of an earlier call, or an error.
pub data Accept : Type 0 where
  accepts : ℕ → Bool → Errno → Accept
  fails : Errno → Accept

-- `::close`
abbrev pub close_fd : Acceptor → ℕ → Option Acceptor
close_fd a fd = do assert (a.opened fd); some (record a { opened = update a.opened fd false })

-- `::close` of a descriptor that may be -1, with which it does nothing
abbrev pub close_any : Acceptor → Option ℕ → Option Acceptor
close_any a none = some a
close_any a (some fd) = close_fd a fd

-- a descriptor that may be -1 is open now
abbrev pub open_any : (ℕ → Bool) → Option ℕ → ℕ → Bool
open_any opened none = opened
open_any opened (some fd) = update opened fd true

-- One connection of the loop of `HandleRead`, with what `setsockopt` answers.
pub handle_client : (Setting → Bool) → Acceptor → ℕ → Bool → Option Acceptor
handle_client setsockopt a client_fd good =
    let a' : Acceptor = record a { opened = update a.opened client_fd true } in
    if not good
    then close_fd a' client_fd
    else if not a.new_conn_cb
    then close_fd a' client_fd
    else (do
      socket ← of_fd (pos client_fd)
      _ ← set_keep_alive setsockopt (pos 30) socket
      some (record a' {
        opened = update a'.opened client_fd false;
        handed = a'.handed ++ client_fd ∷ [];
      }))

-- The case EMFILE: the spare descriptor is closed, one connection is accepted and closed,
-- `/dev/null` is opened again.
pub drop_client : Acceptor → Option ℕ → Option ℕ → Option Acceptor
drop_client a accepted reopened = do
  a1 ← close_any a a.idle_fd
  a2 ← close_any (record a1 { opened = open_any a1.opened accepted }) accepted
  some (record a2 { idle_fd = reopened; opened = open_any a2.opened reopened })

-- The last branch of `HandleRead`
abbrev pub handle_errno : Acceptor → Errno → Option Acceptor
handle_errno a eagain = some a
handle_errno a (emfile accepted reopened) = drop_client a accepted reopened
handle_errno a other_error = some a

-- `HandleRead`, with the answers of `accept4` until there are no more connections. The descriptor
-- 0 counts as an error: it stays open.
pub handle_read : (Setting → Bool) → Acceptor → List Accept → Option Acceptor
handle_read setsockopt a [] = some a
handle_read setsockopt a (accepts client_fd good errno ∷ rest) =
    if ltb 0 client_fd
    then (do a' ← handle_client setsockopt a client_fd good; handle_read setsockopt a' rest)
    else handle_errno (record a { opened = update a.opened client_fd true }) errno
handle_read setsockopt a (fails errno ∷ rest) = handle_errno a errno
