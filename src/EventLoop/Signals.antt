-- ===== src/EventLoop/Signals.antt =====
-- The signals of src/event_loop.cc: which are blocked, which the loop handles, and `HandleSignal`.
use base_linux.Base.{
  ℕ, zero, suc, ◌+◌, ◌*◌, ◌-◌, Bool, true, false, Option, none, some, List, [], ◌∷◌, ◌++◌, length,
  ◌==◌, if◌then◌else◌,
}

abbrev pub sigint : ℕ
sigint = 2

abbrev pub sigquit : ℕ
sigquit = 3

abbrev pub sigusr1 : ℕ
sigusr1 = 10

abbrev pub sigusr2 : ℕ
sigusr2 = 12

abbrev pub sigpipe : ℕ
sigpipe = 13

-- the mask of `InitSignal`
abbrev pub init_signal : List ℕ
init_signal = sigpipe ∷ sigint ∷ sigquit ∷ sigusr1 ∷ sigusr2 ∷ []

-- the mask that `SetHandleSingnal` gives to `signalfd`
abbrev pub set_handle_signal : List ℕ
set_handle_signal = sigint ∷ sigquit ∷ sigusr1 ∷ sigusr2 ∷ []

-- one answer of `read` of the signals' descriptor
pub data Answer : Type 0 where
  piece : List ℕ → Answer
  interrupted : Answer
  again : Answer
  broken : Answer

-- What the loop of `HandleSignal` comes to: a whole `siginfo` or the return after an error, with
-- the answers that are left, or the next turn, when the answers of `read` are used up.
pub data Reading : Type 0 where
  whole : List ℕ → List Answer → Reading
  returned : List Answer → Reading
  waiting : Reading

-- the loop of `HandleSignal`, with `len` bytes left to read behind those that are read
unfoldable pub read_loop : ℕ → List ℕ → List Answer → Reading
read_loop zero bytes answers = whole bytes answers
read_loop (suc len) bytes [] = waiting
read_loop (suc len) bytes (piece more ∷ answers) =
    read_loop (suc len - length more) (bytes ++ more) answers
read_loop (suc len) bytes (interrupted ∷ answers) = read_loop (suc len) bytes answers
read_loop (suc len) bytes (again ∷ answers) = read_loop (suc len) bytes answers
read_loop (suc len) bytes (broken ∷ answers) = returned answers

-- which callbacks are set
pub record SignalCallbacks : Type 0 where
  pub sig_int_cb : Bool
  pub sig_quit_cb : Bool
  pub sig_usr1_cb : Bool
  pub sig_usr2_cb : Bool

-- `ssi_signo`, the first four bytes, the lowest one first
unfoldable pub ssi_signo : List ℕ → ℕ
ssi_signo [] = 0
ssi_signo (b ∷ []) = b
ssi_signo (b ∷ c ∷ []) = b + 256 * c
ssi_signo (b ∷ c ∷ d ∷ []) = b + 256 * c + 65536 * d
ssi_signo (b ∷ c ∷ d ∷ e ∷ rest) = b + 256 * c + 65536 * d + 16777216 * e

-- a callback, named by its signal, if it is set
abbrev pub call_if : Bool → ℕ → Option (List ℕ)
call_if true signo = some (signo ∷ [])
call_if false signo = some []

-- the `switch` of `HandleSignal`: the callbacks that it calls
unfoldable pub dispatch : SignalCallbacks → ℕ → Option (List ℕ)
dispatch callbacks signo =
    if signo == sigint
    then call_if callbacks.sig_int_cb sigint
    else if signo == sigquit
    then call_if callbacks.sig_quit_cb sigquit
    else if signo == sigusr1
    then call_if callbacks.sig_usr1_cb sigusr1
    else if signo == sigusr2
    then call_if callbacks.sig_usr2_cb sigusr2
    else none

-- What a call of `HandleSignal` comes to: callbacks and the answers that it has not read, a failed
-- assertion, or a call that has not returned
pub data Handled : Type 0 where
  calls : List ℕ → List Answer → Handled
  fails : Handled
  spins : Handled

abbrev pub handled : Option (List ℕ) → List Answer → Handled
handled none rest = fails
handled (some signals) rest = calls signals rest

-- what follows the loop
unfoldable pub after_reading : SignalCallbacks → Reading → Handled
unfolding dispatch ssi_signo
after_reading callbacks (whole siginfo rest) = handled (dispatch callbacks (ssi_signo siginfo)) rest
after_reading callbacks (returned rest) = calls [] rest
after_reading callbacks waiting = spins

-- `HandleSignal`; a `signalfd_siginfo` has 128 bytes.
unfoldable pub handle_signal : SignalCallbacks → List Answer → Handled
unfolding read_loop after_reading
handle_signal callbacks answers = after_reading callbacks (read_loop 128 [] answers)
