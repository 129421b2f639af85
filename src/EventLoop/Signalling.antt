-- ===== src/EventLoop/Signalling.antt =====
-- `HandleSignal` of src/event_loop.cc, however the bytes of a signal come.
use base_linux.Base.{
  ℕ, zero, suc, ◌-◌, ◌<◌, ◌≡◌, refl, Bool, List, [], ◌∷◌, ◌++◌, length, length-append, arith,
}
use base_linux.EventLoop.Signals.{
  Answer, piece, interrupted, again, broken, waiting, read_loop, SignalCallbacks, spins,
  handle_signal, after_reading,
}

-- The bytes of the answers
unfoldable pub bytes_of : List Answer → List ℕ
bytes_of [] = []
bytes_of (piece more ∷ answers) = more ++ bytes_of answers
bytes_of (interrupted ∷ answers) = bytes_of answers
bytes_of (again ∷ answers) = bytes_of answers
bytes_of (broken ∷ answers) = bytes_of answers

-- No answer but pieces and calls to try again
unfoldable pub NoError : List Answer → Type 0
NoError [] = Unit {0}
NoError (piece more ∷ answers) = NoError answers
NoError (interrupted ∷ answers) = NoError answers
NoError (again ∷ answers) = NoError answers
NoError (broken ∷ answers) = ⊥

-- Answers without bytes among them that are left unread, before those that come later
abbrev Left : List Answer → (List Answer → Type 0) → Type 0
Left later P = (rest : List Answer) × (bytes_of rest ≡ []) × P (rest ++ later)

-- The callbacks of the signals in the mask, in its order
abbrev pub flags : SignalCallbacks → List Bool
flags callbacks =
    callbacks.sig_int_cb ∷ callbacks.sig_quit_cb ∷ callbacks.sig_usr1_cb ∷ callbacks.sig_usr2_cb
    ∷ []

-- Answers with fewer bytes leave the loop at its next call of `read`.
read_loop-waiting :
    (answers : List Answer) (len : ℕ) (bytes : List ℕ)
    → NoError answers
    → length (bytes_of answers) < len
    → read_loop len bytes answers ≡ waiting
unfolding read_loop bytes_of NoError
read_loop-waiting answers zero bytes fine short = absurd (omega arith)
read_loop-waiting [] (suc len) bytes fine short = refl
read_loop-waiting (piece more ∷ answers) (suc len) bytes fine short =
    let joined = length-append more (bytes_of answers) in
    read_loop-waiting answers (suc len - length more) (bytes ++ more) fine (omega arith)
read_loop-waiting (interrupted ∷ answers) (suc len) bytes fine short =
    read_loop-waiting answers (suc len) bytes fine short
read_loop-waiting (again ∷ answers) (suc len) bytes fine short =
    read_loop-waiting answers (suc len) bytes fine short
read_loop-waiting (broken ∷ answers) (suc len) bytes fine short = absurd fine

-- Answers with fewer bytes, none of them an error, leave `HandleSignal` in its loop.
pub handle_signal-read_loop :
    (callbacks : SignalCallbacks) (answers : List Answer)
    → NoError answers
    → length (bytes_of answers) < 128
    → handle_signal callbacks answers ≡ spins
unfolding handle_signal after_reading
handle_signal-read_loop callbacks answers fine short =
    rw (read_loop-waiting answers 128 [] fine short) refl
