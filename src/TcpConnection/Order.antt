-- ===== src/TcpConnection/Order.antt =====
-- The order of the bytes: what is out and what waits is what was accepted.
use base_linux.Base.{
  ℕ, ◌≡◌, refl, sym, ap, ◌∙◌, inl, inr, Option, none, some, List, [], ◌∷◌, ◌++◌, if◌then◌else◌,
  Bool-cases, append_assoc, append-nil, take-append-drop, take, drop,
}
use base_linux.Buffer.{CopyBackward, failed, delivered}
use base_linux.Buffer.Space.{contents, HandlesOverlap}
use base_linux.TcpConnection.{
  TcpConnection, Event, establishes, sends, writes, reads, shuts_down, forces_close, closes, errs,
  destroys, run,
}
use base_linux.TcpConnection.Stream.{
  is_empty, Stream, push, pushes, drain, Line, line, line_step, line_run,
}
use base_linux.TcpConnection.Valid.{IsValid, empty_of_is_empty}
use base_linux.TcpConnection.Running.{AllAllowed, run_lem}

-- the bytes of a call that are not dropped
abbrev pub kept : Stream → List ℕ → Option ℕ → List ℕ
kept s dat none = if is_empty s.waiting then [] else dat
kept s dat (some n) = dat

pub kept_all : Stream → List (List ℕ × Option ℕ) → List ℕ
kept_all s [] = []
kept_all s ((dat, outcome) ∷ replies) = kept s dat outcome ++ kept_all (push s dat outcome) replies

abbrev pub accepted_in : Line → Event → List ℕ
accepted_in l (sends dat outcome) = if l.is_up then kept l.bytes dat outcome else []
accepted_in l (reads (delivered (x ∷ xs)) taken replies) = kept_all l.bytes replies
accepted_in l (reads (delivered []) taken replies) = []
accepted_in l (reads (failed e) taken replies) = []
accepted_in l establishes = []
accepted_in l (writes outcome) = []
accepted_in l shuts_down = []
accepted_in l forces_close = []
accepted_in l closes = []
accepted_in l errs = []
accepted_in l destroys = []

-- The bytes that the connection has accepted for sending in the course of the events: all that is
-- sent while it is up, but for a call that finds nothing waiting and gets an error from the kernel.
pub accepted : Line → List Event → List ℕ
accepted l [] = []
accepted l (e ∷ es) = accepted_in l e ++ accepted (line_step l e) es

abbrev pub total : Stream → List ℕ
total s = s.out ++ s.waiting

total-push :
    (s : Stream) (dat : List ℕ) (outcome : Option ℕ)
    → total (push s dat outcome) ≡ total s ++ kept s dat outcome
total-push s dat none = elim (Bool-cases (is_empty s.waiting)) [
  | inl h ↦ rw h (sym (append-nil (total s)))
  | inr h ↦ rw h (sym (append_assoc s.out s.waiting dat))
]
total-push s dat (some n) = elim (Bool-cases (is_empty s.waiting)) [
  | inl h ↦
      let empty = empty_of_is_empty s.waiting h in
      rw h (
        append_assoc s.out (take n dat) (drop n dat)
        ∙ ap (λ xs. s.out ++ xs) (take-append-drop n dat)
        ∙ ap (λ xs. xs ++ dat) (sym (append-nil s.out) ∙ ap (λ xs. s.out ++ xs) (sym empty)))
  | inr h ↦ rw h (sym (append_assoc s.out s.waiting dat))
]

total-drain : (s : Stream) (outcome : Option ℕ) → total (drain s outcome) ≡ total s
total-drain s none = refl
total-drain s (some n) =
    append_assoc s.out (take n s.waiting) (drop n s.waiting)
    ∙ ap (λ xs. s.out ++ xs) (take-append-drop n s.waiting)

total-pushes :
    (replies : List (List ℕ × Option ℕ)) (s : Stream)
    → total (pushes s replies) ≡ total s ++ kept_all s replies
unfolding pushes kept_all
total-pushes [] s = sym (append-nil (total s))
total-pushes ((dat, outcome) ∷ replies) s =
    total-pushes replies (push s dat outcome)
    ∙ ap (λ xs. xs ++ kept_all (push s dat outcome) replies) (total-push s dat outcome)
    ∙ append_assoc (total s) (kept s dat outcome) (kept_all (push s dat outcome) replies)

total-line_step :
    (l : Line) (e : Event) → total (line_step l e).bytes ≡ total l.bytes ++ accepted_in l e
total-line_step l (sends dat outcome) = elim (Bool-cases l.is_up) [
  | inl up ↦ rw up (total-push l.bytes dat outcome)
  | inr down ↦ rw down (sym (append-nil (total l.bytes)))
]
total-line_step l (reads (delivered (x ∷ xs)) taken replies) = total-pushes replies l.bytes
total-line_step l (reads (delivered []) taken replies) = sym (append-nil (total l.bytes))
total-line_step l (reads (failed e) taken replies) = sym (append-nil (total l.bytes))
total-line_step l establishes = sym (append-nil (total l.bytes))
total-line_step l (writes outcome) = total-drain l.bytes outcome ∙ sym (append-nil (total l.bytes))
total-line_step l shuts_down = sym (append-nil (total l.bytes))
total-line_step l forces_close = sym (append-nil (total l.bytes))
total-line_step l closes = sym (append-nil (total l.bytes))
total-line_step l errs = sym (append-nil (total l.bytes))
total-line_step l destroys = sym (append-nil (total l.bytes))

total-line_run :
    (es : List Event) (l : Line) → total (line_run l es).bytes ≡ total l.bytes ++ accepted l es
unfolding line_run accepted
total-line_run [] l = sym (append-nil (total l.bytes))
total-line_run (e ∷ es) l =
    total-line_run es (line_step l e)
    ∙ ap (λ xs. xs ++ accepted (line_step l e) es) (total-line_step l e)
    ∙ append_assoc (total l.bytes) (accepted_in l e) (accepted (line_step l e) es)

-- From a valid connection, with a copy that serves ranges that overlap, and however the events
-- come, each when it may (ConnectionDestroy only once the connection is closed, and fewer than
-- 2^31 bytes at one read): no assert fails, and the bytes that the kernel has taken, followed by
-- those that wait, are the bytes that were accepted in the course of the events, in the order in
-- which they were sent, behind those of before.
pub run-accepted :
    (std : CopyBackward) (es : List Event) (c : TcpConnection)
    → HandlesOverlap std
    → IsValid c
    → AllAllowed std c es
    → (c' : TcpConnection) × (run std c es ≡ some c')
      × (c'.sent ++ contents c'.buffer_output
          ≡ (c.sent ++ contents c.buffer_output) ++ accepted (line c) es)
run-accepted std es c o v all =
    let m = run_lem std es c o v all in
    (m.0, m.1, ap (λ (l : Line). total l.bytes) m.3 ∙ total-line_run es (line c))
