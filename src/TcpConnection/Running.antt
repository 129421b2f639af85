-- ===== src/TcpConnection/Running.antt =====
-- A connection through any sequence of events.
use base_linux.Base.{
  ◌+◌, ◌^◌, ◌≤◌, ◌<◌, ◌≡◌, refl, sym, ap, ◌∙◌, inl, inr, true, false, some, List, [], ◌∷◌, length,
  arith, Bool-cases,
}
use base_linux.Buffer.{Buffer, CopyBackward, failed, delivered}
use base_linux.Buffer.Space.{contents, HandlesOverlap}
use base_linux.TcpConnection.{
  State, disconnected, connecting, connected, disconnecting, is_connected, is_connecting, is_over,
  TcpConnection, connects, notice_if, answer, shutdown_write_in_loop, force_close_in_loop,
  connection_established, connection_destroy, Event, establishes, sends, writes, reads, shuts_down,
  forces_close, closes, errs, destroys, step, run,
}
use base_linux.TcpConnection.Stream.{
  is_empty, stream, push, drain, pushes, Stream-ext, line, Line-ext, line_step, line_run,
}
use base_linux.TcpConnection.Valid.{IsValid, Fits, notice_if-IsValid, line-notice_if}
use base_linux.TcpConnection.Output.{send_lem, send_down}
use base_linux.TcpConnection.Draining.{handle_write_lem}
use base_linux.TcpConnection.Input.{
  AllSendable, handle_close_lem, Reads, read_bytes, read_end, read_failed,
}

-- When each event may come, and what the kernel may answer.
abbrev pub Allowed : CopyBackward → TcpConnection → Event → Type 0
Allowed std c establishes = is_connecting c.state ≡ true
Allowed std c (sends dat outcome) =
    (c.buffer_output.write_index + length dat < 2 ^ 63) × Fits outcome (length dat)
Allowed std c (writes outcome) =
    (c.writing ≡ true) × Fits outcome (length (contents c.buffer_output))
Allowed std c (reads (failed e) taken replies) = c.reading ≡ true
Allowed std c (reads (delivered bytes) taken replies) =
    (c.reading ≡ true)
    × (length c.buffer_input.buffer + length bytes < 2 ^ 63)
    × (length bytes < 2 ^ 31)
    × (taken ≤ length (contents c.buffer_input) + length bytes)
    × ((input : Buffer) → AllSendable std (record c { buffer_input = input }) replies)
Allowed std c shuts_down = Unit {0}
Allowed std c forces_close = is_connecting c.state ≡ false
Allowed std c closes = Unit {0}
Allowed std c errs = Unit {0}
Allowed std c destroys = is_over c.state ≡ true

not_up : (s : State) → is_connecting s ≡ true → is_connected s ≡ false
not_up disconnected h = refl
not_up connecting h = refl
not_up connected h = cc
not_up disconnecting h = refl

over : (s : State) → is_over s ≡ true → (is_connected s ≡ false) × (is_connecting s ≡ false)
over disconnected h = (refl, refl)
over connecting h = cc
over connected h = cc
over disconnecting h = (refl, refl)

established-Reads :
    (std : CopyBackward) (c : TcpConnection)
    → IsValid c
    → is_connecting c.state ≡ true
    → Reads std c (some (connection_established c)) (record (line c) { is_up = true })
unfolding connection_established
established-Reads std c v at =
    let c1 : TcpConnection = record c { state = connected; reading = true; listed = true } in
    let v1 : IsValid c1 = record {
      input = v.input;
      output = v.output;
      writing = ground (arith, v.writing, not_up c.state at, ap is_empty (v.unused at));
      reading = refl;
      unused = λ h. cc;
      removable = v.removable;
    } in
    (
      notice_if c.connection_cb connects c1,
      refl,
      notice_if-IsValid c1 c.connection_cb connects v1,
      line-notice_if c1 c.connection_cb connects,
    )

forced-Reads :
    (std : CopyBackward) (c : TcpConnection)
    → IsValid c
    → is_connecting c.state ≡ false
    → Reads std c (force_close_in_loop c) (record (line c) { is_up = false })
unfolding force_close_in_loop
forced-Reads std c v used = elim (Bool-cases (is_over c.state)) [
  | inl done ↦
      (c, ground (arith, done), v, ap (λ b. record (line c) { is_up = b }) ((over c.state done).0))
  | inr more ↦ let h = handle_close_lem c v in (h.0, ground (arith, more, h.1), h.2, h.3)
]

shut-Reads :
    (std : CopyBackward) (c : TcpConnection)
    → IsValid c
    → Reads std c (some (shutdown_write_in_loop c)) (line c)
unfolding shutdown_write_in_loop
shut-Reads std c v = elim (Bool-cases c.writing) [
  | inl on ↦ (c, ground (arith, on), v, refl)
  | inr off ↦ (
    record c { shut = true },
    ground (arith, off),
    record {
      input = v.input;
      output = v.output;
      writing = v.writing;
      reading = v.reading;
      unused = v.unused;
      removable = v.removable;
    },
    refl,
  )
]

destroyed-Reads :
    (std : CopyBackward) (c : TcpConnection)
    → IsValid c
    → is_over c.state ≡ true
    → Reads std c (some (connection_destroy c)) (record (line c) { is_up = false })
unfolding connection_destroy
destroyed-Reads std c v done =
    let down = (over c.state done).0 in
    (
      record c { state = disconnected; listed = false },
      refl,
      record {
        input = v.input;
        output = v.output;
        writing = ground (arith, v.writing, down);
        reading = v.reading ∙ down;
        unused = λ h. cc;
        removable = v.removable;
      },
      refl,
    )

-- Each event does to the connection what it means for the line.
step-Reads :
    (std : CopyBackward) (c : TcpConnection) (e : Event)
    → HandlesOverlap std
    → IsValid c
    → Allowed std c e
    → Reads std c (step std c e) (line_step (line c) e)
unfolding step
step-Reads std c establishes o v ok = established-Reads std c v ok
step-Reads std c (sends dat outcome) o v ok = elim (Bool-cases (is_connected c.state)) [
  | inl up ↦
      let m = send_lem std c dat o v up ok.0 outcome ok.1 in
      (
        m.0,
        m.1,
        m.2.valid,
        Line-ext (line m.0) (record (line c) { bytes = push (stream c) dat outcome })
              (ap is_connected m.2.keeps.state)
              (Stream-ext (stream m.0) (push (stream c) dat outcome) m.2.out m.2.waiting)
            ∙ ground (arith, up),
      )
  | inr down ↦ (c, send_down std c dat outcome down, v, ground (arith, down))
]
step-Reads std c (writes outcome) o v ok =
    let m = handle_write_lem c v ok.0 outcome ok.1 in
    (
      m.0,
      m.1,
      m.2.valid,
      Line-ext (line m.0) (record (line c) { bytes = drain (stream c) outcome })
          (ap is_connected m.2.keeps.state)
          (Stream-ext (stream m.0) (drain (stream c) outcome) m.2.out m.2.waiting),
    )
step-Reads std c (reads (failed e) taken replies) o v ok =
    read_failed std c o v ok (answer std taken replies) e
step-Reads std c (reads (delivered []) taken replies) o v ok =
    read_end std c o v ok.0 (answer std taken replies) (ground (arith, ok))
step-Reads std c (reads (delivered (x ∷ xs)) taken replies) o v ok =
    let m = read_bytes std c o v ok.0 (x ∷ xs) taken replies (ground arith) ok.1 ok.2 ok.3 ok.4 in
    (
      m.0,
      m.1,
      m.2,
      m.3
          ∙ ap (λ b. record { is_up = b; bytes = pushes (stream c) replies })
              (sym (sym v.reading ∙ ok.0)),
    )
step-Reads std c shuts_down o v ok = shut-Reads std c v
step-Reads std c forces_close o v ok = forced-Reads std c v ok
step-Reads std c closes o v ok = handle_close_lem c v
step-Reads std c errs o v ok = (c, refl, v, refl)
step-Reads std c destroys o v ok = destroyed-Reads std c v ok

-- Each event may come when it does.
unfoldable pub AllAllowed : CopyBackward → TcpConnection → List Event → Type 0
AllAllowed std c [] = Unit {0}
AllAllowed std c (e ∷ es) =
    Allowed std c e × ((c' : TcpConnection) → step std c e ≡ some c' → AllAllowed std c' es)

-- From a valid connection, through any sequence of events each of which may come when it does
-- (ConnectionDestroy only once the connection is closed, and fewer than 2^31 bytes at one read),
-- with a copy that serves ranges that overlap: no assert fails, the connection that results is
-- valid, and what one sees of it from outside (whether it is up, the bytes the kernel has taken,
-- the bytes that wait) is what the abstract line does with the same events.
pub run_lem :
    (std : CopyBackward) (es : List Event) (c : TcpConnection)
    → HandlesOverlap std
    → IsValid c
    → AllAllowed std c es
    → (c' : TcpConnection) × (run std c es ≡ some c')
      × IsValid c'
      × (line c' ≡ line_run (line c) es)
unfolding run AllAllowed line_run
run_lem std [] c o v all = (c, refl, v, refl)
run_lem std (e ∷ es) c o v all =
    let m = step-Reads std c e o v all.0 in
    let n = run_lem std es m.0 o m.2 (all.1 m.0 m.1) in
    (n.0, ground (arith, m.1, n.1), n.2, n.3 ∙ ap (λ l. line_run l es) m.3)
