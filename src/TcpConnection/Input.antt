-- ===== src/TcpConnection/Input.antt =====
-- `HandleRead`, with a callback that takes bytes and replies, and `HandleClose`.
use base_linux.Base.{
  ℕ, ◌+◌, ◌^◌, ◌≤◌, ◌<◌, ◌≡◌, refl, sym, ap, ◌∙◌, true, false, Option, some, List, [], ◌∷◌, length,
  arith, length-append,
}
use base_linux.Buffer.{Buffer, CopyBackward, failed, delivered}
use base_linux.Buffer.Space.{contents, HandlesOverlap}
use base_linux.Buffer.Contents.{retrieve_lem}
use base_linux.Buffer.Reading.{read_fd_lem, read_fd-failed}
use base_linux.TcpConnection.{
  disconnecting, is_connected, TcpConnection, disconnects, removes, notice_if, send, send_all,
  answer, handle_read, handle_close,
}
use base_linux.TcpConnection.Stream.{stream, push, pushes, Stream-ext, Line, line, Line-ext}
use base_linux.TcpConnection.Valid.{notice_if-IsValid, line-notice_if, IsValid, Fits}
use base_linux.TcpConnection.Output.{send_lem}

-- Each reply finds room in the output, and the kernel takes at most its bytes.
pub AllSendable : CopyBackward → TcpConnection → List (List ℕ × Option ℕ) → Type 0
AllSendable std c [] = Unit {0}
AllSendable std c ((dat, outcome) ∷ replies) =
    (c.buffer_output.write_index + length dat < 2 ^ 63)
    × Fits outcome (length dat)
    × ((c' : TcpConnection) → send std c dat outcome ≡ some c' → AllSendable std c' replies)

send_all_lem :
    (std : CopyBackward) (replies : List (List ℕ × Option ℕ)) (c : TcpConnection)
    → HandlesOverlap std
    → IsValid c
    → is_connected c.state ≡ true
    → AllSendable std c replies
    → (c' : TcpConnection) × (send_all std c replies ≡ some c')
      × IsValid c'
      × (stream c' ≡ pushes (stream c) replies)
      × (is_connected c'.state ≡ true)
unfolding send_all AllSendable pushes
send_all_lem std [] c o v up all = (c, refl, v, refl, up)
send_all_lem std ((dat, outcome) ∷ replies) c o v up all =
    let m = send_lem std c dat o v up all.0 outcome all.1 in
    let up' = ap is_connected m.2.keeps.state ∙ up in
    let n = send_all_lem std replies m.0 o m.2.valid up' (all.2 m.0 m.1) in
    let same = Stream-ext (stream m.0) (push (stream c) dat outcome) m.2.out m.2.waiting in
    (n.0, ground (arith, m.1, n.1), n.2, n.3 ∙ ap (λ s. pushes s replies) same, n.4)

-- a connection that has just been closed
abbrev closing : TcpConnection → TcpConnection
closing c = record c { state = disconnecting; reading = false; writing = false }

closing-IsValid : (c : TcpConnection) → IsValid c → IsValid (closing c)
closing-IsValid c v = record {
  input = v.input;
  output = v.output;
  writing = refl;
  reading = refl;
  unused = λ h. cc;
  removable = v.removable;
}

pub handle_close_lem :
    (c : TcpConnection)
    → IsValid c
    → (c' : TcpConnection) × (handle_close c ≡ some c')
      × IsValid c'
      × (line c' ≡ record { is_up = false; bytes = stream c })
unfolding handle_close
handle_close_lem c v =
    let c1 = notice_if c.disconnection_cb disconnects (closing c) in
    let v1 = notice_if-IsValid (closing c) c.disconnection_cb disconnects (closing-IsValid c v) in
    (
      notice_if true removes c1,
      ground (arith, v.removable),
      notice_if-IsValid c1 true removes v1,
      line-notice_if c1 true removes ∙ line-notice_if (closing c) c.disconnection_cb disconnects,
    )

-- What `HandleRead` leaves, the connection and its line.
abbrev pub Reads : CopyBackward → TcpConnection → Option TcpConnection → Line → Type 0
Reads std c o l = (c' : TcpConnection) × (o ≡ some c') × IsValid c' × (line c' ≡ l)

module _ (std : CopyBackward) (c : TcpConnection) (o : HandlesOverlap std) (v : IsValid c)
    (on : c.reading ≡ true) where
  up : is_connected c.state ≡ true
  up = sym v.reading ∙ on

  -- Bytes have come, the callback takes some of them and replies.
  pub read_bytes :
      (bytes : List ℕ) (taken : ℕ) (replies : List (List ℕ × Option ℕ))
      → 0 < length bytes
      → length c.buffer_input.buffer + length bytes < 2 ^ 63
      → length bytes < 2 ^ 31
      → taken ≤ length (contents c.buffer_input) + length bytes
      → ((input : Buffer) → AllSendable std (record c { buffer_input = input }) replies)
      → Reads std c
          (handle_read std (answer std taken replies) c (delivered bytes))
          (record { is_up = true; bytes = pushes (stream c) replies })
  unfolding handle_read answer
  read_bytes bytes taken replies some_bytes small int enough all =
      let r = read_fd_lem std bytes {b = c.buffer_input} o v.input small int in
      let t =
        retrieve_lem {b = r.0} taken r.2
          (omega (arith, enough, ap length r.3, length-append (contents c.buffer_input) bytes)) in
      let c1 : TcpConnection = record c { buffer_input = t.0 } in
      let v1 : IsValid c1 = record {
        input = t.2.valid;
        output = v.output;
        writing = v.writing;
        reading = v.reading;
        unused = v.unused;
        removable = v.removable;
      } in
      let s = send_all_lem std replies c1 o v1 up (all t.0) in
      (
        s.0,
        ground (arith, up, r.1, t.1, s.1, some_bytes),
        s.2,
        Line-ext (line s.0) (record { is_up = true; bytes = pushes (stream c) replies }) s.4 s.3,
      )

  -- The other end has closed: so does this one.
  pub read_end :
      (on_read : TcpConnection → Option TcpConnection)
      → length c.buffer_input.buffer < 2 ^ 63
      → Reads std c
          (handle_read std on_read c (delivered []))
          (record { is_up = false; bytes = stream c })
  unfolding handle_read
  read_end on_read small =
      let r =
        read_fd_lem std [] {b = c.buffer_input} o v.input (omega (arith, small)) (omega arith) in
      let c1 : TcpConnection = record c { buffer_input = r.0 } in
      let v1 : IsValid c1 = record {
        input = r.2;
        output = v.output;
        writing = v.writing;
        reading = v.reading;
        unused = v.unused;
        removable = v.removable;
      } in
      let h = handle_close_lem c1 v1 in (h.0, ground (arith, up, r.1, h.1), h.2, h.3)

  -- Nothing could be read.
  pub read_failed :
      (on_read : TcpConnection → Option TcpConnection) (e : ℕ)
      → Reads std c (handle_read std on_read c (failed e)) (line c)
  unfolding handle_read
  read_failed on_read e = (c, ground (arith, up, read_fd-failed std c.buffer_input e), v, refl)
