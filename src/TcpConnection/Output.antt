-- ===== src/TcpConnection/Output.antt =====
-- `_Send`: what is sent goes behind what waits.
use base_linux.Base.{
  ℕ, ◌+◌, ◌-◌, ◌^◌, ◌<◌, ◌≡◌, refl, sym, ap, ◌∙◌, inl, inr, true, false, ◌&&◌, Option, none, some,
  List, [], ◌∷◌, ◌++◌, length, take, drop, add_size, leb, ◌==◌, arith, Bool-cases, append-nil,
  length-drop, drop_all,
}
use base_linux.Buffer.{Buffer, CopyBackward, readable_bytes}
use base_linux.Buffer.Space
use base_linux.Buffer.Space.{
  contents, HandlesOverlap, Copied-of_overlap, readable_bytes_lem, length-contents,
}
use base_linux.Buffer.Contents.{append_lem}
use base_linux.TcpConnection.{
  is_connected, writes_complete, is_over_mark, TcpConnection, queue_if, send_most_possible,
  send_dat_queue_in_buffer, send,
}
use base_linux.TcpConnection.Stream.{is_empty, stream, push}
use base_linux.TcpConnection.Valid.{
  IsValid, Keeps, Fits, is_empty_of_length, empty_of_is_empty, is_empty-append, queue_if-IsValid,
  queue_if_output, queue_if_sent, queue_if-Keeps,
}
use base_linux.TcpConnection.Stream.{push_alone, push_behind}

-- What `_SendDatQueueInBuffer` has done.
record Queues (c : TcpConnection) (dat : List ℕ) (c' : TcpConnection) : Type 0 where
  output : Space.IsValid c'.buffer_output
  contents_lem : contents c'.buffer_output ≡ contents c.buffer_output ++ dat
  writing : c'.writing ≡ true
  sent : c'.sent ≡ c.sent
  keeps : Keeps c c'

send_dat_queue_in_buffer_lem :
    (std : CopyBackward) (c : TcpConnection) (dat : List ℕ)
    → HandlesOverlap std
    → Space.IsValid c.buffer_output
    → c.buffer_output.write_index + length dat < 2 ^ 63
    → (c' : TcpConnection) × (send_dat_queue_in_buffer std c dat ≡ some c') × Queues c dat c'
unfolding send_dat_queue_in_buffer
send_dat_queue_in_buffer_lem std c dat o v small =
    let m =
      append_lem std {b = c.buffer_output} dat v (Copied-of_overlap std {b = c.buffer_output} o v)
        small in
    let wait = add_size (readable_bytes c.buffer_output) (length dat) in
    let c1 = queue_if (leb c.overstock_size wait && c.high_water_mark_cb) (is_over_mark wait) c in
    (
      record c1 { buffer_output = m.0; writing = true },
      ground (arith, m.1),
      record {
        output = m.2;
        contents_lem = m.3;
        writing = refl;
        sent = ground arith;
        keeps = record {
          state = ground arith;
          input = ground arith;
          reading = ground arith;
          remove_cb = ground arith;
        };
      },
    )

-- What `_Send` has done on a connection that is up.
pub record Sends (c : TcpConnection) (dat : List ℕ) (outcome : Option ℕ) (c' : TcpConnection)
    : Type 0 where
  pub valid : IsValid c'
  pub out : c'.sent ≡ (push (stream c) dat outcome).out
  pub waiting : contents c'.buffer_output ≡ (push (stream c) dat outcome).waiting
  pub keeps : Keeps c c'

-- a connection whose buffer has got bytes to wait
queued-IsValid :
    (c : TcpConnection) (dat : List ℕ) (c' : TcpConnection)
    → IsValid c
    → is_connected c.state ≡ true
    → is_empty dat ≡ false
    → Queues c dat c'
    → IsValid c'
queued-IsValid c dat c' v up some_dat q = record {
  input = rw (q.keeps.input) v.input;
  output = q.output;
  writing = ground (
    arith,
    q.writing,
    q.keeps.state,
    up,
    q.contents_lem,
    is_empty-append (contents c.buffer_output) dat some_dat,
  );
  reading = q.keeps.reading ∙ v.reading ∙ ap is_connected (sym q.keeps.state);
  unused = λ h. ground (arith, h, up, q.keeps.state);
  removable = q.keeps.remove_cb ∙ v.removable;
}

nothing_readable : {b : Buffer} → Space.IsValid b → contents b ≡ [] → readable_bytes b ≡ 0
nothing_readable {b} v h = omega (arith, length-contents {b = b} v, ap length h)

no_bytes : (dat : List ℕ) → length dat ≡ 0 → dat ≡ []
no_bytes [] h = refl
no_bytes (x ∷ xs) h = ground (arith, h)

module _ (std : CopyBackward) (c : TcpConnection) (dat : List ℕ) (o : HandlesOverlap std)
    (v : IsValid c) (up : is_connected c.state ≡ true)
    (small : c.buffer_output.write_index + length dat < 2 ^ 63) where
  -- something waits already
  send_behind :
      (outcome : Option ℕ)
      → c.writing ≡ true
      → (c' : TcpConnection) × (send std c dat outcome ≡ some c') × Sends c dat outcome c'
  unfolding send send_most_possible
  send_behind outcome on =
      let some_wait : is_empty (contents c.buffer_output) ≡ false =
        ground (arith, v.writing, on, up) in
      elim (Bool-cases (length dat == 0)) [
        | inl none_new ↦
            let nothing = no_bytes dat (ground (arith, none_new)) in
            let c' = queue_if c.write_complete_cb writes_complete c in
            (
              c',
              ground (arith, up, on, none_new),
              record {
                valid = queue_if-IsValid c c.write_complete_cb writes_complete c.sent v;
                out =
                    queue_if_sent c c.write_complete_cb writes_complete
                    ∙ sym ((push_behind (stream c) dat outcome some_wait).0);
                waiting =
                    ap contents (queue_if_output c c.write_complete_cb writes_complete)
                    ∙ sym (append-nil (contents c.buffer_output))
                    ∙ ap (λ xs. contents c.buffer_output ++ xs) (sym nothing)
                    ∙ sym ((push_behind (stream c) dat outcome some_wait).1);
                keeps = queue_if-Keeps c c.write_complete_cb writes_complete c.sent;
              },
            )
        | inr some_new ↦
            let some_dat = is_empty_of_length dat (ground (arith, some_new)) in
            let whole : drop (length dat - length dat) dat ≡ dat =
              let same : length dat - length dat ≡ 0 = omega arith in ap (λ k. drop k dat) same in
            let m = send_dat_queue_in_buffer_lem std c dat o v.output small in
            (
              m.0,
              ground (arith, up, on, some_new, whole, m.1),
              record {
                valid = queued-IsValid c dat m.0 v up some_dat m.2;
                out = m.2.sent ∙ sym ((push_behind (stream c) dat outcome some_wait).0);
                waiting = m.2.contents_lem ∙ sym ((push_behind (stream c) dat outcome some_wait).1);
                keeps = m.2.keeps;
              },
            )
      ]

  -- nothing waits: the kernel is asked
  send_at_once :
      (outcome : Option ℕ)
      → c.writing ≡ false
      → Fits outcome (length dat)
      → (c' : TcpConnection) × (send std c dat outcome ≡ some c') × Sends c dat outcome c'
  unfolding send send_most_possible
  send_at_once none off fits =
      let nothing : is_empty (contents c.buffer_output) ≡ true =
        ground (arith, v.writing, off, up) in
      let zero_bytes : readable_bytes c.buffer_output ≡ 0 =
        nothing_readable {b = c.buffer_output} v.output
          (empty_of_is_empty (contents c.buffer_output) nothing) in
      (
        c,
        ground (arith, up, off, zero_bytes),
        record {
          valid = v;
          out = ground (arith, nothing);
          waiting = ground (arith, nothing);
          keeps = record { state = refl; input = refl; reading = refl; remove_cb = refl };
        },
      )
  send_at_once (some n) off fits =
      let nothing : is_empty (contents c.buffer_output) ≡ true =
        ground (arith, v.writing, off, up) in
      let empty = empty_of_is_empty (contents c.buffer_output) nothing in
      let zero_bytes : readable_bytes c.buffer_output ≡ 0 =
        nothing_readable {b = c.buffer_output} v.output empty in
      let c1 : TcpConnection = record c { sent = c.sent ++ take n dat } in
      elim (Bool-cases (length dat - n == 0)) [
        | inl all ↦
            let c' = queue_if c.write_complete_cb writes_complete c1 in
            (
              c',
              ground (arith, up, off, zero_bytes, all),
              record {
                valid = queue_if-IsValid c c.write_complete_cb writes_complete c1.sent v;
                out =
                    queue_if_sent c1 c.write_complete_cb writes_complete ∙ ground (arith, nothing);
                waiting =
                    ap contents (queue_if_output c1 c.write_complete_cb writes_complete)
                    ∙ empty
                    ∙ sym (drop_all dat n (ground (arith, all)))
                    ∙ sym ((push_alone (stream c) dat n nothing).1);
                keeps = queue_if-Keeps c c.write_complete_cb writes_complete c1.sent;
              },
            )
        | inr some_left ↦
            let rest = drop n dat in
            let place : drop (length dat - (length dat - n)) dat ≡ rest =
              let same : length dat - (length dat - n) ≡ n = omega arith in
              ap (λ k. drop k dat) same in
            let m =
              send_dat_queue_in_buffer_lem std c1 rest o v.output
                (omega (arith, small, length-drop n dat)) in
            let some_rest =
              is_empty_of_length rest (ground (arith, some_left, length-drop n dat)) in
            let v1 : IsValid c1 = queue_if-IsValid c false writes_complete c1.sent v in
            (
              m.0,
              ground (arith, up, off, zero_bytes, some_left, place, m.1),
              record {
                valid = queued-IsValid c1 rest m.0 v1 up some_rest m.2;
                out = m.2.sent ∙ ground (arith, nothing);
                waiting =
                    m.2.contents_lem
                    ∙ ap (λ xs. xs ++ rest) empty
                    ∙ sym ((push_alone (stream c) dat n nothing).1);
                keeps = record {
                  state = m.2.keeps.state;
                  input = m.2.keeps.input;
                  reading = m.2.keeps.reading;
                  remove_cb = m.2.keeps.remove_cb;
                };
              },
            )
      ]

  -- `_Send` on a connection that is up.
  pub send_lem :
      (outcome : Option ℕ)
      → Fits outcome (length dat)
      → (c' : TcpConnection) × (send std c dat outcome ≡ some c') × Sends c dat outcome c'
  send_lem outcome fits = elim (Bool-cases c.writing) [
    | inl on ↦ send_behind outcome on
    | inr off ↦ send_at_once outcome off fits
  ]

-- Once a connection is down, what is sent is dropped.
pub send_down :
    (std : CopyBackward) (c : TcpConnection) (dat : List ℕ) (outcome : Option ℕ)
    → is_connected c.state ≡ false
    → send std c dat outcome ≡ some c
unfolding send
send_down std c dat outcome down = ground (arith, down)

-- The kernel answers with an error.
pub send_refused :
    (std : CopyBackward) (c : TcpConnection) (dat : List ℕ)
    → IsValid c
    → is_connected c.state ≡ true
    → c.writing ≡ false
    → send std c dat none ≡ some c
unfolding send send_most_possible
send_refused std c dat v up off =
    let nothing : is_empty (contents c.buffer_output) ≡ true = ground (arith, v.writing, off, up) in
    let zero_bytes : readable_bytes c.buffer_output ≡ 0 =
      nothing_readable {b = c.buffer_output} v.output
        (empty_of_is_empty (contents c.buffer_output) nothing) in
    ground (arith, up, off, zero_bytes)
