-- ===== src/TcpConnection/Draining.antt =====
-- `HandleWrite`: the kernel takes what waits, from the front.
use base_linux.Base.{
  ℕ, suc, zero, ◌<◌, ◌≡◌, refl, sym, ap, ◌∙◌, inl, inr, true, false, Option, none, some, ◌++◌,
  length, take, drop, slice, ◌==◌, arith, Bool-cases, length-drop, drop_all,
}
use base_linux.Buffer.{Buffer, readable_bytes}
use base_linux.Buffer.Space.{contents, readable_bytes_lem, length-contents}
use base_linux.Buffer.Contents.{retrieve_lem, Taken}
use base_linux.TcpConnection.{is_connected, writes_complete, TcpConnection, queue_if, handle_write}
use base_linux.TcpConnection.Stream.{is_empty, Stream, stream, drain}
use base_linux.TcpConnection.Valid.{
  IsValid, Keeps, Fits, is_empty_of_length, queue_if-IsValid, queue_if_output, queue_if_sent,
  queue_if-Keeps,
}
use base_linux.TcpConnection.Stream.{drain-zero}

-- What `HandleWrite` has done.
pub record Drains (c : TcpConnection) (outcome : Option ℕ) (c' : TcpConnection) : Type 0 where
  pub valid : IsValid c'
  pub out : c'.sent ≡ (drain (stream c) outcome).out
  pub waiting : contents c'.buffer_output ≡ (drain (stream c) outcome).waiting
  pub keeps : Keeps c c'

module _ (c : TcpConnection) (v : IsValid c) (on : c.writing ≡ true) where
  is_up : is_connected c.state ≡ true
  is_up = ground (arith, on, v.writing)

  peeked :
      slice c.buffer_output.buffer c.buffer_output.read_index (readable_bytes c.buffer_output)
      ≡ contents c.buffer_output
  peeked =
      ap (slice c.buffer_output.buffer c.buffer_output.read_index)
        (readable_bytes_lem {b = c.buffer_output} v.output)

  -- the kernel takes nothing
  drain_none : (outcome : Option ℕ) → drain (stream c) outcome ≡ stream c → Drains c outcome c
  drain_none outcome h = record {
    valid = v;
    out = ap (λ (s : Stream). s.out) (sym h);
    waiting = ap (λ (s : Stream). s.waiting) (sym h);
    keeps = record { state = refl; input = refl; reading = refl; remove_cb = refl };
  }

  module _ (n : ℕ) (b : Buffer) (t : Taken c.buffer_output n b) where
    abbrev taken : TcpConnection
    taken = record c { buffer_output = b; sent = c.sent ++ take n (contents c.buffer_output) }

    -- it takes a part
    drain_part : n < length (contents c.buffer_output) → Drains c (some n) taken
    drain_part h =
        let some_rest =
          is_empty_of_length (drop n (contents c.buffer_output))
            (omega (arith, length-drop n (contents c.buffer_output))) in
        record {
          valid = record {
            input = v.input;
            output = t.valid;
            writing = ground (arith, on, is_up, some_rest, ap is_empty t.rest);
            reading = v.reading;
            unused = λ k. ground (arith, k, is_up);
            removable = v.removable;
          };
          out = refl;
          waiting = t.rest;
          keeps = record { state = refl; input = refl; reading = refl; remove_cb = refl };
        }

    -- it takes all
    drain_whole :
        n ≡ length (contents c.buffer_output)
        → Drains c
            (some n)
            (queue_if c.write_complete_cb writes_complete (record taken { writing = false }))
    drain_whole h =
        let c1 : TcpConnection = record taken { writing = false } in
        let none_left = t.rest ∙ drop_all (contents c.buffer_output) n (omega (arith, h)) in
        record {
          valid = queue_if-IsValid c1 c.write_complete_cb writes_complete c1.sent (record {
            input = v.input;
            output = t.valid;
            writing = ground (arith, is_up, ap is_empty none_left);
            reading = v.reading;
            unused = λ _. none_left;
            removable = v.removable;
          });
          out = queue_if_sent c1 c.write_complete_cb writes_complete;
          waiting = ap contents (queue_if_output c1 c.write_complete_cb writes_complete) ∙ t.rest;
          keeps =
              let k = queue_if-Keeps c1 c.write_complete_cb writes_complete c1.sent in
              record {
                state = k.state;
                input = k.input;
                reading = k.reading;
                remove_cb = k.remove_cb;
              };
        }

  -- `HandleWrite` on a connection that watches for writing.
  pub handle_write_lem :
      (outcome : Option ℕ)
      → Fits outcome (length (contents c.buffer_output))
      → (c' : TcpConnection) × (handle_write c outcome ≡ some c') × Drains c outcome c'
  unfolding handle_write
  handle_write_lem none fits = (c, ground (arith, is_up), drain_none none refl)
  handle_write_lem (some zero) fits =
      (c, ground (arith, is_up), drain_none (some zero) (drain-zero (stream c)))
  handle_write_lem (some (suc m)) fits =
      let n = suc m in
      let r = retrieve_lem {b = c.buffer_output} n v.output fits in
      let size : readable_bytes c.buffer_output ≡ length (contents c.buffer_output) =
        readable_bytes_lem {b = c.buffer_output} v.output
        ∙ sym (length-contents {b = c.buffer_output} v.output) in
      elim (Bool-cases (readable_bytes c.buffer_output == n)) [
        | inl all ↦ (
          queue_if c.write_complete_cb writes_complete
              (record (taken n r.0 r.2) { writing = false }),
          ground (arith, is_up, r.1, all, peeked),
          drain_whole n r.0 r.2 (ground (arith, all, size)),
        )
        | inr part ↦ (
          taken n r.0 r.2,
          ground (arith, is_up, r.1, part, peeked),
          drain_part n r.0 r.2 (ground (arith, part, size, fits)),
        )
      ]

-- Once a connection is down, `HandleWrite` fails its assert.
pub handle_write_down :
    (c : TcpConnection) (outcome : Option ℕ)
    → is_connected c.state ≡ false
    → handle_write c outcome ≡ none
unfolding handle_write
handle_write_down c outcome down = ground (arith, down)
