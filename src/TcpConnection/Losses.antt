-- ===== src/TcpConnection/Losses.antt =====
-- Where a connection does not do what it should: an end that comes with room to write.
use base_linux.Base.{
  ℕ, ◌≡◌, ap, inl, inr, true, false, Option, none, List, [], ◌∷◌, arith, Bool-cases,
}
use base_linux.Buffer.{CopyBackward, delivered}
use base_linux.Buffer.Space.{HandlesOverlap}
use base_linux.Channel.{Channel, Call, called, handle_event}
use base_linux.TcpConnection.{
  TcpConnection, run, step, call_event, call_events, handle_channel, answer,
}
use base_linux.TcpConnection.Stream.{Line}
use base_linux.TcpConnection.Valid.{IsValid}
use base_linux.TcpConnection.Draining.{handle_write_down}
use base_linux.TcpConnection.Input.{read_end}

-- what `HandleEvent` calls where both directions are ready
both_ready :
    (channel : Channel)
    → channel.read_cb ≡ true
    → channel.write_cb ≡ true
    → channel.revents.epollhup ≡ false
    → channel.revents.epollrdhup ≡ false
    → channel.revents.epollerr ≡ false
    → channel.revents.epollin ≡ true
    → channel.revents.epollout ≡ true
    → handle_event channel true ≡ Call.reads ∷ Call.writes ∷ []
unfolding handle_event called
both_ready channel r w h d e i o = elim (Bool-cases channel.tied) [
  | inl tied ↦ ground (arith, tied, r, w, h, d, e, i, o)
  | inr free ↦ ground (arith, free, r, w, h, d, e, i, o)
]

-- On a valid connection that reads, with a copy that serves ranges that overlap, and a channel
-- with its read and write callbacks: when an event says that there is something to read and room
-- to write, and no error or hang-up, and the other end has closed, HandleRead closes the
-- connection, and the call of HandleWrite that follows for the same channel fails its assert.
pub handle_channel-closed :
    (std : CopyBackward) (c : TcpConnection) (channel : Channel) (taken : ℕ)
    (replies : List (List ℕ × Option ℕ)) (outcome : Option ℕ)
    → HandlesOverlap std
    → IsValid c
    → c.reading ≡ true
    → channel.read_cb ≡ true
    → channel.write_cb ≡ true
    → channel.revents.epollhup ≡ false
    → channel.revents.epollrdhup ≡ false
    → channel.revents.epollerr ≡ false
    → channel.revents.epollin ≡ true
    → channel.revents.epollout ≡ true
    → handle_channel std c channel (delivered []) taken replies outcome ≡ none
unfolding handle_channel call_events call_event run step
handle_channel-closed std c channel taken replies outcome o v on r w h d e i out =
    let calls = both_ready channel r w h d e i out in
    let m = read_end std c o v on (answer std taken replies) v.input.small in
    let n = handle_write_down m.0 outcome (ap (λ (l : Line). l.is_up) m.3) in
    rw calls (ground (arith, m.1, n))
