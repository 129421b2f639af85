-- ===== src/DatagramSocket/Delivery.antt =====
-- A datagram from `Send` of one socket of src/datagram_socket.cc to `Receive` of another, and on
-- to the queue of the receiver of src/udp_receiver.cc.
use base_linux.Base.{
  ℕ, suc, ◌≤◌, ◌≡◌, refl, ◌∙◌, Bool, true, false, Option, some, List, [], ◌∷◌, length, take, drop,
  replicate, length-replicate, length-take, blit, length-blit, blit-zero, take-append, arith, ◌==◌,
  if◌then◌else◌, inl, inr, Bool-cases, le→leb,
}
use base_linux.InetAddress.{invalid_addr, of_storage}
use base_linux.DatagramPacket.{DatagramPacket, datagram_packet, set_effective}
use base_linux.UdpWorker.{UdpWorker, handle_read, push}
use base_linux.DatagramSocket.{
  DatagramSocket, Received, datagram, failed, take_received, receive, receive_into, Sent, send,
  sendto, send_bytes, send_packet,
}

-- the bytes of a packet that count
abbrev pub payload : DatagramPacket → List ℕ
payload pkt = take pkt.effective pkt.dat

-- the bytes that a call hands to the kernel, and where they go, by default to the other end of
-- the connection
abbrev pub sent_bytes : Sent → List ℕ
sent_bytes (send bytes) = bytes
sent_bytes (sendto bytes address) = bytes

-- What both `Receive` make of a datagram with a byte that fits
take_received-some :
    (pkt : DatagramPacket) (b : ℕ) (bytes from : List ℕ)
    → length (b ∷ bytes) ≤ length pkt.dat
    → take_received (datagram (b ∷ bytes) from) pkt
      ≡ some (record {
        dat = blit pkt.dat 0 (b ∷ bytes);
        effective = length (b ∷ bytes);
        address = record { address = from };
      })
unfolding take_received set_effective
take_received-some pkt b bytes from fits =
    rw (length-blit pkt.dat 0 (b ∷ bytes), le→leb (length (b ∷ bytes)) (length pkt.dat) fits) refl

payload-blit :
    (dat bytes : List ℕ)
    → length bytes ≤ length dat
    → take (length bytes) (blit dat 0 bytes) ≡ bytes
payload-blit dat bytes fits =
    rw (blit-zero dat bytes fits) (take-append bytes (drop (length bytes) dat))

abbrev null : ℕ
null = 0

abbrev pub is_empty : List ℕ → Bool
is_empty [] = true
is_empty (b ∷ bytes) = false

-- What a receiver with room for `len` bytes makes of the bytes `xs` of a datagram
pub Receives : ℕ → List ℕ → List ℕ → Option DatagramPacket → Type 0
Receives len xs from out =
    (pkt : DatagramPacket) × (out ≡ some pkt)
    × (payload pkt ≡ xs)
    × (pkt.effective ≡ length xs)
    × (length pkt.dat ≡ len)
    × (pkt.address ≡ (if is_empty xs then invalid_addr else of_storage from))
    × ((w : UdpWorker) (woken_one : Option ℕ)
        → handle_read w pkt woken_one ≡ (if is_empty xs then some w else push w pkt woken_one))

zero_eq_suc : (n : ℕ) → (0 == suc n) ≡ false
zero_eq_suc n = ground arith

receive-Receives :
    (recvfrom : ℕ → Received) (len : ℕ) (xs from : List ℕ)
    → length xs ≤ len
    → recvfrom len ≡ datagram xs from
    → Receives len xs from (receive recvfrom len)
unfolding Receives receive take_received handle_read
receive-Receives recvfrom len [] from fits answer = (
  datagram_packet len,
  rw answer refl,
  refl,
  refl,
  length-replicate len null,
  refl,
  λ w woken_one. refl,
)
receive-Receives recvfrom len (b ∷ bytes) from fits answer =
    let room : length (b ∷ bytes) ≤ length (datagram_packet len).dat =
      rw (length-replicate len null) fits in
    (
      record {
        dat = blit (replicate len 0) 0 (b ∷ bytes);
        effective = length (b ∷ bytes);
        address = record { address = from };
      },
      rw answer (take_received-some (datagram_packet len) b bytes from room),
      payload-blit (replicate len 0) (b ∷ bytes) room,
      refl,
      length-blit (replicate len 0) 0 (b ∷ bytes) ∙ length-replicate len null,
      refl,
      λ w woken_one. rw (zero_eq_suc (length bytes)) refl,
    )

sent_bytes-send_packet :
    (s : DatagramSocket) (pkt : DatagramPacket) → sent_bytes (send_packet s pkt) ≡ payload pkt
unfolding send_packet send_bytes
sent_bytes-send_packet s pkt = elim (Bool-cases s.connected) [
  | inl e ↦ rw e refl
  | inr e ↦ rw e refl
]

-- When recvfrom hands out what Send gave to the kernel, cut to the room of the receiver,
-- connected or not, Receive trips no assert, and the packet has these bytes as its effective
-- ones, behind which nothing counts; unless there are none, it has the address of the sender; and
-- HandleRead of the receiver pushes it into the queue exactly if it has bytes.
pub receive-send_packet :
    (s : DatagramSocket) (pkt : DatagramPacket) (recvfrom : ℕ → Received) (len : ℕ) (from : List ℕ)
    → recvfrom len ≡ datagram (take len (sent_bytes (send_packet s pkt))) from
    → Receives len (take len (payload pkt)) from (receive recvfrom len)
receive-send_packet s pkt recvfrom len from answer =
    let cut : length (take len (payload pkt)) ≤ len =
      rw (length-take len (payload pkt)) (omega arith) in
    receive-Receives recvfrom len (take len (payload pkt)) from cut
      (rw (sent_bytes-send_packet s pkt) at answer)

-- Receive into a packet with room for the datagram trips no assert. The effective bytes are those
-- of the datagram only if there are any: after an empty datagram, as after an error, they are
-- still those of the packet that came before.
pub receive_into_lem :
    (recvfrom : ℕ → Received) (pkt : DatagramPacket) (xs from : List ℕ)
    → length xs ≤ length pkt.dat
    → (recvfrom (length pkt.dat) ≡ datagram xs from
        → (out : DatagramPacket) × (receive_into recvfrom pkt ≡ some out)
          × (payload out ≡ (if is_empty xs then payload pkt else xs)))
      × (recvfrom (length pkt.dat) ≡ failed → receive_into recvfrom pkt ≡ some pkt)
unfolding receive_into take_received
receive_into_lem recvfrom pkt [] from fits =
    ((λ answer. (pkt, rw answer refl, refl)), λ answer. rw answer refl)
receive_into_lem recvfrom pkt (b ∷ bytes) from fits = (
  (λ answer. (
    record {
      dat = blit pkt.dat 0 (b ∷ bytes);
      effective = length (b ∷ bytes);
      address = record { address = from };
    },
    rw answer (take_received-some pkt b bytes from fits),
    payload-blit pkt.dat (b ∷ bytes) fits,
  )),
  λ answer. rw answer refl,
)
