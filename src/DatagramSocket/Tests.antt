-- ===== src/DatagramSocket/Tests.antt =====
-- Runs of src/datagram_socket.cc.
use base_linux.Base.{ℕ, ◌≡◌, refl, false, some, List, [], ◌∷◌, take}
use base_linux.Base.Int.{pos}
use base_linux.InetAddress.{invalid_addr}
use base_linux.DatagramPacket.{DatagramPacket}
use base_linux.DatagramSocket.{
  DatagramSocket, of_nothing, datagram, receive, send_packet, send_bytes,
}
use base_linux.DatagramSocket.Delivery.{Receives, payload, receive-send_packet}

abbrev unbound : DatagramSocket
unbound = record {
  local_addr = invalid_addr;
  server_addr = invalid_addr;
  connected = false;
  is_bind = false;
  sockfd = record { fd = pos 3; settings = [] };
}

of_nothing_run : of_nothing (pos 3) ≡ some unbound
unfolding of_nothing
of_nothing_run = refl

-- three bytes, of which two count
abbrev two_bytes : DatagramPacket
two_bytes = record { dat = 5 ∷ 6 ∷ 7 ∷ []; effective = 2; address = invalid_addr }

-- The other end has room for one byte.
receive-send_packet_example :
    Receives 1 (take 1 (payload two_bytes)) [] (receive (λ len. datagram (5 ∷ []) []) 1)
unfolding send_packet send_bytes
receive-send_packet_example =
    receive-send_packet unbound two_bytes (λ len. datagram (5 ∷ []) []) 1 [] refl

abbrev next : List ℕ
next = 8 ∷ 9 ∷ []

abbrev nowhere : List ℕ
nowhere = []
