-- ===== src/DatagramPacket.antt =====
-- src/datagram_packet.h: a datagram with room for its bytes, and how many of them count.
use base_linux.Base.{ℕ, List, replicate, length, Option, some, leb, ◌>>◌, assert}
use base_linux.InetAddress.{InetAddress, invalid_addr}

pub record DatagramPacket : Type 0 where
  pub dat : List ℕ
  pub effective : ℕ
  pub address : InetAddress

-- `DatagramPacket(len)`
abbrev pub datagram_packet : ℕ → DatagramPacket
datagram_packet len = record { dat = replicate len 0; effective = 0; address = invalid_addr }

-- `DatagramPacket(len, addr)`
abbrev pub datagram_packet_to : ℕ → InetAddress → DatagramPacket
datagram_packet_to len addr = record { dat = replicate len 0; effective = 0; address = addr }

-- `DatagramPacket(data)`
abbrev pub of_data : List ℕ → DatagramPacket
of_data bytes = record { dat = bytes; effective = 0; address = invalid_addr }

-- `set_address`
abbrev pub set_address : DatagramPacket → InetAddress → DatagramPacket
set_address pkt addr = record pkt { address = addr }

-- `set_effective`
unfoldable pub set_effective : DatagramPacket → ℕ → Option DatagramPacket
set_effective pkt len = do assert (leb len (length pkt.dat)); some (record pkt { effective = len })
