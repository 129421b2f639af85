-- ===== src/DatagramSocket.antt =====
-- src/datagram_socket.h and src/datagram_socket.cc: a socket of UDP. What a system call answers
-- is a parameter.
pub mod Delivery
mod Tests
use base_linux.Base.{
  ℕ, Bool, true, false, Option, none, some, List, [], ◌∷◌, ◌++◌, length, take, slice, blit, assert,
  ltb, ◌>>=◌, ◌>>◌, if◌then◌else◌,
}
use base_linux.Base.Int.{ℤ, pos, negsuc}
use base_linux.InetAddress.{InetAddress, invalid_addr, of_storage, of_port}
use base_linux.Socket.{
  Socket, Setting, of_fd, set_option, so_broadcast, get_send_buffer_size, get_recv_buffer_size,
  Direction, shut_rd, shut_wr, set_send_buffer_size, set_recv_buffer_size, set_reuse_address,
}
use base_linux.DatagramPacket.{DatagramPacket, datagram_packet, set_effective, set_address}

pub record DatagramSocket : Type 0 where
  pub local_addr : InetAddress
  pub server_addr : InetAddress
  pub connected : Bool
  pub is_bind : Bool
  pub sockfd : Socket

-- `0 > sockfd`
abbrev is_negative : ℤ → Bool
is_negative (pos n) = false
is_negative (negsuc n) = true

-- `SocketCeate`, with the answer of `socket`
abbrev pub socket_create : ℤ → Option ℤ
socket_create answer = if is_negative answer then none else some answer

-- `DatagramSocket()`
unfoldable pub of_nothing : ℤ → Option DatagramSocket
of_nothing answer = do
  fd ← socket_create answer
  sockfd ← of_fd fd
  some (record {
    local_addr = invalid_addr;
    server_addr = invalid_addr;
    connected = false;
    is_bind = false;
    sockfd = sockfd;
  })

-- `Bind`, with whether `bind` succeeds
unfoldable pub bind : (InetAddress → Bool) → InetAddress → DatagramSocket → Option DatagramSocket
bind succeeds inet_addr s = do
  assert (succeeds inet_addr)
  some (record s { local_addr = inet_addr; is_bind = true })

-- `DatagramSocket(addr)`
unfoldable pub of_address : ℤ → (InetAddress → Bool) → InetAddress → Option DatagramSocket
unfolding of_nothing bind
of_address answer succeeds addr = do s ← of_nothing answer; bind succeeds addr s

-- `DatagramSocket(port)`
unfoldable pub of_local_port : ℤ → (InetAddress → Bool) → ℕ → Option DatagramSocket
unfolding of_address of_port
of_local_port answer succeeds port = of_address answer succeeds (of_port port true false)

-- `Connect`: the kernel sees a `sockaddr`, 16 bytes of the address.
unfoldable pub connect : (List ℕ → Bool) → InetAddress → DatagramSocket → Option DatagramSocket
connect succeeds addr s = do
  assert (succeeds (slice addr.address 0 16))
  some (record s { server_addr = addr; connected = true })

-- `Disconnect`
unfoldable pub disconnect : (List ℕ → Bool) → DatagramSocket → Option DatagramSocket
unfolding connect
disconnect succeeds s = do
  s1 ← connect succeeds invalid_addr s
  some (record s1 { connected = false })

-- `SetRcvBufferSize`, `SetSndBufferSize` and `SetReuseAddress` pass their calls on.
unfoldable pub set_rcv_buffer_size : (Setting → Bool) → ℤ → DatagramSocket → Option DatagramSocket
unfolding set_recv_buffer_size
set_rcv_buffer_size setsockopt size s = do
  sockfd ← set_recv_buffer_size setsockopt size s.sockfd
  some (record s { sockfd = sockfd })

unfoldable pub set_snd_buffer_size : (Setting → Bool) → ℤ → DatagramSocket → Option DatagramSocket
unfolding set_send_buffer_size
set_snd_buffer_size setsockopt size s = do
  sockfd ← set_send_buffer_size setsockopt size s.sockfd
  some (record s { sockfd = sockfd })

unfoldable pub set_reuse : (Setting → Bool) → DatagramSocket → Option DatagramSocket
unfolding set_reuse_address
set_reuse setsockopt s = do
  sockfd ← set_reuse_address setsockopt s.sockfd
  some (record s { sockfd = sockfd })

-- `GetRcvBufferSize` and `GetSndBufferSize`
abbrev pub get_rcv_buffer_size : Option ℤ → Option ℤ
get_rcv_buffer_size = get_recv_buffer_size

abbrev pub get_snd_buffer_size : Option ℤ → Option ℤ
get_snd_buffer_size = get_send_buffer_size

-- `SetBroadcast`
unfoldable pub set_broadcast : (Setting → Bool) → Bool → DatagramSocket → Option DatagramSocket
unfolding set_option
set_broadcast setsockopt enable s = do
  sockfd ←
      set_option setsockopt
        (record { option = so_broadcast; value = pos (if enable then 1 else 0) }) s.sockfd
  some (record s { sockfd = sockfd })

-- `IsBroadcast`, with the answer of `getsockopt`
abbrev pub is_broadcast : Option ℤ → Option Bool
is_broadcast none = none
is_broadcast (some (pos n)) = some (ltb 0 n)
is_broadcast (some (negsuc n)) = some true

-- `Shutdown`
abbrev pub shutdown : Bool → Bool → List Direction
shutdown read write = (if read then shut_rd ∷ [] else []) ++ (if write then shut_wr ∷ [] else [])

-- What `recvfrom` wrote: the bytes, and those of the address; or its error.
pub data Received : Type 0 where
  datagram : List ℕ → List ℕ → Received
  failed : Received

-- what both `Receive` do with the answer
unfoldable pub take_received : Received → DatagramPacket → Option DatagramPacket
unfolding set_effective
take_received failed pkt = some pkt
take_received (datagram [] from) pkt = some pkt
take_received (datagram (b ∷ bytes) from) pkt = do
  pkt1 ← set_effective (record pkt { dat = blit pkt.dat 0 (b ∷ bytes) }) (length (b ∷ bytes))
  some (set_address pkt1 (of_storage from))

-- `Receive(len)`
unfoldable pub receive : (ℕ → Received) → ℕ → Option DatagramPacket
unfolding take_received
receive recvfrom len = take_received (recvfrom len) (datagram_packet len)

-- `Receive(pkt)`
unfoldable pub receive_into : (ℕ → Received) → DatagramPacket → Option DatagramPacket
unfolding take_received
receive_into recvfrom pkt = take_received (recvfrom (length pkt.dat)) pkt

-- `send`, or `sendto` with the bytes of a `sockaddr`
pub data Sent : Type 0 where
  send : List ℕ → Sent
  sendto : List ℕ → List ℕ → Sent

-- `Send(dat, len, to)`: the call it makes, whose answer it returns
unfoldable pub send_bytes : DatagramSocket → List ℕ → ℕ → InetAddress → Sent
send_bytes s dat len to =
    if s.connected then send (take len dat) else sendto (take len dat) (slice to.address 0 16)

-- `Send(pkt)`
unfoldable pub send_packet : DatagramSocket → DatagramPacket → Sent
unfolding send_bytes
send_packet s pkt = send_bytes s pkt.dat pkt.effective pkt.address
