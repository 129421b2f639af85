-- ===== src/Socket.antt =====
-- src/socket.h and src/socket.cc: the owner of a descriptor, its options, its addresses, and what
-- the kernel tells about its connection. What a system call answers is a parameter.
pub mod KeepAlive
pub mod Owning
pub mod Addresses
pub mod TcpInfoText
mod Tests
use base_linux.Base.{
  ℕ, zero, suc, ◌+◌, ◌/◌, ◌-◌, Bool, true, false, not, Option, none, some, List, [], ◌∷◌, ◌++◌,
  length, replicate, take, assert, ◌>>=◌, ◌>>◌, ltb, ◌==◌, if◌then◌else◌,
}
use base_linux.Base.Int.{ℤ, pos, negsuc}
use base_linux.InetAddress.{InetAddress, of_storage, is_different, digits}

-- the options that this class and `DatagramSocket` set
pub data SocketOption : Type 0 where
  so_reuseaddr so_reuseport tcp_nodelay ipv6_v6only : SocketOption
  so_rcvtimeo so_sndtimeo so_sndbuf so_rcvbuf so_broadcast : SocketOption
  so_keepalive tcp_keepidle tcp_keepintvl tcp_keepcnt : SocketOption

-- one call of `setsockopt`; of a `timeval` the seconds
pub record Setting : Type 0 where
  pub option : SocketOption
  pub value : ℤ

-- `fd_`, and the calls of `setsockopt` that have succeeded, the last one first
pub record Socket : Type 0 where
  pub fd : ℤ
  pub settings : List Setting

-- `0 < fd`
abbrev pub is_positive : ℤ → Bool
is_positive (pos n) = ltb 0 n
is_positive (negsuc n) = false

-- `Socket(sockfd)`
abbrev pub of_fd : ℤ → Option Socket
of_fd sockfd = assert (is_positive sockfd) >> some (record { fd = sockfd; settings = [] })

-- `Socket(Socket&&)`: what was moved to, and what was moved from
unfoldable pub move : Socket → Socket × Socket
move other = (other, record { fd = negsuc 0; settings = [] })

-- `~Socket`: the descriptors that it closes
unfoldable pub close : Socket → List ℤ
close s = if is_positive s.fd then s.fd ∷ [] else []

-- a call of `setsockopt`, and the assertion that follows its error
unfoldable pub set_option : (Setting → Bool) → Setting → Socket → Option Socket
set_option setsockopt setting s =
    assert (setsockopt setting) >> some (record s { settings = setting ∷ s.settings })

-- `val / 3`, which drops the fraction of a negative number too
abbrev pub third : ℤ → ℤ
third (pos n) = pos (n / 3)
third (negsuc n) = if suc n / 3 == 0 then pos 0 else negsuc (suc n / 3 - 1)

-- `SetKeepAlive`
unfoldable pub set_keep_alive : (Setting → Bool) → ℤ → Socket → Option Socket
unfolding set_option
set_keep_alive setsockopt interval s = do
  s1 ← set_option setsockopt (record { option = so_keepalive; value = pos 1 }) s
  s2 ← set_option setsockopt (record { option = tcp_keepidle; value = interval }) s1
  s3 ← set_option setsockopt (record { option = tcp_keepintvl; value = third interval }) s2
  set_option setsockopt (record { option = tcp_keepcnt; value = pos 3 }) s3

-- `SetReuseAddress`
unfoldable pub set_reuse_address : (Setting → Bool) → Socket → Option Socket
unfolding set_option
set_reuse_address setsockopt =
    set_option setsockopt (record { option = so_reuseaddr; value = pos 1 })

-- `SetReusePort`
unfoldable pub set_reuse_port : (Setting → Bool) → Socket → Option Socket
unfolding set_option
set_reuse_port setsockopt = set_option setsockopt (record { option = so_reuseport; value = pos 1 })

-- `SetNodelay`
unfoldable pub set_nodelay : (Setting → Bool) → Socket → Option Socket
unfolding set_option
set_nodelay setsockopt = set_option setsockopt (record { option = tcp_nodelay; value = pos 1 })

-- `SetIPV6Only`
unfoldable pub set_ipv6_only : (Setting → Bool) → Socket → Option Socket
unfolding set_option
set_ipv6_only setsockopt = set_option setsockopt (record { option = ipv6_v6only; value = pos 1 })

-- `SetTimeoutRecv`
unfoldable pub set_timeout_recv : (Setting → Bool) → ℤ → Socket → Option Socket
unfolding set_option
set_timeout_recv setsockopt seconds =
    set_option setsockopt (record { option = so_rcvtimeo; value = seconds })

-- `SetTimeoutSend`
unfoldable pub set_timeout_send : (Setting → Bool) → ℤ → Socket → Option Socket
unfolding set_option
set_timeout_send setsockopt seconds =
    set_option setsockopt (record { option = so_sndtimeo; value = seconds })

-- `SetSendBufferSize`
unfoldable pub set_send_buffer_size : (Setting → Bool) → ℤ → Socket → Option Socket
unfolding set_option
set_send_buffer_size setsockopt size =
    set_option setsockopt (record { option = so_sndbuf; value = size })

-- `SetRecvBufferSize`
unfoldable pub set_recv_buffer_size : (Setting → Bool) → ℤ → Socket → Option Socket
unfolding set_option
set_recv_buffer_size setsockopt size =
    set_option setsockopt (record { option = so_rcvbuf; value = size })

-- `GetSendBufferSize` and `GetRecvBufferSize`, with the answer of `getsockopt`
abbrev pub get_send_buffer_size : Option ℤ → Option ℤ
get_send_buffer_size none = none
get_send_buffer_size (some val) = some val

abbrev pub get_recv_buffer_size : Option ℤ → Option ℤ
get_recv_buffer_size none = none
get_recv_buffer_size (some val) = some val

-- `Bind`, with whether `bind` succeeds
abbrev pub bind : (InetAddress → Bool) → InetAddress → Option (Unit {0})
bind succeeds inet_addr = assert (succeeds inet_addr)

-- `GetLocalAddress` and `GetPeerAddress`, with the bytes that `getsockname` and `getpeername` write
abbrev pub get_local_address : Option (List ℕ) → Option InetAddress
get_local_address none = none
get_local_address (some bytes) = some (of_storage bytes)

abbrev pub get_peer_address : Option (List ℕ) → Option InetAddress
get_peer_address none = none
get_peer_address (some bytes) = some (of_storage bytes)

-- the directions of `shutdown`
pub data Direction : Type 0 where
  shut_rd shut_wr : Direction

-- `ShutDownWrite`: what it shuts down
abbrev pub shut_down_write : List Direction
shut_down_write = shut_wr ∷ []

-- `IsSelfConnect`
unfoldable pub is_self_connect : Option (List ℕ) → Option (List ℕ) → Option Bool
is_self_connect getsockname getpeername = do
  local ← get_local_address getsockname
  peer ← get_peer_address getpeername
  some (if is_different local peer then false else true)

-- `GetSocketError`: what `getsockopt` wrote, or the `errno` it left
abbrev pub get_socket_error : Option ℕ → ℕ → ℕ
get_socket_error none errno = errno
get_socket_error (some optval) errno = optval

-- the fields of `tcp_info` that are printed
pub record TcpInfo : Type 0 where
  pub tcpi_retransmits : ℕ
  pub tcpi_rto : ℕ
  pub tcpi_ato : ℕ
  pub tcpi_snd_mss : ℕ
  pub tcpi_rcv_mss : ℕ
  pub tcpi_lost : ℕ
  pub tcpi_retrans : ℕ
  pub tcpi_rtt : ℕ
  pub tcpi_rttvar : ℕ
  pub tcpi_snd_ssthresh : ℕ
  pub tcpi_snd_cwnd : ℕ
  pub tcpi_total_retrans : ℕ

-- `GetTCPInfo`, with what `getsockopt` writes over the cleared structure
abbrev pub get_tcp_info : (TcpInfo → TcpInfo) → TcpInfo
get_tcp_info getsockopt = getsockopt (record {
  tcpi_retransmits = 0;
  tcpi_rto = 0;
  tcpi_ato = 0;
  tcpi_snd_mss = 0;
  tcpi_rcv_mss = 0;
  tcpi_lost = 0;
  tcpi_retrans = 0;
  tcpi_rtt = 0;
  tcpi_rttvar = 0;
  tcpi_snd_ssthresh = 0;
  tcpi_snd_cwnd = 0;
  tcpi_total_retrans = 0;
})

-- a name with `=`, and the number that `%u` prints
abbrev pub entry : List ℕ → ℕ → List ℕ
entry name v = name ++ digits 9 v

-- The names of the format of `GetTCPInfoString`, with their `=` and, but for the first, the blank
-- before them
abbrev pub name_unrecovered : List ℕ
name_unrecovered = 117 ∷ 110 ∷ 114 ∷ 101 ∷ 99 ∷ 111 ∷ 118 ∷ 101 ∷ 114 ∷ 101 ∷ 100 ∷ 61 ∷ []

abbrev pub name_rto : List ℕ
name_rto = 32 ∷ 114 ∷ 116 ∷ 111 ∷ 61 ∷ []

abbrev pub name_ato : List ℕ
name_ato = 32 ∷ 97 ∷ 116 ∷ 111 ∷ 61 ∷ []

abbrev pub name_snd_mss : List ℕ
name_snd_mss = 32 ∷ 115 ∷ 110 ∷ 100 ∷ 95 ∷ 109 ∷ 115 ∷ 115 ∷ 61 ∷ []

abbrev pub name_rcv_mss : List ℕ
name_rcv_mss = 32 ∷ 114 ∷ 99 ∷ 118 ∷ 95 ∷ 109 ∷ 115 ∷ 115 ∷ 61 ∷ []

abbrev pub name_lost : List ℕ
name_lost = 32 ∷ 108 ∷ 111 ∷ 115 ∷ 116 ∷ 61 ∷ []

abbrev pub name_retrans : List ℕ
name_retrans = 32 ∷ 114 ∷ 101 ∷ 116 ∷ 114 ∷ 97 ∷ 110 ∷ 115 ∷ 61 ∷ []

abbrev pub name_rtt : List ℕ
name_rtt = 32 ∷ 114 ∷ 116 ∷ 116 ∷ 61 ∷ []

abbrev pub name_rttvar : List ℕ
name_rttvar = 32 ∷ 114 ∷ 116 ∷ 116 ∷ 118 ∷ 97 ∷ 114 ∷ 61 ∷ []

abbrev pub name_sshthresh : List ℕ
name_sshthresh = 32 ∷ 115 ∷ 115 ∷ 104 ∷ 116 ∷ 104 ∷ 114 ∷ 101 ∷ 115 ∷ 104 ∷ 61 ∷ []

abbrev pub name_cwnd : List ℕ
name_cwnd = 32 ∷ 99 ∷ 119 ∷ 110 ∷ 100 ∷ 61 ∷ []

abbrev pub name_total_retrans : List ℕ
name_total_retrans =
    32 ∷ 116 ∷ 111 ∷ 116 ∷ 97 ∷ 108 ∷ 95 ∷ 114 ∷ 101 ∷ 116 ∷ 114 ∷ 97 ∷ 110 ∷ 115 ∷ 61 ∷ []

-- the names and the fields, in the order of the format
abbrev pub entries : TcpInfo → List (List ℕ × ℕ)
entries info =
    (name_unrecovered, info.tcpi_retransmits)
    ∷ (name_rto, info.tcpi_rto)
    ∷ (name_ato, info.tcpi_ato)
    ∷ (name_snd_mss, info.tcpi_snd_mss)
    ∷ (name_rcv_mss, info.tcpi_rcv_mss)
    ∷ (name_lost, info.tcpi_lost)
    ∷ (name_retrans, info.tcpi_retrans)
    ∷ (name_rtt, info.tcpi_rtt)
    ∷ (name_rttvar, info.tcpi_rttvar)
    ∷ (name_sshthresh, info.tcpi_snd_ssthresh)
    ∷ (name_cwnd, info.tcpi_snd_cwnd)
    ∷ (name_total_retrans, info.tcpi_total_retrans)
    ∷ []

unfoldable pub joined : List (List ℕ × ℕ) → List ℕ
joined [] = []
joined ((name, v) ∷ rest) = entry name v ++ joined rest

-- the text of `GetTCPInfoString` before `snprintf` cuts it
unfoldable pub format : TcpInfo → List ℕ
unfolding joined
format info = joined (entries info)

-- `GetTCPInfoString`, whose `buf` has 256 bytes, the zero at the end among them
unfoldable pub get_tcp_info_string : (TcpInfo → TcpInfo) → List ℕ
unfolding format
get_tcp_info_string getsockopt = take 255 (format (get_tcp_info getsockopt))
