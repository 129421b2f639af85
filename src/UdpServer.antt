-- ===== src/UdpServer.antt =====
-- src/udp_receiver.h, src/udp_receiver.cc, src/udp_server.h and src/udp_server.cc on the loop's
-- thread: a receiver with its channel, and the server that makes a new one after an error. The
-- worker is that of UdpWorker.
pub mod Restarting
mod Tests
use base_linux.Base.{
  ℕ, Bool, true, false, not, Option, none, some, List, [], ◌∷◌, ◌++◌, update, ltb, ◌==◌,
  if◌then◌else◌, ◌>>=◌, ◌>>◌, assert,
}
use base_linux.Base.Int.{pos}
use base_linux.Channel.{EventMask, Channel, none_event, reading_on, all_off, k_new, delete_channel}
use base_linux.Epoller.{EpollLib, Epoller, change_events, remove_channel}
use base_linux.Socket.{Setting, Direction}
use base_linux.DatagramPacket.{DatagramPacket}
use base_linux.DatagramSocket.{
  DatagramSocket, Received, receive, Sent, send_packet, send_bytes, set_reuse, set_snd_buffer_size,
  set_rcv_buffer_size, shutdown,
}
use base_linux.InetAddress.{InetAddress}
use base_linux.UdpWorker.{UdpWorker}
use base_linux.UdpWorker
use base_linux.DatagramSocket

-- `channel_` is the address of the channel in the poller's memory; of `callback_error_`, whether
-- it is set.
pub record UdpReceiver : Type 0 where
  pub channel : ℕ
  pub pkt_size : ℕ
  pub callback_error : Bool

module _ (lib : EpollLib) where
  -- The poller is that of `loop_`; `shut` is what was shut down of the socket, `quit` the flag of
  -- the loop.
  pub record UdpServer : Type 0 where
    pub poller : Epoller lib
    pub socket : DatagramSocket
    pub receiver : UdpReceiver
    pub worker : UdpWorker
    pub shut : List Direction
    pub quit : Bool

-- the new channel of a receiver
abbrev pub receiver_channel : ℕ → Channel
receiver_channel fd = record {
  fd = fd;
  events = none_event;
  revents = none_event;
  status = k_new;
  handling = false;
  tied = false;
  read_cb = true;
  write_cb = false;
  close_cb = false;
  error_cb = true;
}

module _ {lib : EpollLib} where
  -- a call of the poller for the receiver's channel
  abbrev pub on_channel :
      (Epoller lib → ℕ → Option (Epoller lib)) → UdpServer lib → ℕ → Option (UdpServer lib)
  on_channel call s p = do poller ← call s.poller p; some (record s { poller = poller })

  -- `UDPReceiver(owner_loop, sock, pkt_queue)`, with the address of the new channel and the
  -- descriptor
  unfoldable pub new_receiver :
      (Setting → Bool) → ℕ → ℕ → UdpServer lib → Option (UdpServer lib × UdpReceiver)
  unfolding set_reuse set_snd_buffer_size set_rcv_buffer_size
  new_receiver setsockopt p fd s = do
    assert (ltb 0 fd)
    socket1 ← set_reuse setsockopt s.socket
    socket2 ← set_snd_buffer_size setsockopt (pos 262144) socket1
    socket3 ← set_rcv_buffer_size setsockopt (pos 262144) socket2
    some (
      record s {
        socket = socket3;
        poller = record s.poller {
          objects = update s.poller.objects p (some (receiver_channel fd));
        };
      },
      record { channel = p; pkt_size = 1024; callback_error = false },
    )

  -- `UDPServer(rcv_addr)`, with what `socket` and `bind` answer, and the poller of the new loop
  unfoldable pub of_address :
      (Setting → Bool)
      → (InetAddress → Bool)
      → ℕ
      → ℕ
      → Epoller lib
      → InetAddress
      → Option (UdpServer lib)
  unfolding new_receiver DatagramSocket.of_address
  of_address setsockopt succeeds p fd poller rcv_addr = do
    socket ← DatagramSocket.of_address (pos fd) succeeds rcv_addr
    (s, receiver) ← new_receiver setsockopt p fd (record {
      poller = poller;
      socket = socket;
      receiver = record { channel = p; pkt_size = 1024; callback_error = false };
      worker = record { running = false; pkt_queue = []; thread_list = []; handled = [] };
      shut = [];
      quit = false;
    })
    some (record s { receiver = receiver })

  -- `~UDPReceiver`, and the destructor of its channel
  unfoldable pub delete_receiver : UdpReceiver → UdpServer lib → Option (UdpServer lib)
  delete_receiver r s = do
    s1 ← on_channel (change_events all_off) s r.channel
    s2 ← on_channel remove_channel s1 r.channel
    c ← s2.poller.objects r.channel
    delete_channel c
    some (record s2 {
      poller = record s2.poller { objects = update s2.poller.objects r.channel none };
    })

  -- `UDPReceiver::Start`
  unfoldable pub receiver_start : UdpServer lib → Option (UdpServer lib)
  receiver_start s = on_channel (change_events reading_on) s s.receiver.channel

  -- `UDPReceiver::Stop`
  unfoldable pub receiver_stop : UdpServer lib → Option (UdpServer lib)
  receiver_stop s = do
    s1 ← on_channel (change_events all_off) s s.receiver.channel
    some (record s1 { shut = s1.shut ++ shutdown true false })

  -- `UDPReceiver::HandleRead`, with the thread that is notified
  unfoldable pub handle_read : (ℕ → Received) → Option ℕ → UdpServer lib → Option (UdpServer lib)
  unfolding receive UdpWorker.handle_read
  handle_read recvfrom woken_one s = do
    pkt ← receive recvfrom s.receiver.pkt_size
    worker ← UdpWorker.handle_read s.worker pkt woken_one
    some (record s { worker = worker })

  -- `UDPServer::OnReceiverError`
  unfoldable pub on_receiver_error :
      (Setting → Bool) → ℕ → ℕ → UdpServer lib → Option (UdpServer lib)
  unfolding receiver_stop new_receiver delete_receiver receiver_start
  on_receiver_error setsockopt p fd s = do
    s1 ← receiver_stop s
    (s2, receiver) ← new_receiver setsockopt p fd s1
    s3 ← delete_receiver s2.receiver s2
    receiver_start (record s3 { receiver = record receiver { pkt_size = 1500 } })

  -- `UDPReceiver::HandleError`
  unfoldable pub handle_error : (Setting → Bool) → ℕ → ℕ → UdpServer lib → Option (UdpServer lib)
  unfolding on_receiver_error
  handle_error setsockopt p fd s = do
    s1 ← on_channel (change_events all_off) s s.receiver.channel
    s2 ← on_channel remove_channel s1 s.receiver.channel
    if s.receiver.callback_error then on_receiver_error setsockopt p fd s2 else some s2

  -- the flag `handling_` of the receiver's channel
  abbrev pub set_handling : Bool → UdpServer lib → Option (UdpServer lib)
  set_handling flag s = do
    c ← s.poller.objects s.receiver.channel
    some (record s {
      poller = record s.poller {
        objects = update s.poller.objects s.receiver.channel (some (record c { handling = flag }));
      };
    })

  -- `HandleEvent_` of the receiver's channel on an error
  unfoldable pub handle_event_error :
      (Setting → Bool) → ℕ → ℕ → UdpServer lib → Option (UdpServer lib)
  unfolding handle_error
  handle_event_error setsockopt p fd s = do
    s1 ← set_handling true s
    s2 ← handle_error setsockopt p fd s1
    set_handling false s2

  -- `UDPServer::Start` up to its loop
  unfoldable pub start : ℕ → UdpServer lib → Option (UdpServer lib)
  unfolding receiver_start
  start thread_nums s = do
    worker ← UdpWorker.start s.worker thread_nums
    receiver_start (record s {
      receiver = record s.receiver { pkt_size = 1500; callback_error = true };
      worker = worker;
    })

  -- `UDPServer::Stop`, with the thread that is notified, where the worker's threads end
  unfoldable pub stop : Option ℕ → UdpServer lib → Option (UdpServer lib)
  unfolding receiver_stop
  stop woken_one s = do
    s1 ← receiver_stop s
    worker ← UdpWorker.stop s1.worker woken_one
    some (record s1 { worker = worker; quit = true })

  -- both `UDPServer::Send`
  abbrev pub send : UdpServer lib → DatagramPacket → Sent
  send s pkt = send_packet s.socket pkt

  abbrev pub send_to : UdpServer lib → List ℕ → ℕ → InetAddress → Sent
  send_to s dat len to = send_bytes s.socket dat len to
