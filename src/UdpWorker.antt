-- ===== src/UdpWorker.antt =====
-- src/packet_queue.h and .cc, src/udp_receiver.cc and src/udp_worker.h and .cc: the threads that
-- take packets from a queue, as moves of one thread at a time. `none` is a move that cannot be
-- made.
pub mod Flow
pub mod Order
pub mod Dying
pub mod Leaving
pub mod Stopping
mod Tests
use base_linux.Base.{
  ℕ, zero, suc, ◌+◌, Bool, true, false, not, ◌&&◌, ◌||◌, Option, none, some, List, [], ◌∷◌, ◌++◌,
  get_elem?, set, replicate, drop, ltb, ◌==◌, if◌then◌else◌, ◌>>=◌, ◌>>◌, assert,
}
use base_linux.DatagramPacket.{DatagramPacket, datagram_packet}

-- Where a thread is in `OnThreadProcessPacket`.
pub data Place : Type 0 where
  -- at `while(running_)`
  tests : Place
  -- at the lock in `Pop`
  pops : Place
  -- blocked in `cond_.wait`
  waits : Place
  -- notified or woken, before it has the lock again
  woken : Place
  -- `Pop` has returned
  holds : DatagramPacket → Place
  ended : Place

pub record UdpWorker : Type 0 where
  pub running : Bool
  -- `pkt_queue_` of the `PacketQueue`, the front first
  pub pkt_queue : List DatagramPacket
  pub thread_list : List Place
  -- the packets given to the callback, in order
  pub handled : List DatagramPacket

-- `UDPWorkder::Start`. The new threads are appended, and the first ones of the list are started; one
-- that is not started stands as ended.
pub start : UdpWorker → ℕ → Option UdpWorker
start w thread_nums = do
  assert (ltb 0 thread_nums)
  some (record w {
    thread_list =
        replicate thread_nums tests
        ++ drop thread_nums (w.thread_list ++ replicate thread_nums ended);
    running = true;
  })

abbrev pub is_waiting : Place → Bool
is_waiting tests = false
is_waiting pops = false
is_waiting waits = true
is_waiting woken = false
is_waiting (holds pkt) = false
is_waiting ended = false

unfoldable pub is_any_waiting : List Place → Bool
is_any_waiting [] = false
is_any_waiting (place ∷ places) = is_waiting place || is_any_waiting places

-- `cond_.notify_one()`: one of the threads that wait is woken, if any does.
pub notify_one : List Place → Option ℕ → Option (List Place)
notify_one places none = do assert (not (is_any_waiting places)); some places
notify_one places (some i) = do
  place ← get_elem? places i
  assert (is_waiting place)
  some (set places i woken)

-- `Push`
pub push : UdpWorker → DatagramPacket → Option ℕ → Option UdpWorker
push w pkt woken_one = do
  places ← notify_one w.thread_list woken_one
  some (record w { pkt_queue = w.pkt_queue ++ pkt ∷ []; thread_list = places })

-- `UDPReceiver::HandleRead`, with the packet that the socket has
unfoldable pub handle_read : UdpWorker → DatagramPacket → Option ℕ → Option UdpWorker
handle_read w pkt woken_one = if 0 == pkt.effective then some w else push w pkt woken_one

-- `Stop` up to the joins
pub stop : UdpWorker → Option ℕ → Option UdpWorker
stop w woken_one =
    if w.running
    then (do
      places ← notify_one w.thread_list woken_one
      some (record w { running = false; thread_list = places }))
    else some w

-- `Pop` once it has the lock, with what it does on an empty queue
abbrev pub front : Place → UdpWorker → ℕ → UdpWorker
front empty_place w i = elim w.pkt_queue [
  | [] ↦ record w { thread_list = set w.thread_list i empty_place }
  | pkt ∷ rest ↦ record w { pkt_queue = rest; thread_list = set w.thread_list i (holds pkt) }
]

-- A thread goes on to its next place.
pub advance : UdpWorker → ℕ → Place → Option UdpWorker
advance w i tests =
    some (record w { thread_list = set w.thread_list i (if w.running then pops else ended) })
advance w i pops = some (front waits w i)
advance w i waits = none
advance w i woken = some (front (holds (datagram_packet 0)) w i)
advance w i (holds pkt) = some (
    if not w.running || (0 == pkt.effective)
    then record w { thread_list = set w.thread_list i ended }
    else record w { thread_list = set w.thread_list i tests; handled = w.handled ++ pkt ∷ [] })
advance w i ended = none

pub data Move : Type 0 where
  goes : ℕ → Move
  receives : DatagramPacket → Option ℕ → Move
  stops : Option ℕ → Move
  -- a wake-up without a notification, which `wait` allows
  wakes : ℕ → Move

pub move : UdpWorker → Move → Option UdpWorker
move w (goes i) = do place ← get_elem? w.thread_list i; advance w i place
move w (receives pkt woken_one) = handle_read w pkt woken_one
move w (stops woken_one) = stop w woken_one
move w (wakes i) = do
  place ← get_elem? w.thread_list i
  assert (is_waiting place)
  some (record w { thread_list = set w.thread_list i woken })

pub moves : UdpWorker → List Move → Option UdpWorker
moves w [] = some w
moves w (m ∷ ms) = do w' ← move w m; moves w' ms
