-- ===== src/UdpWorker/Tests.antt =====
-- The theorems on the threads that take packets, applied to workers of one and of two threads.
use base_linux.Base.{
  ℕ, ◌+◌, ◌≡◌, ◌⊎◌, refl, true, some, List, [], ◌∷◌, ◌++◌, arith, get_elem?, set, map, length,
}
use base_linux.InetAddress.{invalid_addr}
use base_linux.DatagramPacket.{DatagramPacket}
use base_linux.UdpWorker.{
  Place, tests, pops, waits, woken, ended, UdpWorker, Move, goes, receives, stop, move, moves,
  handle_read, push, notify_one, advance,
}
use base_linux.UdpWorker.Flow.{received, NoStop, live, total, moves-live}
use base_linux.UdpWorker.Order.{line, moves-line}
use base_linux.UdpWorker.Dying.{moves-stolen}
use base_linux.UdpWorker.Leaving.{all_ahead, AllEnded, is_all_leaving}
use base_linux.UdpWorker.Stopping.{stop-AllEnded}

abbrev packet : DatagramPacket
packet = record { dat = 7 ∷ []; effective = 1; address = invalid_addr }

-- one thread, which waits
abbrev single : UdpWorker
single = record { running = true; pkt_queue = []; thread_list = waits ∷ []; handled = [] }

-- two threads, of which the second is about to wait
abbrev double : UdpWorker
double = record single { thread_list = waits ∷ pops ∷ [] }

-- two threads that wait
abbrev asleep : UdpWorker
asleep = record single { thread_list = waits ∷ waits ∷ [] }

abbrev served : List Move
served = receives packet (some 0) ∷ goes 0 ∷ goes 0 ∷ []

-- the packet is handled
abbrev after : UdpWorker
after = record single { thread_list = tests ∷ []; handled = packet ∷ [] }

served-after : moves single served ≡ some after
unfolding moves move handle_read push notify_one advance
served-after = refl

served-NoStop : NoStop served
unfolding NoStop
served-NoStop = tt

moves-live_example :
    live (λ pkt. pkt.effective) after
    ≡ live (λ pkt. pkt.effective) single + total (λ pkt. pkt.effective) (received served)
moves-live_example =
    moves-live (λ pkt. pkt.effective) served single after refl served-NoStop served-after

moves-line_example :
    (new : Place) × (after.thread_list ≡ new ∷ [])
    × (line after new ≡ line single waits ++ received served)
moves-line_example = moves-line served single after waits refl refl served-NoStop served-after

moves-stolen_example :
    (w' : UdpWorker) × (moves double (receives packet (some 0) ∷ goes 1 ∷ goes 0 ∷ goes 0 ∷ [])
      ≡ some w')
    × (get_elem? w'.thread_list 0 ≡ some ended)
    × (w'.running ≡ true)
moves-stolen_example =
    moves-stolen double packet 0 1 refl refl refl (λ e. ground (arith, e)) (omega arith)
      (omega arith) refl refl

single-leaving : is_all_leaving (set single.thread_list 0 woken) ≡ true
unfolding is_all_leaving
single-leaving = refl

abbrev turns : List ℕ
turns = 0 ∷ 0 ∷ []

stop-AllEnded_example :
    (w1 : UdpWorker) × (stop single (some 0) ≡ some w1)
    × ((w2 : UdpWorker)
        → moves w1 (map goes turns) ≡ some w2
        → (length turns + all_ahead w2.thread_list ≡ all_ahead w1.thread_list)
          × (AllEnded w2.thread_list ⊎ ((j : ℕ) × (w3 : UdpWorker) × (move w2 (goes j) ≡ some w3))))
stop-AllEnded_example = stop-AllEnded single 0 turns refl refl single-leaving
