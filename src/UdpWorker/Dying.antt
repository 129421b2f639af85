-- ===== src/UdpWorker/Dying.antt =====
-- How a thread of a worker ends although the worker runs.
use base_linux.Base.{
  ℕ, ◌<◌, ◌≡◌, ◌≢◌, sym, ◌∙◌, true, false, some, [], ◌∷◌, get_elem?, set, arith, ◌==◌,
  get_elem?-set_self, get_elem?-set_ne, length, length-set,
}
use base_linux.DatagramPacket.{DatagramPacket, datagram_packet}
use base_linux.UdpWorker.{
  pops, waits, woken, holds, ended, UdpWorker, notify_one, push, handle_read, advance, goes,
  receives, move, moves,
}

-- While the worker runs, a thread waits on the empty queue, and another comes to the lock of Pop.
-- A packet that is not empty is received, and the first thread is notified; but the other takes
-- the packet before the first has the lock again. Then the first finds the queue empty, gets an
-- empty packet, takes it for the end, and ends, while the worker runs.
pub moves-stolen :
    (w : UdpWorker) (pkt : DatagramPacket) (i j : ℕ)
    → w.running ≡ true
    → w.pkt_queue ≡ []
    → (0 == pkt.effective) ≡ false
    → i ≢ j
    → i < length w.thread_list
    → j < length w.thread_list
    → get_elem? w.thread_list i ≡ some waits
    → get_elem? w.thread_list j ≡ some pops
    → (w' : UdpWorker) × (moves w (receives pkt (some i) ∷ goes j ∷ goes i ∷ goes i ∷ []) ≡ some w')
      × (get_elem? w'.thread_list i ≡ some ended)
      × (w'.running ≡ true)
unfolding moves move handle_read push notify_one advance
moves-stolen w pkt i j on empty full apart short_i short_j at_i at_j =
    let t1 = set w.thread_list i woken in
    let t2 = set t1 j (holds pkt) in
    let t3 = set t2 i (holds (datagram_packet 0)) in
    let h1 : get_elem? t1 j ≡ some pops = get_elem?-set_ne w.thread_list i j woken apart ∙ at_j in
    let h2 : get_elem? t2 i ≡ some woken =
      get_elem?-set_ne t1 j i (holds pkt) (λ e. apart (sym e))
      ∙ get_elem?-set_self w.thread_list i woken short_i in
    let l2 : i < length t2 =
      omega (arith, short_i, length-set w.thread_list i woken, length-set t1 j (holds pkt)) in
    let h3 : get_elem? t3 i ≡ some (holds (datagram_packet 0)) =
      get_elem?-set_self t2 i (holds (datagram_packet 0)) l2 in
    let l3 : i < length t3 = omega (arith, l2, length-set t2 i (holds (datagram_packet 0))) in
    (
      record w { pkt_queue = []; thread_list = set t3 i ended },
      ground (arith, on, empty, full, at_i, h1, h2, h3),
      get_elem?-set_self t3 i ended l3,
      on,
    )
