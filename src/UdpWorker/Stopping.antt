-- ===== src/UdpWorker/Stopping.antt =====
-- What `Stop` of a worker does to its threads.
use base_linux.Base.{
  ℕ, ◌+◌, ◌≡◌, ◌≢◌, ◌⊎◌, refl, ap, ◌∙◌, inl, inr, true, false, not, ◌||◌, some, List, [], ◌∷◌,
  get_elem?, set, arith, if◌then◌else◌, ◌==◌, get_elem?-set_ne, length, map, ℕ_discrete,
  Option-cases, List-cases,
}
use base_linux.DatagramPacket.{datagram_packet}
use base_linux.UdpWorker.{
  Place, tests, pops, waits, woken, holds, ended, UdpWorker, notify_one, stop, advance, goes, move,
  moves,
}
use base_linux.UdpWorker.Leaving.{is_all_leaving, all_ahead, AllEnded, next_move, moves-Leaves}

-- A thread that goes on changes its own place only.
advance-set :
    (w w' : UdpWorker) (i : ℕ) (place : Place)
    → advance w i place ≡ some w'
    → (new : Place) × (w'.thread_list ≡ set w.thread_list i new)
unfolding advance
advance-set w w' i tests h = (if w.running then pops else ended, ground (arith, h))
advance-set w w' i pops h = elim (List-cases w.pkt_queue) [
  | inl empty ↦ (waits, ground (arith, h, empty))
  | inr more ↦ (holds more.0, ground (arith, h, more.2))
]
advance-set w w' i waits h = cc
advance-set w w' i woken h = elim (List-cases w.pkt_queue) [
  | inl empty ↦ (holds (datagram_packet 0), ground (arith, h, empty))
  | inr more ↦ (holds more.0, ground (arith, h, more.2))
]
advance-set w w' i (holds pkt) h =
    (if not w.running || (0 == pkt.effective) then ended else tests, ground (arith, h))
advance-set w w' i ended h = cc

goes-waits :
    (w w' : UdpWorker) (i j : ℕ)
    → get_elem? w.thread_list j ≡ some waits
    → move w (goes i) ≡ some w'
    → get_elem? w'.thread_list j ≡ some waits
unfolding move advance
goes-waits w w' i j at h = elim (ℕ_discrete i j) [
  | yes same ↦ ground (arith, at, h, same)
  | no apart ↦ elim (Option-cases (get_elem? w.thread_list i)) [
    | inl out ↦ ground (arith, out, h)
    | inr m ↦
        let n = advance-set w w' i m.0 (ground (arith, m.1, h)) in
        ap (λ places. get_elem? places j) n.1 ∙ get_elem?-set_ne w.thread_list i j n.0 apart ∙ at
  ]
]

-- A thread that waits stays where it is, whatever the other threads do.
moves-waits :
    (is : List ℕ) (w w' : UdpWorker) (j : ℕ)
    → get_elem? w.thread_list j ≡ some waits
    → moves w (map goes is) ≡ some w'
    → get_elem? w'.thread_list j ≡ some waits
unfolding moves
moves-waits [] w w' j at h = ground (arith, at, h)
moves-waits (i ∷ is) w w' j at h = elim (Option-cases (move w (goes i))) [
  | inl stuck ↦ ground (arith, stuck, h)
  | inr next ↦
      moves-waits is next.0 w' j (goes-waits w next.0 i j at next.1) (ground (arith, next.1, h))
]

-- When two threads of a worker that runs wait, Stop wakes one of them. The other waits on,
-- whatever the threads do from then on, as long as no packet comes and wait does not return by
-- itself: Stop never gets past its joins.
pub stop-waits :
    (w : UdpWorker) (i j : ℕ) (is : List ℕ)
    → w.running ≡ true
    → i ≢ j
    → get_elem? w.thread_list i ≡ some waits
    → get_elem? w.thread_list j ≡ some waits
    → (w1 : UdpWorker) × (stop w (some i) ≡ some w1)
      × ((w2 : UdpWorker)
          → moves w1 (map goes is) ≡ some w2
          → get_elem? w2.thread_list j ≡ some waits)
unfolding stop notify_one
stop-waits w i j is on apart at_i at_j = (
  record w { running = false; thread_list = set w.thread_list i woken },
  ground (arith, on, at_i),
  λ w2 h.
      moves-waits is (record w { running = false; thread_list = set w.thread_list i woken }) w2 j
        (get_elem?-set_ne w.thread_list i j woken apart ∙ at_j) h,
)

-- One thread of a worker that runs waits, and no other waits or is about to. After Stop has woken
-- it, every sequence of the threads' own moves is as long as what the threads have ahead of them
-- at most, and as long as not all of them have ended, there is one that can go on: Stop gets past
-- its joins.
pub stop-AllEnded :
    (w : UdpWorker) (i : ℕ) (is : List ℕ)
    → w.running ≡ true
    → get_elem? w.thread_list i ≡ some waits
    → is_all_leaving (set w.thread_list i woken) ≡ true
    → (w1 : UdpWorker) × (stop w (some i) ≡ some w1)
      × ((w2 : UdpWorker)
          → moves w1 (map goes is) ≡ some w2
          → (length is + all_ahead w2.thread_list ≡ all_ahead w1.thread_list)
            × (AllEnded w2.thread_list
                ⊎ ((j : ℕ) × (w3 : UdpWorker) × (move w2 (goes j) ≡ some w3))))
unfolding stop notify_one
stop-AllEnded w i is on at l =
    let w1 : UdpWorker = record w { running = false; thread_list = set w.thread_list i woken } in
    (
      w1,
      ground (arith, on, at),
      λ w2 h. let m = moves-Leaves is w1 w2 (refl, l) h in (m.1, next_move w2 m.0.1),
    )
