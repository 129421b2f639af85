-- ===== src/UdpWorker/Flow.antt =====
-- What becomes of the packets.
use base_linux.Base.{
  ℕ, zero, suc, ◌+◌, ◌≡◌, refl, sym, ap, ◌∙◌, inl, inr, true, Option, none, some, List, [], ◌∷◌,
  ◌++◌, get_elem?, set, arith, if◌then◌else◌, ◌==◌, Bool-cases, Option-cases, List-cases,
}
use base_linux.DatagramPacket.{DatagramPacket, datagram_packet}
use base_linux.UdpWorker.{
  Place, tests, pops, waits, woken, holds, ended, UdpWorker, is_waiting, is_any_waiting, notify_one,
  push, handle_read, front, advance, Move, goes, receives, stops, wakes, move, moves,
}

-- The packets of a sequence of moves that the receiver puts into the queue.
unfoldable pub received : List Move → List DatagramPacket
received [] = []
received (receives pkt woken_one ∷ ms) =
    if 0 == pkt.effective then received ms else pkt ∷ received ms
received (goes i ∷ ms) = received ms
received (stops woken_one ∷ ms) = received ms
received (wakes i ∷ ms) = received ms

-- No stop is among the moves.
unfoldable pub NoStop : List Move → Type 0
NoStop [] = Unit {0}
NoStop (stops woken_one ∷ ms) = ⊥
NoStop (goes i ∷ ms) = NoStop ms
NoStop (receives pkt woken_one ∷ ms) = NoStop ms
NoStop (wakes i ∷ ms) = NoStop ms

-- How much the packets weigh that are not empty: that for every weight two lists weigh the same
-- says that they have the same packets, each as often.
module _ (weight : DatagramPacket → ℕ) where
  abbrev pub worth : DatagramPacket → ℕ
  worth pkt = if 0 == pkt.effective then 0 else weight pkt

  unfoldable pub total : List DatagramPacket → ℕ
  total [] = 0
  total (pkt ∷ pkts) = worth pkt + total pkts

  pub total-append : (xs ys : List DatagramPacket) → total (xs ++ ys) ≡ total xs + total ys
  unfolding total
  total-append [] ys = omega arith
  total-append (x ∷ xs) ys = ap (λ n. worth x + n) (total-append xs ys) ∙ omega arith

  abbrev pub in_hand : Place → ℕ
  in_hand tests = 0
  in_hand pops = 0
  in_hand waits = 0
  in_hand woken = 0
  in_hand (holds pkt) = worth pkt
  in_hand ended = 0

  unfoldable pub all_in_hand : List Place → ℕ
  all_in_hand [] = 0
  all_in_hand (place ∷ places) = in_hand place + all_in_hand places

  all_in_hand-set :
      (places : List Place) (i : ℕ) (old new : Place)
      → get_elem? places i ≡ some old
      → all_in_hand (set places i new) + in_hand old ≡ all_in_hand places + in_hand new
  unfolding all_in_hand
  all_in_hand-set [] i old new h = cc
  all_in_hand-set (place ∷ places) zero old new h =
      let e : in_hand place ≡ in_hand old = ground (arith, h) in omega (arith, e)
  all_in_hand-set (place ∷ places) (suc i) old new h =
      omega (arith, all_in_hand-set places i old new h)

  -- the packets in the queue, in the threads' hands, and handled
  abbrev pub live : UdpWorker → ℕ
  live w = total w.pkt_queue + all_in_hand w.thread_list + total w.handled

  waiting_lem : (place : Place) → is_waiting place ≡ true → in_hand place ≡ 0
  waiting_lem tests h = refl
  waiting_lem pops h = refl
  waiting_lem waits h = refl
  waiting_lem woken h = refl
  waiting_lem (holds pkt) h = cc
  waiting_lem ended h = refl

  total_one : (pkt : DatagramPacket) → total (pkt ∷ []) ≡ worth pkt
  unfolding total
  total_one pkt = omega arith

  notify_one_lem :
      (places places' : List Place) (woken_one : Option ℕ)
      → notify_one places woken_one ≡ some places'
      → all_in_hand places' ≡ all_in_hand places
  unfolding notify_one
  notify_one_lem places places' none h = elim (Bool-cases (is_any_waiting places)) [
    | inl some_wait ↦ ground (arith, some_wait, h)
    | inr none_wait ↦ (let e : places' ≡ places = ground (arith, none_wait, h) in ap all_in_hand e)
  ]
  notify_one_lem places places' (some i) h = elim (Option-cases (get_elem? places i)) [
    | inl out ↦ ground (arith, out, h)
    | inr at ↦ elim (Bool-cases (is_waiting at.0)) [
      | inr awake ↦ ground (arith, at.1, awake, h)
      | inl asleep ↦
          let e : places' ≡ set places i woken = ground (arith, at.1, asleep, h) in
          ap all_in_hand e
          ∙ omega (arith, all_in_hand-set places i at.0 woken at.1, waiting_lem at.0 asleep)
    ]
  ]

  push_lem :
      (w w' : UdpWorker) (pkt : DatagramPacket) (woken_one : Option ℕ)
      → push w pkt woken_one ≡ some w'
      → (live w' ≡ live w + worth pkt) × (w'.running ≡ w.running)
  unfolding push
  push_lem w w' pkt woken_one h = elim (Option-cases (notify_one w.thread_list woken_one)) [
    | inl out ↦ ground (arith, out, h)
    | inr m ↦
        let e : record w { pkt_queue = w.pkt_queue ++ pkt ∷ []; thread_list = m.0 } ≡ w' =
          ground (arith, m.1, h) in
        (
          ap live (sym e)
              ∙ omega (
                arith,
                total-append w.pkt_queue (pkt ∷ []),
                total_one pkt,
                notify_one_lem w.thread_list m.0 woken_one m.1,
              ),
          ap (λ (x : UdpWorker). x.running) (sym e),
        )
  ]

  front_lem :
      (w : UdpWorker) (i : ℕ) (old empty_place : Place)
      → get_elem? w.thread_list i ≡ some old
      → in_hand old ≡ 0
      → in_hand empty_place ≡ 0
      → live (front empty_place w i) ≡ live w
  unfolding total
  front_lem w i old empty_place h zero_old zero_new = elim (List-cases w.pkt_queue) [
    | inl empty ↦
        rw empty
          (omega (arith, zero_old, zero_new, all_in_hand-set w.thread_list i old empty_place h))
    | inr more ↦
        rw (more.2) (omega (arith, zero_old, all_in_hand-set w.thread_list i old (holds more.0) h))
  ]

  front_running :
      (w : UdpWorker) (i : ℕ) (empty_place : Place) → (front empty_place w i).running ≡ w.running
  front_running w i empty_place = elim (List-cases w.pkt_queue) [
    | inl empty ↦ rw empty refl
    | inr more ↦ rw (more.2) refl
  ]

  advance_lem :
      (w w' : UdpWorker) (i : ℕ) (place : Place)
      → w.running ≡ true
      → get_elem? w.thread_list i ≡ some place
      → advance w i place ≡ some w'
      → (live w' ≡ live w) × (w'.running ≡ true)
  unfolding advance total
  advance_lem w w' i tests on at h =
      let e : record w { thread_list = set w.thread_list i pops } ≡ w' = ground (arith, on, h) in
      (
        ap live (sym e) ∙ omega (arith, all_in_hand-set w.thread_list i tests pops at),
        ap (λ (x : UdpWorker). x.running) (sym e) ∙ on,
      )
  advance_lem w w' i pops on at h =
      let e : front waits w i ≡ w' = ground (arith, h) in
      (
        ap live (sym e) ∙ front_lem w i pops waits at refl refl,
        ap (λ (x : UdpWorker). x.running) (sym e) ∙ front_running w i waits ∙ on,
      )
  advance_lem w w' i waits on at h = cc
  advance_lem w w' i woken on at h =
      let e : front (holds (datagram_packet 0)) w i ≡ w' = ground (arith, h) in
      (
        ap live (sym e) ∙ front_lem w i woken (holds (datagram_packet 0)) at refl refl,
        ap (λ (x : UdpWorker). x.running) (sym e)
            ∙ front_running w i (holds (datagram_packet 0))
            ∙ on,
      )
  advance_lem w w' i (holds pkt) on at h = elim (Bool-cases (0 == pkt.effective)) [
    | inl empty ↦
        let e : record w { thread_list = set w.thread_list i ended } ≡ w' =
          ground (arith, on, empty, h) in
        let none_held : in_hand (holds pkt) ≡ 0 = ground (arith, empty) in
        (
          ap live (sym e)
              ∙ omega (arith, none_held, all_in_hand-set w.thread_list i (holds pkt) ended at),
          ap (λ (x : UdpWorker). x.running) (sym e) ∙ on,
        )
    | inr full ↦
        let e : record w {
          thread_list = set w.thread_list i tests;
          handled = w.handled ++ pkt ∷ [];
        }
            ≡ w' =
          ground (arith, on, full, h) in
        (
          ap live (sym e)
              ∙ omega (
                arith,
                total-append w.handled (pkt ∷ []),
                total_one pkt,
                all_in_hand-set w.thread_list i (holds pkt) tests at,
              ),
          ap (λ (x : UdpWorker). x.running) (sym e) ∙ on,
        )
  ]
  advance_lem w w' i ended on at h = cc

  move_lem :
      (w w' : UdpWorker) (m : Move) (ms : List Move)
      → w.running ≡ true
      → NoStop (m ∷ ms)
      → move w m ≡ some w'
      → (live w' + total (received ms) ≡ live w + total (received (m ∷ ms)))
        × (w'.running ≡ true)
        × NoStop ms
  unfolding move handle_read received total NoStop
  move_lem w w' (goes i) ms on none_stop h = elim (Option-cases (get_elem? w.thread_list i)) [
    | inl out ↦ ground (arith, out, h)
    | inr at ↦
        let m = advance_lem w w' i at.0 on at.1 (ground (arith, at.1, h)) in
        (omega (arith, m.0), m.1, none_stop)
  ]
  move_lem w w' (receives pkt woken_one) ms on none_stop h =
      elim (Bool-cases (0 == pkt.effective)) [
        | inl empty ↦
            let e : w ≡ w' = ground (arith, empty, h) in
            (
              rw empty (ap (λ x. live x + total (received ms)) (sym e)),
              ap (λ (x : UdpWorker). x.running) (sym e) ∙ on,
              none_stop,
            )
        | inr full ↦
            let m = push_lem w w' pkt woken_one (ground (arith, full, h)) in
            (rw full (omega (arith, m.0)), m.1 ∙ on, none_stop)
      ]
  move_lem w w' (stops woken_one) ms on none_stop h = elim none_stop [ ]
  move_lem w w' (wakes i) ms on none_stop h = elim (Option-cases (get_elem? w.thread_list i)) [
    | inl out ↦ ground (arith, out, h)
    | inr at ↦ elim (Bool-cases (is_waiting at.0)) [
      | inr awake ↦ ground (arith, at.1, awake, h)
      | inl asleep ↦
          let e : record w { thread_list = set w.thread_list i woken } ≡ w' =
            ground (arith, at.1, asleep, h) in
          (
            ap (λ x. live x + total (received ms)) (sym e)
                ∙ omega (
                  arith,
                  all_in_hand-set w.thread_list i at.0 woken at.1,
                  waiting_lem at.0 asleep,
                ),
            ap (λ (x : UdpWorker). x.running) (sym e) ∙ on,
            none_stop,
          )
    ]
  ]

  -- While the worker runs and is not stopped, no packet is lost and none is there twice,
  -- whatever the threads do in whatever order: the packets in the queue, in the hands of the
  -- threads and handled are those of before with those that were received.
  pub moves-live :
      (ms : List Move) (w w' : UdpWorker)
      → w.running ≡ true
      → NoStop ms
      → moves w ms ≡ some w'
      → live w' ≡ live w + total (received ms)
  unfolding moves received total
  moves-live [] w w' on none_stop h =
      let e : w ≡ w' = ground (arith, h) in ap live (sym e) ∙ omega arith
  moves-live (m ∷ ms) w w' on none_stop h = elim (Option-cases (move w m)) [
    | inl stuck ↦ ground (arith, stuck, h)
    | inr next ↦
        let k = move_lem w next.0 m ms on none_stop next.1 in
        moves-live ms next.0 w' k.1 k.2 (ground (arith, next.1, h)) ∙ k.0
  ]
