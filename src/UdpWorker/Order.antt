-- ===== src/UdpWorker/Order.antt =====
-- The order in which one thread handles the packets.
use base_linux.Base.{
  ℕ, zero, suc, ◌≡◌, refl, sym, ap, ◌∙◌, inl, inr, true, false, Option, none, some, List, [], ◌∷◌,
  ◌++◌, append_assoc, append-nil, arith, if◌then◌else◌, ◌==◌, Bool-cases, Option-cases, List-cases,
}
use base_linux.DatagramPacket.{DatagramPacket, datagram_packet}
use base_linux.UdpWorker.{
  Place, tests, pops, waits, woken, holds, ended, UdpWorker, is_waiting, is_any_waiting, notify_one,
  push, handle_read, front, advance, Move, goes, receives, stops, wakes, move, moves,
}
use base_linux.UdpWorker.Flow.{received, NoStop}

-- the packets that are not empty
unfoldable pub filled : List DatagramPacket → List DatagramPacket
filled [] = []
filled (pkt ∷ pkts) = let rest = filled pkts in if 0 == pkt.effective then rest else pkt ∷ rest

filled-append : (xs ys : List DatagramPacket) → filled (xs ++ ys) ≡ filled xs ++ filled ys
unfolding filled
filled-append [] ys = refl
filled-append (x ∷ xs) ys = elim (Bool-cases (0 == x.effective)) [
  | inl empty ↦ rw empty (filled-append xs ys)
  | inr full ↦ rw full (ap (λ zs. x ∷ zs) (filled-append xs ys))
]

abbrev pub hand : Place → List DatagramPacket
hand tests = []
hand pops = []
hand waits = []
hand woken = []
hand (holds pkt) = filled (pkt ∷ [])
hand ended = []

-- the packets handled, in hand and in the queue, in the order in which they came
abbrev pub line : UdpWorker → Place → List DatagramPacket
line w place = filled w.handled ++ (hand place ++ filled w.pkt_queue)

-- One thread, at this place, and the packets in this order.
abbrev pub IsLine : UdpWorker → List DatagramPacket → Type 0
IsLine w pkts =
    (place : Place) × (w.thread_list ≡ place ∷ []) × (line w place ≡ pkts) × (w.running ≡ true)

front_lem :
    (w w' : UdpWorker) (old empty_place : Place)
    → w.thread_list ≡ old ∷ []
    → w.running ≡ true
    → hand old ≡ []
    → hand empty_place ≡ []
    → front empty_place w 0 ≡ w'
    → IsLine w' (line w old)
unfolding filled
front_lem w w' old empty_place at on no_old no_new h = elim (List-cases w.pkt_queue) [
  | inl empty ↦ (
    empty_place,
    ground (arith, h, empty, at),
    (let e : record w { thread_list = empty_place ∷ [] } ≡ w' = ground (arith, h, empty, at) in
        ap (λ x. line x empty_place) (sym e)
        ∙ ap (λ xs. filled w.handled ++ (xs ++ filled w.pkt_queue)) (no_new ∙ sym no_old)),
    ground (arith, h, empty, on),
  )
  | inr more ↦ (
    holds more.0,
    ground (arith, h, more.2, at),
    (let e : record w { pkt_queue = more.1; thread_list = holds more.0 ∷ [] } ≡ w' =
          ground (arith, h, more.2, at) in
        ap (λ x. line x (holds more.0)) (sym e)
        ∙ ap (λ xs. filled w.handled ++ xs)
            (sym (filled-append (more.0 ∷ []) more.1)
              ∙ ap filled (sym more.2)
              ∙ ap (λ ys. ys ++ filled w.pkt_queue) (sym no_old))),
    ground (arith, h, more.2, on),
  )
]

advance_lem :
    (w w' : UdpWorker) (place : Place)
    → w.thread_list ≡ place ∷ []
    → w.running ≡ true
    → advance w 0 place ≡ some w'
    → IsLine w' (line w place)
unfolding advance filled
advance_lem w w' tests at on h =
    let e : record w { thread_list = pops ∷ [] } ≡ w' = ground (arith, at, on, h) in
    (pops, ground (arith, at, on, h), ap (λ x. line x pops) (sym e), ground (arith, on, h))
advance_lem w w' pops at on h = front_lem w w' pops waits at on refl refl (ground (arith, h))
advance_lem w w' waits at on h = cc
advance_lem w w' woken at on h =
    front_lem w w' woken (holds (datagram_packet 0)) at on refl refl (ground (arith, h))
advance_lem w w' (holds pkt) at on h = elim (Bool-cases (0 == pkt.effective)) [
  | inl empty ↦
      let e : record w { thread_list = ended ∷ [] } ≡ w' = ground (arith, at, on, empty, h) in
      (
        ended,
        ground (arith, at, on, empty, h),
        ap (λ x. line x ended) (sym e) ∙ rw empty refl,
        ground (arith, on, empty, h),
      )
  | inr full ↦
      let e : record w { thread_list = tests ∷ []; handled = w.handled ++ pkt ∷ [] } ≡ w' =
        ground (arith, at, on, full, h) in
      (
        tests,
        ground (arith, at, on, full, h),
        ap (λ x. line x tests) (sym e)
            ∙ ap (λ xs. xs ++ filled w.pkt_queue) (filled-append w.handled (pkt ∷ []))
            ∙ append_assoc (filled w.handled) (filled (pkt ∷ [])) (filled w.pkt_queue),
        ground (arith, on, full, h),
      )
]
advance_lem w w' ended at on h = cc

hand_waiting : (place : Place) → is_waiting place ≡ true → hand place ≡ []
hand_waiting tests h = refl
hand_waiting pops h = refl
hand_waiting waits h = refl
hand_waiting woken h = refl
hand_waiting (holds pkt) h = cc
hand_waiting ended h = refl

line-push :
    (w : UdpWorker) (pkt : DatagramPacket) (place : Place)
    → (0 == pkt.effective) ≡ false
    → line (record w { pkt_queue = w.pkt_queue ++ pkt ∷ [] }) place ≡ line w place ++ pkt ∷ []
unfolding filled
line-push w pkt place full =
    let one : filled (pkt ∷ []) ≡ pkt ∷ [] = rw full refl in
    ap (λ xs. filled w.handled ++ (hand place ++ xs))
      (filled-append w.pkt_queue (pkt ∷ []) ∙ ap (λ ys. filled w.pkt_queue ++ ys) one)
    ∙ ap (λ xs. filled w.handled ++ xs)
        (sym (append_assoc (hand place) (filled w.pkt_queue) (pkt ∷ [])))
    ∙ sym (append_assoc (filled w.handled) (hand place ++ filled w.pkt_queue) (pkt ∷ []))

push_lem :
    (w w' : UdpWorker) (pkt : DatagramPacket) (woken_one : Option ℕ) (place : Place)
    → w.thread_list ≡ place ∷ []
    → w.running ≡ true
    → (0 == pkt.effective) ≡ false
    → push w pkt woken_one ≡ some w'
    → IsLine w' (line w place ++ pkt ∷ [])
unfolding push notify_one is_any_waiting
push_lem w w' pkt none place at on full h = elim (Bool-cases (is_waiting place)) [
  | inl asleep ↦ ground (arith, at, asleep, h)
  | inr awake ↦
      let e : record w { pkt_queue = w.pkt_queue ++ pkt ∷ [] } ≡ w' =
        ground (arith, at, awake, h) in
      (
        place,
        ground (arith, at, awake, h),
        ap (λ x. line x place) (sym e) ∙ line-push w pkt place full,
        ground (arith, on, at, awake, h),
      )
]
push_lem w w' pkt (some (suc i)) place at on full h = ground (arith, at, h)
push_lem w w' pkt (some zero) place at on full h = elim (Bool-cases (is_waiting place)) [
  | inr awake ↦ ground (arith, at, awake, h)
  | inl asleep ↦
      let e : record w { pkt_queue = w.pkt_queue ++ pkt ∷ []; thread_list = woken ∷ [] } ≡ w' =
        ground (arith, at, asleep, h) in
      (
        woken,
        ground (arith, at, asleep, h),
        ap (λ x. line x woken) (sym e)
            ∙ ap (λ xs. filled w.handled ++ (xs ++ filled (w.pkt_queue ++ pkt ∷ [])))
                (sym (hand_waiting place asleep))
            ∙ line-push w pkt place full,
        ground (arith, on, at, asleep, h),
      )
]

move_lem :
    (w w' : UdpWorker) (m : Move) (ms : List Move) (place : Place)
    → w.thread_list ≡ place ∷ []
    → w.running ≡ true
    → NoStop (m ∷ ms)
    → move w m ≡ some w'
    → (new : Place) × (w'.thread_list ≡ new ∷ [])
      × (line w' new ++ received ms ≡ line w place ++ received (m ∷ ms))
      × (w'.running ≡ true)
      × NoStop ms
unfolding move handle_read received NoStop
move_lem w w' (goes (suc i)) ms place at on none_stop h = ground (arith, at, h)
move_lem w w' (goes zero) ms place at on none_stop h =
    let m = advance_lem w w' place at on (ground (arith, at, h)) in
    (m.0, m.1, ap (λ xs. xs ++ received ms) m.2, m.3, none_stop)
move_lem w w' (receives pkt woken_one) ms place at on none_stop h =
    elim (Bool-cases (0 == pkt.effective)) [
      | inl empty ↦
          let e : w ≡ w' = ground (arith, empty, h) in
          (
            place,
            ap (λ (x : UdpWorker). x.thread_list) (sym e) ∙ at,
            rw empty (ap (λ x. line x place ++ received ms) (sym e)),
            ap (λ (x : UdpWorker). x.running) (sym e) ∙ on,
            none_stop,
          )
      | inr full ↦
          let m = push_lem w w' pkt woken_one place at on full (ground (arith, full, h)) in
          (
            m.0,
            m.1,
            rw full (
                ap (λ xs. xs ++ received ms) m.2
                ∙ append_assoc (line w place) (pkt ∷ []) (received ms)),
            m.3,
            none_stop,
          )
    ]
move_lem w w' (stops woken_one) ms place at on none_stop h = elim none_stop [ ]
move_lem w w' (wakes (suc i)) ms place at on none_stop h = ground (arith, at, h)
move_lem w w' (wakes zero) ms place at on none_stop h = elim (Bool-cases (is_waiting place)) [
  | inr awake ↦ ground (arith, at, awake, h)
  | inl asleep ↦
      let e : record w { thread_list = woken ∷ [] } ≡ w' = ground (arith, at, asleep, h) in
      (
        woken,
        ground (arith, at, asleep, h),
        ap (λ x. line x woken ++ received ms) (sym e)
            ∙ ap (λ xs. (filled w.handled ++ (xs ++ filled w.pkt_queue)) ++ received ms)
                (sym (hand_waiting place asleep)),
        ground (arith, on, at, asleep, h),
        none_stop,
      )
]

-- A worker with one thread that runs and is not stopped: whatever happens, the packets handled,
-- then the one in its hand, then those in the queue, in this order and without the empty ones,
-- are those of before followed by those received, in the order in which they came.
pub moves-line :
    (ms : List Move) (w w' : UdpWorker) (place : Place)
    → w.thread_list ≡ place ∷ []
    → w.running ≡ true
    → NoStop ms
    → moves w ms ≡ some w'
    → (new : Place) × (w'.thread_list ≡ new ∷ []) × (line w' new ≡ line w place ++ received ms)
unfolding moves received
moves-line [] w w' place at on none_stop h =
    let e : w ≡ w' = ground (arith, h) in
    (
      place,
      ap (λ (x : UdpWorker). x.thread_list) (sym e) ∙ at,
      ap (λ x. line x place) (sym e) ∙ sym (append-nil (line w place)),
    )
moves-line (m ∷ ms) w w' place at on none_stop h = elim (Option-cases (move w m)) [
  | inl stuck ↦ ground (arith, stuck, h)
  | inr next ↦
      let k = move_lem w next.0 m ms place at on none_stop next.1 in
      let n = moves-line ms next.0 w' k.0 k.1 k.3 k.4 (ground (arith, next.1, h)) in
      (n.0, n.1, n.2 ∙ k.2)
]
