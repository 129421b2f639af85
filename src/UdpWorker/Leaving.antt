-- ===== src/UdpWorker/Leaving.antt =====
-- How the threads of a worker that has been stopped end.
use base_linux.Base.{
  ℕ, zero, suc, subst, ◌+◌, ◌≡◌, ◌⊎◌, refl, ap, inl, inr, Bool, true, false, not, ◌||◌, ◌&&◌, some,
  List, [], ◌∷◌, ◌++◌, get_elem?, set, arith, if◌then◌else◌, ◌==◌, length, map, Option-cases,
  List-cases,
}
use base_linux.DatagramPacket.{datagram_packet}
use base_linux.UdpWorker.{
  Place, tests, pops, waits, woken, holds, ended, UdpWorker, front, advance, goes, move, moves,
}

-- A thread that no longer comes to wait, once the worker stops.
abbrev pub is_leaving : Place → Bool
is_leaving tests = true
is_leaving pops = false
is_leaving waits = false
is_leaving woken = true
is_leaving (holds pkt) = true
is_leaving ended = true

unfoldable pub is_all_leaving : List Place → Bool
is_all_leaving [] = true
is_all_leaving (place ∷ places) = is_leaving place && is_all_leaving places

-- the moves that a thread still makes
abbrev pub ahead : Place → ℕ
ahead tests = 1
ahead pops = 0
ahead waits = 0
ahead woken = 2
ahead (holds pkt) = 1
ahead ended = 0

unfoldable pub all_ahead : List Place → ℕ
all_ahead [] = 0
all_ahead (place ∷ places) = ahead place + all_ahead places

-- Every thread has ended.
unfoldable pub AllEnded : List Place → Type 0
AllEnded [] = Unit {0}
AllEnded (place ∷ places) = (place ≡ ended) × AllEnded places

-- Such a thread makes one of its moves.
advance-leaving :
    (w w' : UdpWorker) (i : ℕ) (place : Place)
    → w.running ≡ false
    → is_leaving place ≡ true
    → advance w i place ≡ some w'
    → (new : Place) × (w'.thread_list ≡ set w.thread_list i new)
      × (is_leaving new ≡ true)
      × (suc (ahead new) ≡ ahead place)
      × (w'.running ≡ false)
unfolding advance
advance-leaving w w' i tests off l h =
    (ended, ground (arith, h, off), refl, refl, ground (arith, h, off))
advance-leaving w w' i pops off l h = cc
advance-leaving w w' i waits off l h = cc
advance-leaving w w' i woken off l h = elim (List-cases w.pkt_queue) [
  | inl empty ↦ (
    holds (datagram_packet 0),
    ground (arith, h, empty),
    refl,
    refl,
    ground (arith, h, empty, off),
  )
  | inr more ↦ (holds more.0, ground (arith, h, more.2), refl, refl, ground (arith, h, more.2, off))
]
advance-leaving w w' i (holds pkt) off l h =
    (ended, ground (arith, h, off), refl, refl, ground (arith, h, off))
advance-leaving w w' i ended off l h = cc

all_leaving_at :
    (places : List Place) (i : ℕ) (place : Place)
    → is_all_leaving places ≡ true
    → get_elem? places i ≡ some place
    → is_leaving place ≡ true
unfolding is_all_leaving
all_leaving_at [] i place l h = cc
all_leaving_at (p ∷ ps) zero place l h = ground (arith, l, h)
all_leaving_at (p ∷ ps) (suc i) place l h = all_leaving_at ps i place (ground (arith, l)) h

is_all_leaving-set :
    (places : List Place) (i : ℕ) (old new : Place)
    → is_all_leaving places ≡ true
    → get_elem? places i ≡ some old
    → is_leaving new ≡ true
    → suc (ahead new) ≡ ahead old
    → (is_all_leaving (set places i new) ≡ true)
      × (suc (all_ahead (set places i new)) ≡ all_ahead places)
unfolding is_all_leaving all_ahead
is_all_leaving-set [] i old new l h n e = cc
is_all_leaving-set (p ∷ ps) zero old new l h n e =
    let same : ahead p ≡ ahead old = ground (arith, h) in
    (ground (arith, l, n), omega (arith, same, e))
is_all_leaving-set (p ∷ ps) (suc i) old new l h n e =
    let m = is_all_leaving-set ps i old new (ground (arith, l)) h n e in
    (ground (arith, l, m.0), omega (arith, m.1))

-- A worker that has been stopped and whose threads all leave.
abbrev pub Leaves : UdpWorker → Type 0
Leaves w = (w.running ≡ false) × (is_all_leaving w.thread_list ≡ true)

goes-Leaves :
    (w w' : UdpWorker) (i : ℕ)
    → Leaves w
    → move w (goes i) ≡ some w'
    → Leaves w' × (suc (all_ahead w'.thread_list) ≡ all_ahead w.thread_list)
unfolding move
goes-Leaves w w' i l h = elim (Option-cases (get_elem? w.thread_list i)) [
  | inl out ↦ ground (arith, out, h)
  | inr at ↦
      let m =
        advance-leaving w w' i at.0 l.0 (all_leaving_at w.thread_list i at.0 l.1 at.1)
          (ground (arith, at.1, h)) in
      let n = is_all_leaving-set w.thread_list i at.0 m.0 l.1 at.1 m.2 m.3 in
      ((m.4, rw (m.1) (n.0)), rw (m.1) (n.1))
]

-- A thread that leaves can go on, unless it has ended.
goes_on :
    (w : UdpWorker) (place : Place)
    → is_leaving place ≡ true
    → (place ≡ ended) ⊎ ((i : ℕ) → (w' : UdpWorker) × (advance w i place ≡ some w'))
unfolding advance
goes_on w tests l = inr (λ i.
    (record w { thread_list = set w.thread_list i (if w.running then pops else ended) }, refl))
goes_on w pops l = cc
goes_on w waits l = cc
goes_on w woken l = inr (λ i. (front (holds (datagram_packet 0)) w i, refl))
goes_on w (holds pkt) l = inr (λ i. (
  if not w.running || (0 == pkt.effective)
      then record w { thread_list = set w.thread_list i ended }
      else record w { thread_list = set w.thread_list i tests; handled = w.handled ++ pkt ∷ [] },
  refl,
))
goes_on w ended l = inl refl

next_thread :
    (w : UdpWorker) (places : List Place)
    → is_all_leaving places ≡ true
    → AllEnded places
      ⊎ ((i : ℕ) × (place : Place) × (get_elem? places i ≡ some place)
          × ((j : ℕ) → (w' : UdpWorker) × (advance w j place ≡ some w')))
unfolding is_all_leaving AllEnded
next_thread w [] l = inl tt
next_thread w (place ∷ places) l = elim (next_thread w places (ground (arith, l))) [
  | inr m ↦ inr (suc m.0, m.1, m.2, m.3)
  | inl all ↦ elim (goes_on w place (ground (arith, l))) [
    | inl done ↦ inl (done, all)
    | inr on ↦ inr (0, place, refl, on)
  ]
]

pub next_move :
    (w : UdpWorker)
    → is_all_leaving w.thread_list ≡ true
    → AllEnded w.thread_list ⊎ ((j : ℕ) × (w' : UdpWorker) × (move w (goes j) ≡ some w'))
unfolding move
next_move w l = elim (next_thread w w.thread_list l) [
  | inl all ↦ inl all
  | inr m ↦ let n = m.3 m.0 in inr (m.0, n.0, ground (arith, m.2, n.1))
]

pub moves-Leaves :
    (is : List ℕ) (w w' : UdpWorker)
    → Leaves w
    → moves w (map goes is) ≡ some w'
    → Leaves w' × (length is + all_ahead w'.thread_list ≡ all_ahead w.thread_list)
unfolding moves
moves-Leaves [] w w' l h =
    let e : w ≡ w' = ground (arith, h) in
    (subst Leaves e l, omega (arith, ap (λ x. all_ahead x.thread_list) e))
moves-Leaves (i ∷ is) w w' l h = elim (Option-cases (move w (goes i))) [
  | inl stuck ↦ ground (arith, stuck, h)
  | inr next ↦
      let m = goes-Leaves w next.0 i l next.1 in
      let n = moves-Leaves is next.0 w' m.0 (ground (arith, next.1, h)) in
      (n.0, omega (arith, m.1, n.1))
]
