-- ===== src/TimerQueue/Erasing.antt =====
-- The loop of `getExpired` that takes the expired timers out of `active_timers_`.
use base_linux.Base.{
  ℕ, ◌+◌, ◌≡◌, refl, ap, inl, inr, true, false, not, ◌&&◌, Option, some, List, [], ◌∷◌, arith,
  length, ◌==◌, Bool-cases,
}
use base_linux.OrderedSet.{Pair, contains, erase}
use base_linux.OrderedSet.Order.{IsSorted, erase-IsSorted}
use base_linux.OrderedSet.Laws.{contains-erase, length-erase}
use base_linux.TimerQueue.{Timer, erase_active}
use base_linux.TimerQueue.Sets.{one_timer}
use base_linux.TimerQueue.Pointers.{
  pointer_in, Distinct, contains-pointer_in, AllQueued, AllQueued-tail, AllQueued-head,
}

-- The pairs of the listed pointers are gone from `active_timers_`, and no others.
pub record Erases (es active active' : List Pair) : Type 0 where
  pub sorted : IsSorted active'
  pub size : length active' + length es ≡ length active
  pub left : (y : Pair) → contains y active' ≡ (contains y active && not (pointer_in y.0 es))

-- Every pair of `active_timers_` is of a live timer with this sequence number.
abbrev pub Owned : (ℕ → Option Timer) → List Pair → Type 0
Owned heap active =
    (p s : ℕ) → contains (p, s) active ≡ true → (t : Timer) × (heap p ≡ some t) × (t.sequence ≡ s)

module _ (heap : ℕ → Option Timer) where
  -- Erasing the pair of one queued timer.
  left-erase :
      (active : List Pair) (p : ℕ) (t : Timer) (y : Pair)
      → Owned heap active
      → heap p ≡ some t
      → contains y (erase (p, t.sequence) active) ≡ (contains y active && not (y.0 == p))
  left-erase active p t y own live = elim (Bool-cases (contains y active)) [
    | inl e ↦
        let o = own y.0 y.1 e in
        elim (Bool-cases (y.0 == p)) [
          | inl same ↦
              let one = one_timer heap y.0 p (o.1) live (ground (arith, same)) in
              ground (arith, e, same, one, o.2, contains-erase y (p, t.sequence) active)
          | inr other ↦ ground (arith, e, other, contains-erase y (p, t.sequence) active)
        ]
    | inr e ↦ ground (arith, e, contains-erase y (p, t.sequence) active)
  ]

  -- An entry whose pointer is not in the list is apart from every entry of it.
  pub other_pointer :
      (e : Pair) (es : List Pair) (w p : ℕ)
      → pointer_in e.1 es ≡ false
      → contains (w, p) es ≡ true
      → (p == e.1) ≡ false
  other_pointer e es w p out c = elim (Bool-cases (p == e.1)) [
    | inl same ↦
        let same' : p ≡ e.1 = ground (arith, same) in
        let inside = contains-pointer_in w p es c in
        cc (ap (λ r. pointer_in r es) same', inside, out)
    | inr other ↦ other
  ]

  tail_queued :
      (active : List Pair) (e : Pair) (es : List Pair)
      → Owned heap active
      → (all : AllQueued heap active (e ∷ es)) → pointer_in e.1 es ≡ false
      → AllQueued heap (erase (e.1, (AllQueued-head heap active e es all).timer.sequence) active) es
  tail_queued active e es own all out w p c =
      let h = AllQueued-head heap active e es all in
      let o = AllQueued-tail heap active e es all w p c in
      let other = other_pointer e es w p out c in
      record {
        timer = o.timer;
        live = o.live;
        due = o.due;
        known =
            ground (
              arith,
              o.known,
              other,
              left-erase active e.1 h.timer (p, o.timer.sequence) own h.live,
            );
        addressable = o.addressable;
      }

  pub erase_active_lem :
      (es active : List Pair)
      → IsSorted active
      → Owned heap active
      → AllQueued heap active es
      → Distinct es
      → (active' : List Pair) × (erase_active heap es active ≡ some active')
        × Erases es active active'
  unfolding erase_active pointer_in
  erase_active_lem [] active s own all d =
      (active, refl, record { sorted = s; size = omega arith; left = λ y. ground arith })
  erase_active_lem (e ∷ es) active s own all d =
      let h = AllQueued-head heap active e es all in
      let left = λ (y : Pair). left-erase active e.1 h.timer y own h.live in
      let m =
        erase_active_lem es (erase (e.1, h.timer.sequence) active)
          (erase-IsSorted (e.1, h.timer.sequence) active s)
          (λ p q c. own p q (ground (arith, left (p, q), c))) (tail_queued active e es own all d.0)
          d.1 in
      (
        m.0,
        ground (arith, h.live, m.1),
        record {
          sorted = m.2.sorted;
          size = omega (arith, m.2.size, length-erase (e.1, h.timer.sequence) active s h.known);
          left = λ y. ground (arith, m.2.left y, left y);
        },
      )
