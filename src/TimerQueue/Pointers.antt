-- ===== src/TimerQueue/Pointers.antt =====
-- The pointers of a list of queued timers: no two entries share one.
use base_linux.Base.{
  ℕ, ◌≡◌, refl, inl, inr, Bool, true, false, ◌||◌, Option, List, [], ◌∷◌, arith, ◌==◌, Bool-cases,
}
use base_linux.OrderedSet.{Pair, contains}
use base_linux.OrderedSet.Order.{IsSorted, Above}
use base_linux.OrderedSet.Laws.{contains-Above}
use base_linux.TimerQueue.{Timer}
use base_linux.TimerQueue.Sets.{Queued, one_timer}

-- Some entry of the list has this pointer.
unfoldable pub pointer_in : ℕ → List Pair → Bool
pointer_in p [] = false
pointer_in p (e ∷ es) = p == e.1 || pointer_in p es

-- No two entries have one pointer.
abbrev pub Distinct : List Pair → Type 0
Distinct [] = Unit {0}
Distinct (e ∷ es) = (pointer_in e.1 es ≡ false) × Distinct es

pub contains-pointer_in :
    (w p : ℕ) (es : List Pair) → contains (w, p) es ≡ true → pointer_in p es ≡ true
unfolding contains pointer_in
contains-pointer_in w p [] h = cc
contains-pointer_in w p (e ∷ es) h = ground (arith, contains-pointer_in w p es)

pub pointer_in-contains :
    (p : ℕ) (es : List Pair) → pointer_in p es ≡ true → (w : ℕ) × (contains (w, p) es ≡ true)
unfolding contains pointer_in
pointer_in-contains p [] h = cc
pointer_in-contains p (e ∷ es) h = elim (Bool-cases (p == e.1)) [
  | inl here ↦ (e.0, ground (arith, here))
  | inr there ↦
      let m = pointer_in-contains p es (ground (arith, h, there)) in (m.0, ground (arith, m.1))
]

module _ (heap : ℕ → Option Timer) (active : List Pair) where
  -- The list holds pairs of `timers_`.
  abbrev pub AllQueued : List Pair → Type 0
  AllQueued es = (w p : ℕ) → contains (w, p) es ≡ true → Queued heap active w p

  pub AllQueued-tail : (e : Pair) (es : List Pair) → AllQueued (e ∷ es) → AllQueued es
  unfolding contains
  AllQueued-tail e es all w p h = all w p (ground (arith, h))

  pub AllQueued-head : (e : Pair) (es : List Pair) → AllQueued (e ∷ es) → Queued heap active e.0 e.1
  unfolding contains
  AllQueued-head e es all = all e.0 e.1 (ground arith)

  head-apart :
      (e : Pair) (es : List Pair) → AllQueued (e ∷ es) → Above e es → pointer_in e.1 es ≡ false
  head-apart e es all above = elim (Bool-cases (pointer_in e.1 es)) [
    | inl again ↦
        let m = pointer_in-contains e.1 es again in
        let a = AllQueued-head e es all in
        let b = AllQueued-tail e es all m.0 e.1 m.1 in
        let same = one_timer heap e.1 e.1 a.live b.live refl in
        ground (arith, same, a.due, b.due, contains-Above e (m.0, e.1) es above m.1)
    | inr e ↦ e
  ]

  pub sorted-Distinct : (es : List Pair) → AllQueued es → IsSorted es → Distinct es
  sorted-Distinct [] all s = tt
  sorted-Distinct (e ∷ es) all s =
      (head-apart e es all s.0, sorted-Distinct es (AllQueued-tail e es all) s.1)
