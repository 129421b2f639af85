-- ===== src/TimerQueue/Destroying.antt =====
-- `~TimerQueue`.
use base_linux.Base.{
  update, ℕ, ◌≡◌, refl, true, Option, none, some, List, [], ◌∷◌, arith, if◌then◌else◌,
}
use base_linux.OrderedSet.{Pair, contains}
use base_linux.TimerQueue.{Timer, TimerQueue, delete_all, destroy}
use base_linux.TimerQueue.Sets.{IsValid}
use base_linux.TimerQueue.Erasing.{other_pointer}
use base_linux.TimerQueue.Pointers.{pointer_in, Distinct, sorted-Distinct}

delete_all_lem :
    (es : List Pair) (heap : ℕ → Option Timer)
    → ((w p : ℕ) → contains (w, p) es ≡ true → (t : Timer) × (heap p ≡ some t))
    → Distinct es
    → (heap' : ℕ → Option Timer) × (delete_all heap es ≡ some heap')
      × ((p : ℕ) → heap' p ≡ (if pointer_in p es then none else heap p))
unfolding delete_all pointer_in contains
delete_all_lem [] heap live d = (heap, refl, λ p. refl)
delete_all_lem (e ∷ es) heap live d =
    let h = live e.0 e.1 (ground arith) in
    let still : (w p : ℕ)
        → contains (w, p) es ≡ true
        → (t : Timer) × (update heap e.1 none p ≡ some t) =
      λ w p c.
        let m = live w p (ground (arith, c)) in
        (m.0, ground (arith, other_pointer heap e es w p d.0 c, m.1)) in
    let n = delete_all_lem es (update heap e.1 none) still d.1 in
    (n.0, ground (arith, h.1, n.1), λ p. ground (arith, n.2 p))

-- `~TimerQueue` on a valid queue deletes every timer of the queue, none of them twice, and no
-- other.
pub destroy_lem :
    (q : TimerQueue)
    → IsValid q
    → (heap' : ℕ → Option Timer) × (destroy q ≡ some heap')
      × ((p : ℕ) → heap' p ≡ (if pointer_in p q.timers then none else q.heap p))
unfolding destroy
destroy_lem q v =
    delete_all_lem q.timers q.heap (λ w p c. let o = v.queued w p c in (o.timer, o.live))
      (sorted-Distinct q.heap q.active_timers q.timers v.queued v.timers_sorted)
