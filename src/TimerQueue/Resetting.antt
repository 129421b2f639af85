-- ===== src/TimerQueue/Resetting.antt =====
-- `Reset`: repeating timers that were not cancelled go back into the sets, the others are freed.
use base_linux.Base.{
  update, ℕ, ◌≡◌, refl, ◌∙◌, inl, inr, Bool, true, false, not, ◌&&◌, ◌||◌, Option, none, some, List,
  [], ◌∷◌, arith, ◌==◌, Bool-cases,
}
use base_linux.OrderedSet.{Pair, pair_eq, contains, insert}
use base_linux.OrderedSet.Laws.{contains-insert}
use base_linux.TimerQueue.{Timer, TimerQueue, TimestampLib, restart}
use base_linux.TimerQueue.Sets.{Consistent, IsValid, Unlisted, one_timer}
use base_linux.TimerQueue.Pointers.{pointer_in}
use base_linux.TimerQueue.Expiry.{Held}
use base_linux.TimerQueue.Erasing.{other_pointer}
use base_linux.TimerQueue.Inserting.{inserted, inserted-IsValid}
use base_linux.TimerQueue.Rounds.{Round}

module _ (q : TimerQueue) (p : ℕ) (o : Option Timer) (v : IsValid q)
    (out : Unlisted q.active_timers p) where
  elsewhere : (r s : ℕ) → contains (r, s) q.active_timers ≡ true → (r == p) ≡ false
  elsewhere r s c = elim (Bool-cases (r == p)) [
    | inl same ↦ let same' : r ≡ p = ground (arith, same) in cc (c, out s, same')
    | inr other ↦ other
  ]

  -- What happens to a timer in neither set does not disturb the sets.
  pub update-IsValid : Consistent (update q.heap p o) q.timers q.active_timers
  update-IsValid = record {
    timers_sorted = v.timers_sorted;
    active_sorted = v.active_sorted;
    sizes = v.sizes;
    queued = λ w r c.
        let old = v.queued w r c in
        record {
          timer = old.timer;
          live = ground (arith, old.live, elsewhere r old.timer.sequence old.known);
          due = old.due;
          known = old.known;
          addressable = old.addressable;
        };
    active_all = λ r s c.
        let old = v.active_all r s c in
        record {
          timer = old.timer;
          live = ground (arith, old.live, elsewhere r s c);
          own = old.own;
          listed = old.listed;
        };
  }

-- The pair goes back into `active_timers_` if its timer, among the expired ones, repeats and has
-- not been cancelled.
abbrev pub goes_back : List Pair → ℕ → Timer → Bool
goes_back canceling p t = t.repeat && not (contains (p, t.sequence) canceling)

unfoldable pub back_pair : List Pair → ℕ → Option Timer → Pair → Bool
back_pair canceling p none y = false
back_pair canceling p (some t) y = goes_back canceling p t && pair_eq y (p, t.sequence)

unfoldable pub back : (ℕ → Option Timer) → List Pair → List Pair → Pair → Bool
unfolding back_pair
back heap canceling [] y = false
back heap canceling (e ∷ es) y = back_pair canceling e.1 (heap e.1) y || back heap canceling es y

back-update :
    (heap : ℕ → Option Timer) (canceling : List Pair) (p : ℕ) (o : Option Timer) (es : List Pair)
    (y : Pair)
    → pointer_in p es ≡ false
    → back (update heap p o) canceling es y ≡ back heap canceling es y
unfolding back pointer_in
back-update heap canceling p o [] y h = refl
back-update heap canceling p o (e ∷ es) y h = ground (arith, h, back-update heap canceling p o es y)

-- What `Reset` has done with the expired timers.
pub record Resets (lib : TimestampLib) (q : TimerQueue) (es : List Pair) (now : ℕ) (q' : TimerQueue)
    : Type 0 where
  pub valid : IsValid q'
  pub active :
      (y : Pair)
      → contains y q'.active_timers
        ≡ (contains y q.active_timers || back q.heap q.canceling_timers es y)
  pub restarted :
      (w p : ℕ) (t : Timer)
      → contains (w, p) es ≡ true
      → q.heap p ≡ some t
      → goes_back q.canceling_timers p t ≡ true
      → q'.heap p ≡ some (restart lib t now)
  pub freed :
      (w p : ℕ) (t : Timer)
      → contains (w, p) es ≡ true
      → q.heap p ≡ some t
      → goes_back q.canceling_timers p t ≡ false
      → q'.heap p ≡ none
  pub kept : (p : ℕ) → pointer_in p es ≡ false → q'.heap p ≡ q.heap p

module _ (lib : TimestampLib) (q : TimerQueue) (e : Pair) (es : List Pair) (now : ℕ)
    (r : Round q (e ∷ es)) where
  pub head_held : Held q.heap q.active_timers e.0 e.1
  unfolding contains
  head_held = r.held e.0 e.1 (ground arith)

  -- the queue once the timer is back in the sets
  unfoldable pub returned : TimerQueue
  returned =
      let t = restart lib head_held.timer now in
      inserted (record q { heap = update q.heap e.1 (some t) }) e.1 t

  -- the queue once the timer is freed
  unfoldable pub dropped : TimerQueue
  dropped = record q { heap = update q.heap e.1 none }

  tail_held :
      (o : Option Timer) (active : List Pair)
      → ((p s : ℕ) → (p == e.1) ≡ false → contains (p, s) active ≡ contains (p, s) q.active_timers)
      → (w p : ℕ) → contains (w, p) es ≡ true
      → Held (update q.heap e.1 o) active w p
  unfolding contains
  tail_held o active same w p c =
      let h = r.held w p (ground (arith, c)) in
      let other = other_pointer q.heap e es w p r.distinct.0 c in
      record {
        timer = h.timer;
        live = ground (arith, other, h.live);
        due = h.due;
        out = λ s. same p s other ∙ h.out s;
        addressable = h.addressable;
      }

  pub returned-Round : Round returned es
  unfolding returned inserted
  returned-Round =
      let t = restart lib head_held.timer now in
      let q1 = record q { heap = update q.heap e.1 (some t) } in
      record {
        valid =
            inserted-IsValid q1 e.1 t (update-IsValid q e.1 (some t) r.valid head_held.out)
              (ground arith) head_held.addressable head_held.out;
        held = tail_held (some t) (insert (e.1, t.sequence) q.active_timers) (λ p s other.
            ground (arith, other, contains-insert (p, s) (e.1, t.sequence) q.active_timers));
        distinct = r.distinct.1;
      }

  pub dropped-Round : Round dropped es
  unfolding dropped
  dropped-Round = record {
    valid = update-IsValid q e.1 none r.valid head_held.out;
    held = tail_held none q.active_timers (λ p s _. refl);
    distinct = r.distinct.1;
  }

  in_tail :
      (w p : ℕ) → contains (w, p) (e ∷ es) ≡ true → (p == e.1) ≡ false → contains (w, p) es ≡ true
  unfolding contains
  in_tail w p c other = ground (arith, c, other)

  -- the timer at the head's address is the head's
  head_timer : (p : ℕ) (t : Timer) → q.heap p ≡ some t → (p == e.1) ≡ true → t ≡ head_held.timer
  head_timer p t live same = one_timer q.heap p e.1 live head_held.live (ground (arith, same))

  pub returned-Resets :
      (q' : TimerQueue)
      → goes_back q.canceling_timers e.1 head_held.timer ≡ true
      → Resets lib returned es now q'
      → Resets lib q (e ∷ es) now q'
  unfolding returned inserted back back_pair pointer_in restart
  returned-Resets q' g m =
      let t = head_held.timer in
      let o = some (restart lib t now) in
      record {
        valid = m.valid;
        active = λ y. ground (
          arith,
          g,
          head_held.live,
          m.active y,
          contains-insert y (e.1, t.sequence) q.active_timers,
          back-update q.heap q.canceling_timers e.1 o es y r.distinct.0,
        );
        restarted = λ w p s c live back. elim (Bool-cases (p == e.1)) [
          | inl same ↦
              let one = head_timer p s live same in
              ground (arith, same, one, m.kept e.1 r.distinct.0)
          | inr other ↦ m.restarted w p s (in_tail w p c other) (ground (arith, other, live)) back
        ];
        freed = λ w p s c live back. elim (Bool-cases (p == e.1)) [
          | inl same ↦ let one = head_timer p s live same in ground (arith, same, one, g, back)
          | inr other ↦ m.freed w p s (in_tail w p c other) (ground (arith, other, live)) back
        ];
        kept = λ p out. ground (arith, out, m.kept p);
      }

  pub dropped-Resets :
      (q' : TimerQueue)
      → goes_back q.canceling_timers e.1 head_held.timer ≡ false
      → Resets lib dropped es now q'
      → Resets lib q (e ∷ es) now q'
  unfolding dropped back back_pair pointer_in
  dropped-Resets q' g m = record {
    valid = m.valid;
    active = λ y. ground (
      arith,
      g,
      head_held.live,
      m.active y,
      back-update q.heap q.canceling_timers e.1 none es y r.distinct.0,
    );
    restarted = λ w p s c live back. elim (Bool-cases (p == e.1)) [
      | inl same ↦ let one = head_timer p s live same in ground (arith, same, one, g, back)
      | inr other ↦ m.restarted w p s (in_tail w p c other) (ground (arith, other, live)) back
    ];
    freed = λ w p s c live back. elim (Bool-cases (p == e.1)) [
      | inl same ↦
          let one = head_timer p s live same in ground (arith, same, one, m.kept e.1 r.distinct.0)
      | inr other ↦ m.freed w p s (in_tail w p c other) (ground (arith, other, live)) back
    ];
    kept = λ p out. ground (arith, out, m.kept p);
  }
