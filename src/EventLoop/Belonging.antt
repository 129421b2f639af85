-- ===== src/EventLoop/Belonging.antt =====
-- Each thread has one loop at most, and its pointer says which.
use base_linux.Base.{
  ℕ, ◌≡◌, refl, sym, ap, ◌∙◌, subst, inl, inr, true, false, none, some, arith, update, ◌==◌,
  Bool-cases, Option-cases,
}
use base_linux.EventLoop.Threads.{
  Owned, Threads, create, destroy, loop_starts, loop_ends, Call, creates, destroys, starts, ends,
  step,
}

-- The pointer of a thread names a loop that is alive and of this thread, and each loop that is
-- alive is named by the pointer of its thread.
pub record IsValid (s : Threads) : Type 0 where
  pub points :
      (tid loop : ℕ)
      → s.current tid ≡ some loop
      → (l : Owned) × (s.loops loop ≡ some l) × (l.tid ≡ tid)
  pub pointed : (loop : ℕ) (l : Owned) → s.loops loop ≡ some l → s.current l.tid ≡ some loop

-- No call makes a loop at an address where one is alive.
unfoldable pub Fresh : Threads → Call → Type 0
Fresh s (creates tid loop) = s.loops loop ≡ none
Fresh s (destroys tid loop) = Unit {0}
Fresh s (starts tid loop) = Unit {0}
Fresh s (ends tid loop) = Unit {0}

-- Any number of calls that go through
pub data Runs : Threads → Threads → Type 0 where
  nothing : (s : Threads) → Runs s s
  later :
      (s t u : Threads) (call : Call) → Runs s t → Fresh t call → step t call ≡ some u → Runs s u

some-inj {ℓ} : {A : Type ℓ} {a b : A} → some a ≡ some b → a ≡ b
some-inj {a = a} e = ap (λ o. elim o [ none ↦ a | some x ↦ x ]) e

create-IsValid :
    (s s' : Threads) (tid loop : ℕ)
    → IsValid s
    → s.loops loop ≡ none
    → create tid loop s ≡ some s'
    → IsValid s'
unfolding create
create-IsValid s s' tid loop v free h = elim (Option-cases (s.current tid)) [
  | inr (other, taken) ↦ ground (arith, taken, h)
  | inl idle ↦
      let e : s' ≡ record s {
        current = update s.current tid (some loop);
        loops = update s.loops loop (some (record { tid = tid; looping = false }));
      } =
        ground (arith, idle, h) in
      subst IsValid (sym e) (record {
        points = λ t l at. elim (Bool-cases (t == tid)) [
          | inl own ↦
              (record { tid = tid; looping = false }, ground (arith, own, at), ground (arith, own))
          | inr other ↦
              let (o, there, of) = v.points t l (ground (arith, other, at)) in
              (o, grind (arith, there, free), of)
        ];
        pointed = λ l o at. elim (Bool-cases (l == loop)) [
          | inl own ↦ ground (arith, own, at)
          | inr other ↦
              let before = v.pointed l o (ground (arith, other, at)) in grind (arith, before, idle)
        ];
      })
]

-- A loop that stays with its thread
update-IsValid :
    (s : Threads) (loop : ℕ) (l l' : Owned)
    → IsValid s
    → s.loops loop ≡ some l
    → l'.tid ≡ l.tid
    → IsValid (record s { loops = update s.loops loop (some l') })
update-IsValid s loop l l' v there same = record {
  points = λ t k at. elim (Bool-cases (k == loop)) [
    | inl own ↦
        let (o, found, of) = v.points t k at in
        (l', ground (arith, own), same ∙ grind (arith, own, there, found, of))
    | inr other ↦ let (o, found, of) = v.points t k at in (o, ground (arith, other, found), of)
  ];
  pointed = λ k o at. elim (Bool-cases (k == loop)) [
    | inl own ↦ grind (arith, own, at, same, v.pointed loop l there)
    | inr other ↦ v.pointed k o (ground (arith, other, at))
  ];
}

destroy-IsValid :
    (s s' : Threads) (tid loop : ℕ) → IsValid s → destroy tid loop s ≡ some s' → IsValid s'
unfolding destroy
destroy-IsValid s s' tid loop v h = elim (Option-cases (s.loops loop)) [
  | inl gone ↦ ground (arith, gone, h)
  | inr (l, there) ↦
      let e : s'
          ≡ record s { current = update s.current tid none; loops = update s.loops loop none } =
        ground (arith, there, h) in
      let own : l.tid ≡ tid = ground (arith, there, h) in
      let here = v.pointed loop l there in
      subst IsValid (sym e) (record {
        points = λ t k at. elim (Bool-cases (t == tid)) [
          | inl mine ↦ ground (arith, mine, at)
          | inr other ↦
              let (o, found, of) = v.points t k (ground (arith, other, at)) in
              (o, grind (arith, other, found, of, there, own), of)
        ];
        pointed = λ k o at. elim (Bool-cases (k == loop)) [
          | inl gone ↦ ground (arith, gone, at)
          | inr other ↦
              let before = v.pointed k o (ground (arith, other, at)) in
              grind (arith, other, before, here, own)
        ];
      })
]

loop_starts-IsValid :
    (s s' : Threads) (tid loop : ℕ) → IsValid s → loop_starts tid loop s ≡ some s' → IsValid s'
unfolding loop_starts
loop_starts-IsValid s s' tid loop v h = elim (Option-cases (s.loops loop)) [
  | inl gone ↦ ground (arith, gone, h)
  | inr (l, there) ↦
      let e : s' ≡ record s { loops = update s.loops loop (some (record l { looping = true })) } =
        ground (arith, there, h) in
      subst IsValid (sym e) (update-IsValid s loop l (record l { looping = true }) v there refl)
]

loop_ends-IsValid :
    (s s' : Threads) (tid loop : ℕ) → IsValid s → loop_ends tid loop s ≡ some s' → IsValid s'
unfolding loop_ends
loop_ends-IsValid s s' tid loop v h = elim (Option-cases (s.loops loop)) [
  | inl gone ↦ ground (arith, gone, h)
  | inr (l, there) ↦
      let e : s' ≡ record s { loops = update s.loops loop (some (record l { looping = false })) } =
        ground (arith, there, h) in
      subst IsValid (sym e) (update-IsValid s loop l (record l { looping = false }) v there refl)
]

step-IsValid :
    (s s' : Threads) (call : Call) → IsValid s → Fresh s call → step s call ≡ some s' → IsValid s'
unfolding step Fresh
step-IsValid s s' (creates tid loop) v free h = create-IsValid s s' tid loop v free h
step-IsValid s s' (destroys tid loop) v free h = destroy-IsValid s s' tid loop v h
step-IsValid s s' (starts tid loop) v free h = loop_starts-IsValid s s' tid loop v h
step-IsValid s s' (ends tid loop) v free h = loop_ends-IsValid s s' tid loop v h

-- Whatever threads make loops, destroy them, and start and end Loop, in whatever order, as long
-- as the calls go through and no loop is made where one is alive: if before the pointer of each
-- thread names a loop that is alive and of this thread, and each loop that is alive is named by
-- the pointer of its thread, so that a thread has one loop at most, this holds afterwards.
pub Runs-IsValid : (s u : Threads) → Runs s u → IsValid s → IsValid u
Runs-IsValid s u (nothing _) v = v
Runs-IsValid _ _ (later s t u call runs free h) v =
    step-IsValid t u call (Runs-IsValid s t runs v) free h
