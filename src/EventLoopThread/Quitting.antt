-- ===== src/EventLoopThread/Quitting.antt =====
-- How a loop ends that is told to quit.
use base_linux.Base.{
  ℕ, zero, suc, ◌+◌, ◌<◌, ◌≡◌, ◌⊎◌, inl, inr, refl, ap, Bool, true, false, if◌then◌else◌, arith,
}
use base_linux.EventLoopThread.{
  Place, absent, created, published, tests, polls, handles, finishes, ended, Owner, outside,
  starting, waking, joining, faulted, EventLoopThread, Step, start_called, loop_published,
  start_returns, loop_entered, loop_tested, poll_returns, turn_ends, loop_left, stop_called,
  quit_wakes, quit_faults, is_ended, Steps, nothing, later, join_returns,
}

-- Inside `Loop`, past `quit_ = false`, or after it.
abbrev pub is_inside : Place → Bool
is_inside absent = false
is_inside created = false
is_inside published = false
is_inside tests = true
is_inside polls = true
is_inside handles = true
is_inside finishes = true
is_inside ended = true

abbrev pub is_stopping : Owner → Bool
is_stopping outside = false
is_stopping starting = false
is_stopping waking = true
is_stopping joining = true
is_stopping faulted = false

-- how many steps the loop's thread has ahead of it at most, once it is told to quit
abbrev pub ahead : Place → ℕ
ahead absent = 0
ahead created = 0
ahead published = 0
ahead tests = 2
ahead polls = 4
ahead handles = 3
ahead finishes = 1
ahead ended = 0

-- the owner's steps before `Join`
abbrev pub owner_ahead : Owner → ℕ
owner_ahead outside = 0
owner_ahead starting = 0
owner_ahead waking = 1
owner_ahead joining = 0
owner_ahead faulted = 0

-- `StopLoop` has been called on a loop that was entered.
pub record Quits (t : EventLoopThread) : Type 0 where
  pub quit : t.quit ≡ true
  pub inside : is_inside t.place ≡ true
  pub stopping : is_stopping t.owner ≡ true

-- `StopLoop` has returned.
pub record Stopped (t : EventLoopThread) : Type 0 where
  pub running : t.running ≡ false
  pub event_loop : t.event_loop ≡ false
  pub place : t.place ≡ absent
  pub owner : t.owner ≡ outside

-- `Wakeup` of `Quit` has used the `EventLoop` of a thread that had ended.
pub record Faulted (t : EventLoopThread) : Type 0 where
  pub place : t.place ≡ ended
  pub owner : t.owner ≡ faulted

abbrev pub Over : EventLoopThread → Type 0
Over t = Stopped t ⊎ Faulted t

pub ended_lem : (place : Place) → is_ended place ≡ true → place ≡ ended
ended_lem absent h = cc
ended_lem created h = cc
ended_lem published h = cc
ended_lem tests h = cc
ended_lem polls h = cc
ended_lem handles h = cc
ended_lem finishes h = cc
ended_lem ended h = refl

Step-Quits :
    (t u : EventLoopThread)
    → Quits t
    → Step t u
    → Over u
      ⊎ (Quits u
          × (suc (ahead u.place + owner_ahead u.owner) ≡ ahead t.place + owner_ahead t.owner))
Step-Quits _ _ q (start_called t at off) = ground (arith, q.stopping, at)
Step-Quits _ _ q (loop_published t at) = ground (arith, q.inside, at)
Step-Quits _ _ q (start_returns t at on) = ground (arith, q.stopping, at)
Step-Quits _ _ q (loop_entered t at) = ground (arith, q.inside, at)
Step-Quits _ _ q (loop_tested t at) = inr (
  record { quit = q.quit; inside = ground (arith, q.quit); stopping = q.stopping },
  ground (arith, q.quit, at),
)
Step-Quits _ _ q (poll_returns t at) =
    inr (record { quit = q.quit; inside = refl; stopping = q.stopping }, ground (arith, at))
Step-Quits _ _ q (turn_ends t at) =
    inr (record { quit = q.quit; inside = refl; stopping = q.stopping }, ground (arith, at))
Step-Quits _ _ q (loop_left t at) =
    inr (record { quit = q.quit; inside = refl; stopping = q.stopping }, ground (arith, at))
Step-Quits _ _ q (stop_called t at on) = ground (arith, q.stopping, at)
Step-Quits _ _ q (quit_wakes t at there) =
    inr (record { quit = q.quit; inside = q.inside; stopping = refl }, ground (arith, at))
Step-Quits _ _ q (quit_faults t at gone) =
    inl (inr (record { place = ended_lem t.place gone; owner = refl }))
Step-Quits _ _ q (join_returns t at gone) =
    inl (inl (record { running = refl; event_loop = refl; place = refl; owner = refl }))

-- Something can go on.
next-Step :
    (t : EventLoopThread) (place : Place) (owner : Owner)
    → t.place ≡ place
    → t.owner ≡ owner
    → is_inside place ≡ true
    → is_stopping owner ≡ true
    → (u : EventLoopThread) × Step t u
next-Step t absent owner at on h k = cc
next-Step t created owner at on h k = cc
next-Step t published owner at on h k = cc
next-Step t tests owner at on h k =
    (record t { place = if t.quit then finishes else polls }, loop_tested t at)
next-Step t polls owner at on h k = (record t { place = handles }, poll_returns t at)
next-Step t handles owner at on h k = (record t { wakeups = 0; place = tests }, turn_ends t at)
next-Step t finishes owner at on h k = (record t { place = ended }, loop_left t at)
next-Step t ended outside at on h k = cc
next-Step t ended starting at on h k = cc
next-Step t ended waking at on h k =
    (record t { owner = faulted }, quit_faults t on (ap is_ended at))
next-Step t ended faulted at on h k = cc
next-Step t ended joining at on h k = (
  record t { running = false; event_loop = false; place = absent; owner = outside },
  join_returns t on at,
)

abbrev pub measure : EventLoopThread → ℕ
measure t = ahead t.place + owner_ahead t.owner

-- Whatever steps are taken, one that is as asked comes, and until then there is a step to take.
pub data Inevitable (P : EventLoopThread → Type 0) : EventLoopThread → Type 0 where
  now : (t : EventLoopThread) → P t → Inevitable P t
  next :
      (t : EventLoopThread)
      → (u : EventLoopThread) × Step t u
      → ((u : EventLoopThread) → Step t u → Inevitable P u)
      → Inevitable P t

Inevitable-Over : (n : ℕ) (t : EventLoopThread) → Quits t → measure t < n → Inevitable Over t
Inevitable-Over zero t q h = (let no : ⊥ = omega (arith, h) in elim no [ ])
Inevitable-Over (suc n) t q h =
    next t (next-Step t t.place t.owner refl refl q.inside q.stopping) (λ u s.
      elim (Step-Quits t u q s) [
        | inl done ↦ now u done
        | inr m ↦ Inevitable-Over n u m.0 (omega (arith, h, m.1))
      ])

-- Steps that go on from a first one
Steps-first : (t u v : EventLoopThread) (n : ℕ) → Step t u → Steps u v n → (m : ℕ) × Steps t v m
Steps-first t _ _ _ s (nothing u) = (1, later t t u 0 (nothing t) s)
Steps-first t _ _ _ s (later u v w n before last) =
    let m = Steps-first t u v n s before in (suc m.0, later t v w m.0 m.1 last)

-- A way to the fault
abbrev FaultAhead : EventLoopThread → Type 0
FaultAhead t = (v : EventLoopThread) × (n : ℕ) × Steps t v n × Faulted v

FaultAhead-first : (t u : EventLoopThread) → Step t u → FaultAhead u → FaultAhead t
FaultAhead-first t u s (v, n, steps, bad) =
    let m = Steps-first t u v n s steps in (v, m.0, m.1, bad)

fault-ended : (t : EventLoopThread) → t.owner ≡ waking → t.place ≡ ended → FaultAhead t
fault-ended t on at = (
  record t { owner = faulted },
  1,
  later t t (record t { owner = faulted }) 0 (nothing t) (quit_faults t on (ap is_ended at)),
  record { place = at; owner = refl },
)

fault-finishes : (t : EventLoopThread) → t.owner ≡ waking → t.place ≡ finishes → FaultAhead t
fault-finishes t on at =
    let u : EventLoopThread = record t { place = ended } in
    FaultAhead-first t u (loop_left t at) (fault-ended u on refl)

fault-tests :
    (t : EventLoopThread) → t.owner ≡ waking → t.quit ≡ true → t.place ≡ tests → FaultAhead t
fault-tests t on told at =
    let u : EventLoopThread = record t { place = if t.quit then finishes else polls } in
    FaultAhead-first t u (loop_tested t at) (fault-finishes u on (rw told refl))

fault-handles :
    (t : EventLoopThread) → t.owner ≡ waking → t.quit ≡ true → t.place ≡ handles → FaultAhead t
fault-handles t on told at =
    let u : EventLoopThread = record t { wakeups = 0; place = tests } in
    FaultAhead-first t u (turn_ends t at) (fault-tests u on told refl)

fault_ahead :
    (t : EventLoopThread) (place : Place)
    → t.owner ≡ waking
    → t.quit ≡ true
    → is_inside place ≡ true
    → t.place ≡ place
    → FaultAhead t
fault_ahead t absent on told h at = cc
fault_ahead t created on told h at = cc
fault_ahead t published on told h at = cc
fault_ahead t tests on told h at = fault-tests t on told at
fault_ahead t polls on told h at =
    let u : EventLoopThread = record t { place = handles } in
    FaultAhead-first t u (poll_returns t at) (fault-handles u on told refl)
fault_ahead t handles on told h at = fault-handles t on told at
fault_ahead t finishes on told h at = fault-finishes t on at
fault_ahead t ended on told h at = fault-ended t on at

-- StopLoop of a thread that runs and whose loop has got past quit_ = false: whatever steps the
-- two threads take from then on, in whatever order, either StopLoop returns, with the thread
-- ended and event_loop_ null, or Wakeup in Quit uses the EventLoop of a thread that has ended and
-- destroyed it, and until one of these comes, one of the threads can go on. There is an order of
-- steps in which it is the latter.
pub stop_called-Over :
    (t : EventLoopThread)
    → t.owner ≡ outside
    → t.running ≡ true
    → is_inside t.place ≡ true
    → (u : EventLoopThread) × Step t u
      × Inevitable Over u
      × ((v : EventLoopThread) × (n : ℕ) × Steps u v n × Faulted v)
stop_called-Over t at on inside =
    let u : EventLoopThread = record t { quit = true; owner = waking } in
    (
      u,
      stop_called t at on,
      Inevitable-Over (suc (measure u)) u (record { quit = refl; inside = inside; stopping = refl })
          (omega arith),
      fault_ahead u t.place refl refl inside refl,
    )
