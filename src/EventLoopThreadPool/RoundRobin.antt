-- ===== src/EventLoopThreadPool/RoundRobin.antt =====
-- The loops are given out in turn.
use base_linux.Base.{
  ℕ, zero, suc, ◌+◌, ◌%◌, ◌^◌, ◌<◌, ◌≡◌, refl, sym, ap, ◌∙◌, inl, inr, true, false, some, List, [],
  ◌∷◌, ◌++◌, get_elem?, length, length-append, ◌==◌, Bool-cases, arith,
}
use base_linux.EventLoopThreadPool.{
  EventLoopThreadPool, start_threads, start, is_empty, get_next_event_loop, get_loops,
}

get_elem?-append_left :
    (xs ys : List ℕ) (i : ℕ) → i < length xs → get_elem? (xs ++ ys) i ≡ get_elem? xs i
get_elem?-append_left [] ys i h = ground (arith, h)
get_elem?-append_left (x ∷ xs) ys zero h = refl
get_elem?-append_left (x ∷ xs) ys (suc i) h = get_elem?-append_left xs ys i (ground (arith, h))

get_elem?-append_last : (xs : List ℕ) (y : ℕ) → get_elem? (xs ++ y ∷ []) (length xs) ≡ some y
get_elem?-append_last [] y = refl
get_elem?-append_last (x ∷ xs) y = get_elem?-append_last xs y

length-start_threads : (f : ℕ → ℕ) (n : ℕ) → length (start_threads f n []) ≡ n
unfolding start_threads
length-start_threads f zero = refl
length-start_threads f (suc n) =
    length-append (start_threads f n []) (f n ∷ []) ∙ omega (arith, length-start_threads f n)

get_elem?-start_threads :
    (f : ℕ → ℕ) (n i : ℕ) → i < n → get_elem? (start_threads f n []) i ≡ some (f i)
unfolding start_threads
get_elem?-start_threads f zero i h = ground (arith, h)
get_elem?-start_threads f (suc n) i h = elim (Bool-cases (i == n)) [
  | inl last ↦
      let same : i ≡ n = ground (arith, last) in
      let here : i ≡ length (start_threads f n []) = same ∙ sym (length-start_threads f n) in
      ap (λ j. get_elem? (start_threads f n [] ++ f n ∷ []) j) here
      ∙ get_elem?-append_last (start_threads f n []) (f n)
      ∙ ap (λ j. some (f j)) (sym same)
  | inr other ↦
      get_elem?-append_left (start_threads f n []) (f n ∷ []) i
        (ground (arith, other, h, length-start_threads f n))
      ∙ get_elem?-start_threads f n i (ground (arith, other, h))
]

-- `k` loops in turn, from the call number `m` on
abbrev pub in_turn : (ℕ → ℕ) → ℕ → ℕ → ℕ → List ℕ
in_turn f n m zero = []
in_turn f n m (suc k) = f (m % n) ∷ in_turn f n (m + 1) k

is_empty_lem : (xs : List ℕ) → 0 < length xs → is_empty xs ≡ false
is_empty_lem [] h = ground (arith, h)
is_empty_lem (x ∷ xs) h = refl

is_empty-start_threads : (f : ℕ → ℕ) (n : ℕ) → 0 < n → is_empty (start_threads f n []) ≡ false
is_empty-start_threads f n h =
    is_empty_lem (start_threads f n []) (ground (arith, h, length-start_threads f n))

calls_lem :
    (f : ℕ → ℕ) (k : ℕ) (p : EventLoopThreadPool)
    → p.is_running ≡ true
    → 0 < p.thread_nums
    → p.loops ≡ start_threads f p.thread_nums []
    → p.next + k < 2 ^ 31
    → get_loops p k ≡ some (in_turn f p.thread_nums p.next k)
unfolding get_loops get_next_event_loop
calls_lem f zero p on some_threads h room = refl
calls_lem f (suc k) p on some_threads h room =
    let e = is_empty-start_threads f p.thread_nums some_threads in
    let i =
      get_elem?-start_threads f p.thread_nums (p.next % p.thread_nums)
        (ground (arith, some_threads)) in
    let rest =
      calls_lem f k (record p { next = p.next + 1 }) on some_threads h (ground (arith, room)) in
    ground (arith, on, some_threads, h, room, e, i, rest)

-- `Start` of a new pool with at least one thread trips no assert, and the calls of
-- `GetNextEventLoop` that follow, fewer than 2^31, give out the loops of the threads in turn: the
-- first, the second and so on, and after the last the first again.
pub start-get_loops :
    (p : EventLoopThreadPool) (f : ℕ → ℕ) (k : ℕ)
    → 0 < p.loop_main
    → p.is_running ≡ false
    → p.loops ≡ []
    → p.next ≡ 0
    → 0 < p.thread_nums
    → k < 2 ^ 31
    → (p' : EventLoopThreadPool) × (start p f ≡ some p')
      × (get_loops p' k ≡ some (in_turn f p.thread_nums 0 k))
unfolding start
start-get_loops p f k main off empty new some_threads room =
    let p' : EventLoopThreadPool = record p {
      loops = start_threads f p.thread_nums p.loops;
      is_running = true;
    } in
    (
      p',
      ground (arith, main, off),
      calls_lem f k p' refl some_threads (ap (start_threads f p.thread_nums) empty)
            (ground (arith, new, room))
          ∙ ap (λ m. some (in_turn f p.thread_nums m k)) new,
    )
