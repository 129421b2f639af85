-- ===== src/EventLoop/Pending.antt =====
-- No task is lost, none overtakes another, and no wake-up is lost.
use base_linux.Base.{
  ℕ, suc, ◌+◌, ◌<◌, ◌≡◌, refl, sym, ap, ◌∙◌, Bool, true, false, List, [], ◌∷◌, ◌++◌, arith,
  append-nil, append_assoc, if◌then◌else◌,
}
use base_linux.EventLoop.{
  Phase, polling, handling, running, is_polling, is_handling, is_running, EventLoop, fresh,
  push_back, wakeup, Step, other_queues, other_wakes, poll_returns, wakeup_handled, loop_queues,
  pending_starts, task_called, pending_ends, Steps, nothing, later,
}

abbrev pub is_empty : List ℕ → Bool
is_empty [] = true
is_empty (t ∷ ts) = false

pub record IsValid (l : EventLoop) : Type 0 where
  pub order : l.called ++ (l.tasks ++ l.task_list) ≡ l.posted
  pub flag : l.need_wakup ≡ is_running l.phase
  pub idle : is_running l.phase ≡ false → l.tasks ≡ []
  pub awake : is_handling l.phase ≡ false → is_empty l.task_list ≡ false → 0 < l.wakeups + l.posting

fresh-IsValid : IsValid fresh
unfolding fresh
fresh-IsValid = record { order = refl; flag = refl; idle = λ _. refl; awake = λ _ h. cc }

push_order :
    (l : EventLoop) (task : ℕ)
    → IsValid l
    → l.called ++ (l.tasks ++ (l.task_list ++ task ∷ [])) ≡ l.posted ++ task ∷ []
push_order l task v =
    let last = task ∷ [] in
    ap (λ xs. l.called ++ xs) (sym (append_assoc l.tasks l.task_list last))
    ∙ sym (append_assoc l.called (l.tasks ++ l.task_list) last)
    ∙ ap (λ xs. xs ++ last) v.order

where_lem : (p : Phase) → is_polling p ≡ false → is_running p ≡ false → is_handling p ≡ true
where_lem polling h k = cc
where_lem handling h k = refl
where_lem running h k = cc

push_back-IsValid :
    (l : EventLoop) (task w p : ℕ)
    → IsValid l
    → (is_handling l.phase ≡ false → 0 < w + p)
    → IsValid (record (push_back l task) { wakeups = w; posting = p })
push_back-IsValid l task w p v up = record {
  order = push_order l task v;
  flag = v.flag;
  idle = v.idle;
  awake = λ h _. up h;
}

chosen-IsValid :
    (b : Bool) (x y : EventLoop)
    → (b ≡ true → IsValid x)
    → (b ≡ false → IsValid y)
    → IsValid (if b then x else y)
chosen-IsValid true x y h k = h refl
chosen-IsValid false x y h k = k refl

-- Every step keeps the invariant.
Step-IsValid : (l m : EventLoop) → Step l m → IsValid l → IsValid m
Step-IsValid _ _ (other_queues l task) v =
    push_back-IsValid l task l.wakeups (suc l.posting) v (λ _. ground arith)
Step-IsValid _ _ (other_wakes l some_post) v = record {
  order = v.order;
  flag = v.flag;
  idle = v.idle;
  awake = λ h k. ground arith;
}
Step-IsValid _ _ (poll_returns l at) v = record {
  order = v.order;
  flag = v.flag ∙ ap is_running at;
  idle = λ h. v.idle (ground (arith, at));
  awake = λ h k. cc;
}
Step-IsValid _ _ (wakeup_handled l at) v = record {
  order = v.order;
  flag = v.flag;
  idle = v.idle;
  awake = λ h k. ground (arith, at, h);
}
Step-IsValid _ _ (loop_queues l task away) v =
    chosen-IsValid l.need_wakup (wakeup (push_back l task)) (push_back l task)
      (λ on. push_back-IsValid l task (suc l.wakeups) l.posting v (λ _. ground arith))
      (λ off.
        push_back-IsValid l task l.wakeups l.posting v
          (λ h. ground (arith, h, where_lem l.phase away (sym v.flag ∙ off))))
Step-IsValid _ _ (pending_starts l at) v = record {
  order =
      ap (λ xs. l.called ++ xs) (append-nil l.task_list)
      ∙ ap (λ ts. l.called ++ (ts ++ l.task_list)) (sym (v.idle (ap is_running at)))
      ∙ v.order;
  flag = refl;
  idle = λ h. cc;
  awake = λ h k. cc;
}
Step-IsValid _ _ (task_called l task rest at h) v = record {
  order =
      append_assoc l.called (task ∷ []) (rest ++ l.task_list)
      ∙ ap (λ ts. l.called ++ (ts ++ l.task_list)) (sym h)
      ∙ v.order;
  flag = v.flag;
  idle = λ k. ground (arith, at, k);
  awake = v.awake;
}
Step-IsValid _ _ (pending_ends l at h) v = record {
  order = v.order;
  flag = refl;
  idle = λ _. h;
  awake = λ _ k. v.awake (ap is_handling at) k;
}

Steps-IsValid : (l m : EventLoop) → Steps l m → IsValid l → IsValid m
Steps-IsValid _ _ (nothing l) v = v
Steps-IsValid _ _ (later l m n before s) v = Step-IsValid m n s (Steps-IsValid l m before v)

-- However the loop's thread and the others take turns, from a loop that has just started: the
-- tasks that were called, those swapped out and those still queued, one after the other, are the
-- tasks that were queued, in that order; and while the loop waits in `Poll` with a task in its
-- list, the eventfd is set or some thread is about to set it.
pub tasks_lem :
    (l : EventLoop)
    → Steps fresh l
    → (l.called ++ (l.tasks ++ l.task_list) ≡ l.posted)
      × (l.phase ≡ polling → is_empty l.task_list ≡ false → 0 < l.wakeups + l.posting)
tasks_lem l s =
    let v = Steps-IsValid fresh l s fresh-IsValid in
    (v.order, λ at h. v.awake (ap is_handling at) h)
