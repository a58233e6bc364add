-- ===== src/Task/Tended.antt =====
-- What stays true of a task of common/task/task.go while its goroutines go on.
use bxtest.Prelude.{
  ℕ, zero, suc, true, false, some, List, [], ◌∷◌, ◌++◌, set, get_or, ◌≡◌, ◌≢◌, ◌⊎◌, refl, arith,
  subst, Bool-cases, inl, inr, some_inj,
}
use bxtest.Task.{
  Task, Loop, executing, between, waiting, ended, Event, enters_select, timer_fires, stop_received,
  execute_ok, execute_fails, close_stop, at_loop, loop_step, step,
}
use bxtest.Task.Loops.{IsValid, closed_task}

-- What is kept of a task: a goroutine waits on a closed channel, or on the stop channel of a task that
-- runs; and while a goroutine has not ended the task runs or its stop channel is closed.
pub record IsTended (t : Task) : Type 0 where
  pub valid : IsValid t
  pub settled :
      (i : ℕ) → get_or t.loops i ended ≢ ended → (t.running ≡ true) ⊎ (t.closed t.stop ≡ true)
  pub waits :
      (i c : ℕ)
      → get_or t.loops i ended ≡ waiting c
      → (t.closed c ≡ true) ⊎ ((c ≡ t.stop) × (t.running ≡ true))

get_or-set_cases :
    (ls : List Loop) (i j : ℕ) (l m : Loop)
    → get_or (set ls i l) j ended ≡ m
    → (l ≡ m) ⊎ (get_or ls j ended ≡ m)
get_or-set_cases [] i j l m h = inr h
get_or-set_cases (x ∷ xs) zero zero l m h = inl h
get_or-set_cases (x ∷ xs) zero (suc j) l m h = inr h
get_or-set_cases (x ∷ xs) (suc i) zero l m h = inr h
get_or-set_cases (x ∷ xs) (suc i) (suc j) l m h = get_or-set_cases xs i j l m h

pub get_or-append_cases :
    (ls : List Loop) (j : ℕ) (l m : Loop)
    → get_or (ls ++ (l ∷ [])) j ended ≡ m
    → (l ≡ m) ⊎ ((ended ≡ m) ⊎ (get_or ls j ended ≡ m))
get_or-append_cases [] zero l m h = inl h
get_or-append_cases [] (suc j) l m h = inr (inl h)
get_or-append_cases (x ∷ xs) zero l m h = inr (inr h)
get_or-append_cases (x ∷ xs) (suc j) l m h = get_or-append_cases xs j l m h

at_loop-IsTended :
    (i : ℕ) (l : Loop) (t : Task)
    → get_or t.loops i ended ≢ ended
    → ((c : ℕ) → l ≡ waiting c → (t.closed c ≡ true) ⊎ ((c ≡ t.stop) × (t.running ≡ true)))
    → IsTended t
    → IsTended (at_loop i l t)
at_loop-IsTended i l t busy new k = record {
  valid = record {
    open_stop = k.valid.open_stop;
    made = k.valid.made;
    stop_made = k.valid.stop_made;
  };
  settled = λ j n. k.settled i busy;
  waits = λ j c h. elim (get_or-set_cases t.loops i j l (waiting c) h) [
    | inl e ↦ new c e
    | inr e ↦ k.waits j c e
  ];
}

-- the task after a goroutine that failed has closed the channel
stopped_at : ℕ → Task → Task
stopped_at i t = at_loop i ended (closed_task t)

pub closed_task-IsTended : (t : Task) → t.running ≡ true → IsTended t → IsTended (closed_task t)
closed_task-IsTended t on k = record {
  valid = record {
    open_stop = λ h. cc;
    made = λ c h. ground (arith, k.valid.made c, k.valid.stop_made);
    stop_made = λ h. cc;
  };
  settled = λ j n. inr (ground arith);
  waits = λ j c h. inl (elim (k.waits j c h) [ inl e ↦ ground arith | inr (e, r) ↦ ground arith ]);
}

running_of :
    (t : Task) (i : ℕ)
    → IsTended t
    → get_or t.loops i ended ≢ ended
    → t.closed t.stop ≡ false
    → t.running ≡ true
running_of t i k busy o = elim (k.settled i busy) [ inl on ↦ on | inr c ↦ cc ]

loop_step-IsTended :
    (i : ℕ) (l : Loop) (e : Event) (t t' : Task)
    → get_or t.loops i ended ≡ l
    → IsTended t
    → loop_step i l e t ≡ some t'
    → IsTended t'
unfolding loop_step close_stop
loop_step-IsTended i between enters_select t t' at k h =
    let busy : get_or t.loops i ended ≢ ended = λ e. cc in
    subst IsTended (some_inj h) (
      at_loop-IsTended i (waiting t.stop) t busy
        (λ c e. elim (k.settled i busy) [
          | inl on ↦ inr (ground arith, on)
          | inr o ↦ inl (ground arith)
        ])
        k)
loop_step-IsTended i (waiting c) timer_fires t t' at k h =
    subst IsTended (some_inj h) (at_loop-IsTended i executing t (λ e. cc) (λ d e. cc) k)
loop_step-IsTended i (waiting c) stop_received t t' at k h = elim (Bool-cases (t.closed c)) [
  | inl o ↦
      subst IsTended (some_inj (rw (loop_step, o) at h))
        (at_loop-IsTended i ended t (λ e. cc) (λ d e. cc) k)
  | inr o ↦ subst IsTended (some_inj (rw (loop_step, o) at h)) k
]
loop_step-IsTended i executing execute_ok t t' at k h =
    subst IsTended (some_inj h) (at_loop-IsTended i between t (λ e. cc) (λ d e. cc) k)
loop_step-IsTended i executing execute_fails t t' at k h =
    let busy : get_or t.loops i ended ≢ ended = λ e. cc in
    elim (Bool-cases (t.closed t.stop)) [
      | inl o ↦ cc (rw (loop_step, close_stop, o) at h)
      | inr o ↦ subst IsTended (some_inj (rw (loop_step, close_stop, o) at h)) (
          at_loop-IsTended i ended (closed_task t) busy (λ d e. cc)
            (closed_task-IsTended t (running_of t i k busy o) k))
    ]
loop_step-IsTended i executing enters_select t t' at k h = subst IsTended (some_inj h) k
loop_step-IsTended i executing timer_fires t t' at k h = subst IsTended (some_inj h) k
loop_step-IsTended i executing stop_received t t' at k h = subst IsTended (some_inj h) k
loop_step-IsTended i between timer_fires t t' at k h = subst IsTended (some_inj h) k
loop_step-IsTended i between stop_received t t' at k h = subst IsTended (some_inj h) k
loop_step-IsTended i between execute_ok t t' at k h = subst IsTended (some_inj h) k
loop_step-IsTended i between execute_fails t t' at k h = subst IsTended (some_inj h) k
loop_step-IsTended i (waiting c) enters_select t t' at k h = subst IsTended (some_inj h) k
loop_step-IsTended i (waiting c) execute_ok t t' at k h = subst IsTended (some_inj h) k
loop_step-IsTended i (waiting c) execute_fails t t' at k h = subst IsTended (some_inj h) k
loop_step-IsTended i ended enters_select t t' at k h = subst IsTended (some_inj h) k
loop_step-IsTended i ended timer_fires t t' at k h = subst IsTended (some_inj h) k
loop_step-IsTended i ended stop_received t t' at k h = subst IsTended (some_inj h) k
loop_step-IsTended i ended execute_ok t t' at k h = subst IsTended (some_inj h) k
loop_step-IsTended i ended execute_fails t t' at k h = subst IsTended (some_inj h) k

pub step-IsTended :
    (i : ℕ) (e : Event) (t t' : Task) → IsTended t → step i e t ≡ some t' → IsTended t'
unfolding step
step-IsTended i e t t' k h = loop_step-IsTended i (get_or t.loops i ended) e t t' refl k h
