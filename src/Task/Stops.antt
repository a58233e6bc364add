-- ===== src/Task/Stops.antt =====
-- Every task of common/task/task.go that the program can reach: Close always stops its goroutines.
use bxtest.Prelude.{
  ℤ, ℕ, suc, Bool, true, false, if◌then◌else◌, some, [], ◌∷◌, ◌++◌, set, get_or, ◌≡◌, ◌≢◌, ◌⊎◌,
  refl, arith, sym, subst, ◌∙◌, Bool-cases, inl, inr, some_inj,
}
use bxtest.Task.{
  Task, Loop, executing, between, waiting, ended, Event, stop_received, new_task, start, close,
  set_interval, at_loop, loop_step, step,
}
use bxtest.Task.Loops.{new_task-IsValid, closed_task, close-running}
use bxtest.Task.Tended.{IsTended, get_or-append_cases, closed_task-IsTended, step-IsTended}

-- the tasks that calls and goroutines, in any order, make of a new one
pub data Reached : Task → Type 0 where
  made_new : (interval : ℤ) → Reached (new_task interval)
  starts : {t : Task} (first : Bool) → Reached t → Reached (start first t)
  closes : {t t' : Task} → Reached t → close t ≡ some t' → Reached t'
  sets_interval : {t : Task} (interval : ℤ) → Reached t → Reached (set_interval interval t)
  goes_on : {t t' : Task} (i : ℕ) (e : Event) → Reached t → step i e t ≡ some t' → Reached t'

abbrev first_loop : Bool → Loop
first_loop first = if first then executing else between

first_loop-waiting : (first : Bool) (c : ℕ) → first_loop first ≢ waiting c
first_loop-waiting true c = λ e. cc
first_loop-waiting false c = λ e. cc

-- a task that is started with a new channel
abbrev with_channel : Bool → Task → Task
with_channel first t = record t {
  running = true;
  stop = t.channels;
  channels = suc t.channels;
  loops = t.loops ++ (first_loop first ∷ []);
}

with_channel-IsTended :
    (first : Bool) (t : Task) → t.running ≡ false → IsTended t → IsTended (with_channel first t)
with_channel-IsTended first t off k = record {
  valid = record {
    open_stop = λ h. k.valid.made t.channels (omega arith);
    made = λ c h. k.valid.made c (omega arith);
    stop_made = λ h. omega arith;
  };
  settled = λ i n. inl refl;
  waits = λ j c h. inl (elim (get_or-append_cases t.loops j (first_loop first) (waiting c) h) [
    | inl e ↦ absurd (first_loop-waiting first c e)
    | inr (inl e) ↦ cc
    | inr (inr e) ↦ elim (k.waits j c e) [ inl o ↦ o | inr (s, on) ↦ cc ]
  ]);
}

start-on : (first : Bool) (t : Task) → t.running ≡ true → start first t ≡ t
unfolding start
start-on first t on = ground arith

start-off : (first : Bool) (t : Task) → t.running ≡ false → start first t ≡ with_channel first t
unfolding start
start-off first t off = ground arith

start-IsTended : (first : Bool) (t : Task) → IsTended t → IsTended (start first t)
unfolding start
start-IsTended first t k = elim (Bool-cases t.running) [
  | inl on ↦ subst IsTended (sym (start-on first t on)) k
  | inr off ↦ subst IsTended (sym (start-off first t off)) (with_channel-IsTended first t off k)
]

close-off : (t : Task) → t.running ≡ false → close t ≡ some t
unfolding close
close-off t off = ground arith

close-IsTended : (t t' : Task) → IsTended t → close t ≡ some t' → IsTended t'
unfolding close
close-IsTended t t' k h = elim (Bool-cases t.running) [
  | inl on ↦
      subst IsTended (some_inj (sym (close-running t k.valid on) ∙ h)) (closed_task-IsTended t on k)
  | inr off ↦ subst IsTended (some_inj (sym (close-off t off) ∙ h)) k
]

Reached-IsTended : {t : Task} → Reached t → IsTended t
unfolding new_task
Reached-IsTended (made_new interval) = record {
  valid = new_task-IsValid interval;
  settled = λ i n. absurd (n refl);
  waits = λ i c h. cc;
}
Reached-IsTended (starts first r) = start-IsTended first _ (Reached-IsTended r)
Reached-IsTended (closes {t = t} r h) = close-IsTended t _ (Reached-IsTended r) h
Reached-IsTended (sets_interval interval r) =
    let k = Reached-IsTended r in
    record {
      valid = record {
        open_stop = k.valid.open_stop;
        made = k.valid.made;
        stop_made = k.valid.stop_made;
      };
      settled = k.settled;
      waits = k.waits;
    }
Reached-IsTended (goes_on {t = t} i e r h) = step-IsTended i e t _ (Reached-IsTended r) h

stop_received-closed :
    (t : Task) (i c : ℕ)
    → get_or t.loops i ended ≡ waiting c
    → t.closed c ≡ true
    → step i stop_received t ≡ some (at_loop i ended t)
unfolding step loop_step
stop_received-closed t i c e o = rw (e, step) (ground arith)

-- Close reaches every goroutine, whatever Start, Close, SetInterval and the goroutines have done to a new
-- task before, in any order: each goroutine in `select` either waits on a channel that is closed, and ends
-- by receiving from it; or its task runs and it waits on the stop channel, and Close closes that channel.
pub Reached-stopped :
    (t : Task)
    → Reached t
    → (i c : ℕ) → get_or t.loops i ended ≡ waiting c
    → ((t.closed c ≡ true)
        × (step i stop_received t ≡ some (record t { loops = set t.loops i ended })))
      ⊎ ((t.running ≡ true)
          × (c ≡ t.stop)
          × ((t' : Task) × (close t ≡ some t') × (t'.running ≡ false) × (t'.closed c ≡ true)))
Reached-stopped t r i c e =
    let k = Reached-IsTended r in
    elim (k.waits i c e) [
      | inl o ↦ inl (o, stop_received-closed t i c e o)
      | inr (s, on) ↦ inr (on, s, (closed_task t, close-running t k.valid on, refl, ground arith))
    ]
