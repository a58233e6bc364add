-- ===== src/Task.antt =====
-- common/task/task.go. A stop channel is a number, and the goroutines of the loop are listed with the
-- point that each has reached, so that calls and goroutines interleave as steps.
pub mod Loops
pub mod Restart
pub mod Tended
pub mod Stops
use bxtest.Prelude.{
  ℤ, ℕ, zero, suc, Bool, true, false, if◌then◌else◌, Option, none, some, List, [], ◌∷◌, ◌++◌,
  nat_beq, set, get_or,
}

-- where the goroutine of Start stands
pub data Loop : Type 0 where
  -- in t.Execute
  executing : Loop
  -- between two rounds, before `select` reads t.stop
  between : Loop
  -- in `select`, on the channel that t.stop was when it was entered
  waiting : ℕ → Loop
  ended : Loop

pub record Task : Type 0 where
  pub interval : ℤ
  pub running : Bool
  -- t.stop, and the channels made so far: 0, 1, … up to `channels`
  pub stop : ℕ
  pub channels : ℕ
  pub closed : ℕ → Bool
  pub loops : List Loop

-- &task.Task{Interval: …}
unfoldable pub new_task : ℤ → Task
new_task interval = record {
  interval = interval;
  running = false;
  stop = 0;
  channels = 0;
  closed = λ c. false;
  loops = [];
}

-- func (t *Task) Start(first)
unfoldable pub start : Bool → Task → Task
start first t = if t.running then t else record t {
  running = true;
  stop = t.channels;
  channels = suc t.channels;
  loops = t.loops ++ ((if first then executing else between) ∷ []);
}

-- close(t.stop); `none` is the panic of a channel that is closed a second time
close_stop : Task → Option Task
close_stop t =
    if t.closed t.stop
    then none
    else some (record t { closed = λ c. if nat_beq c t.stop then true else t.closed c })

-- func (t *Task) Close()
unfoldable pub close : Task → Option Task
unfolding close_stop
close t = if t.running then close_stop (record t { running = false }) else some t

abbrev pub set_interval : ℤ → Task → Task
set_interval interval t = record t { interval = interval }

-- What happens to goroutine `i`: it comes to its `select`, the timer fires or the closed channel is
-- received from, or `Execute` returns. A step that its loop is not ready for changes nothing.
pub data Event : Type 0 where
  enters_select timer_fires stop_received execute_ok execute_fails : Event

abbrev at_loop : ℕ → Loop → Task → Task
at_loop i l t = record t { loops = set t.loops i l }

loop_step : ℕ → Loop → Event → Task → Option Task
unfolding close_stop
loop_step i between enters_select t = some (at_loop i (waiting t.stop) t)
loop_step i (waiting c) timer_fires t = some (at_loop i executing t)
loop_step i (waiting c) stop_received t = some (if t.closed c then at_loop i ended t else t)
loop_step i executing execute_ok t = some (at_loop i between t)
loop_step i executing execute_fails t = close_stop (at_loop i ended (record t { running = false }))
loop_step i _ _ t = some t

unfoldable pub step : ℕ → Event → Task → Option Task
unfolding loop_step
step i e t = loop_step i (get_or t.loops i ended) e t
