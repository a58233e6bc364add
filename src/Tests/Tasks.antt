-- ===== src/Tests/Tasks.antt =====
-- Runs of a periodic task.
use bxtest.Prelude.{
  nat_beq, set, ◌⊎◌, if◌then◌else◌, pos, true, false, some, [], ◌∷◌, length, ◌≡◌, refl, ◌≢◌, arith,
}
use bxtest.Task.{
  Task, Loop, executing, waiting, ended, start, close, step, new_task, enters_select, stop_received,
}
use bxtest.Task.Loops.{IsValid, IsLive}
use bxtest.Task.Stops.{Reached, made_new, starts, closes, goes_on, Reached-stopped}
use bxtest.Task.Restart.{restart_within, restart_within_leaks}

-- a started task whose goroutine stands at `l`
abbrev task_at : Loop → Task
task_at l = record {
  interval = pos 60;
  running = true;
  stop = 0;
  channels = 1;
  closed = λ c. false;
  loops = l ∷ [];
}

task_at-IsValid : (l : Loop) → IsValid (task_at l)
task_at-IsValid l = record {
  open_stop = λ h. refl;
  made = λ c h. refl;
  stop_made = λ h. omega arith;
}

restart_within_leaks_example :
    (t : Task) × (restart_within 0 (task_at executing) ≡ some t)
    × IsLive 0 t
    × IsLive (length (task_at executing).loops) t
    × (0 ≢ length (task_at executing).loops)
restart_within_leaks_example =
    restart_within_leaks (task_at executing) (task_at-IsValid executing) refl 0 refl

-- a new task is started, its goroutine comes to `select`, and the task is closed
abbrev in_select : Task
in_select = task_at (waiting 0)

abbrev after_close : Task
after_close = record in_select {
  running = false;
  closed = λ c. if nat_beq c 0 then true else false;
}

after_close-Reached : Reached after_close
unfolding start close step new_task
after_close-Reached = closes (goes_on 0 enters_select (starts false (made_new (pos 60))) refl) refl

Reached-stopped_example :
    ((after_close.closed 0 ≡ true)
      × (step 0 stop_received after_close
          ≡ some (record after_close { loops = set after_close.loops 0 ended })))
    ⊎ ((after_close.running ≡ true)
        × (0 ≡ after_close.stop)
        × ((t' : Task) × (close after_close ≡ some t')
            × (t'.running ≡ false)
            × (t'.closed 0 ≡ true)))
Reached-stopped_example = Reached-stopped after_close after_close-Reached 0 0 refl
