-- ===== src/Task/Restart.antt =====
-- What a Close and a Start do while Execute runs, as nodeInfoMonitor does to its own task.
use bxtest.Prelude.{
  ℕ, suc, ◌<◌, true, false, Option, none, some, List, [], ◌∷◌, ◌++◌, set, length, ◌≡◌, arith, ◌∙◌,
  sym, ◌≢◌, get_or, length-set, length-append,
}
use bxtest.Task.{
  Task, Loop, executing, between, waiting, ended, start, close, step, enters_select, execute_ok,
  execute_fails,
}
use bxtest.Task.Loops.{
  IsValid, IsLive, ◌>>=◌, closed_task, close-running, get_or-set, get_or-append, get_or-in,
  length-append_one, get_or-set_ne, step-enters_select, step-execute_ok,
}

-- the steps after a Close by the function that the task executes: Start, then the old goroutine
-- goes on, and both come to their `select`
abbrev pub restart_within : ℕ → Task → Option Task
restart_within i t = close t >>= λ a. step i execute_ok (start false a) >>= λ b.
    step i enters_select b >>= λ c. step (length t.loops) enters_select c

-- the task with a new channel and a new goroutine
restarted : Task → List Loop → Task
restarted t ls = record (closed_task t) {
  running = true;
  stop = t.channels;
  channels = suc t.channels;
  loops = ls;
}

module _ (t : Task) (v : IsValid t) (on : t.running ≡ true) (i : ℕ) where
  loops_between : List Loop
  loops_between = set (t.loops ++ (between ∷ [])) i between

  loops_waiting : List Loop
  unfolding loops_between
  loops_waiting =
      set (set loops_between i (waiting t.channels)) (length t.loops) (waiting t.channels)

  module _ (busy : get_or t.loops i ended ≡ executing) where
    inside : i < length t.loops
    inside = get_or-in t.loops i executing busy (λ e. cc)

    fresh_open : (restarted t loops_waiting).closed t.channels ≡ false
    unfolding restarted
    fresh_open = ground (arith, v.made t.channels, v.stop_made on)

    after_execute :
        step i execute_ok (restarted t (t.loops ++ (between ∷ [])))
        ≡ some (restarted t loops_between)
    unfolding restarted loops_between
    after_execute =
        step-execute_ok i (restarted t (t.loops ++ (between ∷ [])))
          (get_or-append t.loops (between ∷ []) i inside ∙ busy)

    inside_more : i < length (t.loops ++ (between ∷ []))
    inside_more = omega (arith, length-append {0} t.loops (between ∷ []), inside)

    inside_between : i < length loops_between
    unfolding loops_between
    inside_between =
        omega (arith, length-set {0} (t.loops ++ (between ∷ [])) i between, inside_more)

    after_select :
        step i enters_select (restarted t loops_between)
        ≡ some (restarted t (set loops_between i (waiting t.channels)))
    unfolding restarted loops_between
    after_select =
        step-enters_select i (restarted t loops_between)
          (get_or-set (t.loops ++ (between ∷ [])) i between inside_more)

    apart : i ≢ length t.loops
    apart = ground (arith, inside)

    new_between : get_or (set loops_between i (waiting t.channels)) (length t.loops) ended ≡ between
    unfolding loops_between
    new_between =
        get_or-set_ne loops_between i (length t.loops) (waiting t.channels) apart
        ∙ get_or-set_ne (t.loops ++ (between ∷ [])) i (length t.loops) between apart
        ∙ length-append_one t.loops between

    other_select :
        step (length t.loops) enters_select (restarted t (set loops_between i (waiting t.channels)))
        ≡ some (restarted t loops_waiting)
    unfolding restarted loops_waiting
    other_select =
        step-enters_select (length t.loops) (restarted t (set loops_between i (waiting t.channels)))
          new_between

    old_waiting : get_or loops_waiting i ended ≡ waiting t.channels
    unfolding loops_waiting
    old_waiting =
        get_or-set_ne (set loops_between i (waiting t.channels)) (length t.loops) i
          (waiting t.channels) (λ e. apart (sym e))
        ∙ get_or-set loops_between i (waiting t.channels) inside_between

    new_waiting : get_or loops_waiting (length t.loops) ended ≡ waiting t.channels
    unfolding loops_waiting loops_between
    new_waiting =
        get_or-set (set loops_between i (waiting t.channels)) (length t.loops) (waiting t.channels)
          (omega (
            arith,
            length-set {0} loops_between i (waiting t.channels),
            length-set {0} (t.loops ++ (between ∷ [])) i between,
            length-append {0} t.loops (between ∷ []),
          ))

    restart_runs : restart_within i t ≡ some (restarted t loops_waiting)
    unfolding restarted loops_waiting start
    restart_runs = rw (close-running t v on) (rw after_execute (rw after_select other_select))

    -- Close and Start from within Execute leave two goroutines: on a valid running task whose goroutine
    -- `i` is executing, after the restart and the end of that Execute both the old goroutine and the
    -- new one wait for the timer on the one open channel.
    pub restart_within_leaks :
        (t' : Task) × (restart_within i t ≡ some t')
        × IsLive i t'
        × IsLive (length t.loops) t'
        × (i ≢ length t.loops)
    unfolding restarted loops_waiting
    restart_within_leaks = (
      restarted t loops_waiting,
      restart_runs,
      (old_waiting, fresh_open),
      (new_waiting, fresh_open),
      apart,
    )

-- An Execute that fails after somebody has closed the task closes the stop channel a second time,
-- which panics: from a valid running task, whichever goroutine fails.
pub fails_after_close :
    (t : Task) (i : ℕ)
    → IsValid t
    → t.running ≡ true
    → get_or t.loops i ended ≡ executing
    → (close t >>= λ a. step i execute_fails a) ≡ none
unfolding step
fails_after_close t i v on busy = rw (close-running t v on) (rw (busy, step) (ground arith))
