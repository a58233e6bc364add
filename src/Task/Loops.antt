-- ===== src/Task/Loops.antt =====
-- How many goroutines a task runs.
use bxtest.Prelude.{
  ℤ, ℕ, zero, suc, ◌≤◌, ◌<◌, Bool, true, false, if◌then◌else◌, Option, none, some, List, [], ◌∷◌,
  ◌++◌, nat_beq, set, get_or, length, ◌≡◌, refl, arith, ap, sym, ◌≢◌, Bool-cases, inl, inr,
}
use bxtest.Task.{
  Task, Loop, executing, between, waiting, ended, start, close, step, enters_select, execute_ok,
  new_task,
}

infixl 5 ◌>>=◌
abbrev pub ◌>>=◌ {ℓ κ} : {A : Type ℓ} {B : Type κ} → Option A → (A → Option B) → Option B
none >>= f = none
some a >>= f = f a

-- What the program keeps true of a task: a running task has an open stop channel, and no channel is
-- closed before it is made.
pub record IsValid (t : Task) : Type 0 where
  pub open_stop : t.running ≡ true → t.closed t.stop ≡ false
  pub made : (c : ℕ) → t.channels ≤ c → t.closed c ≡ false
  pub stop_made : t.running ≡ true → t.stop < t.channels

pub new_task-IsValid : (i : ℤ) → IsValid (new_task i)
unfolding new_task
new_task-IsValid i = record { open_stop = λ h. refl; made = λ c h. refl; stop_made = λ h. cc }

pub start-IsValid : (first : Bool) (t : Task) → IsValid t → IsValid (start first t)
unfolding start
start-IsValid first t v = record {
  open_stop = λ h. ground (arith, v.made t.channels, v.open_stop);
  made = λ c h. ground (arith, v.made c);
  stop_made = λ h. ground (arith, v.stop_made);
}

abbrev pub closed_task : Task → Task
closed_task t = record t {
  running = false;
  closed = λ c. if nat_beq c t.stop then true else t.closed c;
}

pub close-running : (t : Task) → IsValid t → t.running ≡ true → close t ≡ some (closed_task t)
unfolding close
close-running t v on = ground (arith, v.open_stop on)

-- On a task that is kept so Close never panics, and leaves it so, stopped.
pub close-IsValid :
    (t : Task) → IsValid t → (t' : Task) × (close t ≡ some t') × IsValid t' × (t'.running ≡ false)
unfolding close
close-IsValid t v = elim (Bool-cases t.running) [
  | inr off ↦ (t, ground arith, v, off)
  | inl on ↦ (
    closed_task t,
    ground (arith, v.open_stop),
    record {
      open_stop = λ h. cc;
      made = λ c h. ground (arith, v.made c, v.stop_made);
      stop_made = λ h. cc;
    },
    refl,
  )
]

pub get_or-set :
    (ls : List Loop) (i : ℕ) (l : Loop) → i < length ls → get_or (set ls i l) i ended ≡ l
get_or-set [] i l h = elim h [ ]
get_or-set (x ∷ xs) zero l h = refl
get_or-set (x ∷ xs) (suc i) l h = get_or-set xs i l (omega arith)

pub get_or-append :
    (ls ms : List Loop) (i : ℕ) → i < length ls → get_or (ls ++ ms) i ended ≡ get_or ls i ended
get_or-append [] ms i h = elim h [ ]
get_or-append (x ∷ xs) ms zero h = refl
get_or-append (x ∷ xs) ms (suc i) h = get_or-append xs ms i (omega arith)

pub get_or-in :
    (ls : List Loop) (i : ℕ) (l : Loop) → get_or ls i ended ≡ l → l ≢ ended → i < length ls
get_or-in [] i l e n = absurd (n (sym e))
get_or-in (x ∷ xs) zero l e n = omega arith
get_or-in (x ∷ xs) (suc i) l e n = omega (arith, get_or-in xs i l e n)

pub length-append_one : (ls : List Loop) (l : Loop) → get_or (ls ++ (l ∷ [])) (length ls) ended ≡ l
length-append_one [] l = refl
length-append_one (x ∷ xs) l = length-append_one xs l

pub get_or-set_ne :
    (ls : List Loop) (i j : ℕ) (l : Loop) → i ≢ j → get_or (set ls i l) j ended ≡ get_or ls j ended
get_or-set_ne [] i j l n = refl
get_or-set_ne (x ∷ xs) zero zero l n = absurd (n refl)
get_or-set_ne (x ∷ xs) zero (suc j) l n = refl
get_or-set_ne (x ∷ xs) (suc i) zero l n = refl
get_or-set_ne (x ∷ xs) (suc i) (suc j) l n = get_or-set_ne xs i j l (λ e. n (ap suc e))

-- goroutine `i` waits for the timer on a channel that nobody has closed
abbrev pub IsLive : ℕ → Task → Type 0
IsLive i t = (get_or t.loops i ended ≡ waiting t.stop) × (t.closed t.stop ≡ false)

-- goroutine `i` of a running task comes to its `select` and waits there
pub step-enters_select :
    (i : ℕ) (t : Task)
    → get_or t.loops i ended ≡ between
    → step i enters_select t ≡ some (record t { loops = set t.loops i (waiting t.stop) })
unfolding step
step-enters_select i t e = rw (e, step) refl

pub step-execute_ok :
    (i : ℕ) (t : Task)
    → get_or t.loops i ended ≡ executing
    → step i execute_ok t ≡ some (record t { loops = set t.loops i between })
unfolding step
step-execute_ok i t e = rw (e, step) refl
