-- ===== src/Files/Steps.antt =====
-- Every call of the file layer keeps the reference counts exact, so no descriptor outlives its file.
use lnxrm.Base.{ℕ, ◌<◌, ◌≡◌, ◌≢◌, Bool, true, false, none, some, arith}
use lnxrm.Base.Words.{ℤ}
use lnxrm.Task.{nr_tasks}
use lnxrm.Files.{
  Files, Kind, opened, fork_fds, exit_fds, exec_fds, sys_open, sys_close, sys_dup2, nr_fds,
}
use lnxrm.Files.Calls.{
  IsCounted, held, close_from-IsCounted, exec_from-IsCounted, fork_fds-IsCounted,
  sys_open-IsCounted, sys_close-IsCounted, sys_dup2-IsCounted,
}

-- The calls that change descriptor tables, each by a task of the table: `sys_open` gets a file that was not
-- allocated before, and `sys_fork` a child without open files.
pub data Step (s : Files) : Files → Type 0 where
  opens :
      (t f : ℕ) (kind : Kind) (cloexec : Bool)
      → t < nr_tasks
      → s.live f ≡ false
      → Step s (sys_open t (opened f kind cloexec) s).1
  closes : (t : ℕ) (fd : ℤ) → t < nr_tasks → Step s (sys_close t fd s).1
  dups : (t : ℕ) (oldfd newfd : ℤ) → t < nr_tasks → Step s (sys_dup2 t oldfd newfd s).1
  forks :
      (cur ch : ℕ)
      → cur < nr_tasks
      → ch < nr_tasks
      → cur ≢ ch
      → ((i : ℕ) → i < nr_fds → s.fds ch i ≡ none)
      → Step s (fork_fds cur ch s)
  execs : (t : ℕ) → t < nr_tasks → Step s (exec_fds t s)
  ends : (t : ℕ) → t < nr_tasks → Step s (exit_fds t s)

Step-IsCounted : {s s' : Files} → IsCounted s → Step s s' → IsCounted s'
unfolding exit_fds exec_fds
Step-IsCounted v (opens t f kind c a off) = sys_open-IsCounted t f kind c _ v a off
Step-IsCounted v (closes t fd a) = sys_close-IsCounted t fd _ v a
Step-IsCounted v (dups t oldfd newfd a) = sys_dup2-IsCounted t oldfd newfd _ v a
Step-IsCounted v (forks cur ch a b ne fresh) = fork_fds-IsCounted cur ch _ v a b ne fresh
Step-IsCounted v (execs t a) = exec_from-IsCounted nr_fds 0 t _ v a (omega arith)
Step-IsCounted v (ends t a) = close_from-IsCounted nr_fds 0 t _ v a (omega arith)

-- Any number of such calls, by any tasks.
pub data Steps (s : Files) : Files → Type 0 where
  done : Steps s s
  more : {q r : Files} → Steps s q → Step q r → Steps s r

-- After any sequence of opens, closes, duplications, forks, execs and exits, the reference count of every allocated
-- file is the number of descriptors that refer to it and is not 0, and every descriptor of a task refers
-- to an allocated file: none is used after it is freed, and none stays behind without a descriptor.
pub Steps-IsCounted :
    (s s' : Files)
    → IsCounted s
    → Steps s s'
    → IsCounted s'
      × ((t i f : ℕ) → t < nr_tasks → i < nr_fds → s'.fds t i ≡ some f → s'.live f ≡ true)
Steps-IsCounted s s' v done = (v, λ t i f a b. held f t i s v a b)
Steps-IsCounted s s' v (more {q} steps step) =
    let w = Step-IsCounted (Steps-IsCounted s q v steps).0 step in
    (w, λ t i f a b. held f t i s' w a b)
