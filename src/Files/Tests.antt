-- ===== src/Files/Tests.antt =====
-- Two processes with shared open files.
use lnxrm.Base.{ℕ, ◌<◌, ◌≡◌, refl, true, false, none, some, arith}
use lnxrm.Base.Words.{pos}
use lnxrm.Task.{nr_tasks}
use lnxrm.Files.{
  Files, regular, opened, nr_fds, sys_open, sys_close, fork_fds, exit_fds, first_empty,
}
use lnxrm.Files.Counts.{refs-none}
use lnxrm.Files.Calls.{IsCounted}
use lnxrm.Files.Steps.{Steps, done, more, opens, forks, closes, ends, Steps-IsCounted}

abbrev no_files : Files
no_files = record {
  fds = λ t i. none;
  file = λ f. record { kind = regular; cloexec = false; offset = 0; refcnt = 0 };
  live = λ f. false;
}

no_files-IsCounted : IsCounted no_files
no_files-IsCounted = record {
  counted = λ f l. ground arith;
  dead = λ f l. refs-none f;
  kept = λ f l. ground arith;
}

-- Process 1 opens a file.
abbrev one_file : Files
one_file = (sys_open 1 (opened 7 regular false) no_files).1

only_one : (i : ℕ) → one_file.fds 2 i ≡ none
unfolding sys_open first_empty
only_one i = refl

-- It forks process 2, which ends after process 1 has closed its descriptor.
abbrev forked : Files
forked = fork_fds 1 2 one_file

abbrev closed : Files
closed = (sys_close 1 (pos 0) forked).1

shared : Steps no_files (exit_fds 2 closed)
shared =
    more
      (more
        (more (more done (opens 1 7 regular false (omega arith) refl))
          (forks 1 2 (omega arith) (omega arith) (λ e. omega arith) (λ i b. only_one i)))
        (closes 1 (pos 0) (omega arith)))
      (ends 2 (omega arith))

Steps-IsCounted_example :
    IsCounted (exit_fds 2 closed)
    × ((t i f : ℕ)
        → t < nr_tasks
        → i < nr_fds
        → (exit_fds 2 closed).fds t i ≡ some f
        → (exit_fds 2 closed).live f ≡ true)
Steps-IsCounted_example = Steps-IsCounted no_files (exit_fds 2 closed) no_files-IsCounted shared
