-- ===== src/Process/Tests.antt =====
-- Checks of fork, exit and waitpid on a small table.
use lnxrm.Base.{ℕ, ◌≡◌, ◌≢◌, ◌<◌, refl, true, false, none, some, [], ◌==◌, if◌then◌else◌, arith}
use lnxrm.Base.Words.{ℤ, pos}
use lnxrm.Task.{Frame, Task, Cpu, Kernel, unused, running, sleeping, zombie, nr_tasks, is_unused}
use lnxrm.Sched.Table.{find_task, find_from, task_alloc_slot, first_unused}
use lnxrm.Sched.Invariant.{IsQueued}
use lnxrm.Process.{sys_fork, leave_process, wait_scan, reaped}
use lnxrm.Process.Orphans.{leave_process-orphans}
use lnxrm.Process.Reaping.{wait_scan-leave_process}
use lnxrm.Process.Forks.{sys_fork_lem, IsChild}

abbrev free_slot : Task
free_slot = record {
  pid = 0;
  cpu_id = none;
  state = unused;
  tf = none;
  pml4 = 0;
  brk_base = 0;
  brk_cur = 0;
  exit_code = pos 0;
  sleep_until = 0;
  quantum = 0;
  parent = none;
  rq_cpu = none;
  signal_pending = λ k. false;
  signal_mask = λ k. false;
  sa_handler = λ k. 0;
  sa_mask = λ k. 0;
  sa_flags = λ k. 0;
}

-- A user frame in the middle of `fork`, whose number is in `rax`.
abbrev calling : Frame
calling = record {
  rip = 0x7f80_0000_1000;
  cs = 0x1b;
  rflags = 0x2;
  ussp = 0x7f80_0001_0000;
  usss = 0x23;
  rax = 57;
  rbx = 2;
  rcx = 3;
  rdx = 4;
  rsi = 5;
  rdi = 6;
  rbp = 7;
  r8 = 8;
  r9 = 9;
  r10 = 10;
  r11 = 11;
  r12 = 12;
  r13 = 13;
  r14 = 14;
  r15 = 15;
}

-- Init sleeps in slot 1; task 2 runs, a child of the sleeping 3; task 4 is a child of 2.
abbrev family_tasks : ℕ → Task
family_tasks t =
    if t == 1
    then record free_slot { pid = 1; state = sleeping }
    else if t == 2
    then record free_slot { pid = 2; state = running; parent = some 3; tf = some calling }
    else if t == 3
    then record free_slot { pid = 3; state = sleeping; parent = some 1 }
    else if t == 4
    then record free_slot { pid = 4; state = sleeping; parent = some 2 }
    else free_slot

abbrev lone_cpu : ℕ → Cpu
lone_cpu c = record {
  started = c == 0;
  current = if c == 0 then some 2 else none;
  idle = none;
  runq = [];
  need_resched = false;
  cr3 = 0;
}

abbrev family : Kernel
family = record { tasks = family_tasks; cpus = lone_cpu; jiffies = 0; ipis = [] }

family-IsQueued : IsQueued family
family-IsQueued = record {
  linked = λ c t. ground arith;
  once = λ c. ground arith;
  ready = λ t c e. ground arith;
  in_range = λ t c e. ground arith;
}

init_found : find_task 1 family ≢ some 2
unfolding find_task find_from
init_found = ground arith

leave_process-orphans_example :
    (((leave_process 0 2 (pos 7) family).tasks 2).state ≡ zombie)
    × ((u : ℕ)
        → u < nr_tasks
        → u ≢ 2
        → is_unused (family.tasks u).state ≡ false
        → ((leave_process 0 2 (pos 7) family).tasks u).parent ≢ some 2)
leave_process-orphans_example = leave_process-orphans 0 2 (pos 7) family init_found

wait_scan-leave_process_example :
    (pid : ℕ) × (c : ℤ) × (q : Kernel) × (wait_scan 3 (pos 0) (leave_process 0 2 (pos 7) family)
      ≡ reaped pid c q)
wait_scan-leave_process_example =
    wait_scan-leave_process 0 2 3 (pos 7) (pos 0) family (omega arith) (ground arith) refl refl

forked : (sys_fork 0 2 true 77 true 4 family).result ≡ some 5
unfolding sys_fork task_alloc_slot first_unused
forked = refl

sys_fork_lem_example : (i : ℕ) × IsChild 2 i 5 77 family (sys_fork 0 2 true 77 true 4 family).kernel
sys_fork_lem_example = sys_fork_lem 0 2 true 77 true 4 family 5 (λ e. ground (arith, e)) forked
