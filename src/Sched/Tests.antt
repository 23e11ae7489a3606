-- ===== src/Sched/Tests.antt =====
-- A machine with one busy CPU, for the functions of kernel/sched.c.
use lnxrm.Base.{ℕ, ◌≡◌, refl, true, false, ◌||◌, none, some, [], ◌∷◌, ◌==◌, if◌then◌else◌, arith}
use lnxrm.Base.Words.{pos}
use lnxrm.Task.{Task, Cpu, Kernel, running, runnable, sleeping, unused, embryo, set_task}
use lnxrm.Sched.{leave}
use lnxrm.Sched.Invariant.{IsQueued, schedule-IsQueued}
use lnxrm.Sched.Starvation.{Duel, rounds, schedule-leave, starves_rest}
use lnxrm.Sched.Tick.{sched_tick, set_resched, sched_maybe_preempt, preempt}
use lnxrm.Sched.Tick.Wakes.{sched_tick_state, resched-IsQueued}
use lnxrm.Sched.Table.{task_alloc_slot, first_unused}

abbrev free_slot : Task
free_slot = record {
  pid = 0;
  cpu_id = none;
  state = unused;
  tf = none;
  pml4 = 0;
  brk_base = 0;
  brk_cur = 0;
  exit_code = pos 0;
  sleep_until = 0;
  quantum = 0;
  parent = none;
  rq_cpu = none;
  signal_pending = λ k. false;
  signal_mask = λ k. false;
  sa_handler = λ k. 0;
  sa_mask = λ k. 0;
  sa_flags = λ k. 0;
}

-- Task 1 runs, 2 and 3 wait, 4 sleeps until 5.
abbrev busy_tasks : ℕ → Task
busy_tasks t =
    if t == 1
    then record free_slot { pid = 1; state = running; cpu_id = some 0; quantum = 6 }
    else if t == 2 || t == 3
    then record free_slot { pid = t; state = runnable; rq_cpu = some 0 }
    else if t == 4
    then record free_slot { pid = 4; state = sleeping; sleep_until = 5 }
    else free_slot

abbrev busy_cpu : ℕ → Cpu
busy_cpu c = record {
  started = c == 0;
  current = if c == 0 then some 1 else none;
  idle = if c == 0 then some 0 else none;
  runq = if c == 0 then 2 ∷ 3 ∷ [] else [];
  need_resched = false;
  cr3 = 0;
}

abbrev busy_machine : Kernel
busy_machine = record { tasks = busy_tasks; cpus = busy_cpu; jiffies = 10; ipis = [] }

busy_machine-IsQueued : IsQueued busy_machine
busy_machine-IsQueued = record {
  linked = λ c t. ground arith;
  once = λ c. ground arith;
  ready = λ t c e. ground arith;
  in_range = λ t c e. ground arith;
}

busy_machine-Duel : Duel 0 1 2 (3 ∷ []) busy_machine
busy_machine-Duel = record {
  current = refl;
  queue = refl;
  apart = refl;
  user_a = refl;
  user_b = refl;
  runs = refl;
  off = refl;
  on = refl;
  idle_a = refl;
  idle_b = refl;
  busy = λ c h. ground arith;
  in_range = omega arith;
}

schedule-IsQueued_example : IsQueued (leave 0 1 2 busy_machine)
schedule-IsQueued_example =
    schedule-IsQueued 0 busy_machine (leave 0 1 2 busy_machine) (omega arith) busy_machine-IsQueued
      (schedule-leave busy_machine-Duel)

starves_rest_example :
    (s' : Kernel) × (rounds 101 0 busy_machine ≡ some s')
    × ((s'.cpus 0).current ≡ some 2)
    × ((s'.cpus 0).runq ≡ 1 ∷ 3 ∷ [])
starves_rest_example = starves_rest 101 0 1 2 (3 ∷ []) busy_machine busy_machine-Duel

sched_tick_state_example : ((sched_tick 0 busy_machine).tasks 4).state ≡ runnable
sched_tick_state_example = sched_tick_state 0 4 busy_machine

-- The machine with its slot 5 handed out.
abbrev with_embryo : Kernel
with_embryo = set_task busy_machine 5 (record free_slot { state = embryo })

handed_out : task_alloc_slot busy_machine ≡ some (5, with_embryo)
unfolding task_alloc_slot first_unused
handed_out = refl

-- The quantum of task 1 is over.
abbrev expired : Kernel
expired = set_resched 0 true busy_machine

expired-IsQueued : IsQueued expired
expired-IsQueued = resched-IsQueued 0 true busy_machine busy_machine-IsQueued

expired-Duel : Duel 0 1 2 (3 ∷ []) (set_resched 0 false expired)
expired-Duel = record {
  current = refl;
  queue = refl;
  apart = refl;
  user_a = refl;
  user_b = refl;
  runs = refl;
  off = refl;
  on = refl;
  idle_a = refl;
  idle_b = refl;
  busy = λ c h. ground arith;
  in_range = omega arith;
}

preempted : sched_maybe_preempt 0 0x1b expired ≡ some (leave 0 1 2 (set_resched 0 false expired))
unfolding sched_maybe_preempt preempt
preempted = schedule-leave expired-Duel

-- Every slot but 0 is taken.
abbrev full_machine : Kernel
full_machine = record busy_machine { tasks = λ t. record free_slot { state = running } }

refused : task_alloc_slot full_machine ≡ none
unfolding task_alloc_slot first_unused
refused = refl
