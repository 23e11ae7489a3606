-- ===== src/Sched/Tick.antt =====
-- The timer side of kernel/sched.c: `sched_tick`, `sched_maybe_preempt` and `sys_nanosleep`.
pub mod Wakes
use lnxrm.Base.{
  ℕ, zero, suc, ◌+◌, ◌-◌, ◌*◌, ◌/◌, ◌%◌, ◌^◌, Bool, true, false, ◌&&◌, ◌||◌, Option, none, some,
  ◌==◌, ltb, leb, if◌then◌else◌,
}
use lnxrm.Base.Words.{add64, sub64, u64_mod}
use lnxrm.Task.{Kernel, nr_tasks, set_task, set_cpu, sleeping, is_running, is_sleeping}
use lnxrm.Sched.{wake, runqueue_remove, schedule}

abbrev pub set_resched : ℕ → Bool → Kernel → Kernel
set_resched me b s = set_cpu s me (record (s.cpus me) { need_resched = b })

-- One round of the loop over the sleepers.
pub tick_task : ℕ → ℕ → Kernel → Kernel
tick_task me t s =
    if is_sleeping (s.tasks t).state && leb (s.tasks t).sleep_until s.jiffies
    then set_resched me true (wake me t s)
    else s

-- The loop from slot `i` on, with `n` slots left.
pub tick_from : ℕ → ℕ → ℕ → Kernel → Kernel
unfolding tick_task
tick_from zero me i s = s
tick_from (suc n) me i s = tick_from n me (i + 1) (tick_task me i s)

-- The quantum of the current task.
pub burn : ℕ → ℕ → Kernel → Kernel
burn me cur s =
    if (s.tasks cur).pid == 0
    then s
    else if ltb 0 (s.tasks cur).quantum
    then (let s' = set_task s cur (record (s.tasks cur) { quantum = (s.tasks cur).quantum - 1 }) in
        if (s.tasks cur).quantum == 1 && is_running (s.tasks cur).state
        then set_resched me true s'
        else s')
    else s

pub sched_tick : ℕ → Kernel → Kernel
sched_tick me s =
    let woken = tick_from (nr_tasks - 1) me 1 s in
    elim (woken.cpus me).current [ none ↦ woken | some cur ↦ burn me cur woken ]

-- `f->cs & 3` is the privilege level of the interrupted code.
unfoldable pub preempt : ℕ → ℕ → ℕ → Kernel → Option Kernel
preempt me cs cur s =
    if is_running (s.tasks cur).state && (cs % 4 == 3 || (s.tasks cur).pid == 0)
    then schedule me (set_resched me false s)
    else some s

unfoldable pub sched_maybe_preempt : ℕ → ℕ → Kernel → Option Kernel
unfolding preempt
sched_maybe_preempt me cs s = elim (s.cpus me).current [
  | none ↦ some s
  | some cur ↦ if (s.cpus me).need_resched then preempt me cs cur s else some s
]

-- `jiffies + ms * HZ / 1000 + 1`, where `hz` is HZ.
pub wake_time : ℕ → ℕ → ℕ → ℕ
wake_time hz ms now = add64 (add64 now (ms * hz % u64_mod / 1000)) 1

-- `(i64)(jiffies - until) < 0`
pub before : ℕ → ℕ → Bool
before now til = leb (2 ^ 63) (sub64 now til)

-- One round of the loop of `sys_nanosleep`: the task goes to sleep and gives the CPU away.
pub nanosleep_round : ℕ → ℕ → ℕ → Kernel → Option Kernel
nanosleep_round me cur til s = schedule me (
    runqueue_remove cur
      (set_task s cur (record (s.tasks cur) { sleep_until = til; state = sleeping })))
