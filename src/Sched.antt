-- ===== src/Sched.antt =====
-- kernel/sched.c: the run queues and the scheduler. Every critical section under `runq_lock` is one
-- step of a state; `me` is the executing CPU, `this_cpu_data()->id`.
pub mod Tick
pub mod Table
pub mod Invariant
pub mod Starvation
mod Tests
use lnxrm.Base.{
  ℕ, zero, suc, ◌+◌, Bool, not, ◌&&◌, ◌||◌, true, false, Option, none, some, List, [], ◌∷◌, ◌==◌,
  ltb, if◌then◌else◌, update,
}
use lnxrm.Task.{
  Task, Cpu, Kernel, max_cpus, set_task, set_cpu, set_state, runnable, running, is_running,
  is_runnable,
}
use lnxrm.Base.Links.{unlink}

pub pick_next : ℕ → Kernel → Option ℕ
pick_next me s = elim (s.cpus me).runq [ [] ↦ none | t ∷ _ ↦ some t ]

-- `c->started && c->idle && c->_current == c->idle`
abbrev pub same_slot : Option ℕ → Option ℕ → Bool
same_slot (some i) (some j) = i == j
same_slot _ _ = false

abbrev pub is_idle_cpu : Cpu → Bool
is_idle_cpu c = c.started && same_slot c.idle c.current

-- The loop of `preferred_cpu` from CPU `i` on, with `n` CPUs left.
pub first_idle : ℕ → ℕ → ℕ → Kernel → ℕ
first_idle zero i me s = me
first_idle (suc n) i me s =
    let rest = first_idle n (i + 1) me s in if is_idle_cpu (s.cpus i) then i else rest

pub preferred_cpu : ℕ → Kernel → ℕ
preferred_cpu me s = first_idle max_cpus 0 me s

-- The body of `runqueue_add` once a CPU is chosen: link in front, then wake a remote CPU.
unfoldable pub enqueue : ℕ → ℕ → ℕ → Kernel → Kernel
enqueue me cpu t s = record s {
  tasks = update s.tasks t (record (s.tasks t) { rq_cpu = some cpu });
  cpus = update s.cpus cpu (record (s.cpus cpu) { runq = t ∷ (s.cpus cpu).runq });
  ipis = if not (cpu == me) && (s.cpus cpu).started then cpu ∷ s.ipis else s.ipis;
}

unfoldable pub runqueue_add : ℕ → ℕ → Kernel → Kernel
unfolding enqueue
runqueue_add me t s = elim (s.tasks t).rq_cpu [
  | none ↦ enqueue me (preferred_cpu me s) t s
  | some _ ↦ s
]

abbrev pub drop_link : ℕ → ℕ → Kernel → Kernel
drop_link c t s =
    if ltb c max_cpus
    then set_cpu s c (record (s.cpus c) { runq = unlink t (s.cpus c).runq })
    else s

unfoldable pub runqueue_remove : ℕ → Kernel → Kernel
runqueue_remove t s = elim (s.tasks t).rq_cpu [
  | none ↦ set_task s t (record (s.tasks t) { rq_cpu = none })
  | some c ↦ set_task (drop_link c t s) t (record (s.tasks t) { rq_cpu = none })
]

-- `t->state = T_RUNNABLE; runqueue_add(t);`
abbrev pub wake : ℕ → ℕ → Kernel → Kernel
wake me t s = runqueue_add me t (set_state s t runnable)

-- Up to the stack switch `swtch`, with `prev` the current task.
pub switch_to : ℕ → ℕ → ℕ → Kernel → Kernel
switch_to me prev next s =
    let dst = record (s.tasks next) { state = running; quantum = 6; cpu_id = some me } in
    let before = update s.tasks next dst in
    let cpu = s.cpus me in
    let flush = not (prev == next) && not ((s.tasks prev).pml4 == (s.tasks next).pml4) in
    record s {
      tasks = update before prev (record (before prev) { cpu_id = none });
      cpus = update s.cpus me (record cpu {
        current = some next;
        cr3 = if flush then (s.tasks next).pml4 else cpu.cr3;
      });
    }

abbrev pub refresh_quantum : ℕ → Kernel → Kernel
refresh_quantum cur s =
    if not ((s.tasks cur).pid == 0)
    then set_task s cur (record (s.tasks cur) { quantum = 6 })
    else s

-- The end of `schedule` that leaves `cur` for another task.
pub leave : ℕ → ℕ → ℕ → Kernel → Kernel
leave me cur next s =
    let queued =
      if is_running (s.tasks cur).state && not ((s.tasks cur).pid == 0) then wake me cur s else s in
    switch_to me cur next (runqueue_remove next queued)

-- The queue is empty, and `cur` is neither running nor runnable; so the last resort of the source for a
-- runnable task without an idle one does not apply.
pub park : ℕ → ℕ → Kernel → Kernel
park me cur s = elim (s.cpus me).idle [
  | none ↦ s
  | some idle ↦ if idle == cur then s else leave me cur idle s
]

-- A task that is current has no place on a queue: a stale link is dropped.
pub drop_stale : ℕ → Kernel → Kernel
drop_stale cur s = elim (s.tasks cur).rq_cpu [ none ↦ s | some _ ↦ runqueue_remove cur s ]

-- `next == current`.
pub keep_self : ℕ → Kernel → Kernel
unfolding drop_stale
keep_self cur s =
    drop_stale cur (if is_running (s.tasks cur).state then refresh_quantum cur s else s)

pub schedule_from : ℕ → ℕ → Kernel → Kernel
unfolding pick_next leave park keep_self
schedule_from me cur s = elim (pick_next me s) [
  | none ↦
      if is_running (s.tasks cur).state || is_runnable (s.tasks cur).state
      then refresh_quantum cur s
      else park me cur s
  | some next ↦ if next == cur then keep_self cur s else leave me cur next s
]

-- `none` is the panic "schedule without current".
pub schedule : ℕ → Kernel → Option Kernel
unfolding schedule_from
schedule me s = elim (s.cpus me).current [ none ↦ none | some cur ↦ some (schedule_from me cur s) ]
