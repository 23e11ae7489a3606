-- ===== src/Sched/Table.antt =====
-- The task table of kernel/sched.c: slots are claimed, freed and looked up.
pub mod Slots
use lnxrm.Base.{ℕ, zero, suc, ◌+◌, ◌-◌, not, ◌&&◌, Option, none, some, ◌==◌, if◌then◌else◌}
use lnxrm.Task.{Kernel, nr_tasks, set_task, unused, embryo, is_unused}
use lnxrm.Sched.{runqueue_remove}

-- The first free slot from `i` on, with `n` slots left.
unfoldable pub first_unused : ℕ → ℕ → Kernel → Option ℕ
first_unused zero i s = none
first_unused (suc n) i s =
    let rest = first_unused n (i + 1) s in if is_unused (s.tasks i).state then some i else rest

-- Slot 0 is the boot CPU's idle task and is never handed out.
unfoldable pub task_alloc_slot : Kernel → Option (ℕ × Kernel)
task_alloc_slot s = elim (first_unused (nr_tasks - 1) 1 s) [
  | none ↦ none
  | some i ↦
      some (i, set_task s i (record (s.tasks i) { state = embryo; rq_cpu = none; cpu_id = none }))
]

unfoldable pub task_free_slot : ℕ → Kernel → Kernel
task_free_slot t s =
    let s' : Kernel = elim (s.tasks t).rq_cpu [ none ↦ s | some _ ↦ runqueue_remove t s ] in
    set_task s' t (record (s'.tasks t) { state = unused; cpu_id = none; rq_cpu = none })

unfoldable pub find_from : ℕ → ℕ → ℕ → Kernel → Option ℕ
find_from zero i pid s = none
find_from (suc n) i pid s =
    let rest = find_from n (i + 1) pid s in
    if not (is_unused (s.tasks i).state) && (s.tasks i).pid == pid then some i else rest

unfoldable pub find_task : ℕ → Kernel → Option ℕ
find_task pid s = find_from nr_tasks 0 pid s

-- `task_iter` from slot `i` on, with `n` slots left: the next used slot and the next position.
pub iter_from : ℕ → ℕ → Kernel → Option (ℕ × ℕ)
iter_from zero i s = none
iter_from (suc n) i s =
    let rest = iter_from n (i + 1) s in
    if is_unused (s.tasks i).state then rest else some (i, i + 1)

pub task_iter : ℕ → Kernel → Option (ℕ × ℕ)
task_iter i s = iter_from (nr_tasks - i) i s
