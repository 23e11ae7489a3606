-- ===== src/Process.antt =====
-- kernel/task.c: fork, exit and waitpid over the task table. The descriptor tables are those of Files.
-- Kernel stacks, names and address spaces are left out: what `kmalloc` and the copy of the address
-- space answer are arguments.
mod Queues
mod Forks
pub mod Orphans
pub mod Reaping
mod Tests
use lnxrm.Base.{
  ℕ, zero, suc, ◌+◌, ◌-◌, ◌%◌, ◌^◌, bit_or, Bool, true, false, not, ◌&&◌, ◌||◌, Option, none, some,
  ◌==◌, ltb, if◌then◌else◌, names,
}
use lnxrm.Base.Words.{ℤ, pos, negsuc}
use lnxrm.Task.{
  Task, Cpu, Kernel, Frame, set_task, set_state, nr_tasks, embryo, runnable, sleeping, zombie,
  is_unused, is_sleeping, is_zombie,
}
use lnxrm.Sched.{wake, schedule, runqueue_add, runqueue_remove}
use lnxrm.Sched.Table.{task_alloc_slot, task_free_slot, find_task}
use lnxrm.Signal.{send_signal}

abbrev pub sigchld : ℕ
sigchld = 17

-- `++pid_counter`: the pid and the counter's new value are the same.
abbrev pub next_pid : ℕ → ℕ
next_pid counter = (counter + 1) % 2 ^ 32

abbrev pub child_frame : Frame → Frame
child_frame tf = record tf { rax = 0; rflags = bit_or tf.rflags 0x200 }

abbrev pub child_tf : Option Frame → Option Frame
child_tf none = none
child_tf (some tf) = some (child_frame tf)

-- What `sys_fork` writes in the child's slot, which holds `ch`.
abbrev pub child_of : ℕ → Task → ℕ → ℕ → Task → Task
child_of cur p pid pml4 ch = record ch {
  pid = pid;
  parent = some cur;
  pml4 = pml4;
  brk_base = p.brk_base;
  brk_cur = p.brk_cur;
  sa_handler = p.sa_handler;
  sa_mask = p.sa_mask;
  sa_flags = p.sa_flags;
  signal_pending = λ sig. false;
  signal_mask = p.signal_mask;
  tf = child_tf p.tf;
  cpu_id = none;
  rq_cpu = none;
  state = runnable;
}

-- The slot before the copy of the address space.
abbrev pub begin_child : ℕ → ℕ → ℕ → Task → Task
begin_child cur pid pml4 ch = record ch {
  pid = pid;
  parent = some cur;
  state = embryo;
  pml4 = pml4;
}

-- The kernel and the pid counter after the call, with the child's pid, or `none` for -1.
pub record Forked : Type 0 where
  pub result : Option ℕ
  pub counter : ℕ
  pub kernel : Kernel

-- `have_stack` is whether the kernel stack is allocated, `aspace` the child's new page table, and
-- `copied` whether the pages were. A child that is given up keeps its pid, state and parent until the
-- slot is freed.
pub sys_fork : ℕ → ℕ → Bool → ℕ → Bool → ℕ → Kernel → Forked
sys_fork me cur have_stack aspace copied counter s = elim (task_alloc_slot s) [
  | none ↦ record { result = none; counter = counter; kernel = s }
  | some (i, s') ↦
      let pid = next_pid counter in
      let begun = set_task s' i (begin_child cur pid aspace (s'.tasks i)) in
      let child = child_of cur (s'.tasks cur) pid aspace (begun.tasks i) in
      if not have_stack
      then record { result = none; counter = counter; kernel = task_free_slot i s' }
      else if not copied
      then record { result = none; counter = pid; kernel = task_free_slot i begun }
      else record {
        result = some pid;
        counter = pid;
        kernel = runqueue_add me i (set_task begun i child);
      }
]

-- The body of the loop that gives the children of `cur` to init.
abbrev pub adopt : ℕ → Option ℕ → ℕ → Kernel → Kernel
adopt cur init t s =
    if not (is_unused (s.tasks t).state) && not (t == cur) && names (s.tasks t).parent cur
    then set_task s t (record (s.tasks t) { parent = init })
    else s

-- The loop by `task_iter` from slot `i` on, with `n` slots left: unused ones are passed.
pub adopt_from : ℕ → ℕ → ℕ → Option ℕ → Kernel → Kernel
adopt_from zero i cur init s = s
adopt_from (suc n) i cur init s = adopt_from n (i + 1) cur init (adopt cur init i s)

pub reparent : ℕ → Kernel → Kernel
reparent cur s = adopt_from nr_tasks 0 cur (find_task 1 s) s

abbrev pub notify : ℕ → Option ℕ → Kernel → Kernel
notify me none s = s
notify me (some p) s = send_signal me p sigchld s

abbrev pub wake_parent : ℕ → Option ℕ → Kernel → Kernel
wake_parent me none s = s
wake_parent me (some p) s =
    if is_sleeping (s.tasks p).state && not ((s.tasks p).pid == 0) then wake me p s else s

-- The exit of `cur` once its descriptors are closed, up to the call of the scheduler.
pub leave_process : ℕ → ℕ → ℤ → Kernel → Kernel
leave_process me cur code s =
    let s₁ = reparent cur s in
    let s₂ = notify me (s₁.tasks cur).parent s₁ in
    let s₃ =
      runqueue_remove cur
        (set_task s₂ cur (record (s₂.tasks cur) { exit_code = code; state = zombie })) in
    wake_parent me (s₃.tasks cur).parent s₃

pub sys_exit : ℕ → ℕ → ℤ → Kernel → Option Kernel
sys_exit me cur code s = schedule me (leave_process me cur code s)

-- One scan of the task table by `sys_waitpid`. `echild` and `not_yet` tell whether there are children.
pub data Scan : Type 0 where
  reaped : ℕ → ℤ → Kernel → Scan
  not_yet : Scan
  echild : Scan

-- `wpid > 0 && t->pid != (u32)wpid`, negated.
abbrev pub wanted : ℤ → ℕ → Bool
wanted (pos zero) pid = true
wanted (pos (suc n)) pid = pid == suc n
wanted (negsuc n) pid = true

abbrev pub is_child : ℕ → ℕ → Kernel → Bool
is_child cur t s =
    not (is_unused (s.tasks t).state) && not (t == cur) && names (s.tasks t).parent cur

-- From slot `i` on, with `n` slots left; `kids` is `have_kids`.
pub scan_from : ℕ → ℕ → ℕ → ℤ → Bool → Kernel → Scan
scan_from zero i cur wpid kids s = if kids then not_yet else echild
scan_from (suc n) i cur wpid kids s =
    let rest = scan_from n (i + 1) cur wpid (kids || is_child cur i s) s in
    if is_child cur i s && wanted wpid (s.tasks i).pid && is_zombie (s.tasks i).state
    then reaped (s.tasks i).pid (s.tasks i).exit_code (task_free_slot i s)
    else rest

pub wait_scan : ℕ → ℤ → Kernel → Scan
wait_scan cur wpid s = scan_from nr_tasks 0 cur wpid false s

-- How one round of `sys_waitpid` ends: it returns a pid with the status for the user, an error, 0 for
-- WNOHANG, or it sleeps until it is woken and goes round again.
pub data Waited : Type 0 where
  returns : ℕ → ℤ → Kernel → Waited
  no_children : Waited
  nothing_yet : Waited
  sleeps : Option Kernel → Waited

-- `current->sleep_until = ~0ULL` and the removal from the queue.
abbrev pub fall_asleep : ℕ → Kernel → Kernel
fall_asleep cur s =
    runqueue_remove cur
      (set_task s cur (record (s.tasks cur) { state = sleeping; sleep_until = 2 ^ 64 - 1 }))

pub wait_round : ℕ → ℕ → ℤ → Bool → Kernel → Waited
wait_round me cur wpid nohang s = elim (wait_scan cur wpid s) [
  | reaped pid code q ↦ returns pid code q
  | echild ↦ no_children
  | not_yet ↦ if nohang then nothing_yet else sleeps (schedule me (fall_asleep cur s))
]
