-- ===== src/Task.antt =====
-- include/sys/sched.h and include/sys/percpu.h: tasks, CPUs, and the state that the scheduler and the
-- signal code share.
use lnxrm.Base.{ℕ, Bool, true, false, Option, List, update}
use lnxrm.Base.Words.{ℤ}

pub data TaskState : Type 0 where
  unused embryo runnable running sleeping zombie stopped : TaskState

abbrev pub is_unused : TaskState → Bool
is_unused unused = true
is_unused _ = false

abbrev pub is_runnable : TaskState → Bool
is_runnable runnable = true
is_runnable _ = false

abbrev pub is_running : TaskState → Bool
is_running running = true
is_running _ = false

abbrev pub is_sleeping : TaskState → Bool
is_sleeping sleeping = true
is_sleeping _ = false

abbrev pub is_stopped : TaskState → Bool
is_stopped stopped = true
is_stopped _ = false

abbrev pub is_zombie : TaskState → Bool
is_zombie zombie = true
is_zombie _ = false

-- The registers of `struct intr_frame` that signal delivery and its return move.
pub record Frame : Type 0 where
  pub rip : ℕ
  pub cs : ℕ
  pub rflags : ℕ
  pub ussp : ℕ
  pub usss : ℕ
  pub rax : ℕ
  pub rbx : ℕ
  pub rcx : ℕ
  pub rdx : ℕ
  pub rsi : ℕ
  pub rdi : ℕ
  pub rbp : ℕ
  pub r8 : ℕ
  pub r9 : ℕ
  pub r10 : ℕ
  pub r11 : ℕ
  pub r12 : ℕ
  pub r13 : ℕ
  pub r14 : ℕ
  pub r15 : ℕ

-- `struct task`. A task is named by its slot in `task_table`; `none` is -1 or NULL. A word that is
-- used as a set of signals is its function of bits.
pub record Task : Type 0 where
  pub pid : ℕ
  pub cpu_id : Option ℕ
  pub state : TaskState
  pub tf : Option Frame
  pub pml4 : ℕ
  pub brk_base : ℕ
  pub brk_cur : ℕ
  pub exit_code : ℤ
  pub sleep_until : ℕ
  pub quantum : ℕ
  pub parent : Option ℕ
  pub rq_cpu : Option ℕ
  pub signal_pending : ℕ → Bool
  pub signal_mask : ℕ → Bool
  pub sa_handler : ℕ → ℕ
  pub sa_mask : ℕ → ℕ
  pub sa_flags : ℕ → ℕ

-- `struct cpu_info`, with the register CR3 and without the stacks.
pub record Cpu : Type 0 where
  pub started : Bool
  pub current : Option ℕ
  pub idle : Option ℕ
  pub runq : List ℕ
  pub need_resched : Bool
  pub cr3 : ℕ

-- `ipis` lists the CPUs that were sent IPI_VECTOR_RESCHEDULE, latest first.
pub record Kernel : Type 0 where
  pub tasks : ℕ → Task
  pub cpus : ℕ → Cpu
  pub jiffies : ℕ
  pub ipis : List ℕ

abbrev pub nr_tasks : ℕ
nr_tasks = 64

abbrev pub max_cpus : ℕ
max_cpus = 8

abbrev pub set_task : Kernel → ℕ → Task → Kernel
set_task s t v = record s { tasks = update s.tasks t v }

abbrev pub set_cpu : Kernel → ℕ → Cpu → Kernel
set_cpu s c v = record s { cpus = update s.cpus c v }

abbrev pub set_state : Kernel → ℕ → TaskState → Kernel
set_state s t v = record s { tasks = update s.tasks t (record (s.tasks t) { state = v }) }
