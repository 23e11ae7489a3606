-- ===== src/Signal/Tests.antt =====
-- Signals to a process with a handler, for the functions of kernel/signal.c.
use lnxrm.Base.{
  ℕ, ◌+◌, ◌<◌, ◌≤◌, ◌≡◌, refl, true, false, none, some, [], ◌∷◌, ◌==◌, if◌then◌else◌, arith,
}
use lnxrm.Base.Words.{pos}
use lnxrm.Base.Bits.{bit}
use lnxrm.Task.{Task, Frame, Cpu, Kernel, running, stopped, set_task}
use lnxrm.Sched.Invariant.{IsQueued}
use lnxrm.Uaccess.{user_ptr_ok}
use lnxrm.Uaccess.Accepts.{user_ptr_ok_iff}
use lnxrm.Signal.{
  send_signal, deliver, resumes, redirect, store_words, frame_sp, frame_words, sig_trampoline_va,
  sys_sigreturn, sigreturn_call, is_user_context, restores, sanitize,
}
use lnxrm.Signal.Trip.{sys_sigreturn-deliver, sys_sigreturn_user}
use lnxrm.Signal.Wakes.{send_signal-IsQueued}

abbrev all_mapped : ℕ → ℕ
all_mapped page = 1

abbrev zeroed : ℕ → ℕ
zeroed a = 0

abbrev interrupted : Frame
interrupted = record {
  rip = 0x7f80_0000_1000;
  cs = 0x1b;
  rflags = 0x202;
  ussp = 0x7f80_0001_0000;
  usss = 0x23;
  rax = 1;
  rbx = 2;
  rcx = 3;
  rdx = 4;
  rsi = 5;
  rdi = 6;
  rbp = 7;
  r8 = 8;
  r9 = 9;
  r10 = 10;
  r11 = 11;
  r12 = 12;
  r13 = 13;
  r14 = 14;
  r15 = 15;
}

-- A process that handles SIGINT (2), ignores signal 10 and has it pending.
abbrev process : Task
process = record {
  pid = 5;
  cpu_id = some 0;
  state = running;
  tf = some interrupted;
  pml4 = 0x5000;
  brk_base = 0;
  brk_cur = 0;
  exit_code = pos 0;
  sleep_until = 0;
  quantum = 6;
  parent = none;
  rq_cpu = none;
  signal_pending = λ k. k == 10;
  signal_mask = λ k. false;
  sa_handler = λ k. if k == 2 then 0x7f80_0000_2000 else if k == 10 then 1 else 0;
  sa_mask = λ k. 0;
  sa_flags = λ k. 0;
}

abbrev idle_cpu : Cpu
idle_cpu = record {
  started = false;
  current = none;
  idle = none;
  runq = [];
  need_resched = false;
  cr3 = 0;
}

abbrev machine : Kernel
machine = record {
  tasks = λ t. if t == 3 then record process { state = stopped } else process;
  cpus = λ c. idle_cpu;
  jiffies = 0;
  ipis = [];
}

machine-IsQueued : IsQueued machine
machine-IsQueued = record {
  linked = λ c t. ground arith;
  once = λ c. refl;
  ready = λ t c e. ground arith;
  in_range = λ t c e. ground arith;
}

mapped_range :
    (p n : ℕ)
    → 0 < n
    → 0x7f80_0000_0000 ≤ p
    → p + n ≤ 0x7fff_ffff_f000
    → user_ptr_ok all_mapped p n ≡ true
mapped_range p n a b c =
    (user_ptr_ok_iff all_mapped p n (omega arith) (omega arith)).1
      (record { nonempty = a; above = b; below = c; mapped = λ x lo hi e. ground arith })

abbrev handling : Kernel
handling =
    set_task machine 1 (record process { tf = some (redirect 2 0x7f80_0000_2000 interrupted) })

abbrev stacked : ℕ → ℕ
stacked =
    store_words zeroed (frame_sp interrupted.ussp) (sig_trampoline_va ∷ frame_words 2 interrupted)

delivered : deliver all_mapped 1 2 interrupted machine zeroed ≡ resumes handling stacked
unfolding deliver
delivered = rw (
  mapped_range 0x7f80_0000_2000 1 (omega arith) (omega arith) (omega arith),
  mapped_range (frame_sp interrupted.ussp) 184 (omega arith) (omega arith) (omega arith),
)

-- The handler has returned: the trampoline runs with the stack pointer one word up.
abbrev returning : Frame
returning = record interrupted { rip = sig_trampoline_va; ussp = frame_sp interrupted.ussp + 8 }

abbrev resumed : Frame
resumed = record interrupted { rflags = sanitize interrupted.rflags }

user_context :
    is_user_context all_mapped interrupted.rip interrupted.cs interrupted.ussp interrupted.usss
    ≡ true
user_context = rw (
  mapped_range interrupted.rip 1 (omega arith) (omega arith) (omega arith),
  mapped_range interrupted.ussp 1 (omega arith) (omega arith) (omega arith),
)

sys_sigreturn-deliver_example :
    (sys_sigreturn all_mapped stacked (some returning) ≡ restores resumed 0)
    × (sigreturn_call all_mapped stacked returning ≡ some (record resumed { rax = 0 }))
sys_sigreturn-deliver_example =
    sys_sigreturn-deliver all_mapped zeroed 1 2 interrupted machine handling stacked delivered
      returning stacked refl (λ k h. refl) user_context

returned : sys_sigreturn all_mapped stacked (some returning) ≡ restores resumed 0
returned =
    (sys_sigreturn-deliver all_mapped zeroed 1 2 interrupted machine handling stacked delivered
      returning stacked refl (λ k h. refl) user_context).0

sys_sigreturn_user_example :
    (resumed.cs ≡ 0x1b)
    × (resumed.usss ≡ 0x23)
    × (bit 9 resumed.rflags ≡ 1)
    × (bit 12 resumed.rflags ≡ 0)
    × (bit 13 resumed.rflags ≡ 0)
    × (user_ptr_ok all_mapped resumed.rip 1 ≡ true)
    × (user_ptr_ok all_mapped resumed.ussp 1 ≡ true)
sys_sigreturn_user_example = sys_sigreturn_user all_mapped stacked returning resumed 0 returned

send_signal-IsQueued_example : IsQueued (send_signal 0 3 18 machine)
send_signal-IsQueued_example = send_signal-IsQueued 0 3 18 machine (omega arith) machine-IsQueued
