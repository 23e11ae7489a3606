-- ===== src/Syscall/Tests.antt =====
-- Checks of the signal calls on two tasks.
use lnxrm.Base.{ℕ, ◌≡◌, refl, true, false, none, some, [], ◌==◌, if◌then◌else◌, arith}
use lnxrm.Base.Words.{pos, negsuc}
use lnxrm.Task.{Task, Kernel, running, unused}
use lnxrm.Sched.Invariant.{IsQueued}
use lnxrm.Uaccess.{user_ptr_ok, vmm_is_user_range, page_count, pages_mapped}
use lnxrm.Syscall.{sys_kill, sys_sigprocmask, usable, apply_how, pack_from}
use lnxrm.Syscall.Masks.{Unmaskable, sigprocmask-restores}
use lnxrm.Syscall.Kills.{sys_kill-reaches, sys_kill-IsQueued}

-- Task 1, with SIGINT masked, runs on CPU 0; every page is mapped.
abbrev masked_task : Task
masked_task = record {
  pid = 1;
  cpu_id = some 0;
  state = running;
  tf = none;
  pml4 = 0;
  brk_base = 0;
  brk_cur = 0;
  exit_code = pos 0;
  sleep_until = 0;
  quantum = 6;
  parent = none;
  rq_cpu = none;
  signal_pending = λ k. false;
  signal_mask = λ k. k == 2;
  sa_handler = λ k. 0;
  sa_mask = λ k. 0;
  sa_flags = λ k. 0;
}

abbrev masked : Kernel
masked = record {
  tasks = λ t. if t == 1 then masked_task else record masked_task { state = unused; pid = 0 };
  cpus = λ c. record {
    started = c == 0;
    current = if c == 0 then some 1 else none;
    idle = none;
    runq = [];
    need_resched = false;
    cr3 = 0;
  };
  jiffies = 0;
  ipis = [];
}

masked-IsQueued : IsQueued masked
masked-IsQueued = record {
  linked = λ c t. ground arith;
  once = λ c. refl;
  ready = λ t c e. ground arith;
  in_range = λ t c e. ground arith;
}

masked-Unmaskable : Unmaskable (masked.tasks 1).signal_mask
masked-Unmaskable = record { kill = refl; stop = refl }

-- A word of user memory.
abbrev slot : ℕ
slot = 0x7f80_0000_0000

slot_ok : usable (λ page. 1) slot 8 ≡ true
unfolding user_ptr_ok vmm_is_user_range page_count pages_mapped
slot_ok = refl

-- A call with one word for both pointers leaves the mask, since the old mask is written over the new
-- set before that is read: here SIGTERM should become masked.
same_word :
    (((sys_sigprocmask (λ page. 1) 1 (pos 2) slot slot masked (λ a. 0x8000)).kernel.tasks
        1).signal_mask
      15)
    ≡ false
unfolding sys_sigprocmask apply_how pack_from user_ptr_ok vmm_is_user_range page_count pages_mapped
same_word = refl

sigprocmask-restores_example :
    (let c = sys_sigprocmask (λ page. 1) 1 (pos 0) slot slot masked (λ a. 0xffff_ffff) in
      ((sys_sigprocmask (λ page. 1) 1 (pos 2) slot 0 c.kernel c.memory).kernel.tasks 1).signal_mask
        2
      ≡ true)
sigprocmask-restores_example =
    sigprocmask-restores (λ page. 1) 1 (pos 0) slot slot 2 masked (λ a. 0xffff_ffff) slot_ok
      masked-Unmaskable (omega arith)

sys_kill-reaches_example :
    ((sys_kill 0 (negsuc 0) (pos 15) masked).1.tasks 1).signal_pending 15 ≡ true
sys_kill-reaches_example = sys_kill-reaches 0 15 1 masked (omega arith) refl

sys_kill-IsQueued_example : IsQueued (sys_kill 0 (pos 1) (pos 9) masked).1
sys_kill-IsQueued_example = sys_kill-IsQueued 0 (pos 1) (pos 9) masked (omega arith) masked-IsQueued
