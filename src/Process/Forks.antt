-- ===== src/Process/Forks.antt =====
-- What `sys_fork` makes.
use lnxrm.Base.{
  ℕ, ◌<◌, ◌≡◌, ◌≢◌, sym, ap, ◌∙◌, subst, Bool, false, Option, none, some, inl, inr, arith, refl,
  bit_or, Bool-cases, Option-cases,
}
use lnxrm.Task.{Task, Frame, Kernel, set_task, unused, runnable}
use lnxrm.Sched.{runqueue_add, enqueue}
use lnxrm.Sched.Table.{task_alloc_slot}
use lnxrm.Sched.Table.Slots.{task_alloc_slot-some}
use lnxrm.Process.{sys_fork, child_of, child_tf, next_pid, begin_child}

-- The registers that a child starts with, beside those of its parent: `rax`, the result of the call, is 0, the
-- interrupt flag is set, and the other eighteen are the parent's.
pub StartsAt : Option Frame → Option Frame → Type 0
StartsAt none child = child ≡ none
StartsAt (some f) child =
    child
    ≡ some (record {
      rip = f.rip;
      cs = f.cs;
      rflags = bit_or f.rflags 0x200;
      ussp = f.ussp;
      usss = f.usss;
      rax = 0;
      rbx = f.rbx;
      rcx = f.rcx;
      rdx = f.rdx;
      rsi = f.rsi;
      rdi = f.rdi;
      rbp = f.rbp;
      r8 = f.r8;
      r9 = f.r9;
      r10 = f.r10;
      r11 = f.r11;
      r12 = f.r12;
      r13 = f.r13;
      r14 = f.r14;
      r15 = f.r15;
    })

child_tf-StartsAt : (o : Option Frame) → StartsAt o (child_tf o)
unfolding StartsAt
child_tf-StartsAt none = refl
child_tf-StartsAt (some f) = refl

-- The child of `cur` in slot `i`, beside the kernel before the call.
pub record IsChild (cur i pid aspace : ℕ) (s q : Kernel) : Type 0 where
  pub free_before : (s.tasks i).state ≡ unused
  pub user_slot : 0 < i
  pub is_runnable : (q.tasks i).state ≡ runnable
  pub has_pid : (q.tasks i).pid ≡ pid
  pub has_parent : (q.tasks i).parent ≡ some cur
  pub own_pages : (q.tasks i).pml4 ≡ aspace
  pub returns_zero : StartsAt (s.tasks cur).tf (q.tasks i).tf
  pub same_handlers : (q.tasks i).sa_handler ≡ (s.tasks cur).sa_handler
  pub same_mask : (q.tasks i).signal_mask ≡ (s.tasks cur).signal_mask
  pub none_pending : (sig : ℕ) → (q.tasks i).signal_pending sig ≡ false
  pub others : (t : ℕ) → t ≢ i → q.tasks t ≡ s.tasks t

queued_task :
    (me i t : ℕ) (s : Kernel)
    → (runqueue_add me i s).tasks t
      ≡ record (s.tasks t) { rq_cpu = ((runqueue_add me i s).tasks t).rq_cpu }
unfolding runqueue_add enqueue
queued_task me i t s = ground arith

other_task : (me i t : ℕ) (s : Kernel) → t ≢ i → (runqueue_add me i s).tasks t ≡ s.tasks t
unfolding runqueue_add enqueue
other_task me i t s ne = ground arith

-- The kernel after a fork that works, with the child in the slot `i` that `task_alloc_slot` gave.
forked-IsChild :
    (me cur i pid aspace : ℕ) (ch base : Task) (s s' : Kernel)
    → task_alloc_slot s ≡ some (i, s')
    → (s.tasks cur).state ≢ unused
    → IsChild cur i pid aspace s (
        runqueue_add me i
          (set_task (set_task s' i ch) i (child_of cur (s'.tasks cur) pid aspace base)))
forked-IsChild me cur i pid aspace ch base s s' e live =
    let alloc = task_alloc_slot-some i s s' e in
    let child = child_of cur (s'.tasks cur) pid aspace base in
    let q = set_task (set_task s' i ch) i child in
    let here = queued_task me i i q in
    let self : q.tasks i ≡ child = ground arith in
    let parent : s'.tasks cur ≡ s.tasks cur =
      alloc.4 cur (λ h. live (subst (λ k. (s.tasks k).state ≡ unused) (sym h) alloc.2)) in
    record {
      free_before = alloc.2;
      user_slot = alloc.0;
      is_runnable = ap (λ x. x.state) here ∙ ap (λ x. x.state) self;
      has_pid = ap (λ x. x.pid) here ∙ ap (λ x. x.pid) self;
      has_parent = ap (λ x. x.parent) here ∙ ap (λ x. x.parent) self;
      own_pages = ap (λ x. x.pml4) here ∙ ap (λ x. x.pml4) self;
      returns_zero =
          subst (StartsAt (s.tasks cur).tf)
            (sym (ap (λ x. x.tf) here ∙ ap (λ x. x.tf) self ∙ ap (λ x. child_tf x.tf) parent))
            (child_tf-StartsAt (s.tasks cur).tf);
      same_handlers =
          ap (λ x. x.sa_handler) here ∙ ap (λ x. x.sa_handler) self ∙ ap (λ x. x.sa_handler) parent;
      same_mask =
          ap (λ x. x.signal_mask) here
          ∙ ap (λ x. x.signal_mask) self
          ∙ ap (λ x. x.signal_mask) parent;
      none_pending =
          λ sig. ap (λ x. x.signal_pending sig) here ∙ ap (λ x. x.signal_pending sig) self;
      others = λ t ne. other_task me i t q ne ∙ (ground (arith, alloc.4 t ne));
    }

-- A fork by a task in use that returns a pid has filled a free slot other than 0: the child is runnable, has that
-- pid, its own page table and `cur` for its parent, starts with its parent's registers but for `rax`, which is 0, and the interrupt flag, which is set, keeps the
-- signal handlers and the mask but no pending signal, and no other task changes.
pub sys_fork_lem :
    (me cur : ℕ) (have_stack : Bool) (aspace : ℕ) (copied : Bool) (counter : ℕ) (s : Kernel)
    (pid : ℕ)
    → (s.tasks cur).state ≢ unused
    → (sys_fork me cur have_stack aspace copied counter s).result ≡ some pid
    → (i : ℕ) × IsChild cur i pid aspace s
        (sys_fork me cur have_stack aspace copied counter s).kernel
unfolding sys_fork
sys_fork_lem me cur have_stack aspace copied counter s pid live =
    elim (Option-cases (task_alloc_slot s)) [
      | inl e ↦ rw (e, sys_fork) (λ h. absurd (ground (arith, h)))
      | inr ((i, s'), e) ↦ elim (Bool-cases have_stack) [
        | inr f ↦ rw (e, sys_fork, f) (λ h. absurd (ground (arith, h)))
        | inl f ↦ elim (Bool-cases copied) [
          | inr g ↦ rw (e, sys_fork, f, g) (λ h. absurd (ground (arith, h)))
          | inl g ↦
              rw (e, sys_fork, f, g)
                (λ h.
                  let same : next_pid counter ≡ pid = ground (arith, h) in
                  (
                    i,
                    rw (sym same) (
                        forked-IsChild me cur i (next_pid counter) aspace
                          (begin_child cur (next_pid counter) aspace (s'.tasks i))
                          ((set_task s' i
                              (begin_child cur (next_pid counter) aspace (s'.tasks i))).tasks
                            i)
                          s s' e live),
                  ))
        ]
      ]
    ]
