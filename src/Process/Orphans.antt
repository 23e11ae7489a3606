-- ===== src/Process/Orphans.antt =====
-- What the exit of a process leaves behind: itself as a zombie, and no child.
use lnxrm.Base.{
  ℕ, zero, suc, ◌+◌, ◌<◌, ◌≤◌, ◌≡◌, ◌≢◌, refl, ◌∙◌, false, not, ◌&&◌, Option, none, some, inl, inr,
  ◌==◌, arith, if◌then◌else◌, Bool-cases,
}
use lnxrm.Base.Words.{ℤ}
use lnxrm.Task.{Kernel, zombie, nr_tasks, set_task, set_state, runnable, is_unused, is_sleeping}
use lnxrm.Sched.{runqueue_remove, runqueue_add, enqueue, wake}
use lnxrm.Sched.Table.{find_task}
use lnxrm.Signal.{send_signal}
use lnxrm.Process.{adopt, adopt_from, is_child, reparent, notify, wake_parent, leave_process}

adopt_self :
    (cur : ℕ) (init : Option ℕ) (t : ℕ) (s : Kernel)
    → (adopt cur init t s).tasks t
      ≡ (if is_child cur t s then record (s.tasks t) { parent = init } else s.tasks t)
adopt_self cur init t s = elim (Bool-cases (is_child cur t s)) [
  | inl e ↦ rw e (ground arith)
  | inr e ↦ rw e refl
]

adopt_other :
    (cur : ℕ) (init : Option ℕ) (i t : ℕ) (s : Kernel)
    → (i == t) ≡ false
    → (adopt cur init i s).tasks t ≡ s.tasks t
adopt_other cur init i t s ne = elim (Bool-cases (is_child cur i s)) [
  | inl e ↦ rw e (ground arith)
  | inr e ↦ rw e refl
]

adopt_from_before :
    (n i cur : ℕ) (init : Option ℕ) (s : Kernel) (t : ℕ)
    → t < i
    → (adopt_from n i cur init s).tasks t ≡ s.tasks t
unfolding adopt_from
adopt_from_before zero i cur init s t h = refl
adopt_from_before (suc n) i cur init s t h =
    adopt_from_before n (i + 1) cur init (adopt cur init i s) t (omega arith)
    ∙ adopt_other cur init i t s (ground arith)

-- One slot after the loop.
adopt_from_task :
    (n i cur : ℕ) (init : Option ℕ) (s : Kernel) (t : ℕ)
    → i ≤ t
    → t < i + n
    → (adopt_from n i cur init s).tasks t
      ≡ (if is_child cur t s then record (s.tasks t) { parent = init } else s.tasks t)
unfolding adopt_from
adopt_from_task zero i cur init s t a b = absurd (omega arith)
adopt_from_task (suc n) i cur init s t a b = elim (Bool-cases (i == t)) [
  | inl e ↦
      let same : i ≡ t = ground arith in
      rw same (
        adopt_from_before n (t + 1) cur init (adopt cur init t s) t (omega arith)
        ∙ adopt_self cur init t s)
  | inr e ↦
      let other = adopt_other cur init i t s e in
      adopt_from_task n (i + 1) cur init (adopt cur init i s) t (ground arith) (omega arith)
      ∙ rw other refl
]

-- The parents, and the task that exits, over the rest of the exit.
parent-runqueue_add :
    (me t u : ℕ) (s : Kernel) → ((runqueue_add me t s).tasks u).parent ≡ (s.tasks u).parent
unfolding runqueue_add enqueue
parent-runqueue_add me t u s = ground arith

parent-wake : (me t u : ℕ) (s : Kernel) → ((wake me t s).tasks u).parent ≡ (s.tasks u).parent
parent-wake me t u s = ground (arith, parent-runqueue_add me t u (set_state s t runnable))

parent-notify :
    (me : ℕ) (p : Option ℕ) (u : ℕ) (s : Kernel)
    → ((notify me p s).tasks u).parent ≡ (s.tasks u).parent
unfolding send_signal runqueue_add enqueue
parent-notify me none u s = refl
parent-notify me (some p) u s = ground arith

parent-runqueue_remove :
    (t u : ℕ) (s : Kernel) → ((runqueue_remove t s).tasks u).parent ≡ (s.tasks u).parent
unfolding runqueue_remove
parent-runqueue_remove t u s = ground arith

state-runqueue_remove :
    (t u : ℕ) (s : Kernel) → ((runqueue_remove t s).tasks u).state ≡ (s.tasks u).state
unfolding runqueue_remove
state-runqueue_remove t u s = ground arith

parent-wake_parent :
    (me : ℕ) (p : Option ℕ) (u : ℕ) (s : Kernel)
    → ((wake_parent me p s).tasks u).parent ≡ (s.tasks u).parent
parent-wake_parent me none u s = refl
parent-wake_parent me (some p) u s =
    elim (Bool-cases (is_sleeping (s.tasks p).state && not ((s.tasks p).pid == 0))) [
      | inl e ↦ rw e (parent-wake me p u s)
      | inr e ↦ rw e refl
    ]

zombie-wake_parent :
    (me : ℕ) (p : Option ℕ) (u : ℕ) (s : Kernel)
    → (s.tasks u).state ≡ zombie
    → ((wake_parent me p s).tasks u).state ≡ zombie
unfolding runqueue_add enqueue
zombie-wake_parent me none u s z = z
zombie-wake_parent me (some p) u s z = ground arith

pub parent-leave_process :
    (me cur u : ℕ) (code : ℤ) (s : Kernel)
    → ((leave_process me cur code s).tasks u).parent ≡ ((reparent cur s).tasks u).parent
unfolding leave_process
parent-leave_process me cur u code s =
    let s₁ = reparent cur s in
    let s₂ = notify me (s₁.tasks cur).parent s₁ in
    let z = set_task s₂ cur (record (s₂.tasks cur) { exit_code = code; state = zombie }) in
    let s₃ = runqueue_remove cur z in
    parent-wake_parent me (s₃.tasks cur).parent u s₃
    ∙ parent-runqueue_remove cur u z
    ∙ ground arith
    ∙ parent-notify me (s₁.tasks cur).parent u s₁

pub zombie-leave_process :
    (me cur : ℕ) (code : ℤ) (s : Kernel) → ((leave_process me cur code s).tasks cur).state ≡ zombie
unfolding leave_process
zombie-leave_process me cur code s =
    let s₁ = reparent cur s in
    let s₂ = notify me (s₁.tasks cur).parent s₁ in
    let z = set_task s₂ cur (record (s₂.tasks cur) { exit_code = code; state = zombie }) in
    let s₃ = runqueue_remove cur z in
    zombie-wake_parent me (s₃.tasks cur).parent cur s₃
      (state-runqueue_remove cur cur z ∙ ground arith)

pub parent-reparent :
    (cur u : ℕ) (s : Kernel)
    → u < nr_tasks
    → ((reparent cur s).tasks u).parent
      ≡ (if is_child cur u s then find_task 1 s else (s.tasks u).parent)
unfolding reparent
parent-reparent cur u s h =
    ground (arith, adopt_from_task nr_tasks 0 cur (find_task 1 s) s u (omega arith) h)

-- A process that exits is a zombie, and no other task that was in use has it for a parent afterwards,
-- provided that it is not init: that the task that is found for pid 1 is another one, if any.
pub leave_process-orphans :
    (me cur : ℕ) (code : ℤ) (s : Kernel)
    → find_task 1 s ≢ some cur
    → (((leave_process me cur code s).tasks cur).state ≡ zombie)
      × ((u : ℕ)
          → u < nr_tasks
          → u ≢ cur
          → is_unused (s.tasks u).state ≡ false
          → ((leave_process me cur code s).tasks u).parent ≢ some cur)
leave_process-orphans me cur code s init = (
  zombie-leave_process me cur code s,
  λ u h ne used e.
      ground (arith, init, parent-leave_process me cur u code s, parent-reparent cur u s h),
)
