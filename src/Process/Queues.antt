-- ===== src/Process/Queues.antt =====
-- The run queues over fork, exit and waitpid.
use lnxrm.Base.{
  ℕ, zero, suc, ◌+◌, ◌<◌, ◌≡◌, refl, not, ◌&&◌, Option, none, some, inl, inr, ◌==◌, Bool-cases,
}
use lnxrm.Base.Words.{ℤ}
use lnxrm.Task.{Kernel, max_cpus, nr_tasks, is_sleeping}
use lnxrm.Sched.Table.{find_task}
use lnxrm.Sched.Invariant.{
  IsQueued, remove_changed-IsQueued, set_task-IsQueued, schedule-IsQueued, wake-IsQueued,
}
use lnxrm.Signal.Wakes.{send_signal-IsQueued}
use lnxrm.Process.{
  adopt, adopt_from, is_child, reparent, notify, wake_parent, leave_process, sys_exit, sigchld,
  fall_asleep,
}

adopt-IsQueued :
    (cur : ℕ) (init : Option ℕ) (t : ℕ) (s : Kernel) → IsQueued s → IsQueued (adopt cur init t s)
adopt-IsQueued cur init t s v = elim (Bool-cases (is_child cur t s)) [
  | inl e ↦ rw e (set_task-IsQueued t _ s v refl (v.ready t))
  | inr e ↦ rw e v
]

adopt_from-IsQueued :
    (n i cur : ℕ) (init : Option ℕ) (s : Kernel) → IsQueued s → IsQueued (adopt_from n i cur init s)
unfolding adopt_from
adopt_from-IsQueued zero i cur init s v = v
adopt_from-IsQueued (suc n) i cur init s v =
    adopt_from-IsQueued n (i + 1) cur init (adopt cur init i s) (adopt-IsQueued cur init i s v)

notify-IsQueued :
    (me : ℕ) (p : Option ℕ) (s : Kernel) → me < max_cpus → IsQueued s → IsQueued (notify me p s)
notify-IsQueued me none s b v = v
notify-IsQueued me (some p) s b v = send_signal-IsQueued me p sigchld s b v

wake_parent-IsQueued :
    (me : ℕ) (p : Option ℕ) (s : Kernel)
    → me < max_cpus
    → IsQueued s
    → IsQueued (wake_parent me p s)
wake_parent-IsQueued me none s b v = v
wake_parent-IsQueued me (some p) s b v =
    elim (Bool-cases (is_sleeping (s.tasks p).state && not ((s.tasks p).pid == 0))) [
      | inl e ↦ rw e (wake-IsQueued me p s b v)
      | inr e ↦ rw e v
    ]

-- The exit of a process keeps every run queue consistent with the tasks' `rq_cpu`.
pub leave_process-IsQueued :
    (me cur : ℕ) (code : ℤ) (s : Kernel)
    → me < max_cpus
    → IsQueued s
    → IsQueued (leave_process me cur code s)
unfolding leave_process reparent
leave_process-IsQueued me cur code s b v =
    let v₁ = adopt_from-IsQueued nr_tasks 0 cur (find_task 1 s) s v in
    let v₂ = notify-IsQueued me _ _ b v₁ in
    wake_parent-IsQueued me _ _ b (remove_changed-IsQueued cur _ _ v₂ refl)

sys_exit-IsQueued :
    (me cur : ℕ) (code : ℤ) (s q : Kernel)
    → me < max_cpus
    → IsQueued s
    → sys_exit me cur code s ≡ some q
    → IsQueued q
unfolding sys_exit
sys_exit-IsQueued me cur code s q b v e =
    schedule-IsQueued me _ q b (leave_process-IsQueued me cur code s b v) e

pub fall_asleep-IsQueued : (cur : ℕ) (s : Kernel) → IsQueued s → IsQueued (fall_asleep cur s)
fall_asleep-IsQueued cur s v = remove_changed-IsQueued cur _ s v refl
