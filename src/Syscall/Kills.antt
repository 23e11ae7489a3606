-- ===== src/Syscall/Kills.antt =====
-- Whom `sys_kill` reaches.
use lnxrm.Base.{
  ℕ, zero, suc, ◌+◌, ◌<◌, ◌≤◌, ◌≡◌, ◌≢◌, refl, ap, ◌∙◌, Bool, true, not, ◌&&◌, inl, inr, arith,
  if◌then◌else◌, ◌==◌, leb, Bool-cases, Option-cases,
}
use lnxrm.Base.Words.{ℤ, pos, negsuc}
use lnxrm.Task.{Kernel, nr_tasks, max_cpus, is_unused}
use lnxrm.Sched.Table.{find_task}
use lnxrm.Sched.Invariant.{IsQueued}
use lnxrm.Signal.{send_signal, nsig}
use lnxrm.Signal.Wakes.{is_sent, send_signal_lem, send_signal-IsQueued}
use lnxrm.Syscall.{broadcast_from, kill_one, kill_at, sys_kill}

abbrev step : ℕ → ℕ → ℕ → Kernel → Kernel
step i me sig s =
    if not (is_unused (s.tasks i).state) && not ((s.tasks i).pid == 0)
    then send_signal me i sig s
    else s

step_other : (i me sig t : ℕ) (s : Kernel) → t ≢ i → (step i me sig s).tasks t ≡ s.tasks t
step_other i me sig t s ne =
    elim (Bool-cases (not (is_unused (s.tasks i).state) && not ((s.tasks i).pid == 0))) [
      | inl e ↦ rw e ((send_signal_lem me i sig s).1 t ne)
      | inr e ↦ rw e refl
    ]

broadcast_from_before :
    (n i me sig t : ℕ) (s : Kernel) → t < i → (broadcast_from n i me sig s).tasks t ≡ s.tasks t
unfolding broadcast_from
broadcast_from_before zero i me sig t s h = refl
broadcast_from_before (suc n) i me sig t s h =
    broadcast_from_before n (i + 1) me sig t (step i me sig s) (omega arith)
    ∙ step_other i me sig t s (omega arith)

-- A task that a broadcast is for, and whose handler does not ignore the signal.
abbrev pub is_target : ℕ → ℕ → Kernel → Bool
is_target t sig s =
    not (is_unused (s.tasks t).state) && not ((s.tasks t).pid == 0) && is_sent t sig s

step_reaches :
    (me sig t : ℕ) (s : Kernel)
    → is_target t sig s ≡ true
    → ((step t me sig s).tasks t).signal_pending sig ≡ true
step_reaches me sig t s h = ground (arith, (send_signal_lem me t sig s).2 sig)

broadcast_from_reaches :
    (n i me sig t : ℕ) (s : Kernel)
    → i ≤ t
    → t < i + n
    → is_target t sig s ≡ true
    → ((broadcast_from n i me sig s).tasks t).signal_pending sig ≡ true
unfolding broadcast_from
broadcast_from_reaches zero i me sig t s a b h = absurd (omega arith)
broadcast_from_reaches (suc n) i me sig t s a b h = elim (Bool-cases (i == t)) [
  | inl e ↦
      let same : i ≡ t = ground arith in
      rw same (
        ap (λ x. x.signal_pending sig)
          (broadcast_from_before n (t + 1) me sig t (step t me sig s) (omega arith))
        ∙ step_reaches me sig t s h)
  | inr e ↦
      broadcast_from_reaches n (i + 1) me sig t (step i me sig s) (ground arith) (omega arith)
        (kept (step i me sig s) (step_other i me sig t s (ground arith)))
]
  where
    kept : (q : Kernel) → q.tasks t ≡ s.tasks t → is_target t sig q ≡ true
    kept q e = rw e h

-- `kill(-1, sig)` makes the signal pending for every task of the table that is in use, has a pid other
-- than 0 and does not ignore it.
pub sys_kill-reaches :
    (me sig t : ℕ) (s : Kernel)
    → t < nr_tasks
    → is_target t sig s ≡ true
    → ((sys_kill me (negsuc 0) (pos sig) s).1.tasks t).signal_pending sig ≡ true
unfolding sys_kill kill_at
sys_kill-reaches me sig t s h e = elim (Bool-cases (leb nsig sig)) [
  | inl f ↦ absurd (ground arith)
  | inr f ↦ rw f (broadcast_from_reaches nr_tasks 0 me sig t s (omega arith) h e)
]

broadcast-IsQueued :
    (n i me sig : ℕ) (s : Kernel)
    → me < max_cpus
    → IsQueued s
    → IsQueued (broadcast_from n i me sig s)
unfolding broadcast_from
broadcast-IsQueued zero i me sig s b v = v
broadcast-IsQueued (suc n) i me sig s b v =
    elim (Bool-cases (not (is_unused (s.tasks i).state) && not ((s.tasks i).pid == 0))) [
      | inl e ↦ rw e (broadcast-IsQueued n (i + 1) me sig _ b (send_signal-IsQueued me i sig s b v))
      | inr e ↦ rw e (broadcast-IsQueued n (i + 1) me sig s b v)
    ]

kill_at-IsQueued :
    (me : ℕ) (pid : ℤ) (sig : ℕ) (s : Kernel)
    → me < max_cpus
    → IsQueued s
    → IsQueued (kill_at me pid sig s).1
unfolding kill_at kill_one
kill_at-IsQueued me (pos zero) sig s b v = v
kill_at-IsQueued me (pos (suc p)) sig s b v = elim (Option-cases (find_task (suc p) s)) [
  | inl e ↦ rw (kill_one, e) v
  | inr (t, e) ↦ rw (kill_one, e) (send_signal-IsQueued me t sig s b v)
]
kill_at-IsQueued me (negsuc zero) sig s b v = broadcast-IsQueued nr_tasks 0 me sig s b v
kill_at-IsQueued me (negsuc (suc n)) sig s b v = v

-- A call of `sys_kill` with any arguments keeps the run queues consistent.
pub sys_kill-IsQueued :
    (me : ℕ) (pid sig : ℤ) (s : Kernel)
    → me < max_cpus
    → IsQueued s
    → IsQueued (sys_kill me pid sig s).1
unfolding sys_kill
sys_kill-IsQueued me pid (negsuc n) s b v = v
sys_kill-IsQueued me pid (pos sig) s b v = elim (Bool-cases (leb nsig sig)) [
  | inl e ↦ rw e v
  | inr e ↦ rw e (kill_at-IsQueued me pid sig s b v)
]
