-- ===== src/Sched/Tick/Wakes.antt =====
-- `sched_tick` wakes exactly the sleepers whose time has come.
use lnxrm.Base.{
  ℕ, zero, suc, ◌+◌, ◌-◌, ◌%◌, ◌<◌, ◌≡◌, refl, subst, inl, inr, Bool, true, false, ◌&&◌, ◌||◌, some,
  arith, ◌==◌, ltb, leb, if◌then◌else◌, Bool-cases, Option-cases, ◌∙◌,
}
use lnxrm.Task.{Kernel, TaskState, max_cpus, runnable, is_sleeping, is_running, set_task}
use lnxrm.Sched.{wake, runqueue_add, enqueue, schedule}
use lnxrm.Sched.Invariant.{IsQueued, wake-IsQueued, set_task-IsQueued, schedule-IsQueued}
use lnxrm.Sched.Tick.{
  set_resched, tick_task, tick_from, burn, sched_tick, preempt, sched_maybe_preempt,
}

-- Is task `t` asleep, and its time over?
abbrev pub is_due : ℕ → Kernel → Bool
is_due t s = is_sleeping (s.tasks t).state && leb (s.tasks t).sleep_until s.jiffies

-- What a tick leaves of a task's state.
abbrev pub ticked : ℕ → Kernel → TaskState
ticked t s = if is_due t s then runnable else (s.tasks t).state

tick_task_self : (me t : ℕ) (s : Kernel) → ((tick_task me t s).tasks t).state ≡ ticked t s
unfolding tick_task runqueue_add enqueue
tick_task_self me t s = ground arith

tick_task_other :
    (me t u : ℕ) (s : Kernel) → (t == u) ≡ false → ((tick_task me t s).tasks u) ≡ (s.tasks u)
unfolding tick_task runqueue_add enqueue
tick_task_other me t u s h = ground arith

tick_task_jiffies : (me t : ℕ) (s : Kernel) → (tick_task me t s).jiffies ≡ s.jiffies
unfolding tick_task runqueue_add enqueue
tick_task_jiffies me t s = ground arith

tick_from_below : (n me i u : ℕ) (s : Kernel) → u < i → (tick_from n me i s).tasks u ≡ s.tasks u
unfolding tick_from
tick_from_below zero me i u s h = refl
tick_from_below (suc n) me i u s h =
    tick_from_below n me (i + 1) u (tick_task me i s) (omega arith)
    ∙ tick_task_other me i u s (ground arith)

tick_from_state :
    (n me i u : ℕ) (s : Kernel)
    → ((tick_from n me i s).tasks u).state
      ≡ (if leb i u && ltb u (i + n) then ticked u s else (s.tasks u).state)
unfolding tick_from
tick_from_state zero me i u s = ground arith
tick_from_state (suc n) me i u s = elim (Bool-cases (i == u)) [
  | inl e ↦ ground (arith, tick_from_below n me (i + 1) u (tick_task me i s), tick_task_self me u s)
  | inr e ↦ ground (
    arith,
    tick_from_state n me (i + 1) u (tick_task me i s),
    tick_task_other me i u s e,
    tick_task_jiffies me i s,
  )
]

burn_state : (me cur u : ℕ) (s : Kernel) → ((burn me cur s).tasks u).state ≡ (s.tasks u).state
unfolding burn
burn_state me cur u s = ground arith

-- After a tick every task of the table that slept past its time is runnable, and every other task's
-- state is as it was.
pub sched_tick_state :
    (me u : ℕ) (s : Kernel)
    → ((sched_tick me s).tasks u).state
      ≡ (if ltb 0 u && ltb u 64 then ticked u s else (s.tasks u).state)
unfolding sched_tick
sched_tick_state me u s =
    let woken : Kernel = tick_from 63 me 1 s in
    elim (Option-cases (woken.cpus me).current) [
      | inl e ↦ rw (e, sched_tick) (ground (arith, tick_from_state 63 me 1 u s))
      | inr (cur, e) ↦
          rw (e, sched_tick)
            (burn_state me cur u woken ∙ ground (arith, tick_from_state 63 me 1 u s))
    ]

pub resched-IsQueued : (me : ℕ) (b : Bool) (s : Kernel) → IsQueued s → IsQueued (set_resched me b s)
resched-IsQueued me b s v = record {
  linked = λ c u. ground (arith, v.linked c u, v.linked me u);
  once = λ c. ground (arith, v.once c, v.once me);
  ready = v.ready;
  in_range = v.in_range;
}

tick_task-IsQueued :
    (me t : ℕ) (s : Kernel) → me < max_cpus → IsQueued s → IsQueued (tick_task me t s)
unfolding tick_task
tick_task-IsQueued me t s b v = elim (Bool-cases (is_due t s)) [
  | inl e ↦ rw e (resched-IsQueued me true (wake me t s) (wake-IsQueued me t s b v))
  | inr e ↦ rw e v
]

tick_from-IsQueued :
    (n me i : ℕ) (s : Kernel) → me < max_cpus → IsQueued s → IsQueued (tick_from n me i s)
unfolding tick_from
tick_from-IsQueued zero me i s b v = v
tick_from-IsQueued (suc n) me i s b v =
    tick_from-IsQueued n me (i + 1) (tick_task me i s) b (tick_task-IsQueued me i s b v)

burn-IsQueued : (me cur : ℕ) (s : Kernel) → IsQueued s → IsQueued (burn me cur s)
unfolding burn
burn-IsQueued me cur s v = elim (Bool-cases ((s.tasks cur).pid == 0)) [
  | inl e ↦ rw (e, burn) v
  | inr e ↦ elim (Bool-cases (ltb 0 (s.tasks cur).quantum)) [
    | inr f ↦ rw (e, burn, f) v
    | inl f ↦
        let less = record (s.tasks cur) { quantum = (s.tasks cur).quantum - 1 } in
        let w = set_task-IsQueued cur less s v refl (v.ready cur) in
        elim (Bool-cases ((s.tasks cur).quantum == 1 && is_running (s.tasks cur).state)) [
          | inl g ↦ rw (e, burn, f, g) (resched-IsQueued me true (set_task s cur less) w)
          | inr g ↦ rw (e, burn, f, g) w
        ]
  ]
]

-- A timer tick on any CPU keeps the run queues consistent.
pub sched_tick-IsQueued :
    (me : ℕ) (s : Kernel) → me < max_cpus → IsQueued s → IsQueued (sched_tick me s)
unfolding sched_tick
sched_tick-IsQueued me s b v =
    let woken : Kernel = tick_from 63 me 1 s in
    let w = tick_from-IsQueued 63 me 1 s b v in
    elim (Option-cases (woken.cpus me).current) [
      | inl e ↦ rw (e, sched_tick) w
      | inr (cur, e) ↦ rw (e, sched_tick) (burn-IsQueued me cur woken w)
    ]

-- A return from an interrupt that may give the CPU away keeps the run queues consistent.
pub sched_maybe_preempt-IsQueued :
    (me cs : ℕ) (s q : Kernel)
    → me < max_cpus
    → IsQueued s
    → sched_maybe_preempt me cs s ≡ some q
    → IsQueued q
unfolding sched_maybe_preempt preempt
sched_maybe_preempt-IsQueued me cs s q b v e = elim (Option-cases (s.cpus me).current) [
  | inl f ↦ let same : s ≡ q = ground arith in subst IsQueued same v
  | inr (cur, f) ↦ elim (Bool-cases (s.cpus me).need_resched) [
    | inr n ↦ let same : s ≡ q = ground arith in subst IsQueued same v
    | inl y ↦
        elim (Bool-cases
          (is_running (s.tasks cur).state && (cs % 4 == 3 || (s.tasks cur).pid == 0))) [
            | inr n ↦ let same : s ≡ q = ground arith in subst IsQueued same v
            | inl t ↦
                let asked : schedule me (set_resched me false s) ≡ some q = ground arith in
                schedule-IsQueued me (set_resched me false s) q b (resched-IsQueued me false s v)
                  asked
          ]
  ]
]
