-- ===== src/Sched/Invariant.antt =====
-- What every operation of kernel/sched.c keeps true of the run queues: a task sits on exactly the
-- queue that its `rq_cpu` names, once, and is runnable there.
use lnxrm.Base.{
  ℕ, ◌<◌, ◌≡◌, refl, true, not, ◌&&◌, none, some, arith, ◌==◌, names, Bool-cases, Option-cases,
  ◌||◌, subst, zero, suc, ◌+◌, sym, inl, inr,
}
use lnxrm.Task.{Task, Kernel, runnable, set_task, set_state, max_cpus, is_runnable, is_running}
use lnxrm.Sched.{
  wake, enqueue, switch_to, refresh_quantum, leave, park, drop_stale, keep_self, pick_next,
  schedule_from, schedule, runqueue_add, runqueue_remove, preferred_cpu, first_idle,
}
use lnxrm.Base.Links.{has, distinct, has-unlink_other, has-unlink_self, distinct-unlink}

pub record IsQueued (s : Kernel) : Type 0 where
  pub linked : (c t : ℕ) → has t (s.cpus c).runq ≡ names (s.tasks t).rq_cpu c
  pub once : (c : ℕ) → distinct (s.cpus c).runq ≡ true
  pub ready : (t c : ℕ) → (s.tasks t).rq_cpu ≡ some c → (s.tasks t).state ≡ runnable
  pub in_range : (t c : ℕ) → (s.tasks t).rq_cpu ≡ some c → c < max_cpus

enqueue-IsQueued :
    (me cpu t : ℕ) (s : Kernel)
    → IsQueued s
    → (s.tasks t).rq_cpu ≡ none
    → (s.tasks t).state ≡ runnable
    → cpu < max_cpus
    → IsQueued (enqueue me cpu t s)
unfolding enqueue
enqueue-IsQueued me cpu t s v e r b = record {
  linked = λ c u. ground (arith, v.linked c u, v.linked cpu u);
  once = λ c. ground (arith, v.once c, v.once cpu, v.linked cpu t);
  ready = λ u c h. ground (arith, v.ready u c);
  in_range = λ u c h. ground (arith, v.in_range u c);
}

first_idle_bound :
    (n i me : ℕ) (s : Kernel) → me < max_cpus → i + n ≡ max_cpus → first_idle n i me s < max_cpus
unfolding first_idle
first_idle_bound zero i me s h e = h
first_idle_bound (suc n) i me s h e = ground (arith, first_idle_bound n (i + 1) me s)

preferred_cpu_bound : (me : ℕ) (s : Kernel) → me < max_cpus → preferred_cpu me s < max_cpus
unfolding preferred_cpu
preferred_cpu_bound me s h = first_idle_bound max_cpus 0 me s h refl

pub runqueue_add-IsQueued :
    (me t : ℕ) (s : Kernel)
    → me < max_cpus
    → IsQueued s
    → (s.tasks t).state ≡ runnable
    → IsQueued (runqueue_add me t s)
unfolding runqueue_add
runqueue_add-IsQueued me t s b v r = elim (Option-cases (s.tasks t).rq_cpu) [
  | inl e ↦
      rw (e, runqueue_add)
        (enqueue-IsQueued me (preferred_cpu me s) t s v e r (preferred_cpu_bound me s b))
  | inr (c, e) ↦ rw (e, runqueue_add) v
]

-- A change of one task that keeps its place in the queues keeps the invariant.
pub set_task-IsQueued :
    (t : ℕ) (x : Task) (s : Kernel)
    → IsQueued s
    → x.rq_cpu ≡ (s.tasks t).rq_cpu
    → ((c : ℕ) → x.rq_cpu ≡ some c → x.state ≡ runnable)
    → IsQueued (set_task s t x)
set_task-IsQueued t x s v e r = record {
  linked = λ c u. ground (arith, v.linked c u, v.linked c t);
  once = λ c. v.once c;
  ready = λ u c h. ground (arith, v.ready u c, r c);
  in_range = λ u c h. ground (arith, v.in_range u c, v.in_range t c);
}

pub wake-IsQueued : (me t : ℕ) (s : Kernel) → me < max_cpus → IsQueued s → IsQueued (wake me t s)
wake-IsQueued me t s b v =
    runqueue_add-IsQueued me t (set_state s t runnable) b
      (set_task-IsQueued t _ s v refl (λ c h. refl)) (ground arith)

pub runqueue_remove-IsQueued : (t : ℕ) (s : Kernel) → IsQueued s → IsQueued (runqueue_remove t s)
unfolding runqueue_remove
runqueue_remove-IsQueued t s v = elim (Option-cases (s.tasks t).rq_cpu) [
  | inl e ↦ rw (e, runqueue_remove) (set_task-IsQueued t _ s v (sym e) (λ c h. cc))
  | inr (d, e) ↦
      rw (e, runqueue_remove)
        (record {
          linked = λ c u. ground (
            arith,
            v.linked c u,
            v.in_range t d,
            has-unlink_other t u (s.cpus d).runq,
            has-unlink_self t (s.cpus d).runq (v.once d),
          );
          once = λ c. ground (arith, v.once c, v.once d, distinct-unlink t (s.cpus d).runq);
          ready = λ u c h. ground (arith, v.ready u c);
          in_range = λ u c h. ground (arith, v.in_range u c);
        })
]

-- A task that is taken off its queue may change its state at the same time.
pub remove_changed-IsQueued :
    (t : ℕ) (x : Task) (s : Kernel)
    → IsQueued s
    → x.rq_cpu ≡ (s.tasks t).rq_cpu
    → IsQueued (runqueue_remove t (set_task s t x))
unfolding runqueue_remove
remove_changed-IsQueued t x s v r = elim (Option-cases ((set_task s t x).tasks t).rq_cpu) [
  | inl e ↦
      rw (e, runqueue_remove)
        (record {
          linked = λ c u. ground (arith, v.linked c u);
          once = λ c. v.once c;
          ready = λ u c h. ground (arith, v.ready u c);
          in_range = λ u c h. ground (arith, v.in_range u c);
        })
  | inr (d, e) ↦
      rw (e, runqueue_remove)
        (record {
          linked = λ c u. ground (
            arith,
            v.linked c u,
            v.in_range t d,
            has-unlink_other t u (s.cpus d).runq,
            has-unlink_self t (s.cpus d).runq (v.once d),
          );
          once = λ c. ground (arith, v.once c, v.once d, distinct-unlink t (s.cpus d).runq);
          ready = λ u c h. ground (arith, v.ready u c);
          in_range = λ u c h. ground (arith, v.in_range u c);
        })
]

pub rq_cpu-runqueue_remove : (t : ℕ) (s : Kernel) → ((runqueue_remove t s).tasks t).rq_cpu ≡ none
unfolding runqueue_remove
rq_cpu-runqueue_remove t s = ground arith

switch_to-IsQueued :
    (me prev next : ℕ) (s : Kernel)
    → IsQueued s
    → (s.tasks next).rq_cpu ≡ none
    → IsQueued (switch_to me prev next s)
unfolding switch_to
switch_to-IsQueued me prev next s v e = record {
  linked = λ c u. ground (arith, v.linked c u, v.linked c next, v.linked me u);
  once = λ c. ground (arith, v.once c, v.once me);
  ready = λ u c h. ground (arith, v.ready u c, v.ready prev c);
  in_range = λ u c h. ground (arith, v.in_range u c, v.in_range prev c);
}

refresh_quantum-IsQueued : (t : ℕ) (s : Kernel) → IsQueued s → IsQueued (refresh_quantum t s)
refresh_quantum-IsQueued t s v = elim (Bool-cases ((s.tasks t).pid == 0)) [
  | inl e ↦ rw e v
  | inr e ↦ rw e (set_task-IsQueued t _ s v refl (v.ready t))
]

pub leave-IsQueued :
    (me cur next : ℕ) (s : Kernel) → me < max_cpus → IsQueued s → IsQueued (leave me cur next s)
unfolding leave
leave-IsQueued me cur next s b v =
    elim (Bool-cases (is_running (s.tasks cur).state && not ((s.tasks cur).pid == 0))) [
      | inl e ↦ rw e (after (wake me cur s) (wake-IsQueued me cur s b v))
      | inr e ↦ rw e (after s v)
    ]
  where
    after : (q : Kernel) → IsQueued q → IsQueued (switch_to me cur next (runqueue_remove next q))
    after q w =
        switch_to-IsQueued me cur next _ (runqueue_remove-IsQueued next q w)
          (rq_cpu-runqueue_remove next q)

park-IsQueued : (me cur : ℕ) (s : Kernel) → me < max_cpus → IsQueued s → IsQueued (park me cur s)
unfolding park
park-IsQueued me cur s b v = elim (Option-cases (s.cpus me).idle) [
  | inl e ↦ rw (e, park) v
  | inr (i, e) ↦ elim (Bool-cases (i == cur)) [
    | inl f ↦ rw (e, park, f) v
    | inr f ↦ rw (e, park, f) (leave-IsQueued me cur i s b v)
  ]
]

drop_stale-IsQueued : (cur : ℕ) (s : Kernel) → IsQueued s → IsQueued (drop_stale cur s)
unfolding drop_stale
drop_stale-IsQueued cur s v = elim (Option-cases (s.tasks cur).rq_cpu) [
  | inl e ↦ rw (e, drop_stale) v
  | inr (c, e) ↦ rw (e, drop_stale) (runqueue_remove-IsQueued cur s v)
]

keep_self-IsQueued : (cur : ℕ) (s : Kernel) → IsQueued s → IsQueued (keep_self cur s)
unfolding keep_self
keep_self-IsQueued cur s v = elim (Bool-cases (is_running (s.tasks cur).state)) [
  | inl e ↦
      rw (e, keep_self)
        (drop_stale-IsQueued cur (refresh_quantum cur s) (refresh_quantum-IsQueued cur s v))
  | inr e ↦ rw (e, keep_self) (drop_stale-IsQueued cur s v)
]

schedule_from-IsQueued :
    (me cur : ℕ) (s : Kernel) → me < max_cpus → IsQueued s → IsQueued (schedule_from me cur s)
unfolding schedule_from
schedule_from-IsQueued me cur s b v = elim (Option-cases (pick_next me s)) [
  | inl e ↦ elim (Bool-cases (is_running (s.tasks cur).state || is_runnable (s.tasks cur).state)) [
    | inl f ↦ rw (e, schedule_from, f) (refresh_quantum-IsQueued cur s v)
    | inr f ↦ rw (e, schedule_from, f) (park-IsQueued me cur s b v)
  ]
  | inr (n, e) ↦ elim (Bool-cases (n == cur)) [
    | inl f ↦ rw (e, schedule_from, f) (keep_self-IsQueued cur s v)
    | inr f ↦ rw (e, schedule_from, f) (leave-IsQueued me cur n s b v)
  ]
]

-- A call of the scheduler on any CPU keeps every run queue consistent with the tasks' `rq_cpu`.
pub schedule-IsQueued :
    (me : ℕ) (s q : Kernel) → me < max_cpus → IsQueued s → schedule me s ≡ some q → IsQueued q
unfolding schedule
schedule-IsQueued me s q b v e = elim (Option-cases (s.cpus me).current) [
  | inl f ↦ cc
  | inr (cur, f) ↦
      let same : schedule_from me cur s ≡ q = ground arith in
      subst IsQueued same (schedule_from-IsQueued me cur s b v)
]
