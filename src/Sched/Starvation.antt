-- ===== src/Sched/Starvation.antt =====
-- How kernel/sched.c shares one CPU: `runqueue_add` links at the front, where `pick_next` looks.
use lnxrm.Base.{
  ℕ, zero, suc, ◌+◌, ◌<◌, ◌≡◌, refl, false, Option, none, some, List, ◌∷◌, arith, ◌==◌, names, ◌%◌,
  if◌then◌else◌, subst,
}
use lnxrm.Task.{Kernel, set_state, max_cpus, running, runnable}
use lnxrm.Sched.{
  schedule, schedule_from, pick_next, leave, switch_to, runqueue_remove, runqueue_add, enqueue,
  preferred_cpu, first_idle, is_idle_cpu,
}
use lnxrm.Base.Links.{unlink_second}

-- On CPU `me` the user task `a` runs, `b` is first in the queue, and `rest` waits behind it. No
-- other CPU is idle, so nothing moves away.
pub record Duel (me a b : ℕ) (rest : List ℕ) (s : Kernel) : Type 0 where
  pub current : (s.cpus me).current ≡ some a
  pub queue : (s.cpus me).runq ≡ b ∷ rest
  pub apart : (a == b) ≡ false
  pub user_a : ((s.tasks a).pid == 0) ≡ false
  pub user_b : ((s.tasks b).pid == 0) ≡ false
  pub runs : (s.tasks a).state ≡ running
  pub off : (s.tasks a).rq_cpu ≡ none
  pub on : (s.tasks b).rq_cpu ≡ some me
  pub idle_a : names (s.cpus me).idle a ≡ false
  pub idle_b : names (s.cpus me).idle b ≡ false
  pub busy : (c : ℕ) → (c == me) ≡ false → is_idle_cpu (s.cpus c) ≡ false
  pub in_range : me < max_cpus

-- No CPU from `i` on is idle: the search ends at the CPU itself.
first_idle_self :
    (n i me : ℕ) (s : Kernel)
    → ((c : ℕ) → is_idle_cpu (s.cpus c) ≡ false)
    → first_idle n i me s ≡ me
unfolding first_idle
first_idle_self zero i me s h = refl
first_idle_self (suc n) i me s h = ground (arith, h i, first_idle_self n (i + 1) me s h)

module _ {me a b : ℕ} {rest : List ℕ} {s : Kernel} (d : Duel me a b rest s) where
  not_idle : (c : ℕ) → is_idle_cpu (s.cpus c) ≡ false
  not_idle c = ground (arith, d.busy c, d.idle_a, d.current)

  local : preferred_cpu me (set_state s a runnable) ≡ me
  unfolding preferred_cpu
  local = first_idle_self max_cpus 0 me (set_state s a runnable) not_idle

  leave-Duel : Duel me b a rest (leave me a b s)
  unfolding leave switch_to runqueue_remove runqueue_add enqueue
  leave-Duel = record {
    current = ground (arith, local);
    queue = ground (arith, local, unlink_second a b rest d.apart);
    apart = ground arith;
    user_a = ground (arith, local);
    user_b = ground (arith, local);
    runs = ground (arith, local);
    off = ground (arith, local);
    on = ground (arith, local);
    idle_a = ground (arith, local);
    idle_b = ground (arith, local);
    busy = λ c h. ground (arith, local, d.busy c);
    in_range = d.in_range;
  }

  pub schedule-leave : schedule me s ≡ some (leave me a b s)
  unfolding schedule schedule_from pick_next
  schedule-leave = ground arith

-- `n` expiries of the quantum on CPU `me`, each of which calls the scheduler.
pub rounds : ℕ → ℕ → Kernel → Option Kernel
rounds zero me s = some s
rounds (suc n) me s = elim (schedule me s) [ none ↦ none | some s' ↦ rounds n me s' ]

-- Of two, the first after an even number of rounds and the second after an odd one.
by_turns : ℕ → ℕ → ℕ → ℕ
by_turns n x y = if n % 2 == 0 then x else y

by_turns-suc : (n x y : ℕ) → by_turns n x y ≡ by_turns (suc n) y x
unfolding by_turns
by_turns-suc n x y = ground arith

Duel-goes_on :
    (n me a b : ℕ) (rest : List ℕ) (s : Kernel)
    → Duel me a b rest s
    → (s' : Kernel) × (rounds n me s ≡ some s') × Duel me (by_turns n a b) (by_turns n b a) rest s'
unfolding rounds by_turns
Duel-goes_on zero me a b rest s d = (s, refl, d)
Duel-goes_on (suc n) me a b rest s d =
    let (s', e, f) = Duel-goes_on n me b a rest (leave me a b s) (leave-Duel d) in
    (
      s',
      rw (schedule-leave d, rounds) e,
      subst (λ x. Duel me x (by_turns (suc n) b a) rest s') (by_turns-suc n b a)
          (subst (λ y. Duel me (by_turns n b a) y rest s') (by_turns-suc n a b) f),
    )

-- While no other CPU is idle and no task sleeps or is added, every expiry of the quantum hands the CPU from the running
-- task to the first of its queue and puts the running one in that one's place: after `n` expiries the CPU runs the
-- one it ran at first if `n` is even and the other one if `n` is odd, the other of the two is first in the queue, and the
-- tasks behind it keep their place.
pub starves_rest :
    (n me a b : ℕ) (rest : List ℕ) (s : Kernel)
    → Duel me a b rest s
    → (s' : Kernel) × (rounds n me s ≡ some s')
      × ((s'.cpus me).current ≡ some (if n % 2 == 0 then a else b))
      × ((s'.cpus me).runq ≡ (if n % 2 == 0 then b else a) ∷ rest)
unfolding by_turns
starves_rest n me a b rest s d =
    let (s', e, f) = Duel-goes_on n me a b rest s d in (s', e, f.current, f.queue)
