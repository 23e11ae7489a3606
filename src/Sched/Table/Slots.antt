-- ===== src/Sched/Table/Slots.antt =====
-- The slots that the task table hands out, and the tasks that it finds.
use lnxrm.Base.{
  ℕ, zero, suc, ◌+◌, ◌<◌, ◌≤◌, ◌≡◌, ◌≢◌, inl, inr, false, none, some, arith, Option-cases,
}
use lnxrm.Task.{Kernel, nr_tasks, unused, embryo, is_unused}
use lnxrm.Sched.Table.{first_unused, task_alloc_slot, find_from}

first_unused_found :
    (n i k : ℕ) (s : Kernel)
    → first_unused n i s ≡ some k
    → (i ≤ k) × (k < i + n) × ((s.tasks k).state ≡ unused)
unfolding first_unused
first_unused_found zero i k s e = cc
first_unused_found (suc n) i k s e = ground (arith, first_unused_found n (i + 1) k s)

first_unused-none :
    (n i k : ℕ) (s : Kernel)
    → first_unused n i s ≡ none
    → i ≤ k
    → k < i + n
    → is_unused (s.tasks k).state ≡ false
unfolding first_unused
first_unused-none zero i k s e a b = absurd (omega arith)
first_unused-none (suc n) i k s e a b = ground (arith, first_unused-none n (i + 1) k s)

-- A slot that is handed out was free, is no longer, is not slot 0, and no other task changes.
pub task_alloc_slot-some :
    (i : ℕ) (s s' : Kernel)
    → task_alloc_slot s ≡ some (i, s')
    → (0 < i)
      × (i < nr_tasks)
      × ((s.tasks i).state ≡ unused)
      × ((s'.tasks i).state ≡ embryo)
      × ((t : ℕ) → t ≢ i → s'.tasks t ≡ s.tasks t)
unfolding task_alloc_slot
task_alloc_slot-some i s s' e = elim (Option-cases (first_unused 63 1 s)) [
  | inl f ↦ absurd (ground arith)
  | inr (k, f) ↦
      let found = first_unused_found 63 1 k s f in
      (ground arith, ground arith, ground arith, ground arith, λ t ne. ground arith)
]

-- The table refuses a slot only when all but slot 0 are in use.
pub task_alloc_slot-none :
    (s : Kernel)
    → task_alloc_slot s ≡ none
    → (t : ℕ) → 0 < t
    → t < nr_tasks
    → is_unused (s.tasks t).state ≡ false
unfolding task_alloc_slot
task_alloc_slot-none s e t a b = elim (Option-cases (first_unused 63 1 s)) [
  | inl f ↦ first_unused-none 63 1 t s f (omega arith) (omega arith)
  | inr (k, f) ↦ absurd (ground arith)
]

find_from_found :
    (n i pid k : ℕ) (s : Kernel)
    → find_from n i pid s ≡ some k
    → (k < i + n) × (is_unused (s.tasks k).state ≡ false) × ((s.tasks k).pid ≡ pid)
unfolding find_from
find_from_found zero i pid k s e = cc
find_from_found (suc n) i pid k s e = ground (arith, find_from_found n (i + 1) pid k s)

find_from-none :
    (n i pid k : ℕ) (s : Kernel)
    → find_from n i pid s ≡ none
    → i ≤ k
    → k < i + n
    → is_unused (s.tasks k).state ≡ false
    → (s.tasks k).pid ≢ pid
unfolding find_from
find_from-none zero i pid k s e a b u = absurd (omega arith)
find_from-none (suc n) i pid k s e a b u = ground (arith, find_from-none n (i + 1) pid k s)
