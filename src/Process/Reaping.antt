-- ===== src/Process/Reaping.antt =====
-- What `sys_waitpid` finds in the task table.
use lnxrm.Base.{
  ℕ, zero, suc, ◌+◌, ◌<◌, ◌≤◌, ◌≡◌, ◌≢◌, ◌⊎◌, inl, inr, refl, Bool, true, false, ◌&&◌, ◌||◌, some,
  arith, Bool-cases,
}
use lnxrm.Base.Words.{ℤ}
use lnxrm.Task.{Kernel, nr_tasks, is_zombie}
use lnxrm.Sched.Table.{task_free_slot}
use lnxrm.Process.Orphans.{zombie-leave_process, parent-leave_process, parent-reparent}
use lnxrm.Process.{
  leave_process, Scan, reaped, not_yet, echild, scan_from, wait_scan, is_child, wanted,
}

-- A child of `cur` that the wait may return.
abbrev pub is_ready : ℕ → ℤ → ℕ → Kernel → Bool
is_ready cur wpid t s =
    is_child cur t s && wanted wpid (s.tasks t).pid && is_zombie (s.tasks t).state

-- What each answer of the scan of the slots from `i` up to `i + n` says of them.
abbrev pub Told : ℕ → ℕ → ℕ → ℤ → Bool → Kernel → Scan → Type 0
Told n i cur wpid kids s (reaped pid code q) =
    (t : ℕ) × (i ≤ t)
    × (t < i + n)
    × (is_ready cur wpid t s ≡ true)
    × ((s.tasks t).pid ≡ pid)
    × ((s.tasks t).exit_code ≡ code)
    × (task_free_slot t s ≡ q)
Told n i cur wpid kids s not_yet =
    ((kids ≡ true) ⊎ ((t : ℕ) × (i ≤ t) × (t < i + n) × (is_child cur t s ≡ true)))
    × ((t : ℕ) → i ≤ t → t < i + n → is_ready cur wpid t s ≡ false)
Told n i cur wpid kids s echild =
    (kids ≡ false) × ((t : ℕ) → i ≤ t → t < i + n → is_child cur t s ≡ false)

child_from :
    (n i cur : ℕ) (kids : Bool) (s : Kernel)
    → ((kids || is_child cur i s) ≡ true)
      ⊎ ((t : ℕ) × (i + 1 ≤ t) × (t < i + 1 + n) × (is_child cur t s ≡ true))
    → (kids ≡ true) ⊎ ((t : ℕ) × (i ≤ t) × (t < i + suc n) × (is_child cur t s ≡ true))
child_from n i cur kids s (inl k) = elim (Bool-cases kids) [
  | inl e ↦ inl e
  | inr e ↦ inr (i, omega arith, omega arith, ground arith)
]
child_from n i cur kids s (inr (t, a, b, e)) = inr (t, omega arith, omega arith, e)

Told-step :
    (n i cur : ℕ) (wpid : ℤ) (kids : Bool) (s : Kernel) (r : Scan)
    → is_ready cur wpid i s ≡ false
    → Told n (i + 1) cur wpid (kids || is_child cur i s) s r
    → Told (suc n) i cur wpid kids s r
Told-step n i cur wpid kids s (reaped pid code q) h (t, a, b, e, f, g, k) =
    (t, omega arith, omega arith, e, f, g, k)
Told-step n i cur wpid kids s not_yet h (some_child, none_ready) =
    (child_from n i cur kids s some_child, λ t a b. ground (arith, none_ready t))
Told-step n i cur wpid kids s echild h (nobody, none_child) =
    (ground arith, λ t a b. ground (arith, none_child t))

scan_from-Told :
    (n i cur : ℕ) (wpid : ℤ) (kids : Bool) (s : Kernel)
    → Told n i cur wpid kids s (scan_from n i cur wpid kids s)
unfolding scan_from
scan_from-Told zero i cur wpid true s = (inl refl, λ t a b. absurd (omega arith))
scan_from-Told zero i cur wpid false s = (refl, λ t a b. absurd (omega arith))
scan_from-Told (suc n) i cur wpid kids s = elim (Bool-cases (is_ready cur wpid i s)) [
  | inl e ↦ rw e (i, omega arith, omega arith, e, refl, refl, refl)
  | inr e ↦ rw e (
      Told-step n i cur wpid kids s _ e
        (scan_from-Told n (i + 1) cur wpid (kids || is_child cur i s) s))
]

-- What a scan answers: a pid and its exit code are those of a child that is a zombie and was asked for, with its
-- slot freed; "not yet" means that there is a child and that none of them is such a zombie; ECHILD means that there is no child.
pub wait_scan_lem :
    (cur : ℕ) (wpid : ℤ) (s : Kernel) → Told nr_tasks 0 cur wpid false s (wait_scan cur wpid s)
unfolding wait_scan
wait_scan_lem cur wpid s = scan_from-Told nr_tasks 0 cur wpid false s

-- A child that is ready is not passed over.
found :
    (cur : ℕ) (wpid : ℤ) (t : ℕ) (s : Kernel) (r : Scan)
    → Told nr_tasks 0 cur wpid false s r
    → t < nr_tasks
    → is_ready cur wpid t s ≡ true
    → (pid : ℕ) × (code : ℤ) × (q : Kernel) × (r ≡ reaped pid code q)
found cur wpid t s (reaped pid code q) told h ready = (pid, code, q, refl)
found cur wpid t s not_yet (some_child, none_ready) h ready =
    absurd (ground (arith, none_ready t (omega arith) h))
found cur wpid t s echild (nobody, none_child) h ready =
    absurd (ground (arith, none_child t (omega arith) h))

-- A wait for any child, or for a pid by its number, returns a pid once a child that it asks for has
-- exited, on whatever CPU and whichever code: no exit is lost for a later scan by the parent.
pub wait_scan-leave_process :
    (me cur p : ℕ) (code wpid : ℤ) (s : Kernel)
    → cur < nr_tasks
    → cur ≢ p
    → (s.tasks cur).parent ≡ some p
    → wanted wpid ((leave_process me cur code s).tasks cur).pid ≡ true
    → (pid : ℕ) × (c : ℤ) × (q : Kernel) × (wait_scan p wpid (leave_process me cur code s)
        ≡ reaped pid c q)
wait_scan-leave_process me cur p code wpid s h ne e w =
    let q = leave_process me cur code s in
    let z = zombie-leave_process me cur code s in
    let kept : (q.tasks cur).parent ≡ some p =
      ground (arith, parent-leave_process me cur cur code s, parent-reparent cur cur s h) in
    found p wpid cur q (wait_scan p wpid q) (wait_scan_lem p wpid q) h (ground (arith, z, kept))
