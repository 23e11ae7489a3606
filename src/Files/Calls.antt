-- ===== src/Files/Calls.antt =====
-- Each call of kernel/fs/vfs.c on descriptors, by itself, against the reference counts.
use lnxrm.Base.{
  ℕ, zero, suc, ◌+◌, ◌≤◌, ◌<◌, ◌≡◌, ◌≢◌, refl, sym, ap, ◌∙◌, inl, inr, Bool, true, false, ◌&&◌,
  Option, none, some, ◌==◌, ltb, if◌then◌else◌, update, arith, Bool-cases, Option-cases, is_some,
}
use lnxrm.Base.Words.{ℤ, pos, negsuc}
use lnxrm.Task.{nr_tasks}
use lnxrm.Files.{
  Files, Kind, opened, retain_at, retain_from, vfs_close_file, close_at, close_from, exec_from,
  redirect_at, first_empty, fork_fds, sys_open, sys_close, sys_dup2, fd_get, nr_fds, is_cloexec,
  same_int,
}
use lnxrm.Files.Counts.{sum, sum_zero, cell, row, refs, refs_set, refs-row, refs_term, row_le}

-- The count of an allocated file is the number of descriptors that refer to it and is not 0, and none
-- refers to a freed file.
pub record IsCounted (s : Files) : Type 0 where
  pub counted : (f : ℕ) → s.live f ≡ true → (s.file f).refcnt ≡ refs f s.fds
  pub dead : (f : ℕ) → s.live f ≡ false → refs f s.fds ≡ 0
  pub kept : (f : ℕ) → s.live f ≡ true → 0 < (s.file f).refcnt

-- A file that a descriptor refers to is allocated.
pub held :
    (f t i : ℕ) (s : Files)
    → IsCounted s
    → t < nr_tasks
    → i < nr_fds
    → s.fds t i ≡ some f
    → s.live f ≡ true
held f t i s v a b e = elim (Bool-cases (s.live f)) [
  | inl y ↦ y
  | inr n ↦ absurd (omega (arith, v.dead f n, refs_term f t i s a b e))
]

close_at-IsCounted :
    (t i : ℕ) (s : Files) → IsCounted s → t < nr_tasks → i < nr_fds → IsCounted (close_at t i s)
unfolding close_at vfs_close_file
close_at-IsCounted t i s v a b = elim (Option-cases (s.fds t i)) [
  | inl e ↦ rw (e, close_at) v
  | inr (f, e) ↦
      let on = held f t i s v a b e in
      let some_ref = refs_term f t i s a b e in
      rw (e, close_at)
        (record {
          counted = λ g l. ground (arith, refs_set g t i none s a b, v.counted g, v.counted f on);
          dead = λ g l. ground (arith, refs_set g t i none s a b, v.dead g, v.counted f on);
          kept = λ g l. ground (arith, refs_set g t i none s a b, v.kept g, v.counted f on);
        })
]

close_at_fds :
    (t i u j : ℕ) (s : Files)
    → (close_at t i s).fds u j ≡ (if t == u && i == j then none else s.fds u j)
unfolding close_at vfs_close_file
close_at_fds t i u j s = ground arith

redirect_at-IsCounted :
    (t i j f : ℕ) (s : Files)
    → IsCounted s
    → t < nr_tasks
    → i < nr_fds
    → j < nr_fds
    → (i == j) ≡ false
    → s.fds t i ≡ some f
    → IsCounted (redirect_at t j f s)
unfolding redirect_at
redirect_at-IsCounted t i j f s v a b c ne e =
    let s1 = close_at t j s in
    let w = close_at-IsCounted t j s v a c in
    let kept : s1.fds t i ≡ some f = ground (arith, close_at_fds t j t i s) in
    let gone : s1.fds t j ≡ none = ground (arith, close_at_fds t j t j s) in
    let on : s1.live f ≡ true = held f t i s1 w a b kept in
    record {
      counted = λ g l. ground (arith, refs_set g t j (some f) s1 a c, w.counted g);
      dead = λ g l. ground (arith, refs_set g t j (some f) s1 a c, w.dead g);
      kept = λ g l. ground (arith, refs_set g t j (some f) s1 a c, w.kept g);
    }

first_empty_found :
    (n i k : ℕ) (r : ℕ → Option ℕ) → first_empty n i r ≡ some k → (k < i + n) × (r k ≡ none)
unfolding first_empty
first_empty_found zero i k r e = cc
first_empty_found (suc n) i k r e = ground (arith, first_empty_found n (i + 1) k r)

pub sys_open-IsCounted :
    (t f : ℕ) (kind : Kind) (c : Bool) (s : Files)
    → IsCounted s
    → t < nr_tasks
    → s.live f ≡ false
    → IsCounted (sys_open t (opened f kind c) s).1
unfolding sys_open vfs_close_file
sys_open-IsCounted t f kind c s v a off = elim (Option-cases (first_empty nr_fds 0 (s.fds t))) [
  | inl e ↦
      rw (e, sys_open)
        (record {
          counted = λ g l. ground (arith, v.counted g);
          dead = λ g l. ground (arith, v.dead g, v.dead f off);
          kept = λ g l. ground (arith, v.kept g, v.dead f off);
        })
  | inr (i, e) ↦
      let (b, empty) = first_empty_found nr_fds 0 i (s.fds t) e in
      let change = λ (g : ℕ). refs_set g t i (some f) s a (omega (arith, b)) in
      rw (e, sys_open)
        (record {
          counted = λ g l. ground (arith, change g, v.counted g, v.dead f off);
          dead = λ g l. ground (arith, change g, v.dead g);
          kept = λ g l. ground (arith, change g, v.kept g);
        })
]

pub sys_close-IsCounted :
    (t : ℕ) (fd : ℤ) (s : Files) → IsCounted s → t < nr_tasks → IsCounted (sys_close t fd s).1
unfolding sys_close
sys_close-IsCounted t (negsuc n) s v a = v
sys_close-IsCounted t (pos n) s v a = elim (Bool-cases (ltb n nr_fds)) [
  | inr e ↦ rw (e, sys_close) v
  | inl e ↦ elim (Bool-cases (is_some (s.fds t n))) [
    | inr h ↦ rw (e, sys_close, h) v
    | inl h ↦ rw (e, sys_close, h) (close_at-IsCounted t n s v a (ground arith))
  ]
]

pub sys_dup2-IsCounted :
    (t : ℕ) (oldfd newfd : ℤ) (s : Files)
    → IsCounted s
    → t < nr_tasks
    → IsCounted (sys_dup2 t oldfd newfd s).1
unfolding sys_dup2 fd_get
sys_dup2-IsCounted t (negsuc m) newfd s v a = elim (Bool-cases (same_int (negsuc m) newfd)) [
  | inl e ↦ rw (e, sys_dup2) v
  | inr e ↦ rw (e, sys_dup2) v
]
sys_dup2-IsCounted t (pos m) (negsuc n) s v a = elim (Option-cases (fd_get t (pos m) s)) [
  | inl e ↦ rw (e, sys_dup2) v
  | inr (f, e) ↦ rw (e, sys_dup2) v
]
sys_dup2-IsCounted t (pos m) (pos n) s v a = elim (Bool-cases (m == n)) [
  | inl e ↦ rw (e, sys_dup2) v
  | inr e ↦ elim (Option-cases (fd_get t (pos m) s)) [
    | inl g ↦ rw (e, sys_dup2, g) v
    | inr (f, g) ↦ elim (Bool-cases (ltb n nr_fds)) [
      | inr h ↦ rw (e, sys_dup2, g, h) v
      | inl h ↦
          rw (e, sys_dup2, g, h)
            (redirect_at-IsCounted t m n f s v a (ground arith) (ground arith) e (ground arith))
    ]
  ]
]

pub close_from-IsCounted :
    (n i t : ℕ) (s : Files)
    → IsCounted s
    → t < nr_tasks
    → i + n ≤ nr_fds
    → IsCounted (close_from n i t s)
unfolding close_from
close_from-IsCounted zero i t s v a b = v
close_from-IsCounted (suc n) i t s v a b =
    close_from-IsCounted n (i + 1) t (close_at t i s) (close_at-IsCounted t i s v a (omega arith)) a
      (omega arith)

pub exec_from-IsCounted :
    (n i t : ℕ) (s : Files)
    → IsCounted s
    → t < nr_tasks
    → i + n ≤ nr_fds
    → IsCounted (exec_from n i t s)
unfolding exec_from
exec_from-IsCounted zero i t s v a b = v
exec_from-IsCounted (suc n) i t s v a b = elim (Bool-cases (is_cloexec (s.fds t i) s)) [
  | inl e ↦ rw e (
      exec_from-IsCounted n (i + 1) t (close_at t i s) (close_at-IsCounted t i s v a (omega arith))
        a (omega arith))
  | inr e ↦ rw e (exec_from-IsCounted n (i + 1) t s v a (omega arith))
]

retain_at_lem :
    (g : ℕ) (o : Option ℕ) (s : Files)
    → (((retain_at o s).file g).refcnt ≡ (s.file g).refcnt + cell g o)
      × ((retain_at o s).live ≡ s.live)
      × ((retain_at o s).fds ≡ s.fds)
retain_at_lem g none s = (omega arith, refl, refl)
retain_at_lem g (some f) s = (ground arith, refl, refl)

-- The loop of `sys_fork` adds to each count what the table refers to, and changes nothing else.
retain_from_lem :
    (n i t g : ℕ) (s : Files)
    → (((retain_from n i t s).file g).refcnt
        ≡ (s.file g).refcnt + sum n i (λ j. cell g (s.fds t j)))
      × ((retain_from n i t s).live ≡ s.live)
      × ((retain_from n i t s).fds ≡ s.fds)
unfolding retain_from sum
retain_from_lem zero i t g s = (omega arith, refl, refl)
retain_from_lem (suc n) i t g s =
    let first = retain_at_lem g (s.fds t i) s in
    let rest = retain_from_lem n (i + 1) t g (retain_at (s.fds t i) s) in
    let same = ap (λ fds. sum n (i + 1) (λ j. cell g (fds t j))) first.2 in
    (omega (arith, rest.0, first.0, same), rest.1 ∙ first.1, rest.2 ∙ first.2)

pub fork_fds-IsCounted :
    (cur ch : ℕ) (s : Files)
    → IsCounted s
    → cur < nr_tasks
    → ch < nr_tasks
    → cur ≢ ch
    → ((i : ℕ) → i < nr_fds → s.fds ch i ≡ none)
    → IsCounted (fork_fds cur ch s)
unfolding fork_fds
fork_fds-IsCounted cur ch s v a b ne fresh =
    let s0 = record s { fds = update s.fds ch (s.fds cur) } in
    let loop = λ (g : ℕ). retain_from_lem nr_fds 0 ch g s0 in
    let same = λ (g : ℕ). ap (refs g) (loop g).2 in
    let alive = λ (g : ℕ). ap (λ l. l g) (loop g).1 in
    let child : s0.fds ch ≡ s.fds cur = ground arith in
    let taken = λ (g : ℕ). ap (row g) child in
    let empty = λ (g : ℕ).
      sum_zero nr_fds 0 (λ i. cell g (s.fds ch i))
        (λ j lo hi. ap (cell g) (fresh j (omega arith))) in
    let copied = λ (g : ℕ). refs-row g ch s.fds (s.fds cur) b in
    record {
      counted = λ g l.
          omega (
            arith,
            (loop g).0,
            same g,
            taken g,
            empty g,
            copied g,
            v.counted g (sym (alive g) ∙ l),
          );
      dead = λ g l.
          omega
            (arith, same g, empty g, copied g, row_le g cur s.fds a, v.dead g (sym (alive g) ∙ l));
      kept = λ g l. omega (arith, (loop g).0, v.kept g (sym (alive g) ∙ l));
    }
