-- ===== src/Files.antt =====
-- kernel/fs/vfs.c: open files with their reference counts, and the descriptor tables that `sys_open`,
-- `sys_close` and `sys_dup2` change, with what `sys_fork`, `sys_execve` and `sys_exit` of kernel/task.c
-- do to them. A `struct file` is named by the number of its allocation.
pub mod Counts
pub mod Calls
pub mod Steps
mod Tests
use lnxrm.Base.{
  ℕ, zero, suc, ◌+◌, ◌-◌, Bool, true, false, not, ◌&&◌, ◌||◌, Option, none, some, ◌==◌, ltb, leb,
  if◌then◌else◌, update, is_some,
}
use lnxrm.Base.Words.{ℤ, pos, negsuc, neg, add64}
use lnxrm.Task.{nr_tasks}

abbrev pub nr_fds : ℕ
nr_fds = 16

-- The flavours of `file_alloc`.
pub data Kind : Type 0 where
  console directory regular : Kind

-- `cloexec` is the bit O_CLOEXEC of `flags`. `refcnt` is at least 1 while the file is allocated.
pub record File : Type 0 where
  pub kind : Kind
  pub cloexec : Bool
  pub offset : ℕ
  pub refcnt : ℕ

-- `fds t` is the descriptor table of task `t`; `live f` is whether file `f` is allocated.
pub record Files : Type 0 where
  pub fds : ℕ → ℕ → Option ℕ
  pub file : ℕ → File
  pub live : ℕ → Bool

abbrev pub set_fd : ℕ → ℕ → Option ℕ → Files → Files
set_fd t i v s = record s { fds = update s.fds t (update (s.fds t) i v) }

abbrev pub set_refcnt : ℕ → ℕ → Files → Files
set_refcnt f n s = record s { file = update s.file f (record (s.file f) { refcnt = n }) }

-- `__sync_fetch_and_add(&f->refcnt, 1)`
abbrev pub retain : ℕ → Files → Files
retain f s = set_refcnt f ((s.file f).refcnt + 1) s

-- The last reference frees the file.
pub vfs_close_file : ℕ → Files → Files
vfs_close_file f s =
    let s' = set_refcnt f ((s.file f).refcnt - 1) s in
    if ltb 1 (s.file f).refcnt then s' else record s' { live = update s.live f false }

-- The index of a descriptor that is in range.
abbrev pub in_table : ℤ → Option ℕ
in_table (pos i) = if ltb i nr_fds then some i else none
in_table (negsuc _) = none

pub fd_get : ℕ → ℤ → Files → Option ℕ
fd_get t fd s = elim (in_table fd) [ none ↦ none | some i ↦ s.fds t i ]

abbrev pub ebadf : ℤ
ebadf = neg 9

abbrev pub emfile : ℤ
emfile = neg 24

-- Entry `i` of the table of task `t` is emptied, and its file loses a reference.
pub close_at : ℕ → ℕ → Files → Files
close_at t i s = elim (s.fds t i) [ none ↦ s | some f ↦ vfs_close_file f (set_fd t i none s) ]

pub sys_close : ℕ → ℤ → Files → ℤ × Files
sys_close t fd s = elim (in_table fd) [
  | none ↦ (ebadf, s)
  | some i ↦ if is_some (s.fds t i) then (pos 0, close_at t i s) else (ebadf, s)
]

-- The loop of `sys_open` over the table from `i` on, with `n` entries left.
pub first_empty : ℕ → ℕ → (ℕ → Option ℕ) → Option ℕ
first_empty zero i row = none
first_empty (suc n) i row =
    let rest = first_empty n (i + 1) row in if is_some (row i) then rest else some i

-- `file_alloc` at the address `f` that the heap gives.
abbrev pub file_alloc : ℕ → Kind → Bool → Files → Files
file_alloc f kind cloexec s = record s {
  file = update s.file f (record { kind = kind; cloexec = cloexec; offset = 0; refcnt = 1 });
  live = update s.live f true;
}

-- What `vfs_open_file` comes to: an error, or a file of some kind at an address.
pub data Opened : Type 0 where
  refused : ℤ → Opened
  opened : ℕ → Kind → Bool → Opened

pub sys_open : ℕ → Opened → Files → ℤ × Files
sys_open t (refused err) s = (err, s)
sys_open t (opened f kind cloexec) s =
    let s' = file_alloc f kind cloexec s in
    elim (first_empty nr_fds 0 (s'.fds t)) [
      | none ↦ (emfile, vfs_close_file f s')
      | some i ↦ (pos i, set_fd t i (some f) s')
    ]

abbrev pub same_int : ℤ → ℤ → Bool
same_int (pos m) (pos n) = m == n
same_int (negsuc m) (negsuc n) = m == n
same_int _ _ = false

-- Entry `j` of the table is made to refer to `f`.
pub redirect_at : ℕ → ℕ → ℕ → Files → Files
redirect_at t j f s = retain f (set_fd t j (some f) (close_at t j s))

pub sys_dup2 : ℕ → ℤ → ℤ → Files → ℤ × Files
sys_dup2 t oldfd newfd s =
    let known = fd_get t oldfd s in
    if same_int oldfd newfd then (if is_some known then newfd else ebadf, s) else elim known [
      | none ↦ (ebadf, s)
      | some f ↦ elim (in_table newfd) [ none ↦ (ebadf, s) | some j ↦ (newfd, redirect_at t j f s) ]
    ]

-- One round of the loop of `sys_fork` over the child's entries.
abbrev pub retain_at : Option ℕ → Files → Files
retain_at none s = s
retain_at (some f) s = retain f s

pub retain_from : ℕ → ℕ → ℕ → Files → Files
retain_from zero i t s = s
retain_from (suc n) i t s = retain_from n (i + 1) t (retain_at (s.fds t i) s)

-- `sys_fork` on the descriptor tables: a copy, with a reference for each entry.
pub fork_fds : ℕ → ℕ → Files → Files
fork_fds cur ch s = retain_from nr_fds 0 ch (record s { fds = update s.fds ch (s.fds cur) })

-- The loop of `sys_exit`, from entry `i` on.
pub close_from : ℕ → ℕ → ℕ → Files → Files
close_from zero i t s = s
close_from (suc n) i t s = close_from n (i + 1) t (close_at t i s)

pub exit_fds : ℕ → Files → Files
exit_fds t s = close_from nr_fds 0 t s

abbrev pub is_cloexec : Option ℕ → Files → Bool
is_cloexec none s = false
is_cloexec (some f) s = (s.file f).cloexec

-- The loop of `sys_execve` over the descriptors that do not survive it.
pub exec_from : ℕ → ℕ → ℕ → Files → Files
exec_from zero i t s = s
exec_from (suc n) i t s =
    exec_from n (i + 1) t (if is_cloexec (s.fds t i) s then close_at t i s else s)

pub exec_fds : ℕ → Files → Files
exec_fds t s = exec_from nr_fds 0 t s
