-- ===== src/Syscall.antt =====
-- kernel/syscall.c: the signal calls and the paths of the calls that take them. User memory is that of
-- Signal: `mem a` is the 64-bit word at address `a`. A result is the value in RAX, an errno if negative.
mod Pack
pub mod Masks
pub mod Kills
mod Tests
use lnxrm.Base.{
  ℕ, zero, suc, ◌+◌, ◌-◌, ◌*◌, ◌/◌, ◌%◌, ◌^◌, Bool, true, false, not, ◌&&◌, ◌||◌, Option, none,
  some, List, ◌==◌, ltb, leb, if◌then◌else◌, update, get_or,
}
use lnxrm.Base.Words.{ℤ, pos, negsuc}
use lnxrm.Base.Bits.{bit}
use lnxrm.Task.{Task, Kernel, nr_tasks, set_task, is_unused}
use lnxrm.Sched.Table.{find_task}
use lnxrm.Signal.{send_signal, nsig, sigkill, sigstop}
use lnxrm.Uaccess.{user_ptr_ok, copy_user_str}

abbrev pub esrch : ℤ
esrch = negsuc 2

abbrev pub efault : ℤ
efault = negsuc 13

abbrev pub einval : ℤ
einval = negsuc 21

-- The loop of a broadcast by `task_iter`, from slot `i` on, with `n` slots left.
pub broadcast_from : ℕ → ℕ → ℕ → ℕ → Kernel → Kernel
broadcast_from zero i me sig s = s
broadcast_from (suc n) i me sig s = broadcast_from n (i + 1) me sig (
    if not (is_unused (s.tasks i).state) && not ((s.tasks i).pid == 0)
    then send_signal me i sig s
    else s)

pub kill_one : ℕ → ℕ → ℕ → Kernel → ℤ × Kernel
kill_one me pid sig s = elim (find_task pid s) [
  | none ↦ (esrch, s)
  | some t ↦ (pos 0, send_signal me t sig s)
]

-- The cases of the pid: positive, -1, and the others.
pub kill_at : ℕ → ℤ → ℕ → Kernel → ℤ × Kernel
unfolding kill_one
kill_at me (pos zero) sig s = (einval, s)
kill_at me (pos (suc p)) sig s = kill_one me (suc p) sig s
kill_at me (negsuc zero) sig s = (pos 0, broadcast_from nr_tasks 0 me sig s)
kill_at me (negsuc (suc n)) sig s = (einval, s)

pub sys_kill : ℕ → ℤ → ℤ → Kernel → ℤ × Kernel
unfolding kill_at
sys_kill me pid (negsuc n) s = (einval, s)
sys_kill me pid (pos sig) s = if leb nsig sig then (einval, s) else kill_at me pid sig s

-- A set of signals as a 64-bit word: the bits from `i` on, `n` of them.
pub pack_from : ℕ → ℕ → (ℕ → Bool) → ℕ
pack_from zero i f = 0
pack_from (suc n) i f = (if f i then 1 else 0) + 2 * pack_from n (i + 1) f

abbrev pub pack : (ℕ → Bool) → ℕ
pack f = pack_from 64 0 f

abbrev pub has_bit : ℕ → ℕ → Bool
has_bit w k = bit k w == 1

-- A pointer argument that is NULL, or that `user_ptr_ok` refuses, is passed over.
abbrev pub usable : (ℕ → ℕ) → ℕ → ℕ → Bool
usable translate p n = not (p == 0) && user_ptr_ok translate p n

-- The result, the kernel and the user memory after a call.
pub record Called : Type 0 where
  pub ret : ℤ
  pub kernel : Kernel
  pub memory : ℕ → ℕ

-- SIGKILL and SIGSTOP are taken out of the mask.
abbrev pub maskable : (ℕ → Bool) → ℕ → Bool
maskable f k = f k && not (k == sigkill || k == sigstop)

-- The new mask by `how`, or `none` for EINVAL.
pub apply_how : ℤ → (ℕ → Bool) → ℕ → Option (ℕ → Bool)
apply_how (negsuc n) old set = none
apply_how (pos how) old set =
    if how == 0
    then some (λ k. old k || has_bit set k)
    else if how == 1
    then some (λ k. old k && not (has_bit set k))
    else if how == 2
    then some (λ k. has_bit set k)
    else none

abbrev pub set_mask : Option (ℕ → Bool) → ℕ → Kernel → (ℕ → ℕ) → Called
set_mask none cur s mem = record { ret = einval; kernel = s; memory = mem }
set_mask (some f) cur s mem = record {
  ret = pos 0;
  kernel = set_task s cur (record (s.tasks cur) { signal_mask = maskable f });
  memory = mem;
}

-- The old mask is written before the new set is read.
pub sys_sigprocmask : (ℕ → ℕ) → ℕ → ℤ → ℕ → ℕ → Kernel → (ℕ → ℕ) → Called
sys_sigprocmask translate cur how uset uoldset s mem =
    let old = (s.tasks cur).signal_mask in
    let mem' = if usable translate uoldset 8 then update mem uoldset (pack old) else mem in
    if usable translate uset 8
    then set_mask (apply_how how old (mem' uset)) cur s mem'
    else record { ret = pos 0; kernel = s; memory = mem' }

-- The 24 bytes of `struct lnxrm_sigaction`; the last four are padding that nothing sets, `junk`.
abbrev pub store_action : ℕ → Task → ℕ → ℕ → (ℕ → ℕ) → ℕ → ℕ
store_action junk x sig p mem =
    update (update (update mem p (x.sa_handler sig)) (p + 8) (x.sa_mask sig)) (p + 16)
      (x.sa_flags sig + junk * 2 ^ 32)

abbrev pub load_action : (ℕ → ℕ) → ℕ → ℕ → Task → Task
load_action mem sig p x = record x {
  sa_handler = update x.sa_handler sig (mem p);
  sa_mask = update x.sa_mask sig (mem (p + 8));
  sa_flags = update x.sa_flags sig (mem (p + 16) % 2 ^ 32);
}

pub sys_sigaction : (ℕ → ℕ) → ℕ → ℕ → ℤ → ℕ → ℕ → Kernel → (ℕ → ℕ) → Called
sys_sigaction translate junk cur (negsuc n) uact uoldact s mem = record {
  ret = einval;
  kernel = s;
  memory = mem;
}
sys_sigaction translate junk cur (pos sig) uact uoldact s mem =
    let mem' =
      if usable translate uoldact 24
      then store_action junk (s.tasks cur) sig uoldact mem
      else mem in
    if ltb sig 1 || leb nsig sig
    then record { ret = einval; kernel = s; memory = mem }
    else if usable translate uact 24
    then record {
      ret = pos 0;
      kernel = set_task s cur (load_action mem' sig uact (s.tasks cur));
      memory = mem';
    }
    else record { ret = pos 0; kernel = s; memory = mem' }

-- The calls that take paths: `fn` is the call of kernel/fs/vfs.c, on a state of the caller's choice.
-- `bytes` is the memory byte by byte.
module _ {S : Type 0} where
  pub path_syscall : (ℕ → ℕ) → (ℕ → ℕ) → ℕ → (List ℕ → S → ℤ × S) → S → ℤ × S
  path_syscall translate bytes upath fn s = elim (copy_user_str translate bytes upath 128) [
    | none ↦ (efault, s)
    | some path ↦ fn path s
  ]

  pub path2_syscall : (ℕ → ℕ) → (ℕ → ℕ) → ℕ → ℕ → (List ℕ → List ℕ → S → ℤ × S) → S → ℤ × S
  path2_syscall translate bytes upath upath2 fn s = elim (copy_user_str translate bytes upath 128) [
    | none ↦ (efault, s)
    | some path ↦ elim (copy_user_str translate bytes upath2 128) [
      | none ↦ (efault, s)
      | some path2 ↦ fn path path2 s
    ]
  ]
