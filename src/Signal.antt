-- ===== src/Signal.antt =====
-- kernel/signal.c and the signal calls of kernel/syscall.c. User memory is read and written in 64-bit
-- words: `mem a` is the word at address `a`, and the words of a signal frame stand 8 bytes apart.
-- `translate` maps a page of the current address space, with 0 for a page that is not mapped.
pub mod Wakes
pub mod Trip
mod Tests
use lnxrm.Base.{
  ◌^◌, ◌-◌, ℕ, zero, suc, ◌+◌, ◌-◌, ◌*◌, ◌/◌, ◌%◌, bit_and, bit_or, Bool, true, false, not, ◌&&◌,
  ◌||◌, Option, none, some, List, [], ◌∷◌, ◌==◌, ltb, leb, if◌then◌else◌, update, names,
}
use lnxrm.Base.Words.{ℤ, pos, neg, sub64}
use lnxrm.Task.{
  Task, Cpu, Kernel, Frame, set_task, set_state, stopped, runnable, is_sleeping, is_stopped,
}
use lnxrm.Sched.{wake, schedule, runqueue_add}
use lnxrm.Uaccess.{user_ptr_ok}

abbrev pub sigint : ℕ
sigint = 2

abbrev pub sigquit : ℕ
sigquit = 3

abbrev pub sigill : ℕ
sigill = 4

abbrev pub sigabrt : ℕ
sigabrt = 6

abbrev pub sigkill : ℕ
sigkill = 9

abbrev pub sigsegv : ℕ
sigsegv = 11

abbrev pub sigterm : ℕ
sigterm = 15

abbrev pub sigcont : ℕ
sigcont = 18

abbrev pub sigstop : ℕ
sigstop = 19

abbrev pub nsig : ℕ
nsig = 32

abbrev pub sig_dfl : ℕ
sig_dfl = 0

abbrev pub sig_ign : ℕ
sig_ign = 1

abbrev pub sig_trampoline_va : ℕ
sig_trampoline_va = 0x7fff_ff80_0000

-- `t->signal_pending |= 1ULL << sig`, and `&= ~(1ULL << sig)` with `false`.
abbrev pub set_pending : ℕ → ℕ → Bool → Kernel → Kernel
set_pending t sig b s =
    set_task s t (record (s.tasks t) { signal_pending = update (s.tasks t).signal_pending sig b })

abbrev pub wake_sleeper : ℕ → ℕ → Kernel → Kernel
wake_sleeper me t s = if is_sleeping (s.tasks t).state then wake me t s else s

abbrev pub wake_stopped : ℕ → ℕ → Kernel → Kernel
wake_stopped me t s =
    if is_stopped (s.tasks t).state || is_sleeping (s.tasks t).state then wake me t s else s

-- A task is given, and the number is not negative: both hold at every call.
unfoldable pub send_signal : ℕ → ℕ → ℕ → Kernel → Kernel
send_signal me t sig s =
    if ltb sig 1 || leb nsig sig
    then s
    else if sig == sigkill
    then wake_sleeper me t (set_pending t sigkill true s)
    else if sig == sigstop
    then wake_sleeper me t (set_pending t sigstop true s)
    else if sig == sigcont
    then wake_stopped me t (set_pending t sigcont true s)
    else if (s.tasks t).sa_handler sig == sig_ign
    then s
    else wake_sleeper me t (set_pending t sig true s)

-- How the check for signals ends: back to user mode, in `sys_exit`, or in the scheduler (where
-- `none` is its panic).
pub data Outcome : Type 0 where
  resumes : Kernel → (ℕ → ℕ) → Outcome
  exits : ℤ → Kernel → Outcome
  parks : Option Kernel → Outcome

-- The signals that end a process by default.
abbrev pub is_fatal : ℕ → Bool
is_fatal sig =
    sig == sigint
    || sig == sigterm
    || sig == sigquit
    || sig == sigill
    || sig == sigabrt
    || sig == sigsegv

-- `((orig_sp - (176 + 8)) & ~15UL) - 8`
abbrev pub frame_sp : ℕ → ℕ
frame_sp sp = sub64 (sub64 sp 184 / 16 * 16) 8

-- The 176 bytes of a signal frame.
abbrev pub frame_words : ℕ → Frame → List ℕ
frame_words sig tf =
    sig ∷ tf.rip ∷ tf.cs ∷ tf.rflags ∷ tf.ussp ∷ tf.usss ∷ tf.rax ∷ tf.rbx ∷ tf.rcx ∷ tf.rdx
    ∷ tf.rsi ∷ tf.rdi ∷ tf.rbp ∷ tf.r8 ∷ tf.r9 ∷ tf.r10 ∷ tf.r11 ∷ tf.r12 ∷ tf.r13 ∷ tf.r14 ∷ tf.r15
    ∷ 0 ∷ []

pub store_words : (ℕ → ℕ) → ℕ → List ℕ → ℕ → ℕ
store_words mem a [] = mem
store_words mem a (w ∷ ws) = store_words (update mem a w) (a + 8) ws

-- The trap frame that runs the handler.
abbrev pub redirect : ℕ → ℕ → Frame → Frame
redirect sig handler tf = record tf {
  rip = handler;
  ussp = frame_sp tf.ussp;
  rdi = sig;
  rflags = bit_or tf.rflags 0x200;
}

-- Delivery to a user handler.
pub deliver : (ℕ → ℕ) → ℕ → ℕ → Frame → Kernel → (ℕ → ℕ) → Outcome
deliver translate t sig tf s mem =
    let handler = (s.tasks t).sa_handler sig in
    let sp = frame_sp tf.ussp in
    if not (user_ptr_ok translate handler 1) || not (user_ptr_ok translate sp 184)
    then exits (neg sigsegv) s
    else resumes (set_task s t (record (s.tasks t) { tf = some (redirect sig handler tf) }))
        (store_words mem sp (sig_trampoline_va ∷ frame_words sig tf))

-- A pending signal `sig`, already cleared in `s`; `next` goes on with the loop.
pub handle : (ℕ → ℕ) → ℕ → ℕ → Kernel → (ℕ → ℕ) → (Kernel → Outcome) → Outcome
unfolding deliver
handle translate t sig s mem next =
    if sig == sigkill
    then exits (neg sigkill) s
    else if (s.tasks t).sa_handler sig == sig_dfl
    then (if is_fatal sig then exits (neg sig) s else next s)
    else elim (s.tasks t).tf [ none ↦ next s | some tf ↦ deliver translate t sig tf s mem ]

-- The loop over the signals from `sig` on, with `n` numbers left.
pub signal_loop : (ℕ → ℕ) → ℕ → (ℕ → Bool) → ℕ → ℕ → Kernel → (ℕ → ℕ) → Outcome
signal_loop translate zero pending t sig s mem = resumes s mem
signal_loop translate (suc n) pending t sig s mem =
    let next = λ (q : Kernel). signal_loop translate n pending t (sig + 1) q mem in
    if pending sig then handle translate t sig (set_pending t sig false s) mem next else next s

-- The set that is delivered: SIGKILL and SIGSTOP cannot be masked.
abbrev pub deliverable : Task → ℕ → Bool
deliverable x sig =
    x.signal_pending sig && (not (x.signal_mask sig) || sig == sigkill || sig == sigstop)

abbrev pub resume_stopped : ℕ → ℕ → Kernel → Kernel
resume_stopped me t s =
    if is_stopped (s.tasks t).state
    then (let s' = set_state s t runnable in
        if names (s.cpus me).current t then s' else runqueue_add me t s')
    else s

-- An empty set of deliverable signals falls through every test.
pub do_signal_check : (ℕ → ℕ) → ℕ → ℕ → Kernel → (ℕ → ℕ) → Outcome
do_signal_check translate me t s mem =
    let pending = deliverable (s.tasks t) in
    if (s.tasks t).pid == 0
    then resumes s mem
    else if pending sigstop
    then parks (schedule me (set_state (set_pending t sigstop false s) t stopped))
    else if pending sigcont
    then resumes (resume_stopped me t (set_pending t sigcont false s)) mem
    else signal_loop translate (nsig - 1) pending t 1 s mem

-- `(frame[3] | 0x2 | 0x200) & ~(3UL << 12)`
abbrev pub sanitize : ℕ → ℕ
sanitize w = bit_and (bit_or (bit_or w 0x2) 0x200) 0xffff_ffff_ffff_cfff

-- The registers of the frame at `usp`; the first word is the signal number.
abbrev pub load_frame : (ℕ → ℕ) → ℕ → Frame
load_frame mem usp = record {
  rip = mem (usp + 8);
  cs = mem (usp + 16);
  rflags = sanitize (mem (usp + 24));
  ussp = mem (usp + 32);
  usss = mem (usp + 40);
  rax = mem (usp + 48);
  rbx = mem (usp + 56);
  rcx = mem (usp + 64);
  rdx = mem (usp + 72);
  rsi = mem (usp + 80);
  rdi = mem (usp + 88);
  rbp = mem (usp + 96);
  r8 = mem (usp + 104);
  r9 = mem (usp + 112);
  r10 = mem (usp + 120);
  r11 = mem (usp + 128);
  r12 = mem (usp + 136);
  r13 = mem (usp + 144);
  r14 = mem (usp + 152);
  r15 = mem (usp + 160);
}

-- The selectors of user code (0x18) and user data (0x20) at privilege level 3, and mapped addresses.
abbrev pub is_user_context : (ℕ → ℕ) → ℕ → ℕ → ℕ → ℕ → Bool
is_user_context translate rip cs rsp ss =
    cs % 4 == 3
    && cs / 4 * 4 == 0x18
    && ss % 4 == 3
    && ss / 4 * 4 == 0x20
    && user_ptr_ok translate rip 1
    && user_ptr_ok translate rsp 1

-- `restores` has the registers and the result of the call; `fails` has the result `LNXRM_EFAIL`.
pub data Sigreturn : Type 0 where
  restores : Frame → ℕ → Sigreturn
  fails : Sigreturn
  kills : ℤ → Sigreturn

-- `tf` is the trap frame of the call, if the current task has one.
pub sys_sigreturn : (ℕ → ℕ) → (ℕ → ℕ) → Option Frame → Sigreturn
sys_sigreturn translate mem none = fails
sys_sigreturn translate mem (some tf) =
    let usp = tf.ussp in
    if not (user_ptr_ok translate usp 176)
    then kills (neg sigsegv)
    else if is_user_context translate (mem (usp + 8)) (mem (usp + 16)) (mem (usp + 32))
        (mem (usp + 40))
    then restores (load_frame mem usp) 0
    else kills (neg sigsegv)

-- What `syscall_entry` does with the result of a system call, up to the check for pending signals.
pub finish_call : ℕ → Frame → Frame
finish_call result f = record f { rax = result; rflags = bit_or f.rflags 0x200 }

-- The system call `sigreturn` from the trap frame `f`, which `syscall_entry` has made the task's. `none`
-- is the exit, which does not return.
pub sigreturn_call : (ℕ → ℕ) → (ℕ → ℕ) → Frame → Option Frame
sigreturn_call translate mem f = elim (sys_sigreturn translate mem (some f)) [
  | restores g result ↦ some (finish_call result g)
  | fails ↦ some (finish_call (2 ^ 64 - 1) f)
  | kills c ↦ none
]
