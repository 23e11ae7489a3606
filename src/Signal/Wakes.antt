-- ===== src/Signal/Wakes.antt =====
-- Which tasks a signal wakes, and what becomes of a pending signal that is ignored.
use lnxrm.Base.{
  ℕ, ◌∙◌, zero, suc, ◌+◌, ◌-◌, ◌<◌, ◌≡◌, ◌≢◌, refl, Bool, true, false, not, ◌&&◌, ◌||◌, some, arith,
  ◌==◌, ltb, leb, if◌then◌else◌, Bool-cases, inl, inr,
}
use lnxrm.Base.Words.{neg}
use lnxrm.Task.{Kernel, Frame, runnable, max_cpus, is_sleeping, is_stopped}
use lnxrm.Sched.{runqueue_add, enqueue}
use lnxrm.Sched.Invariant.{IsQueued, wake-IsQueued, set_task-IsQueued}
use lnxrm.Signal.{
  send_signal, set_pending, wake_sleeper, wake_stopped, sigkill, sigstop, sigcont, sig_ign, sigsegv,
  nsig, exits, deliverable, do_signal_check, signal_loop, handle, deliver,
}
use lnxrm.Uaccess.{user_ptr_ok}
use lnxrm.Uaccess.Accepts.{user_ptr_ok_iff}

-- Does the signal reach the task's pending set?
abbrev pub is_sent : ℕ → ℕ → Kernel → Bool
is_sent t sig s =
    leb 1 sig
    && ltb sig nsig
    && (sig == sigkill
        || sig == sigstop
        || sig == sigcont
        || not ((s.tasks t).sa_handler sig == sig_ign))

-- Does the signal wake the task? Only SIGCONT wakes a stopped one.
abbrev pub is_woken : ℕ → ℕ → Kernel → Bool
is_woken t sig s =
    is_sent t sig s
    && (is_sleeping (s.tasks t).state || sig == sigcont && is_stopped (s.tasks t).state)

-- `send_signal` makes a sleeping task runnable, and a stopped one by SIGCONT only: SIGKILL leaves a
-- stopped task stopped. Any other task keeps its state. A signal number in range is pending afterwards, unless it was ignored and neither
-- SIGKILL, SIGSTOP nor SIGCONT; the other pending signals stay.
pub send_signal_lem :
    (me t sig : ℕ) (s : Kernel)
    → let s' = send_signal me t sig s in
      ((s'.tasks t).state ≡ (if is_woken t sig s then runnable else (s.tasks t).state))
      × ((u : ℕ) → u ≢ t → s'.tasks u ≡ s.tasks u)
      × ((k : ℕ)
          → (s'.tasks t).signal_pending k
            ≡ (if k == sig && is_sent t sig s then true else (s.tasks t).signal_pending k))
unfolding send_signal runqueue_add enqueue
send_signal_lem me t sig s = (ground arith, λ u h. ground arith, λ k. ground arith)

pending-IsQueued :
    (t sig : ℕ) (b : Bool) (s : Kernel) → IsQueued s → IsQueued (set_pending t sig b s)
pending-IsQueued t sig b s v = set_task-IsQueued t _ s v refl (v.ready t)

sleeper-IsQueued :
    (me t : ℕ) (s : Kernel) → me < max_cpus → IsQueued s → IsQueued (wake_sleeper me t s)
sleeper-IsQueued me t s b v = elim (Bool-cases (is_sleeping (s.tasks t).state)) [
  | inl e ↦ rw e (wake-IsQueued me t s b v)
  | inr e ↦ rw e v
]

stopped-IsQueued :
    (me t : ℕ) (s : Kernel) → me < max_cpus → IsQueued s → IsQueued (wake_stopped me t s)
stopped-IsQueued me t s b v =
    elim (Bool-cases (is_stopped (s.tasks t).state || is_sleeping (s.tasks t).state)) [
      | inl e ↦ rw e (wake-IsQueued me t s b v)
      | inr e ↦ rw e v
    ]

sent-IsQueued :
    (me t sig : ℕ) (s : Kernel)
    → me < max_cpus
    → IsQueued s
    → IsQueued (wake_sleeper me t (set_pending t sig true s))
sent-IsQueued me t sig s b v = sleeper-IsQueued me t _ b (pending-IsQueued t sig true s v)

-- A signal keeps the run queues consistent.
pub send_signal-IsQueued :
    (me t sig : ℕ) (s : Kernel) → me < max_cpus → IsQueued s → IsQueued (send_signal me t sig s)
unfolding send_signal
send_signal-IsQueued me t sig s b v = elim (Bool-cases (ltb sig 1 || leb nsig sig)) [
  | inl e ↦ rw (e, send_signal) v
  | inr e ↦ elim (Bool-cases (sig == sigkill)) [
    | inl f ↦ rw (e, send_signal, f) (sent-IsQueued me t sigkill s b v)
    | inr f ↦ elim (Bool-cases (sig == sigstop)) [
      | inl g ↦ rw (e, send_signal, f, g) (sent-IsQueued me t sigstop s b v)
      | inr g ↦ elim (Bool-cases (sig == sigcont)) [
        | inl h ↦
            rw (e, send_signal, f, g, h)
              (stopped-IsQueued me t _ b (pending-IsQueued t sigcont true s v))
        | inr h ↦ elim (Bool-cases ((s.tasks t).sa_handler sig == sig_ign)) [
          | inl i ↦ rw (e, send_signal, f, g, h, i) v
          | inr i ↦ rw (e, send_signal, f, g, h, i) (sent-IsQueued me t sig s b v)
        ]
      ]
    ]
  ]
]

-- No signal below `sig` is deliverable: the loop passes them by.
loop_skips :
    (translate : ℕ → ℕ) (n d : ℕ) (pending : ℕ → Bool) (t i : ℕ) (s : Kernel) (mem : ℕ → ℕ)
    → ((k : ℕ) → k < i + d → pending k ≡ false)
    → signal_loop translate (d + n) pending t i s mem
      ≡ signal_loop translate n pending t (i + d) s mem
unfolding signal_loop
loop_skips translate n zero pending t i s mem h =
    let a : 0 + n ≡ n = omega arith in let b : i + 0 ≡ i = omega arith in rw (a, b)
loop_skips translate n (suc d) pending t i s mem h =
    let a : suc d + n ≡ suc (d + n) = omega arith in
    let b : i + suc d ≡ i + 1 + d = omega arith in
    rw (a, b, h i (omega arith))
      (loop_skips translate n d pending t (i + 1) s mem (λ k l. h k (omega arith)))

address_one : (translate : ℕ → ℕ) → user_ptr_ok translate sig_ign 1 ≡ false
address_one translate = elim (Bool-cases (user_ptr_ok translate sig_ign 1)) [
  | inl e ↦
      let r = (user_ptr_ok_iff translate sig_ign 1 (omega arith) (omega arith)).0 e in
      absurd (omega (arith, r.above))
  | inr e ↦ e
]

loop_kills :
    (translate : ℕ → ℕ) (n t sig : ℕ) (tf : Frame) (pending : ℕ → Bool) (s : Kernel) (mem : ℕ → ℕ)
    → (s.tasks t).tf ≡ some tf
    → sig ≢ sigkill
    → (s.tasks t).sa_handler sig ≡ sig_ign
    → pending sig ≡ true
    → signal_loop translate (suc n) pending t sig s mem
      ≡ exits (neg sigsegv) (set_pending t sig false s)
unfolding signal_loop handle deliver
loop_kills translate n t sig tf pending s mem frame ne ign now =
    let address : user_ptr_ok translate ((s.tasks t).sa_handler sig) 1 ≡ false =
      rw ign (address_one translate) in
    ground arith

-- A signal that became pending before it was set to be ignored is not dropped: when it is the lowest
-- deliverable one, and neither a stop nor a continue is, the check treats SIG_IGN as the address of a handler and ends the
-- process as if by SIGSEGV.
pub ignored_signal_kills :
    (translate : ℕ → ℕ) (me t sig : ℕ) (tf : Frame) (s : Kernel) (mem : ℕ → ℕ)
    → (s.tasks t).pid ≢ 0
    → (s.tasks t).tf ≡ some tf
    → 0 < sig
    → sig < nsig
    → sig ≢ sigkill
    → (s.tasks t).sa_handler sig ≡ sig_ign
    → deliverable (s.tasks t) sig ≡ true
    → ((k : ℕ) → k < sig → deliverable (s.tasks t) k ≡ false)
    → deliverable (s.tasks t) sigstop ≡ false
    → deliverable (s.tasks t) sigcont ≡ false
    → do_signal_check translate me t s mem ≡ exits (neg sigsegv) (set_pending t sig false s)
unfolding do_signal_check
ignored_signal_kills translate me t sig tf s mem pid frame lo hi ne ign now low no_stop no_cont =
    let first : ((s.tasks t).pid == 0) ≡ false = ground arith in
    let n : ℕ = 31 - sig in
    let pending = deliverable (s.tasks t) in
    let split : nsig - 1 ≡ sig - 1 + suc n = omega arith in
    let start : 1 + (sig - 1) ≡ sig = omega arith in
    rw (first, no_stop, no_cont, split)
      (loop_skips translate (suc n) (sig - 1) pending t 1 s mem (λ k b. low k (omega arith))
        ∙ rw start (loop_kills translate n t sig tf pending s mem frame ne ign now))
