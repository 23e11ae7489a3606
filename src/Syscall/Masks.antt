-- ===== src/Syscall/Masks.antt =====
-- The signal mask over `sys_sigprocmask`.
use lnxrm.Base.{
  ℕ, ◌<◌, ◌≡◌, refl, ap, ◌∙◌, Option, Bool, true, false, none, some, inl, inr, arith, if◌then◌else◌,
  Bool-cases, Option-cases, update,
}
use lnxrm.Base.Words.{ℤ, pos}
use lnxrm.Task.{Kernel}
use lnxrm.Signal.{sigkill, sigstop}
use lnxrm.Syscall.{Called, sys_sigprocmask, set_mask, apply_how, usable, pack}
use lnxrm.Syscall.Pack.{bit-pack_from}

-- Neither SIGKILL nor SIGSTOP is masked.
pub record Unmaskable (f : ℕ → Bool) : Type 0 where
  pub kill : f sigkill ≡ false
  pub stop : f sigstop ≡ false

abbrev mask_of : ℕ → Called → ℕ → Bool
mask_of cur c = (c.kernel.tasks cur).signal_mask

-- Whatever a call of `sys_sigprocmask` asks for, SIGKILL and SIGSTOP stay unmasked.
pub sys_sigprocmask-Unmaskable :
    (translate : ℕ → ℕ) (cur : ℕ) (how : ℤ) (uset uoldset : ℕ) (s : Kernel) (mem : ℕ → ℕ)
    → Unmaskable (s.tasks cur).signal_mask
    → Unmaskable (mask_of cur (sys_sigprocmask translate cur how uset uoldset s mem))
unfolding sys_sigprocmask
sys_sigprocmask-Unmaskable translate cur how uset uoldset s mem u =
    let old = (s.tasks cur).signal_mask in
    let mem' = if usable translate uoldset 8 then update mem uoldset (pack old) else mem in
    elim (Bool-cases (usable translate uset 8)) [
      | inr e ↦ rw e u
      | inl e ↦ elim (Option-cases (apply_how how old (mem' uset))) [
        | inl f ↦ rw (e, f) u
        | inr (m, f) ↦ rw (e, f) (record { kill = ground arith; stop = ground arith })
      ]
    ]

memory-set_mask :
    (o : Option (ℕ → Bool)) (cur : ℕ) (s : Kernel) (mem : ℕ → ℕ)
    → (set_mask o cur s mem).memory ≡ mem
memory-set_mask none cur s mem = refl
memory-set_mask (some f) cur s mem = refl

saved :
    (translate : ℕ → ℕ) (cur : ℕ) (how : ℤ) (uset uoldset : ℕ) (s : Kernel) (mem : ℕ → ℕ)
    → usable translate uoldset 8 ≡ true
    → (sys_sigprocmask translate cur how uset uoldset s mem).memory uoldset
      ≡ pack (s.tasks cur).signal_mask
unfolding sys_sigprocmask
saved translate cur how uset uoldset s mem h =
    let mem' = update mem uoldset (pack (s.tasks cur).signal_mask) in
    elim (Bool-cases (usable translate uset 8)) [
      | inl e ↦
          rw (h, e)
            (ap (λ m. m uoldset)
                (memory-set_mask (apply_how how (s.tasks cur).signal_mask (mem' uset)) cur s mem')
              ∙ ground arith)
      | inr e ↦ rw (h, e) (ground arith)
    ]

restored :
    (translate : ℕ → ℕ) (cur p k : ℕ) (s : Kernel) (mem : ℕ → ℕ) (f : ℕ → Bool)
    → usable translate p 8 ≡ true
    → mem p ≡ pack f
    → Unmaskable f
    → k < 64
    → mask_of cur (sys_sigprocmask translate cur (pos 2) p 0 s mem) k ≡ f k
unfolding sys_sigprocmask apply_how
restored translate cur p k s mem f h e u b =
    let word = bit-pack_from 64 0 k f b in rw h (ground (arith, word, u.kill, u.stop, e))

-- A mask that one call saves is restored by a later SIG_SETMASK from where it was saved, whatever the
-- first call did to it: each of the 64 signals is masked again exactly if it was.
pub sigprocmask-restores :
    (translate : ℕ → ℕ) (cur : ℕ) (how : ℤ) (uset p k : ℕ) (s : Kernel) (mem : ℕ → ℕ)
    → usable translate p 8 ≡ true
    → Unmaskable (s.tasks cur).signal_mask
    → k < 64
    → (let c = sys_sigprocmask translate cur how uset p s mem in
        mask_of cur (sys_sigprocmask translate cur (pos 2) p 0 c.kernel c.memory) k
        ≡ (s.tasks cur).signal_mask k)
sigprocmask-restores translate cur how uset p k s mem h u b =
    let c = sys_sigprocmask translate cur how uset p s mem in
    restored translate cur p k c.kernel c.memory (s.tasks cur).signal_mask h
      (saved translate cur how uset p s mem h) u b
