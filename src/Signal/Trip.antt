-- ===== src/Signal/Trip.antt =====
-- A signal's way into a user handler and back by `sys_sigreturn`.
use lnxrm.Base.{
  ℕ, zero, suc, ◌+◌, ◌*◌, ◌%◌, ◌≤◌, ◌<◌, ◌≡◌, refl, true, some, List, [], ◌∷◌, arith, update,
  length, get_or, ◌∙◌, bit_or,
}
use lnxrm.Base.Bits.{bit, bit-bit_and, bit-bit_or}
use lnxrm.Task.{Kernel, Frame}
use lnxrm.Signal.{
  deliver, resumes, frame_sp, frame_words, store_words, redirect, sanitize, sig_trampoline_va,
  is_user_context, sys_sigreturn, restores, load_frame, sigreturn_call, finish_call,
}
use lnxrm.Uaccess.{user_ptr_ok}
use lnxrm.Uaccess.Accepts.{user_ptr_ok_iff}

store_words_below : (mem : ℕ → ℕ) (a x : ℕ) (ws : List ℕ) → x < a → store_words mem a ws x ≡ mem x
unfolding store_words
store_words_below mem a x [] h = refl
store_words_below mem a x (w ∷ ws) h =
    store_words_below (update mem a w) (a + 8) x ws (omega arith) ∙ ground arith

store_words_above :
    (mem : ℕ → ℕ) (a x : ℕ) (ws : List ℕ) → a + 8 * length ws ≤ x → store_words mem a ws x ≡ mem x
unfolding store_words
store_words_above mem a x [] h = refl
store_words_above mem a x (w ∷ ws) h =
    store_words_above (update mem a w) (a + 8) x ws (omega arith) ∙ ground arith

store_words_at :
    (mem : ℕ → ℕ) (a k x : ℕ) (ws : List ℕ)
    → k < length ws
    → x ≡ a + 8 * k
    → store_words mem a ws x ≡ get_or ws k 0
unfolding store_words
store_words_at mem a k x [] h e = absurd (omega arith)
store_words_at mem a zero x (w ∷ ws) h e =
    store_words_below (update mem a w) (a + 8) x ws (omega arith) ∙ ground arith
store_words_at mem a (suc k) x (w ∷ ws) h e =
    store_words_at (update mem a w) (a + 8) k x ws (omega arith) (omega arith)

-- What a delivery leaves: registers that run the handler on the frame just built.
pub record IsDelivered (t sig : ℕ) (tf : Frame) (s s' : Kernel) (mem mem' : ℕ → ℕ) : Type 0 where
  pub frame : (s'.tasks t).tf ≡ some (redirect sig ((s.tasks t).sa_handler sig) tf)
  pub return_address : mem' (frame_sp tf.ussp) ≡ sig_trampoline_va
  pub saved :
      (k : ℕ) → k < 22 → mem' (frame_sp tf.ussp + 8 + 8 * k) ≡ get_or (frame_words sig tf) k 0
  pub below : (a : ℕ) → a < frame_sp tf.ussp → mem' a ≡ mem a
  pub above : (a : ℕ) → frame_sp tf.ussp + 184 ≤ a → mem' a ≡ mem a
  pub aligned : frame_sp tf.ussp % 16 ≡ 8

module _ (translate mem : ℕ → ℕ) (t sig : ℕ) (tf : Frame) (s s' : Kernel) (mem' : ℕ → ℕ)
    (delivered : deliver translate t sig tf s mem ≡ resumes s' mem') where
  accepted : user_ptr_ok translate (frame_sp tf.ussp) 184 ≡ true
  unfolding deliver
  accepted = ground arith

  stored : mem' ≡ store_words mem (frame_sp tf.ussp) (sig_trampoline_va ∷ frame_words sig tf)
  unfolding deliver
  stored = ground arith

  -- A delivery that goes through points the task at its handler, with the signal number as argument,
  -- on a stack whose top word is the address of the trampoline and that is aligned as at a call; the
  -- interrupted registers stand above that word, and no other word of memory changes.
  pub deliver-IsDelivered : IsDelivered t sig tf s s' mem mem'
  unfolding deliver
  deliver-IsDelivered = record {
    frame = ground arith;
    return_address = rw stored (store_words_at mem _ 0 _ _ (omega arith) (omega arith));
    saved = λ k h. rw stored (store_words_at mem _ (suc k) _ _ (omega arith) (omega arith));
    below = λ a h. rw stored (store_words_below mem _ a _ h);
    above = λ a h. rw stored (store_words_above mem _ a _ h);
    aligned = omega arith;
  }

  -- The handler's `ret` has popped the return address, and the frame's words are as they were built.
  module _ (tf' : Frame) (mem'' : ℕ → ℕ) (popped : tf'.ussp ≡ frame_sp tf.ussp + 8)
      (intact : (k : ℕ)
        → k < 22
        → mem'' (frame_sp tf.ussp + 8 + 8 * k) ≡ mem' (frame_sp tf.ussp + 8 + 8 * k))
      (user : is_user_context translate tf.rip tf.cs tf.ussp tf.usss ≡ true) where
    word :
        (k x : ℕ)
        → k < 22
        → x ≡ frame_sp tf.ussp + 8 + 8 * k
        → mem'' x ≡ get_or (frame_words sig tf) k 0
    word k x h e = rw e (intact k h ∙ IsDelivered.saved deliver-IsDelivered k h)

    frame_ok : user_ptr_ok translate (frame_sp tf.ussp + 8) 176 ≡ true
    frame_ok =
        let r =
          (user_ptr_ok_iff translate (frame_sp tf.ussp) 184 (omega arith) (omega arith)).0
            accepted in
        (user_ptr_ok_iff translate (frame_sp tf.ussp + 8) 176 (omega (arith, r.below))
            (omega arith)).1
          (record {
            nonempty = omega arith;
            above = omega (arith, r.above);
            below = omega (arith, r.below);
            mapped = λ a lo hi. r.mapped a (omega arith) (omega arith);
          })

    reloaded : load_frame mem'' (frame_sp tf.ussp + 8) ≡ record tf { rflags = sanitize tf.rflags }
    reloaded = ground (
      arith,
      word 1 (frame_sp tf.ussp + 8 + 8) (omega arith) (omega arith),
      word 2 (frame_sp tf.ussp + 8 + 16) (omega arith) (omega arith),
      word 3 (frame_sp tf.ussp + 8 + 24) (omega arith) (omega arith),
      word 4 (frame_sp tf.ussp + 8 + 32) (omega arith) (omega arith),
      word 5 (frame_sp tf.ussp + 8 + 40) (omega arith) (omega arith),
      word 6 (frame_sp tf.ussp + 8 + 48) (omega arith) (omega arith),
      word 7 (frame_sp tf.ussp + 8 + 56) (omega arith) (omega arith),
      word 8 (frame_sp tf.ussp + 8 + 64) (omega arith) (omega arith),
      word 9 (frame_sp tf.ussp + 8 + 72) (omega arith) (omega arith),
      word 10 (frame_sp tf.ussp + 8 + 80) (omega arith) (omega arith),
      word 11 (frame_sp tf.ussp + 8 + 88) (omega arith) (omega arith),
      word 12 (frame_sp tf.ussp + 8 + 96) (omega arith) (omega arith),
      word 13 (frame_sp tf.ussp + 8 + 104) (omega arith) (omega arith),
      word 14 (frame_sp tf.ussp + 8 + 112) (omega arith) (omega arith),
      word 15 (frame_sp tf.ussp + 8 + 120) (omega arith) (omega arith),
      word 16 (frame_sp tf.ussp + 8 + 128) (omega arith) (omega arith),
      word 17 (frame_sp tf.ussp + 8 + 136) (omega arith) (omega arith),
      word 18 (frame_sp tf.ussp + 8 + 144) (omega arith) (omega arith),
      word 19 (frame_sp tf.ussp + 8 + 152) (omega arith) (omega arith),
      word 20 (frame_sp tf.ussp + 8 + 160) (omega arith) (omega arith),
    )

    context :
        is_user_context translate
          (mem'' (frame_sp tf.ussp + 8 + 8))
          (mem'' (frame_sp tf.ussp + 8 + 16))
          (mem'' (frame_sp tf.ussp + 8 + 32))
          (mem'' (frame_sp tf.ussp + 8 + 40))
        ≡ true
    context =
        rw
          (
            word 1 (frame_sp tf.ussp + 8 + 8) (omega arith) (omega arith),
            word 2 (frame_sp tf.ussp + 8 + 16) (omega arith) (omega arith),
            word 4 (frame_sp tf.ussp + 8 + 32) (omega arith) (omega arith),
            word 5 (frame_sp tf.ussp + 8 + 40) (omega arith) (omega arith),
          )
          user

    restored :
        sys_sigreturn translate mem'' (some tf')
        ≡ restores (record tf { rflags = sanitize tf.rflags }) 0
    unfolding sys_sigreturn
    restored = rw (popped, frame_ok, context, reloaded)

    -- When the handler of a delivered signal returns and its frame is intact, `sys_sigreturn` writes
    -- every register that the signal interrupted, with the flags sanitized, and answers 0. `syscall_entry`
    -- then stores that answer in `rax` and sets the interrupt flag, before it looks for the next signal: all
    -- registers are back but `rax`, which is 0 whatever it was. The interrupted code was user code at mapped addresses.
    pub sys_sigreturn-deliver :
        (sys_sigreturn translate mem'' (some tf')
          ≡ restores (record tf { rflags = sanitize tf.rflags }) 0)
        × (sigreturn_call translate mem'' tf'
            ≡ some (record tf { rflags = bit_or (sanitize tf.rflags) 0x200; rax = 0 }))
    unfolding sys_sigreturn sigreturn_call finish_call
    sys_sigreturn-deliver = (restored, rw (restored, sigreturn_call) refl)

sanitize_interrupts : (w : ℕ) → bit 9 (sanitize w) ≡ 1
sanitize_interrupts w = omega (
  arith,
  bit-bit_and 9 (bit_or (bit_or w 0x2) 0x200) 0xffff_ffff_ffff_cfff,
  bit-bit_or 9 (bit_or w 0x2) 0x200,
)

sanitize_level : (w : ℕ) → (bit 12 (sanitize w) ≡ 0) × (bit 13 (sanitize w) ≡ 0)
sanitize_level w = (
  omega (arith, bit-bit_and 12 (bit_or (bit_or w 0x2) 0x200) 0xffff_ffff_ffff_cfff),
  omega (arith, bit-bit_and 13 (bit_or (bit_or w 0x2) 0x200) 0xffff_ffff_ffff_cfff),
)

-- `sys_sigreturn` never leaves user mode: whatever a forged frame holds, the selectors that it
-- restores are those of user code and data, interrupts are on, the I/O privilege level is 0, and the
-- instruction and stack pointers are mapped user addresses.
pub sys_sigreturn_user :
    (translate mem : ℕ → ℕ) (tf f : Frame) (result : ℕ)
    → sys_sigreturn translate mem (some tf) ≡ restores f result
    → (f.cs ≡ 0x1b)
      × (f.usss ≡ 0x23)
      × (bit 9 f.rflags ≡ 1)
      × (bit 12 f.rflags ≡ 0)
      × (bit 13 f.rflags ≡ 0)
      × (user_ptr_ok translate f.rip 1 ≡ true)
      × (user_ptr_ok translate f.ussp 1 ≡ true)
unfolding sys_sigreturn
sys_sigreturn_user translate mem tf f result e =
    let flags : f.rflags ≡ sanitize (mem (tf.ussp + 24)) = ground arith in
    (
      ground arith,
      ground arith,
      rw flags (sanitize_interrupts _),
      rw flags (sanitize_level _).0,
      rw flags (sanitize_level _).1,
      ground arith,
      ground arith,
    )
