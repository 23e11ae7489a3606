-- ===== src/Syscall/Pack.antt =====
-- A set of signals as a word and back.
use lnxrm.Base.{
  ℕ, zero, suc, ◌+◌, ◌*◌, ◌/◌, ◌<◌, ◌≡◌, Bool, inl, inr, arith, if◌then◌else◌, Bool-cases,
}
use lnxrm.Syscall.{pack_from, has_bit}

pub bit-pack_from : (n i k : ℕ) (f : ℕ → Bool) → k < n → has_bit (pack_from n i f) k ≡ f (i + k)
unfolding pack_from
bit-pack_from zero i k f h = absurd (omega arith)
bit-pack_from (suc n) i zero f h =
    let here : i + 0 ≡ i = omega arith in
    elim (Bool-cases (f i)) [
      | inl e ↦ rw (here, e) (ground arith)
      | inr e ↦ rw (here, e) (ground arith)
    ]
bit-pack_from (suc n) i (suc k) f h =
    let half : ((if f i then 1 else 0) + 2 * pack_from n (i + 1) f) / 2 ≡ pack_from n (i + 1) f =
      ground arith in
    let next : i + suc k ≡ i + 1 + k = omega arith in
    rw (half, next) (bit-pack_from n (i + 1) k f (omega arith))
