-- ===== src/Uaccess/Copies.antt =====
-- What `copy_user_str` hands to the kernel.
use lnxrm.Base.{
  ℕ, ap, ap₂, ◌∙◌, leb, length-take, zero, suc, ◌+◌, ◌^◌, ◌≤◌, ◌<◌, ◌≡◌, ◌≢◌, refl, ◌⊎◌, inl, inr,
  true, some, List, [], ◌∷◌, arith, Bool-cases, Option-cases, length, take,
}
use lnxrm.Base.Words.{add64}
use lnxrm.Uaccess.{user_ptr_ok, load_bytes, copy_from_user, copy_str, copy_user_str}
use lnxrm.Uaccess.Accepts.{user_ptr_ok_iff}

-- The kernel's copy `bs` of the string at `src`: its bytes are those of user memory, none is NUL,
-- and it ends at a NUL or after `n` bytes.
pub record IsString (mem : ℕ → ℕ) (src n : ℕ) (bs : List ℕ) : Type 0 where
  pub bytes : bs ≡ load_bytes mem src (length bs)
  pub ends : (mem (src + length bs) ≡ 0) ⊎ (length bs ≡ n)
  pub fits : length bs ≤ n

abbrev pub NoZero : List ℕ → Type 0
NoZero [] = Unit {0}
NoZero (b ∷ bs) = (b ≢ 0) × NoZero bs

no_wrap :
    (translate : ℕ → ℕ) (src : ℕ)
    → src < 2 ^ 64
    → user_ptr_ok translate src 1 ≡ true
    → add64 src 1 ≡ src + 1
no_wrap translate src b h =
    let r = (user_ptr_ok_iff translate src 1 b (omega arith)).0 h in omega (arith, r.below)

copy_str-IsString :
    (translate mem : ℕ → ℕ) (n src : ℕ) (bs : List ℕ)
    → src < 2 ^ 64
    → copy_str translate mem n src ≡ some bs
    → IsString mem src n bs × NoZero bs
unfolding copy_str copy_from_user load_bytes
copy_str-IsString translate mem zero src [] b e =
    (record { bytes = refl; ends = inr refl; fits = omega arith }, tt)
copy_str-IsString translate mem zero src (x ∷ bs) b e = absurd (ground arith)
copy_str-IsString translate mem (suc n) src [] b e =
    let same : src + 0 ≡ src = omega arith in
    let stop : mem src ≡ 0 = ground arith in
    (record { bytes = refl; ends = inl (rw same stop); fits = omega arith }, tt)
copy_str-IsString translate mem (suc n) src (x ∷ bs) b e =
    let ok : user_ptr_ok translate src 1 ≡ true = ground arith in
    let next = no_wrap translate src b ok in
    let below : src + 1 < 2 ^ 64 = omega arith in
    let raw : copy_str translate mem n (add64 src 1) ≡ some bs = ground arith in
    let rest : copy_str translate mem n (src + 1) ≡ some bs = rw next at raw in
    let (r, z) = copy_str-IsString translate mem n (src + 1) bs below rest in
    let same : src + suc (length bs) ≡ src + 1 + length bs = omega arith in
    let first : x ≡ mem src = ground arith in
    (
      record {
        bytes = ap₂ ◌∷◌ first r.bytes;
        ends = elim r.ends [ inl z ↦ inl (rw same z) | inr f ↦ inr (ap suc f) ];
        fits = omega (arith, r.fits);
      },
      (ground arith, z),
    )

take-load_bytes :
    (mem : ℕ → ℕ) (src n m : ℕ) → n ≤ m → take n (load_bytes mem src m) ≡ load_bytes mem src n
unfolding load_bytes
take-load_bytes mem src zero m h = refl
take-load_bytes mem src (suc n) zero h = absurd (omega arith)
take-load_bytes mem src (suc n) (suc m) h =
    ap (◌∷◌ (mem src)) (take-load_bytes mem (src + 1) n m (omega arith))

NoZero-take : (n : ℕ) (bs : List ℕ) → NoZero bs → NoZero (take n bs)
NoZero-take zero bs z = tt
NoZero-take (suc n) [] z = tt
NoZero-take (suc n) (b ∷ bs) z = (z.0, NoZero-take n bs z.1)

take_all : (n : ℕ) (bs : List ℕ) → length bs ≤ n → take n bs ≡ bs
take_all zero [] h = refl
take_all zero (b ∷ bs) h = absurd (omega arith)
take_all (suc n) [] h = refl
take_all (suc n) (b ∷ bs) h = ap (◌∷◌ b) (take_all n bs (omega arith))

IsString-take :
    (mem : ℕ → ℕ) (src n : ℕ) (bs : List ℕ)
    → IsString mem src (suc n) bs
    → IsString mem src n (take n bs)
IsString-take mem src n bs r = elim (Bool-cases (leb (length bs) n)) [
  | inl h ↦ rw (take_all n bs (ground arith)) (record {
    bytes = r.bytes;
    ends = elim r.ends [ inl z ↦ inl z | inr f ↦ absurd (ground arith) ];
    fits = ground arith;
  })
  | inr h ↦
      let full : length bs ≡ suc n = ground (arith, r.fits) in
      let short : length (take n bs) ≡ n = omega (arith, length-take n bs) in
      record {
        bytes =
            rw short
              (ap (take n) r.bytes ∙ rw full (take-load_bytes mem src n (suc n) (omega arith)));
        ends = inr short;
        fits = omega arith;
      }
]

-- When it succeeds, `copy_user_str` yields bytes of user memory from `src` on, none of them NUL, that
-- end at the first NUL there or, for a string that does not fit, after one byte less than the buffer holds.
pub copy_user_str_lem :
    (translate mem : ℕ → ℕ) (src n : ℕ) (bs : List ℕ)
    → src < 2 ^ 64
    → copy_user_str translate mem src (suc n) ≡ some bs
    → IsString mem src n bs × NoZero bs
unfolding copy_user_str
copy_user_str_lem translate mem src n bs b e =
    elim (Option-cases (copy_str translate mem (suc n) src)) [
      | inl f ↦ absurd (ground arith)
      | inr (cs, f) ↦
          let (r, z) = copy_str-IsString translate mem (suc n) src cs b f in
          let same : take n cs ≡ bs = ground arith in
          rw (← same) (IsString-take mem src n cs r, NoZero-take n cs z)
    ]
