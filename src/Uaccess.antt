-- ===== src/Uaccess.antt =====
-- kernel/task.c and kernel/mm/vmm.c: which user addresses the kernel accepts, and the copies that it
-- makes from and to user memory. `translate` is `vmm_translate_in(current->pml4, _)`, which gives 0
-- for a page that is not mapped.
pub mod Accepts
pub mod Copies
mod Tests
use lnxrm.Base.{
  ℕ, zero, suc, ◌+◌, ◌-◌, ◌*◌, ◌/◌, ◌^◌, ◌%◌, Bool, true, false, not, ◌&&◌, ◌||◌, List, [], ◌∷◌,
  ◌++◌, ◌==◌, ltb, leb, if◌then◌else◌, Option, none, some, update, take,
}
use lnxrm.Base.Words.{add64, align_down}

abbrev pub user_base : ℕ
user_base = 0x7f80_0000_0000

abbrev pub user_max_vma : ℕ
user_max_vma = 0x7fff_ffff_f000

abbrev pub vmm_is_user_range : ℕ → ℕ → Bool
vmm_is_user_range lo hi = leb user_base lo && leb hi user_max_vma && ltb lo hi

-- The loop over the pages from `pg` on, with `n` pages left.
unfoldable pub pages_mapped : (ℕ → ℕ) → ℕ → ℕ → Bool
pages_mapped translate zero pg = true
pages_mapped translate (suc n) pg = not (translate pg == 0) && pages_mapped translate n (pg + 4096)

-- `for (pg = lo; pg <= hi; pg += 4096)` with both ends page aligned.
unfoldable pub page_count : ℕ → ℕ → ℕ
page_count p n = (align_down (p + n - 1) 4096 - align_down p 4096) / 4096 + 1

unfoldable pub user_ptr_ok : (ℕ → ℕ) → ℕ → ℕ → Bool
user_ptr_ok translate p n =
    if n == 0 || not (vmm_is_user_range p (add64 p n))
    then false
    else pages_mapped translate (page_count p n) (align_down p 4096)

-- The bytes of memory from `a` on.
pub load_bytes : (ℕ → ℕ) → ℕ → ℕ → List ℕ
load_bytes mem a zero = []
load_bytes mem a (suc n) = mem a ∷ load_bytes mem (a + 1) n

-- `none` is LNXRM_EFAIL.
pub copy_from_user : (ℕ → ℕ) → (ℕ → ℕ) → ℕ → ℕ → Option (List ℕ)
copy_from_user translate mem src n =
    if user_ptr_ok translate src n then some (load_bytes mem src n) else none

pub store_bytes : (ℕ → ℕ) → ℕ → List ℕ → ℕ → ℕ
store_bytes mem a [] = mem
store_bytes mem a (b ∷ bs) = store_bytes (update mem a b) (a + 1) bs

-- The check of `copy_to_user` is that of `user_ptr_ok`, written out there once more.
pub copy_to_user : (ℕ → ℕ) → (ℕ → ℕ) → ℕ → List ℕ → ℕ → Option (ℕ → ℕ)
copy_to_user translate mem dst bs n =
    if user_ptr_ok translate dst n then some (store_bytes mem dst bs) else none

abbrev pub push_byte : ℕ → Option (List ℕ) → Option (List ℕ)
push_byte b none = none
push_byte b (some bs) = some (b ∷ bs)

-- The loop of `copy_user_str` with `n` rounds left: the bytes in front of the first NUL.
pub copy_str : (ℕ → ℕ) → (ℕ → ℕ) → ℕ → ℕ → Option (List ℕ)
copy_str translate mem zero src = some []
copy_str translate mem (suc n) src =
    let rest = copy_str translate mem n (add64 src 1) in
    elim (copy_from_user translate mem src 1) [
      | none ↦ none
      | some _ ↦ if mem src == 0 then some [] else push_byte (mem src) rest
    ]

-- `kdst[max - 1] = 0` cuts a string that fills the whole buffer.
pub copy_user_str : (ℕ → ℕ) → (ℕ → ℕ) → ℕ → ℕ → Option (List ℕ)
copy_user_str translate mem src zero = none
copy_user_str translate mem src (suc n) = elim (copy_str translate mem (suc n) src) [
  | none ↦ none
  | some bs ↦ some (take n bs)
]
