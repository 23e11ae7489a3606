-- ===== src/Vmm/Brk.antt =====
-- The system call brk (kernel/syscall.c): pages are mapped or unmapped one by one at the end of the
-- data of the calling process.
pub mod Grows
mod Tests
use lnxrm.Base.{
  ℕ, zero, suc, ◌+◌, ◌-◌, ◌*◌, ◌/◌, ◌%◌, ◌^◌, Bool, true, false, ◌&&◌, ◌||◌, Option, none, some,
  ltb, leb, ◌==◌, if◌then◌else◌, update,
}
use lnxrm.Base.Words.{ℤ, pos, negsuc, align_up}
use lnxrm.Pmm.{Pmm, pmm_alloc_order, pmm_free_order}
use lnxrm.Vmm.{Vm, clear_page, vmm_map_user, vmm_unmap_user}

abbrev pub user_stack_top : ℕ
user_stack_top = 0x7fff_ffbf_f000

abbrev pub enomem : ℤ
enomem = negsuc 11

-- The outcome of mapping some pages: all of them, an empty allocator after some, or a panic.
pub data BrkGrowth : Type 0 where
  grown : Vm → BrkGrowth
  out_of_memory : Vm → BrkGrowth
  panic : BrkGrowth

-- The page that `vmm_map_user` was called for is not looked at, only that the kernel goes on.
pub after_map : Option (Vm × ℤ) → (Vm → BrkGrowth) → BrkGrowth
after_map none k = panic
after_map (some r) k = k r.0

-- `n` pages from `va` on.
pub grow_pages : ℕ → ℕ → ℕ → Vm → BrkGrowth
grow_pages zero va root s = grown s
grow_pages (suc n) va root s =
    let (q, pa) = pmm_alloc_order 0 s.pmm in
    let s₁ = clear_page pa (record s { pmm = q }) in
    elim (pa == 0) [
      | true ↦ out_of_memory (record s { pmm = q })
      | false ↦
          after_map (vmm_map_user root va pa true true s₁) (λ s₂. grow_pages n (va + 4096) root s₂)
    ]

pub free_page : Vm × ℕ → Vm
free_page (s, pa) = if pa == 0 then s else record s { pmm = pmm_free_order pa 0 s.pmm }

pub shrink_pages : ℕ → ℕ → ℕ → Vm → Vm
shrink_pages zero va root s = s
shrink_pages (suc n) va root s =
    let rest = shrink_pages n (va + 4096) root (free_page (vmm_unmap_user root va s)) in rest

-- The address space and the end of the data of the caller.
pub record Caller : Type 0 where
  pub pml4 : ℕ
  pub brk_base : ℕ
  pub brk_cur : ℕ

-- The state, the caller and the result; `none` is the panic.
pub after_growth : ℕ → Caller → BrkGrowth → Option (Vm × Caller × ℤ)
after_growth newbrk c (grown s) = some (s, record c { brk_cur = newbrk }, pos newbrk)
after_growth newbrk c (out_of_memory s) = some (s, c, enomem)
after_growth newbrk c panic = none

unfoldable pub sys_brk : ℕ → Caller → Vm → Option (Vm × Caller × ℤ)
sys_brk newbrk c s =
    let old = align_up c.brk_cur 4096 in
    let tgt = align_up newbrk 4096 in
    if newbrk == 0
    then some (s, c, pos c.brk_cur)
    else if ltb newbrk c.brk_base || ltb (user_stack_top - 0x10_0000) newbrk
    then some (s, c, enomem)
    else if ltb old tgt
    then after_growth newbrk c (grow_pages ((tgt - old) / 4096) old c.pml4 s)
    else after_growth newbrk c (grown (shrink_pages ((old - tgt) / 4096) tgt c.pml4 s))
