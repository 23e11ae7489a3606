-- ===== src/Vmm.antt =====
-- Virtual memory (kernel/mm/vmm.c): page tables of four levels. Physical memory is a function from the
-- address of a frame and the index of a 64-bit word in it; a table is a frame, and entry `i` of it the
-- word `i`. Frames come from the frame allocator. The panic on an empty allocator is `none`. The masks
-- with PG_P, PG_PS and ~0xfff are written as the digits and quotients they select.
mod Entries
pub mod Tree
pub mod Grown
pub mod Grow
pub mod Ensure
pub mod Paths
pub mod Written
pub mod Maps
pub mod Unmaps
pub mod Spaces
pub mod Brk
pub mod Tests
use lnxrm.Base.{
  ℕ, zero, suc, ◌+◌, ◌-◌, ◌*◌, ◌/◌, ◌%◌, ◌^◌, bit_or, Bool, true, false, not, ◌&&◌, ◌||◌, Option,
  none, some, ltb, leb, ◌==◌, if◌then◌else◌,
}
use lnxrm.Base.Words.{ℤ, pos, negsuc, add64, sub64}
use lnxrm.Uaccess.{user_base, user_max_vma}
use lnxrm.Pmm.{Pmm, pmm_alloc_order, pmm_free_order}

abbrev pub pg_p : ℕ
pg_p = 0x001

abbrev pub pg_w : ℕ
pg_w = 0x002

abbrev pub pg_u : ℕ
pg_u = 0x004

abbrev pub alias_base : ℕ
alias_base = 0xffff_ffff_8000_0000

abbrev pub user_slot : ℕ
user_slot = 255

pub record Vm : Type 0 where
  pub pmm : Pmm
  pub words : ℕ → ℕ → ℕ

-- e & PG_P, e & PG_PS and e & ~0xfff.
unfoldable pub present : ℕ → Bool
present e = e % 2 == 1

unfoldable pub large : ℕ → Bool
large e = e / 128 % 2 == 1

pub frame : ℕ → ℕ
frame e = e / 4096 * 4096

-- The index of an address in the tables of the four levels, from the lowest one.
unfoldable pub i1 : ℕ → ℕ
i1 va = va / 2 ^ 12 % 512

unfoldable pub i2 : ℕ → ℕ
i2 va = va / 2 ^ 21 % 512

unfoldable pub i3 : ℕ → ℕ
i3 va = va / 2 ^ 30 % 512

unfoldable pub i4 : ℕ → ℕ
i4 va = va / 2 ^ 39 % 512

-- One word of memory written.
pub store : ℕ → ℕ → ℕ → Vm → Vm
store a i v s = record s { words = λ b j. if a == b && i == j then v else s.words b j }

-- A frame filled with zeros.
pub clear_page : ℕ → Vm → Vm
clear_page a s = record s { words = λ b j. if a == b then 0 else s.words b j }

-- A frame for a table: the state with the frame taken and cleared, and its address.
unfoldable pub new_table : Vm → Option (Vm × ℕ)
new_table s =
    let (q, t) = pmm_alloc_order 0 s.pmm in
    if t == 0 then none else some (clear_page t (record s { pmm = q }), t)

-- The new entry of a parent that has got a table.
pub link : ℕ → ℕ → ℕ → Vm × ℕ → Vm × ℕ
link parent i extra (s, t) = (store parent i (bit_or (bit_or (bit_or t pg_p) pg_w) extra) s, t)

unfoldable pub ensure_table : ℕ → ℕ → ℕ → Vm → Option (Vm × ℕ)
ensure_table parent i extra s =
    if present (s.words parent i)
    then some (s, frame (s.words parent i))
    else elim (new_table s) [ none ↦ none | some r ↦ some (link parent i extra r) ]

infixl 5 ◌>>=◌
abbrev pub ◌>>=◌ : {B : Type 0} → Option (Vm × ℕ) → (Vm × ℕ → Option B) → Option B
none >>= k = none
some r >>= k = k r

-- The entry of a page.
pub leaf_entry : ℕ → Bool → Bool → ℕ
leaf_entry pa writable user =
    bit_or (bit_or (bit_or pa pg_p) (if writable then pg_w else 0)) (if user then pg_u else 0)

abbrev pub outside : ℕ → Bool
outside va = ltb va user_base || leb user_max_vma va || not (va % 4096 == 0)

-- The three tables below the root, made as needed.
unfoldable pub ensure_path : ℕ → ℕ → Vm → Option (Vm × ℕ)
ensure_path root va s = do
  r ← ensure_table root (i4 va) pg_u s
  q ← ensure_table r.1 (i3 va) pg_u r.0
  ensure_table q.1 (i2 va) pg_u q.0

unfoldable pub vmm_map_user : ℕ → ℕ → ℕ → Bool → Bool → Vm → Option (Vm × ℤ)
vmm_map_user root va pa writable user s = if outside va then some (s, negsuc 0) else (do
  r ← ensure_path root va s
  some (store r.1 (i1 va) (leaf_entry pa writable user) r.0, pos 0))

-- Where a walk ends: nowhere, at a page of 2 MiB, or at an entry of the last level.
pub data Walk : Type 0 where
  missing : Walk
  big_leaf : ℕ → Walk
  slot : ℕ → ℕ → Walk

unfoldable pub walk : ℕ → ℕ → Vm → Walk
walk root va s =
    let e4 = s.words root (i4 va) in
    let e3 = s.words (frame e4) (i3 va) in
    let e2 = s.words (frame e3) (i2 va) in
    if not (present e4)
    then missing
    else if not (present e3)
    then missing
    else if not (present e2)
    then missing
    else if large e2
    then big_leaf e2
    else slot (frame e2) (i1 va)

-- The alias window test, in 64-bit words: the sum on the right wraps.
abbrev pub in_alias : ℕ → Bool
in_alias va = leb alias_base va && ltb va (add64 alias_base 0x1_0000_0000)

unfoldable pub translate_walk : Walk → ℕ → Vm → ℕ
translate_walk missing va s = 0
translate_walk (big_leaf e) va s =
    if present e then bit_or (e / 0x20_0000 * 0x20_0000) (va % 0x20_0000) else 0
translate_walk (slot a i) va s =
    if present (s.words a i) then bit_or (frame (s.words a i)) (va % 4096) else 0

unfoldable pub vmm_translate_in : ℕ → ℕ → Vm → ℕ
vmm_translate_in root va s =
    if in_alias va then sub64 va alias_base else translate_walk (walk root va s) va s

-- A page of 2 MiB is cleared in the table of the second level, which the walk went through.
unfoldable pub unmap_walk : Walk → ℕ → ℕ → Vm → Vm × ℕ
unmap_walk missing root va s = (s, 0)
unmap_walk (big_leaf e) root va s =
    let pd = frame (s.words (frame (s.words root (i4 va))) (i3 va)) in
    if present e then (store pd (i2 va) 0 s, s.words pd (i2 va) / 0x20_0000 * 0x20_0000) else (s, 0)
unmap_walk (slot a i) root va s =
    if present (s.words a i) then (store a i 0 s, frame (s.words a i)) else (s, 0)

unfoldable pub vmm_unmap_user : ℕ → ℕ → Vm → Vm × ℕ
vmm_unmap_user root va s = unmap_walk (walk root va s) root va s

-- The entries of the kernel's own root, all but the user slot.
pub copy_kernel : ℕ → ℕ → Vm → Vm
copy_kernel root master s = record s {
  words = λ b j.
      if root == b && ltb j 512 && not (j == user_slot) then s.words master j else s.words b j;
}

unfoldable pub vmm_new_user_aspace : ℕ → Vm → Option (Vm × ℕ)
vmm_new_user_aspace master s = do r ← new_table s; some (copy_kernel r.1 master r.0, r.1)
