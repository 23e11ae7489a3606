-- ===== src/Vmm/Brk/Tests.antt =====
-- A page more for a process.
use lnxrm.Base.{◌≡◌, refl, arith, Option, none, some}
use lnxrm.Base.Words.{ℤ, pos}
use lnxrm.Pmm.{
  size, push, bit_set, put, index, pmm_alloc_order, pmm_free_order, take_block, split, withdraw,
  bit_clr, find_order, coalesce, merges, bit_get, buddy_of,
}
use lnxrm.Vmm.{
  Vm, vmm_map_user, ensure_path, ensure_table, new_table, link, store, clear_page, present, frame,
  i1, i2, i3, i4, leaf_entry,
}
use lnxrm.Vmm.Tests.{root, start, home, start-IsTree}
use lnxrm.Vmm.Brk.{Caller, sys_brk, grow_pages, after_map, after_growth}
use lnxrm.Vmm.Brk.Grows.{Extended, sys_brk-Extended}

-- A process whose data ends at 4 MiB of the user range.
abbrev caller : Caller
caller = record { pml4 = root; brk_base = 0x7f80_0040_0000; brk_cur = 0x7f80_0040_0000 }

abbrev longer : Caller
longer = record caller { brk_cur = 0x7f80_0040_0800 }

abbrev answer : Option (Vm × Caller × ℤ) → Option (Caller × ℤ)
answer none = none
answer (some (s, c, z)) = some (c, z)

abbrev state_of : Option (Vm × Caller × ℤ) → Vm
state_of none = start
state_of (some (s, c, z)) = s

from_answer :
    (o : Option (Vm × Caller × ℤ)) (c : Caller) (z : ℤ)
    → answer o ≡ some (c, z)
    → o ≡ some (state_of o, c, z)
from_answer none c z e = cc
from_answer (some (s, c₀, z₀)) c z e = ground arith

answered : answer (sys_brk 0x7f80_0040_0800 caller start) ≡ some (longer, pos 0x7f80_0040_0800)
unfolding sys_brk grow_pages after_map after_growth vmm_map_user ensure_path ensure_table new_table
    link store clear_page present frame i1 i2 i3 i4 leaf_entry pmm_alloc_order pmm_free_order
    coalesce merges bit_get put index push bit_set take_block split withdraw bit_clr find_order size
    buddy_of
answered = refl

sys_brk-Extended_example :
    (longer ≡ longer)
    × Extended home start root 0x7f80_0040_0000 1 (state_of (sys_brk 0x7f80_0040_0800 caller start))
sys_brk-Extended_example =
    sys_brk-Extended home start _ caller longer 0x7f80_0040_0800 start-IsTree refl (omega arith)
      (omega arith) (omega arith) (omega arith) (omega arith) (omega arith)
      (from_answer _ longer (pos 0x7f80_0040_0800) answered)
