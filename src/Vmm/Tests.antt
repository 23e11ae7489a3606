-- ===== src/Vmm/Tests.antt =====
-- Page tables over a small window of free frames.
use lnxrm.Base.{
  ℕ, ◌≡◌, ◌⊎◌, refl, sym, ap, arith, ◌∙◌, true, Option, none, some, ◌==◌, if◌then◌else◌, [],
}
use lnxrm.Base.Words.{pos}
use lnxrm.Pmm.{blank_window, size}
use lnxrm.Pmm.Amounts.{covers}
use lnxrm.Pmm.Tests.{whole, whole-IsValid, covers-whole}
use lnxrm.Vmm.{Vm, vmm_map_user, vmm_unmap_user, vmm_new_user_aspace}
use lnxrm.Vmm.Tree.{IsTree, TablePlace, place, zero_missing}
use lnxrm.Vmm.Grow.{true-ne-false}
use lnxrm.Pmm.Free.{pmm_free_order_window}
use lnxrm.Vmm.Maps.{Mapped, vmm_map_user-Mapped}
use lnxrm.Vmm.Unmaps.{Unmapped, vmm_unmap_user-Unmapped}
use lnxrm.Vmm.Spaces.{SpaceOpened, vmm_new_user_aspace-SpaceOpened}

-- A root at 2 MiB, outside the window, with no entry.
abbrev pub root : ℕ
root = 0x200000

abbrev pub start : Vm
start = record { pmm = whole; words = λ a i. 0 }

abbrev pub home : ℕ → Option TablePlace
home a = if root == a then some (place root 3 0) else none

outside_window : covers root whole ≡ 0
unfolding size
outside_window = covers-whole root

home_is_root : (a : ℕ) (q : TablePlace) → home a ≡ some q → root ≡ a
home_is_root a q e = ground arith

pub start-IsTree : IsTree home start
start-IsTree = record {
  valid = whole-IsValid;
  based = omega (arith, pmm_free_order_window 0x100000 2 (blank_window 0x100000 0x104000 [] 4));
  used = λ a q e. ap (λ k. covers k whole) (sym (home_is_root a q e)) ∙ outside_window;
  edge = λ a i r l p e c g. absurd (true-ne-false (sym g ∙ zero_missing));
}

vmm_map_user-Mapped_example :
    (vmm_map_user root 0x7f80_0040_0000 0x30_0000 true true start ≡ none)
    ⊎ ((s' : Vm) × (vmm_map_user root 0x7f80_0040_0000 0x30_0000 true true start ≡ some (s', pos 0))
        × Mapped home start root 0x7f80_0040_0000 0x30_0000 s')
vmm_map_user-Mapped_example =
    vmm_map_user-Mapped home start root 0x7f80_0040_0000 0x30_0000 true true start-IsTree refl
      (omega arith, omega arith) refl refl

vmm_unmap_user-Unmapped_example :
    Unmapped home start root 0x7f80_0040_0000
      (vmm_unmap_user root 0x7f80_0040_0000 start).0
      (vmm_unmap_user root 0x7f80_0040_0000 start).1
vmm_unmap_user-Unmapped_example =
    vmm_unmap_user-Unmapped home start root 0x7f80_0040_0000 start-IsTree refl
      (omega arith, omega arith) refl

vmm_new_user_aspace-SpaceOpened_example :
    (vmm_new_user_aspace root start ≡ none)
    ⊎ ((s' : Vm) × (r : ℕ) × (vmm_new_user_aspace root start ≡ some (s', r))
        × SpaceOpened home start root r s')
vmm_new_user_aspace-SpaceOpened_example =
    vmm_new_user_aspace-SpaceOpened home start root start-IsTree outside_window
