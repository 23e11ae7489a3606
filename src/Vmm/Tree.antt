-- ===== src/Vmm/Tree.antt =====
-- The tables of the address spaces as trees: each table has one place, in one address space.
use lnxrm.Base.{
  ℕ, zero, suc, ◌+◌, ◌*◌, ◌/◌, ◌%◌, ◌^◌, ◌≤◌, ◌<◌, ◌≡◌, bit_or, true, false, refl, ap, arith, ◌∙◌,
  if◌then◌else◌, Option, some, Bool-cases, inl, inr,
}
use lnxrm.Uaccess.{user_base, user_max_vma}
use lnxrm.Pmm.Amounts.{covers}
use lnxrm.Pmm.Valid.{IsValid}
use lnxrm.Vmm.{Vm, present, large, frame, i1, i2, i3, i4, walk, translate_walk}

-- An address that user mappings may have.
abbrev pub IsUser : ℕ → Type 0
IsUser va = (user_base ≤ va) × (va < user_max_vma)

-- The root of the address space, the level above the lowest tables, and the part of an address above
-- those that the table resolves.
pub data TablePlace : Type 0 where
  place : ℕ → ℕ → ℕ → TablePlace

-- The index that an address has in a table of a level.
abbrev pub idx : ℕ → ℕ → ℕ
idx zero va = i1 va
idx (suc zero) va = i2 va
idx (suc (suc zero)) va = i3 va
idx (suc (suc (suc l))) va = i4 va

abbrev pub pre : ℕ → ℕ → ℕ
pre zero va = va / 2 ^ 21
pre (suc zero) va = va / 2 ^ 30
pre (suc (suc zero)) va = va / 2 ^ 39
pre (suc (suc (suc l))) va = 0

-- Only the user slot of a root belongs to the tree.
abbrev pub InTree : ℕ → ℕ → Type 0
InTree l i = l ≡ 3 → i ≡ 255

-- `home` gives each table its place. Tables are not free; an entry that is present above the lowest
-- level leads to the table of the place below, not to a page of 2 MiB.
pub record IsTree (home : ℕ → Option TablePlace) (s : Vm) : Type 0 where
  pub valid : IsValid s.pmm
  pub based : 0 < s.pmm.base_addr
  pub used : (a : ℕ) (q : TablePlace) → home a ≡ some q → covers a s.pmm ≡ 0
  pub edge :
      (a i r l p : ℕ)
      → home a ≡ some (place r (suc l) p)
      → InTree (suc l) i
      → present (s.words a i) ≡ true
      → (home (frame (s.words a i)) ≡ some (place r l (p * 512 + i)))
        × (large (s.words a i) ≡ false)

-- The entry of the lowest level for an address, from a table of level `l` on; 0 if a table is missing.
unfoldable pub descend : ℕ → ℕ → ℕ → Vm → ℕ
descend zero a va s = s.words a (i1 va)
descend (suc l) a va s =
    let rest = descend l (frame (s.words a (idx (suc l) va))) va s in
    if present (s.words a (idx (suc l) va)) then rest else 0

-- Every user address lies in the user slot.
pub InTree-user : (l va : ℕ) → IsUser va → InTree (suc l) (idx (suc l) va)
unfolding i4
InTree-user zero va h e = absurd (omega arith)
InTree-user (suc zero) va h e = absurd (omega arith)
InTree-user (suc (suc l)) va h e = omega arith

pub pre-idx : (l va : ℕ) → l < 3 → IsUser va → pre (suc l) va * 512 + idx (suc l) va ≡ pre l va
unfolding i1 i2 i3 i4
pre-idx zero va b h = omega arith
pre-idx (suc zero) va b h = omega arith
pre-idx (suc (suc zero)) va b h = omega arith
pre-idx (suc (suc (suc l))) va b h = absurd (omega arith)

-- The step from a table on the path of an address to the next one.
pub next_place :
    (home : ℕ → Option TablePlace) (s : Vm) (a r l va : ℕ)
    → IsTree home s
    → IsUser va
    → l < 3
    → home a ≡ some (place r (suc l) (pre (suc l) va))
    → present (s.words a (idx (suc l) va)) ≡ true
    → home (frame (s.words a (idx (suc l) va))) ≡ some (place r l (pre l va))
next_place home s a r l va t u b h e =
    (t.edge a _ r l _ h (InTree-user l va u) e).0 ∙ ap (λ p. some (place r l p)) (pre-idx l va b u)

pub zero_missing : present 0 ≡ false
unfolding present
zero_missing = refl

-- What a walk of the source's kind finds is what the descent finds.
pub walk-descend :
    (home : ℕ → Option TablePlace) (s : Vm) (root va : ℕ)
    → IsTree home s
    → IsUser va
    → home root ≡ some (place root 3 0)
    → translate_walk (walk root va s) va s ≡ (
        if present (descend 3 root va s)
        then bit_or (frame (descend 3 root va s)) (va % 4096)
        else 0)
unfolding walk translate_walk descend
walk-descend home s root va t u h = elim (Bool-cases (present (s.words root (i4 va)))) [
  | inl e4 ↦
      let h3 = next_place home s root root 2 va t u (omega arith) h e4 in
      elim (Bool-cases (present (s.words (frame (s.words root (i4 va))) (i3 va)))) [
        | inl e3 ↦
            let h2 = next_place home s _ root 1 va t u (omega arith) h3 e3 in
            elim (Bool-cases (
              present (s.words (frame (s.words (frame (s.words root (i4 va))) (i3 va))) (i2 va)))) [
                | inl e2 ↦
                    let small = (t.edge _ _ root 0 _ h2 (InTree-user 0 va u) e2).1 in
                    rw (e4, walk, e3, walk, e2, walk, small, walk) refl
                | inr e2 ↦ rw (e4, walk, e3, walk, e2, walk) (rw zero_missing refl)
              ]
        | inr e3 ↦ rw (e4, walk, e3, walk) (rw zero_missing refl)
      ]
  | inr e4 ↦ rw (e4, walk) (rw zero_missing refl)
]
