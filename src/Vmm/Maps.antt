-- ===== src/Vmm/Maps.antt =====
-- What mapping and unmapping a page does to the translations of every address space.
use lnxrm.Base.{
  ℕ, ◌+◌, ◌/◌, ◌%◌, ◌<◌, ◌≡◌, ◌⊎◌, bit_or, Bool, false, refl, sym, arith, ◌∙◌, if◌then◌else◌,
  Option, none, some, inl, inr,
}
use lnxrm.Base.Words.{pos}
use lnxrm.Vmm.{
  Vm, present, frame, i1, store, leaf_entry, outside, vmm_map_user, vmm_translate_in, in_alias,
}
use lnxrm.Vmm.Entries.{leaf_entry-frame, bit_or-offset}
use lnxrm.Vmm.Tree.{IsUser, TablePlace, place, IsTree, descend, walk-descend}
use lnxrm.Vmm.Paths.{Reached, ensure_path-cases}
use lnxrm.Vmm.Written.{written-IsTree, written-elsewhere, written-here}

-- A user address lies below the alias window.
user-in_alias : (va : ℕ) → IsUser va → in_alias va ≡ false
user-in_alias va u = ground arith

user-outside : (va : ℕ) → IsUser va → va % 4096 ≡ 0 → outside va ≡ false
user-outside va u h = ground arith

-- What the descent finds is what the source's translation gives.
pub translated :
    (home : ℕ → Option TablePlace) (s : Vm) (root va : ℕ)
    → IsTree home s
    → IsUser va
    → home root ≡ some (place root 3 0)
    → vmm_translate_in root va s ≡ (
        if present (descend 3 root va s)
        then bit_or (frame (descend 3 root va s)) (va % 4096)
        else 0)
unfolding vmm_translate_in
translated home s root va t u h = rw (user-in_alias va u) (walk-descend home s root va t u h)

-- The state after a page was mapped at `va` in the address space `root`.
pub record Mapped (home : ℕ → Option TablePlace) (s : Vm) (root va pa : ℕ) (s' : Vm) : Type 0 where
  pub home' : ℕ → Option TablePlace
  pub tree : IsTree home' s'
  pub homes : (a : ℕ) (q : TablePlace) → home a ≡ some q → home' a ≡ some q
  pub here : (off : ℕ) → off < 4096 → vmm_translate_in root (va + off) s' ≡ pa + off
  pub elsewhere :
      (r va' : ℕ)
      → IsUser va'
      → home r ≡ some (place r 3 0)
      → (r ≡ root → va' / 4096 ≡ va / 4096 → ⊥)
      → vmm_translate_in r va' s' ≡ vmm_translate_in r va' s

map-Mapped :
    (home : ℕ → Option TablePlace) (s : Vm) (root va pa : ℕ) (w u : Bool) (x : Vm × ℕ)
    → IsTree home s
    → home root ≡ some (place root 3 0)
    → IsUser va
    → va % 4096 ≡ 0
    → pa % 4096 ≡ 0
    → Reached home s root va x
    → Mapped home s root va pa (store x.1 (i1 va) (leaf_entry pa w u) x.0)
map-Mapped home s root va pa w u x tree h user page phys r =
    let v = leaf_entry pa w u in
    let v' = leaf_entry-frame pa w u phys in
    let root' = r.grown.homes root _ h in
    let tree' = written-IsTree r.home' x.0 root va x.1 v r.grown.tree user r.placed in
    record {
      home' = r.home';
      tree = tree';
      homes = r.grown.homes;
      here = λ off b.
          let user' : IsUser (va + off) = (omega arith, omega arith) in
          let same : (va + off) / 4096 ≡ va / 4096 = omega arith in
          let low : (va + off) % 4096 ≡ off = omega arith in
          let found =
            written-here r.home' x.0 root va x.1 v r.grown.tree user r.placed 3 root root (va + off)
              same root' (omega arith) r.path in
          translated r.home' _ root (va + off) tree' user' root'
          ∙ rw (found, v'.0, low, bit_or-offset v off b, v'.1) refl;
      elsewhere = λ q va' u' hq n.
          let q' = r.grown.homes q _ hq in
          let same =
            written-elsewhere r.home' x.0 root va x.1 v r.grown.tree user r.placed 3 q q va'
              (omega arith) u' n q'
            ∙ r.grown.leaves 3 q q va' (omega arith) u' hq in
          translated r.home' _ q va' tree' u' q'
          ∙ rw same refl
          ∙ sym (translated home s q va' tree u' hq);
    }

-- A page is mapped at a page address of the user range, in a tree of tables. Either the allocator runs
-- out of frames for tables, or the call returns 0; then the tables are a tree again, every byte of the
-- page is translated to the byte of the frame, and no other page of this or of another address space is
-- translated otherwise than before.
pub vmm_map_user-Mapped :
    (home : ℕ → Option TablePlace) (s : Vm) (root va pa : ℕ) (w u : Bool)
    → IsTree home s
    → home root ≡ some (place root 3 0)
    → IsUser va
    → va % 4096 ≡ 0
    → pa % 4096 ≡ 0
    → (vmm_map_user root va pa w u s ≡ none)
      ⊎ ((s' : Vm) × (vmm_map_user root va pa w u s ≡ some (s', pos 0))
          × Mapped home s root va pa s')
unfolding vmm_map_user
vmm_map_user-Mapped home s root va pa w u tree h user page phys =
    let in_range = user-outside va user page in
    elim (ensure_path-cases home s root va user tree h) [
      | inl e ↦ inl (rw (in_range, e) refl)
      | inr (x, e, r) ↦ inr (
        store x.1 (i1 va) (leaf_entry pa w u) x.0,
        rw (in_range, e) refl,
        map-Mapped home s root va pa w u x tree h user page phys r,
      )
    ]
