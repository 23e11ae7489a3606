-- ===== src/Vmm/Ensure.antt =====
-- Making the tables on the path of an address changes no translation.
use lnxrm.Base.{
  ℕ, suc, ◌+◌, ◌*◌, ◌≡◌, ◌⊎◌, true, refl, ap, arith, ◌∙◌, ◌==◌, Option, none, some, Bool-cases, inl,
  inr,
}
use lnxrm.Pmm.{pmm_alloc_order}
use lnxrm.Vmm.{Vm, present, frame, new_table, link, ensure_table, pg_u}
use lnxrm.Vmm.Entries.{table_entry-frame}
use lnxrm.Vmm.Grown.{Grown, Grown-same, alloc-IsFresh}
use lnxrm.Vmm.Grow.{new_home, home_of_t, new_entry, hang_table-Grown, hang_table}
use lnxrm.Vmm.Tree.{TablePlace, place, InTree, IsTree}

-- What `ensure_table` leaves when it does not run out of frames.
pub record Made (home : ℕ → Option TablePlace) (s : Vm) (a i : ℕ) (q : TablePlace) (r : Vm × ℕ)
    : Type 0 where
  pub home' : ℕ → Option TablePlace
  pub grown : Grown home s home' r.0
  pub placed : home' r.1 ≡ some q
  pub linked : (present (r.0.words a i) ≡ true) × (frame (r.0.words a i) ≡ r.1)

pub ensure_table-cases :
    (home : ℕ → Option TablePlace) (s : Vm) (a i r l p : ℕ)
    → IsTree home s
    → home a ≡ some (place r (suc l) p)
    → InTree (suc l) i
    → (ensure_table a i pg_u s ≡ none)
      ⊎ ((x : Vm × ℕ) × (ensure_table a i pg_u s ≡ some x)
          × Made home s a i (place r l (p * 512 + i)) x)
unfolding ensure_table new_table link hang_table
ensure_table-cases home s a i r l p tree h b = elim (Bool-cases (present (s.words a i))) [
  | inl e ↦ inr (
    (s, frame (s.words a i)),
    rw (e, ensure_table) refl,
    record {
      home' = home;
      grown = Grown-same home s tree;
      placed = (tree.edge a i r l p h b e).0;
      linked = (e, refl);
    },
  )
  | inr e ↦ elim (Bool-cases ((pmm_alloc_order 0 s.pmm).1 == 0)) [
    | inl z ↦ inl (rw (e, ensure_table) (rw (z, new_table) refl))
    | inr z ↦
        let t = (pmm_alloc_order 0 s.pmm).1 in
        let q = (pmm_alloc_order 0 s.pmm).0 in
        let fresh = alloc-IsFresh s tree.valid (ground arith) in
        let e' = table_entry-frame t fresh.aligned in
        let word = new_entry home s a i r l p t q tree fresh h b e in
        inr (
          (hang_table a i q t s, t),
          rw (e, ensure_table) (rw (z, new_table) refl),
          record {
            home' = new_home home s a i r l p t q tree fresh h b e;
            grown = hang_table-Grown home s a i r l p t q tree fresh h b e;
            placed = home_of_t home s a i r l p t q tree fresh h b e;
            linked = (ap present word ∙ e'.0, ap frame word ∙ e'.2);
          },
        )
  ]
]
