-- ===== src/Vmm/Paths.antt =====
-- The tables on the path of an address.
use lnxrm.Base.{
  ℕ, zero, suc, ◌<◌, ◌≡◌, ◌⊎◌, true, refl, ap, arith, subst, ◌∙◌, Option, none, some, inl, inr,
}
use lnxrm.Vmm.{Vm, present, frame, i2, i3, i4, ensure_table, ensure_path, pg_u}
use lnxrm.Vmm.Tree.{IsUser, TablePlace, place, idx, pre, IsTree, InTree-user, pre-idx}
use lnxrm.Vmm.Grown.{Grown, Grown-then}
use lnxrm.Vmm.Ensure.{Made, ensure_table-cases}

-- The path of an address goes from the table `a` of level `l` to the lowest table `pt`.
abbrev pub PathTo : ℕ → ℕ → ℕ → ℕ → Vm → Type 0
PathTo zero a va pt s = a ≡ pt
PathTo (suc l) a va pt s =
    (present (s.words a (idx (suc l) va)) ≡ true)
    × PathTo l (frame (s.words a (idx (suc l) va))) va pt s

path_of :
    (s : Vm) (root r q x va : ℕ)
    → (present (s.words root (i4 va)) ≡ true) × (frame (s.words root (i4 va)) ≡ r)
    → (present (s.words r (i3 va)) ≡ true) × (frame (s.words r (i3 va)) ≡ q)
    → (present (s.words q (i2 va)) ≡ true) × (frame (s.words q (i2 va)) ≡ x)
    → PathTo 3 root va x s
path_of s root r q x va a b c = (a.0, rw a.1 (b.0, rw b.1 c))

-- An entry that leads to a table goes on leading to it.
linked_still :
    (home : ℕ → Option TablePlace) (s : Vm) (home' : ℕ → Option TablePlace) (s' : Vm) (a i b : ℕ)
    (q : TablePlace)
    → Grown home s home' s'
    → home a ≡ some q
    → (present (s.words a i) ≡ true) × (frame (s.words a i) ≡ b)
    → (present (s'.words a i) ≡ true) × (frame (s'.words a i) ≡ b)
linked_still home s home' s' a i b q g h e =
    let same = g.kept a i q h e.0 in (ap present same ∙ e.0, ap frame same ∙ e.1)

-- What `ensure_path` leaves.
pub record Reached (home : ℕ → Option TablePlace) (s : Vm) (root va : ℕ) (x : Vm × ℕ) : Type 0 where
  pub home' : ℕ → Option TablePlace
  pub grown : Grown home s home' x.0
  pub placed : home' x.1 ≡ some (place root 0 (pre 0 va))
  pub path : PathTo 3 root va x.1 x.0

-- One level: the table for an address below a table on its path.
step_down :
    (home : ℕ → Option TablePlace) (s : Vm) (a r l va : ℕ)
    → l < 3
    → IsUser va
    → IsTree home s
    → home a ≡ some (place r (suc l) (pre (suc l) va))
    → (ensure_table a (idx (suc l) va) pg_u s ≡ none)
      ⊎ ((x : Vm × ℕ) × (ensure_table a (idx (suc l) va) pg_u s ≡ some x)
          × Made home s a (idx (suc l) va) (place r l (pre l va)) x)
step_down home s a r l va b u tree h =
    subst
      (λ p.
        (ensure_table a (idx (suc l) va) pg_u s ≡ none)
        ⊎ ((x : Vm × ℕ) × (ensure_table a (idx (suc l) va) pg_u s ≡ some x)
            × Made home s a (idx (suc l) va) (place r l p) x))
      (pre-idx l va b u)
      (ensure_table-cases home s a (idx (suc l) va) r l _ tree h (InTree-user l va u))

pub ensure_path-cases :
    (home : ℕ → Option TablePlace) (s : Vm) (root va : ℕ)
    → IsUser va
    → IsTree home s
    → home root ≡ some (place root 3 0)
    → (ensure_path root va s ≡ none)
      ⊎ ((x : Vm × ℕ) × (ensure_path root va s ≡ some x) × Reached home s root va x)
unfolding ensure_path
ensure_path-cases home s root va u tree h =
    elim (step_down home s root root 2 va (omega arith) u tree h) [
      | inl e ↦ inl (rw e refl)
      | inr (r, e, m₃) ↦
          elim (step_down m₃.home' r.0 r.1 root 1 va (omega arith) u m₃.grown.tree m₃.placed) [
            | inl g ↦ inl (rw (e, g) refl)
            | inr (q, g, m₂) ↦
                elim (step_down m₂.home' q.0 q.1 root 0 va (omega arith) u m₂.grown.tree
                  m₂.placed) [
                    | inl k ↦ inl (rw (e, g, k) refl)
                    | inr (x, k, m₁) ↦ inr (
                      x,
                      rw (e, g, k) refl,
                      record {
                        home' = m₁.home';
                        grown =
                            Grown-then home m₃.home' m₁.home' s r.0 x.0 m₃.grown
                              (Grown-then m₃.home' m₂.home' m₁.home' r.0 q.0 x.0 m₂.grown m₁.grown);
                        placed = m₁.placed;
                        path =
                            path_of x.0 root r.1 q.1 x.1 va
                              (linked_still m₃.home' r.0 m₁.home' x.0 root (i4 va) r.1 _
                                (Grown-then m₃.home' m₂.home' m₁.home' r.0 q.0 x.0 m₂.grown
                                  m₁.grown)
                                (m₃.grown.homes root _ h) m₃.linked)
                              (linked_still m₂.home' q.0 m₁.home' x.0 r.1 (i3 va) q.1 _ m₁.grown
                                (m₂.grown.homes r.1 _ m₃.placed) m₂.linked)
                              m₁.linked;
                      },
                    )
                  ]
          ]
    ]
