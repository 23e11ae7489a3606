-- ===== src/Vmm/Brk/Grows.antt =====
-- What mapping the pages of a longer data segment does to the translations.
use lnxrm.Base.{
  ℕ, zero, suc, ◌+◌, ◌-◌, ◌*◌, ◌/◌, ◌%◌, ◌≤◌, ◌<◌, ◌≡◌, ◌≢◌, true, false, refl, ap, sym, subst,
  arith, ◌∙◌, ◌==◌, ==_iff, Option, some, Bool-cases, inl, inr, ltb, ltb→lt, lt→ltb, ◌||◌,
}
use lnxrm.Base.Words.{pos, align_up}
use lnxrm.Uaccess.{user_base, user_max_vma}
use lnxrm.Pmm.{pmm_alloc_order}
use lnxrm.Pmm.Amounts.{covers}
use lnxrm.Vmm.{Vm, clear_page, vmm_translate_in}
use lnxrm.Vmm.Tree.{IsUser, TablePlace, place, IsTree}
use lnxrm.Vmm.Grown.{Grown, alloc-IsFresh, untouched-Grown}
use lnxrm.Vmm.Maps.{translated, Mapped, vmm_map_user-Mapped}
use lnxrm.Vmm.Brk.{
  BrkGrowth, grown, out_of_memory, panic, after_map, grow_pages, Caller, sys_brk, after_growth,
  user_stack_top,
}

-- A cleared frame that was just allocated changes no translation.
page_taken :
    (home : ℕ → Option TablePlace) (s : Vm)
    → IsTree home s
    → (pmm_alloc_order 0 s.pmm).1 ≢ 0
    → Grown home s home
        (clear_page (pmm_alloc_order 0 s.pmm).1 (record s { pmm = (pmm_alloc_order 0 s.pmm).0 }))
unfolding clear_page
page_taken home s tree n =
    let f = alloc-IsFresh s tree.valid n in
    let t = (pmm_alloc_order 0 s.pmm).1 in
    untouched-Grown home s _ tree f.valid f.based f.less (λ x j y e. elim (Bool-cases (t == x)) [
      | inl z ↦
          let same : t ≡ x = (==_iff t x).0 z in
          absurd (omega (arith, tree.used x y e, f.was, ap (λ k. covers k s.pmm) same))
      | inr z ↦ rw z refl
    ])

-- The address has a translation to the same place of some frame.
abbrev pub Backed : ℕ → ℕ → Vm → Type 0
Backed root va s = (pa : ℕ) × (pa % 4096 ≡ 0) × (vmm_translate_in root va s ≡ pa + va % 4096)

-- `n` pages from `va` on are mapped in the address space `root`.
pub record Extended (home : ℕ → Option TablePlace) (s : Vm) (root va n : ℕ) (s' : Vm) : Type 0 where
  pub home' : ℕ → Option TablePlace
  pub tree : IsTree home' s'
  pub homes : (a : ℕ) (q : TablePlace) → home a ≡ some q → home' a ≡ some q
  pub backed : (x : ℕ) → va ≤ x → x < va + n * 4096 → Backed root x s'
  pub elsewhere :
      (r x : ℕ)
      → IsUser x
      → home r ≡ some (place r 3 0)
      → (r ≡ root → va ≤ x → x < va + n * 4096 → ⊥)
      → vmm_translate_in r x s' ≡ vmm_translate_in r x s

first_page-Extended :
    (home : ℕ → Option TablePlace) (s s₁ s₂ s' : Vm) (root va pa n : ℕ)
    → IsTree home s
    → home root ≡ some (place root 3 0)
    → user_base ≤ va
    → va + suc n * 4096 ≤ user_max_vma
    → va % 4096 ≡ 0
    → pa % 4096 ≡ 0
    → Grown home s home s₁
    → (m : Mapped home s₁ root va pa s₂) → Extended m.home' s₂ root (va + 4096) n s'
    → Extended home s root va (suc n) s'
first_page-Extended home s s₁ s₂ s' root va pa n tree h lo hi page phys g m x = record {
  home' = x.home';
  tree = x.tree;
  homes = λ a q e. x.homes a q (m.homes a q e);
  backed = λ y l u. elim (Bool-cases (ltb y (va + 4096))) [
    | inl e ↦
        let off = y - va in
        let at : y ≡ va + off = omega arith in
        let low : y % 4096 ≡ off = omega (arith, ltb→lt _ _ e) in
        let later : vmm_translate_in root y s' ≡ vmm_translate_in root y s₂ =
          x.elsewhere root y (omega arith, omega arith) (m.homes root _ h)
            (λ _ b _. absurd (omega (arith, ltb→lt _ _ e, b))) in
        (
          pa,
          phys,
          later
              ∙ ap (λ k. vmm_translate_in root k s₂) at
              ∙ m.here off (omega (arith, ltb→lt _ _ e))
              ∙ ap (λ k. pa + k) (sym low),
        )
    | inr e ↦ x.backed y (ground arith) (omega arith)
  ];
  elsewhere = λ r y u hr no.
      x.elsewhere r y u (m.homes r _ hr) (λ er b d. no er (omega (arith, b)) (omega (arith, d)))
      ∙ m.elsewhere r y u hr (λ er ep. no er (omega (arith, ep, page)) (omega (arith, ep, page)))
      ∙ translated home s₁ r y g.tree u hr
      ∙ rw (g.leaves 3 r r y (omega arith) u hr) refl
      ∙ sym (translated home s r y tree u hr);
}

memory-ne-grown : (s s' : Vm) → out_of_memory s ≢ grown s'
memory-ne-grown s s' e = cc

panic-ne-grown : (s' : Vm) → panic ≢ grown s'
panic-ne-grown s' e = cc

grow_pages-Extended :
    (n : ℕ) (home : ℕ → Option TablePlace) (s s' : Vm) (root va : ℕ)
    → IsTree home s
    → home root ≡ some (place root 3 0)
    → user_base ≤ va
    → va + n * 4096 ≤ user_max_vma
    → va % 4096 ≡ 0
    → grow_pages n va root s ≡ grown s'
    → Extended home s root va n s'
unfolding grow_pages after_map
grow_pages-Extended zero home s s' root va tree h lo hi page e =
    let same : s ≡ s' = cc in
    subst (λ x. Extended home s root va 0 x) same
      (record {
        home' = home;
        tree = tree;
        homes = λ a q b. b;
        backed = λ x l u. absurd (omega arith);
        elsewhere = λ r x u hr no. refl;
      })
grow_pages-Extended (suc n) home s s' root va tree h lo hi page e =
    elim (Bool-cases ((pmm_alloc_order 0 s.pmm).1 == 0)) [
      | inl z ↦
          let stop : grow_pages (suc n) va root s
              ≡ out_of_memory (record s { pmm = (pmm_alloc_order 0 s.pmm).0 }) =
            rw (z, grow_pages) refl in
          absurd (memory-ne-grown _ s' (sym stop ∙ e))
      | inr z ↦
          let pa = (pmm_alloc_order 0 s.pmm).1 in
          let g = page_taken home s tree (ground arith) in
          let phys = (alloc-IsFresh s tree.valid (ground arith)).aligned in
          elim (vmm_map_user-Mapped home _ root va pa true true g.tree h (lo, omega arith) page
            phys) [
              | inl none_left ↦
                  absurd
                    (panic-ne-grown s' (sym (rw (z, grow_pages, none_left, after_map) refl) ∙ e))
              | inr (s₂, run, m) ↦
                  first_page-Extended home s _ s₂ s' root va pa n tree h lo hi page phys g m (
                    grow_pages-Extended n m.home' s₂ s' root (va + 4096) m.tree (m.homes root _ h)
                      (omega arith) (omega arith) (omega arith)
                      (sym (rw (z, grow_pages, run, after_map) refl) ∙ e))
            ]
    ]

-- A result that is the new end means that all pages were mapped.
after_growth-grown :
    (newbrk : ℕ) (c c' : Caller) (g : BrkGrowth) (s' : Vm)
    → after_growth newbrk c g ≡ some (s', c', pos newbrk)
    → (g ≡ grown s') × (c' ≡ record c { brk_cur = newbrk })
unfolding after_growth
after_growth-grown newbrk c c' (grown s) s' e = ground arith
after_growth-grown newbrk c c' (out_of_memory s) s' e = ground arith
after_growth-grown newbrk c c' panic s' e = ground arith

-- If brk moves the end of a data segment in the user range up, past a page, and answers with the new end,
-- then every address from the old end, rounded up to a page, to the new one, rounded up, lies in a frame
-- at its offset in the page; the tables are a tree, and no other address of this or of another address
-- space is translated otherwise than before.
pub sys_brk-Extended :
    (home : ℕ → Option TablePlace) (s s' : Vm) (c c' : Caller) (newbrk : ℕ)
    → IsTree home s
    → home c.pml4 ≡ some (place c.pml4 3 0)
    → user_base ≤ c.brk_base
    → user_base ≤ c.brk_cur
    → c.brk_cur < user_max_vma
    → c.brk_base ≤ newbrk
    → newbrk ≤ user_stack_top - 0x10_0000
    → align_up c.brk_cur 4096 < align_up newbrk 4096
    → sys_brk newbrk c s ≡ some (s', c', pos newbrk)
    → (c' ≡ record c { brk_cur = newbrk })
      × Extended home s c.pml4
          (align_up c.brk_cur 4096)
          ((align_up newbrk 4096 - align_up c.brk_cur 4096) / 4096)
          s'
unfolding sys_brk
sys_brk-Extended home s s' c c' newbrk tree h base cur below lo hi more e =
    let old = align_up c.brk_cur 4096 in
    let tgt = align_up newbrk 4096 in
    let some_end : (newbrk == 0) ≡ false = ground arith in
    let in_range : (ltb newbrk c.brk_base || ltb (user_stack_top - 0x10_0000) newbrk) ≡ false =
      ground arith in
    let up : ltb old tgt ≡ true = lt→ltb old tgt more in
    let run : sys_brk newbrk c s
        ≡ after_growth newbrk c (grow_pages ((tgt - old) / 4096) old c.pml4 s) =
      rw (some_end, in_range, up) refl in
    let r = after_growth-grown newbrk c c' _ s' (sym run ∙ e) in
    (
      r.1,
      grow_pages-Extended _ home s s' c.pml4 old tree h (omega arith) (omega arith) (omega arith)
          r.0,
    )
