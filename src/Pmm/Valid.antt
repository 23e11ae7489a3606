-- ===== src/Pmm/Valid.antt =====
-- The agreement of the free lists with the bitmaps.
use lnxrm.Base.{
  ℕ, ◌+◌, ◌*◌, ◌≤◌, ◌<◌, ◌≡◌, Bool, true, false, not, ◌&&◌, ◌||◌, List, ◌∷◌, update, inl, inr, ap,
  sym, arith, ◌∙◌, refl, ◌==◌, if◌then◌else◌, ==_iff, Bool-cases,
}
use lnxrm.Base.Links.{has, unlink, has-unlink_other}
use lnxrm.Pmm.{
  Range, blank_window, size, max_order, Pmm, push, withdraw, bit_set, bit_clr, put, index, bit_get,
}
use lnxrm.Pmm.Blocks.{Aligned, size_pos, index_inj}
use lnxrm.Pmm.Amounts.{
  inside, covers, weigh-le-amount, weigh-has, weigh-unlink, amount-push, amount-withdraw,
  amount-recount, amount-retotal, amount-blank_window,
}

-- An aligned block within the managed window.
abbrev pub IsBlock : ℕ → ℕ → Pmm → Type 0
IsBlock o x s = Aligned o x × (s.base_addr ≤ x) × (x + size o ≤ s.top_addr)

-- Every free block is aligned and in the window; a bit is set exactly if its block is on the list; and
-- no address lies in two free blocks.
pub record IsValid (s : Pmm) : Type 0 where
  pub within : (o x : ℕ) → o < max_order → has x (s.free o) ≡ true → IsBlock o x s
  pub agrees :
      (o x : ℕ)
      → o < max_order
      → Aligned o x
      → s.base_addr ≤ x
      → x < s.top_addr
      → bit_get o x s ≡ has x (s.free o)
  pub once : (f : ℕ) → covers f s ≤ 1

pub inside_start : (o x : ℕ) → inside x o x ≡ 1
inside_start o x = ground (arith, size_pos o)

-- A list of free blocks names none twice.
unlink_gone :
    (o x : ℕ) (s : Pmm)
    → o < max_order
    → has x (s.free o) ≡ true
    → IsValid s
    → has x (unlink x (s.free o)) ≡ false
unlink_gone o x s h b v = elim (Bool-cases (has x (unlink x (s.free o)))) [
  | inl e ↦ absurd (
      omega (
        arith,
        weigh-has (inside x) o x _ e,
        weigh-unlink (inside x) o x _ b,
        weigh-le-amount (inside x) o s h,
        inside_start o x,
        v.once x,
      ))
  | inr e ↦ e
]

-- The bits of two aligned blocks of one order are different bits.
index_same :
    (o base x y : ℕ)
    → Aligned o x
    → Aligned o y
    → base ≤ x
    → base ≤ y
    → (index base o x == index base o y) ≡ (x == y)
index_same o base x y (k, e) (j, g) h l = elim (Bool-cases (index base o x == index base o y)) [
  | inl i ↦
      let same : index base o x ≡ index base o y = (==_iff _ _).0 i in
      let k≡j : k ≡ j =
        index_inj o base k j (rw (sym e) h) (rw (sym g) l)
          (ap (λ n. index base o n) (sym e) ∙ same ∙ ap (λ n. index base o n) g) in
      let x≡y : x ≡ y = e ∙ ap (λ n. n * size o) k≡j ∙ sym g in i ∙ sym ((==_iff x y).1 x≡y)
  | inr i ↦ elim (Bool-cases (x == y)) [
    | inl q ↦
        let same : x ≡ y = (==_iff x y).0 q in
        (==_iff _ _).1 (ap (λ n. index base o n) same) ∙ sym q
    | inr q ↦ i ∙ sym q
  ]
]

slot_same :
    (o p base x y : ℕ)
    → Aligned o x
    → Aligned p y
    → base ≤ x
    → base ≤ y
    → (o == p && index base o x == index base p y) ≡ (o == p && x == y)
slot_same o p base x y a b h l = elim (Bool-cases (o == p)) [
  | inl e ↦
      let same : o ≡ p = (==_iff o p).0 e in
      let a' : Aligned p x = rw (sym same) a in rw (e, same) (index_same p base x y a' b h l)
  | inr e ↦ rw e refl
]

listed-push :
    (free : ℕ → List ℕ) (o p x y : ℕ)
    → has y (update free o (x ∷ free o) p) ≡ ((o == p && x == y) || has y (free p))
listed-push free o p x y = elim (Bool-cases (o == p)) [
  | inl e ↦ let same : o ≡ p = (==_iff o p).0 e in rw (e, same) refl
  | inr e ↦ rw e refl
]

listed-unlink :
    (free : ℕ → List ℕ) (o p x y : ℕ)
    → has x (unlink x (free o)) ≡ false
    → has y (update free o (unlink x (free o)) p) ≡ (not (o == p && x == y) && has y (free p))
listed-unlink free o p x y g = elim (Bool-cases (o == p)) [
  | inl e ↦
      let same : o ≡ p = (==_iff o p).0 e in
      elim (Bool-cases (x == y)) [
        | inl q ↦ let eq : x ≡ y = (==_iff x y).0 q in rw (e, q, sym eq) g
        | inr q ↦ rw (e, q, sym same) (has-unlink_other x y (free o) q)
      ]
  | inr e ↦ rw e refl
]

if_or : (c : Bool) {b d : Bool} → b ≡ d → (if c then true else b) ≡ (c || d)
if_or true h = refl
if_or false h = h

if_not : (c : Bool) {b d : Bool} → b ≡ d → (if c then false else b) ≡ (not c && d)
if_not true h = refl
if_not false h = h

and_right : (c : Bool) {d : Bool} → (c && d) ≡ true → d ≡ true
and_right true h = h
and_right false h = ground arith

both_eq : (o p x y : ℕ) → (o == p && x == y) ≡ true → (o ≡ p) × (x ≡ y)
both_eq o p x y h = ground arith

pub push-IsValid :
    (o x : ℕ) (s : Pmm)
    → o < max_order
    → IsBlock o x s
    → ((f : ℕ) → covers f s + inside f o x ≤ 1)
    → IsValid s
    → IsValid (push o x s)
unfolding push bit_set bit_get put
push-IsValid o x s h b fresh v = record {
  within = λ p y l q. elim (Bool-cases (o == p && x == y)) [
    | inl e ↦ let (e₁, e₂) = both_eq o p x y e in rw (sym e₁, sym e₂) b
    | inr e ↦ v.within p y l (sym (listed-push s.free o p x y ∙ rw e refl) ∙ q)
  ];
  agrees = λ p y l a lo hi.
      rw (slot_same o p s.base_addr x y b.0 a b.1 lo, listed-push s.free o p x y)
        (if_or _ (v.agrees p y l a lo hi));
  once = λ f. omega (arith, amount-push (inside f) o x s h, fresh f);
}

-- The block is on its list; what is left of the list misses it.
pub withdraw-IsValid :
    (o x : ℕ) (s : Pmm)
    → o < max_order
    → has x (s.free o) ≡ true
    → IsValid s
    → IsValid (withdraw o x (unlink x (s.free o)) s)
unfolding withdraw bit_clr bit_get put
withdraw-IsValid o x s h b v =
    let gone = unlink_gone o x s h b v in
    let block = v.within o x h b in
    record {
      within = λ p y l q.
          v.within p y l
            (and_right (not (o == p && x == y)) (sym (listed-unlink s.free o p x y gone) ∙ q));
      agrees = λ p y l a lo hi.
          rw (slot_same o p s.base_addr x y block.0 a block.1 lo, listed-unlink s.free o p x y gone)
            (if_not _ (v.agrees p y l a lo hi));
      once = λ f.
          omega (
            arith,
            amount-withdraw (inside f) o x _ s h (weigh-unlink (inside f) o x _ b),
            v.once f,
          );
    }

pub recount-IsValid : (n : ℕ) (s : Pmm) → IsValid s → IsValid (record s { free_pg = n })
unfolding bit_get
recount-IsValid n s v = record {
  within = v.within;
  agrees = v.agrees;
  once = λ f. omega (arith, amount-recount (inside f) n s, v.once f);
}

pub retotal-IsValid : (n : ℕ) (s : Pmm) → IsValid s → IsValid (record s { total_pg = n })
unfolding bit_get
retotal-IsValid n s v = record {
  within = v.within;
  agrees = v.agrees;
  once = λ f. omega (arith, amount-retotal (inside f) n s, v.once f);
}

pub blank_window-IsValid :
    (base top : ℕ) (rs : List Range) (n : ℕ) → IsValid (blank_window base top rs n)
unfolding bit_get
blank_window-IsValid base top rs n = record {
  within = λ o x h l. ground arith;
  agrees = λ o x h a lo hi. refl;
  once = λ f. omega (arith, amount-blank_window (inside f) base top rs n);
}
