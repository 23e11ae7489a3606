-- ===== src/Uaccess/Accepts.antt =====
-- `user_ptr_ok` accepts exactly the ranges that lie in user space with every page mapped.
use lnxrm.Base.{
  ℕ, min, zero, suc, ◌+◌, ◌-◌, ◌*◌, ◌/◌, ◌^◌, ◌≤◌, ◌<◌, ◌≡◌, ◌≢◌, refl, ◌↔◌, true, arith,
}
use lnxrm.Base.Words.{align_down}
use lnxrm.Uaccess.{user_base, user_max_vma, pages_mapped, page_count, user_ptr_ok}

pages_mapped_at :
    (translate : ℕ → ℕ) (n k pg : ℕ)
    → pages_mapped translate n pg ≡ true
    → k < n
    → translate (pg + k * 4096) ≢ 0
unfolding pages_mapped
pages_mapped_at translate zero k pg h b e = absurd (omega arith)
pages_mapped_at translate (suc n) zero pg h b e =
    let same : pg + 0 * 4096 ≡ pg = omega arith in
    let e' : translate pg ≡ 0 = rw same at e in ground arith
pages_mapped_at translate (suc n) (suc k) pg h b e =
    let same : pg + suc k * 4096 ≡ pg + 4096 + k * 4096 = omega arith in
    pages_mapped_at translate n k (pg + 4096) (ground arith) (omega arith) (rw same at e)

pages_mapped_all :
    (translate : ℕ → ℕ) (n pg : ℕ)
    → ((k : ℕ) → k < n → translate (pg + k * 4096) ≢ 0)
    → pages_mapped translate n pg ≡ true
unfolding pages_mapped
pages_mapped_all translate zero pg h = refl
pages_mapped_all translate (suc n) pg h =
    let first : pg + 0 * 4096 ≡ pg = omega arith in
    let here : translate pg ≢ 0 = rw first at (h 0 (omega arith)) in
    let tail = pages_mapped_all translate n (pg + 4096) (λ k b e.
      let same : pg + suc k * 4096 ≡ pg + 4096 + k * 4096 = omega arith in
      h (suc k) (omega arith) (rw same e)) in
    ground arith

-- A range of at least one byte in user space, without wrap-around, with every page mapped.
pub record IsUserRange (translate : ℕ → ℕ) (p n : ℕ) : Type 0 where
  pub nonempty : 0 < n
  pub above : user_base ≤ p
  pub below : p + n ≤ user_max_vma
  pub mapped : (a : ℕ) → p ≤ a → a < p + n → translate (align_down a 4096) ≢ 0

-- For 64-bit arguments `user_ptr_ok` holds exactly of such ranges; a range that wraps around the
-- address space is refused.
pub user_ptr_ok_iff :
    (translate : ℕ → ℕ) (p n : ℕ)
    → p < 2 ^ 64
    → n < 2 ^ 64
    → (user_ptr_ok translate p n ≡ true) ↔ IsUserRange translate p n
unfolding user_ptr_ok page_count
user_ptr_ok_iff translate p n hp hn = (forth, back)
  where
    accepted : user_ptr_ok translate p n ≡ true → (0 < n) × (user_base ≤ p) × (p + n ≤ user_max_vma)
    accepted h = ground arith

    forth : user_ptr_ok translate p n ≡ true → IsUserRange translate p n
    forth h =
        let (a, b, c) = accepted h in
        let pages : pages_mapped translate (page_count p n) (align_down p 4096) ≡ true =
          ground arith in
        record {
          nonempty = a;
          above = b;
          below = c;
          mapped = λ x lo hi e.
              let k : ℕ = x / 4096 - p / 4096 in
              let same : p / 4096 * 4096 + k * 4096 ≡ x / 4096 * 4096 = omega arith in
              pages_mapped_at translate (page_count p n) k (align_down p 4096) pages (omega arith)
                (rw same e);
        }

    back : IsUserRange translate p n → user_ptr_ok translate p n ≡ true
    back r =
        let pages = pages_mapped_all translate (page_count p n) (align_down p 4096) (λ k b e.
          let x : ℕ = min (p + n - 1) (p + k * 4096) in
          let same : align_down x 4096 ≡ p / 4096 * 4096 + k * 4096 = omega arith in
          r.mapped x (omega arith) (omega (arith, r.nonempty)) (rw same e)) in
        ground (arith, r.nonempty, r.above, r.below)
