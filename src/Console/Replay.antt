-- ===== src/Console/Replay.antt =====
-- What the ring of the last characters holds.
use lnxrm.Base.{
  ℕ, suc, ◌+◌, ◌-◌, ◌%◌, ◌<◌, min, ◌≡◌, ◌≢◌, refl, sym, ap, ◌∙◌, inl, inr, List, [], ◌∷◌, arith,
  ltb, ◌==◌, length, get_or, update, Bool-cases,
}
use lnxrm.Console.{Ring, ring_putc, ring_get_char, ring_size}

-- The ring after the characters of a list, the latest first, and before any.
abbrev pub empty : Ring
empty = record { ring_buf = λ i. 0; ring_head = 0; ring_count = 0 }

pub put_all : List ℕ → Ring
put_all [] = empty
put_all (c ∷ cs) = ring_putc c (put_all cs)

-- The ring holds the latest characters of a list, and knows how many.
pub record Holds (cs : List ℕ) (r : Ring) : Type 0 where
  pub count : r.ring_count ≡ min ring_size (length cs)
  pub head_bound : r.ring_head < ring_size
  pub chars : (i : ℕ) → i < r.ring_count → ring_get_char i r ≡ get_or cs (r.ring_count - 1 - i) 0

update_here : (f : ℕ → ℕ) (i j v : ℕ) → i ≡ j → update f i v j ≡ v
update_here f i j v h = ground arith

update_there : (f : ℕ → ℕ) (i j v : ℕ) → i ≢ j → update f i v j ≡ f j
update_there f i j v h = ground arith

-- Room is left: the new character stands behind the others.
append-Holds :
    (c : ℕ) (cs : List ℕ) (r : Ring)
    → Holds cs r
    → r.ring_count < ring_size
    → (i : ℕ) → i < r.ring_count + 1
    → update r.ring_buf ((r.ring_head + r.ring_count) % ring_size) c ((r.ring_head + i) % ring_size)
      ≡ get_or (c ∷ cs) (r.ring_count + 1 - 1 - i) 0
append-Holds c cs r v room i h = elim (Bool-cases (i == r.ring_count)) [
  | inl e ↦
      let same : i ≡ r.ring_count = ground arith in
      let z : r.ring_count + 1 - 1 - i ≡ 0 = omega (arith, same) in
      rw z (update_here r.ring_buf _ _ c (ap (λ k. (r.ring_head + k) % ring_size) (sym same)))
  | inr e ↦
      let less : i < r.ring_count = ground arith in
      let z : r.ring_count + 1 - 1 - i ≡ suc (r.ring_count - 1 - i) = omega arith in
      let b = v.head_bound in rw z (update_there r.ring_buf _ _ c (omega arith) ∙ v.chars i less)
]

-- The ring is full: the new character takes the place of the oldest one.
rotate-Holds :
    (c : ℕ) (cs : List ℕ) (r : Ring)
    → Holds cs r
    → r.ring_count ≡ ring_size
    → (i : ℕ) → i < r.ring_count
    → update r.ring_buf r.ring_head c (((r.ring_head + 1) % ring_size + i) % ring_size)
      ≡ get_or (c ∷ cs) (r.ring_count - 1 - i) 0
rotate-Holds c cs r v full i h =
    let b = v.head_bound in
    elim (Bool-cases (i == ring_size - 1)) [
      | inl e ↦
          let same : i ≡ ring_size - 1 = ground arith in
          let z : r.ring_count - 1 - i ≡ 0 = omega arith in
          rw z (update_here r.ring_buf _ _ c (omega arith))
      | inr e ↦
          let less : i < ring_size - 1 = ground arith in
          let z : r.ring_count - 1 - i ≡ suc (r.ring_count - 1 - (i + 1)) = omega arith in
          let next : ((r.ring_head + 1) % ring_size + i) % ring_size
              ≡ (r.ring_head + (i + 1)) % ring_size =
            omega arith in
          rw (z, next) (update_there r.ring_buf _ _ c (omega arith) ∙ v.chars (i + 1) (omega arith))
    ]

putc-Holds : (c : ℕ) (cs : List ℕ) (r : Ring) → Holds cs r → Holds (c ∷ cs) (ring_putc c r)
unfolding ring_putc
putc-Holds c cs r v = elim (Bool-cases (ltb r.ring_count ring_size)) [
  | inl e ↦
      let room : r.ring_count < ring_size = ground arith in
      rw e (record {
        count = ground (arith, v.count);
        head_bound = v.head_bound;
        chars = λ i h. append-Holds c cs r v room i h;
      })
  | inr e ↦
      let full : r.ring_count ≡ ring_size = ground (arith, v.count) in
      rw e (record {
        count = ground (arith, v.count);
        head_bound = omega arith;
        chars = λ i h. rotate-Holds c cs r v full i h;
      })
]

-- After any characters the ring has the last 4096 of them, or all if there are fewer, and
-- `ring_get_char` reads them from the oldest to the latest.
pub put_all-Holds : (cs : List ℕ) → Holds cs (put_all cs)
unfolding put_all
put_all-Holds [] = record { count = refl; head_bound = omega arith; chars = λ i h. refl }
put_all-Holds (c ∷ cs) = putc-Holds c cs (put_all cs) (put_all-Holds cs)
