-- ===== src/Base/Links.antt =====
-- A singly linked list as the list of the numbers of its nodes: the task slots that the `rq_next`
-- links of kernel/sched.c thread, or the clusters of a chain of kernel/fs/fat32.
use Prim.Native.Nat.{ℕ}
use mathlib.Core.Path.{◌≡◌, refl}
use mathlib.Core.Bool.{Bool, true, false, not, ◌&&◌, ◌||◌}
use mathlib.Core.List.{List, [], ◌∷◌}
use native.Mathlib.Omega.{arith}
use lnxrm.Base.Tests.{◌==◌, if◌then◌else◌}

abbrev pub has : ℕ → List ℕ → Bool
has t [] = false
has t (x ∷ q) = x == t || has t q

abbrev pub distinct : List ℕ → Bool
distinct [] = true
distinct (x ∷ q) = not (has x q) && distinct q

-- The first link that leads to `t` is made to skip it.
unfoldable pub unlink : ℕ → List ℕ → List ℕ
unlink t [] = []
unlink t (x ∷ q) = if x == t then q else x ∷ unlink t q

pub has-unlink_other : (t u : ℕ) (q : List ℕ) → (t == u) ≡ false → has u (unlink t q) ≡ has u q
unfolding unlink
has-unlink_other t u [] h = refl
has-unlink_other t u (x ∷ q) h = ground (arith, has-unlink_other t u q h)

pub has-unlink_self : (t : ℕ) (q : List ℕ) → distinct q ≡ true → has t (unlink t q) ≡ false
unfolding unlink
has-unlink_self t [] h = refl
has-unlink_self t (x ∷ q) h = ground (arith, has-unlink_self t q)

pub distinct-unlink : (t : ℕ) (q : List ℕ) → distinct q ≡ true → distinct (unlink t q) ≡ true
unfolding unlink
distinct-unlink t [] h = refl
distinct-unlink t (x ∷ q) h = ground (arith, distinct-unlink t q, has-unlink_other t x q)

-- What is not linked is not found.
pub unlink_absent : (t : ℕ) (q : List ℕ) → has t q ≡ false → unlink t q ≡ q
unfolding unlink
unlink_absent t [] h = refl
unlink_absent t (x ∷ q) h = ground (arith, unlink_absent t q)

pub unlink_second : (a b : ℕ) (q : List ℕ) → (a == b) ≡ false → unlink b (a ∷ b ∷ q) ≡ a ∷ q
unfolding unlink
unlink_second a b q h = ground arith
