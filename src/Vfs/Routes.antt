-- ===== src/Vfs/Routes.antt =====
-- Which mount a path goes to, and what is left of it.
use lnxrm.Base.{
  ℕ, suc, ◌-◌, ◌≤◌, ◌≡◌, ◌⊎◌, refl, sym, ap, subst, ◌∙◌, true, false, ◌&&◌, ◌||◌, Option, none,
  some, inl, inr, List, [], ◌∷◌, ◌++◌, ◌==◌, length, take, drop, replicate, get_elem?, arith,
  Bool-cases, Option-cases, take-append-drop,
}
use lnxrm.Base.Words.{ℤ, pos, negsuc}
use lnxrm.Str.{strncmp}
use lnxrm.Str.Order.{IsText, strncmp_iff}
use lnxrm.Vfs.{
  Mount, fs_for_path, match_prefix, match_bare, skip_slashes, starts_slash, at_boundary, is_root,
  is_zero,
}

-- A path that is a mount's prefix, slashes and the rest, which does not begin with a slash. The slash that
-- the prefix begins with may be missing from the path. The prefix ends where a name ends: behind it the
-- path has a slash or is over, unless the prefix is the root's.
pub record Owns (m : Mount) (path rest : List ℕ) : Type 0 where
  pub slashes : ℕ
  pub is_split :
      (path ≡ m.prefix ++ (replicate slashes b'/' ++ rest))
      ⊎ (b'/' ∷ path ≡ m.prefix ++ (replicate slashes b'/' ++ rest))
  pub relative : starts_slash rest ≡ false
  pub bounded : (m.prefix ≡ b'/' ∷ []) ⊎ (1 ≤ slashes) ⊎ (rest ≡ [])

-- The slashes that are skipped; behind a boundary there is one, or nothing is left.
skip_split :
    (l : List ℕ)
    → (k : ℕ) × (l ≡ replicate k b'/' ++ skip_slashes l)
      × (at_boundary l ≡ true → (1 ≤ k) ⊎ (skip_slashes l ≡ []))
unfolding skip_slashes
skip_split [] = (0, refl, λ h. inr refl)
skip_split (c ∷ cs) = elim (Bool-cases (c == b'/')) [
  | inl e ↦
      let (k, split, more) = skip_split cs in
      let same : c ≡ b'/' = ground arith in
      (suc k, rw (same) (ap (λ r. b'/' ∷ r) split), λ h. inl (omega arith))
  | inr e ↦ (0, rw e refl, λ h. absurd (ground arith))
]

root_prefix : (p : List ℕ) → is_root p ≡ true → p ≡ b'/' ∷ []
root_prefix [] h = absurd (ground arith)
root_prefix (c ∷ []) h = let same : c ≡ b'/' = ground arith in ap (λ x. x ∷ []) same
root_prefix (c ∷ d ∷ cs) h = absurd (ground arith)

skip_relative : (l : List ℕ) → starts_slash (skip_slashes l) ≡ false
unfolding skip_slashes
skip_relative [] = refl
skip_relative (c ∷ cs) = elim (Bool-cases (c == b'/')) [
  | inl e ↦ rw e (skip_relative cs)
  | inr e ↦ rw e e
]

take-length : (l : List ℕ) → take (length l) l ≡ l
take-length [] = refl
take-length (c ∷ cs) = ap (λ r. c ∷ r) (take-length cs)

zero_value : (z : ℤ) → is_zero z ≡ true → z ≡ pos 0
zero_value (pos n) h = ap pos (ground arith)
zero_value (negsuc n) h = absurd (ground arith)

-- The bytes that were compared are the prefix.
compared :
    (path p : List ℕ)
    → IsText path
    → IsText p
    → is_zero (strncmp path p (length p)) ≡ true
    → path ≡ p ++ drop (length p) path
compared path p tp tq h =
    let same = (strncmp_iff path p (length p) tp tq).0 (zero_value _ h) ∙ take-length p in
    sym (take-append-drop (length p) path) ∙ ap (λ q. q ++ drop (length p) path) same

owned :
    (m : Mount) (path rest : List ℕ)
    → (path ≡ m.prefix ++ rest) ⊎ (b'/' ∷ path ≡ m.prefix ++ rest)
    → (m.prefix ≡ b'/' ∷ []) ⊎ (at_boundary rest ≡ true)
    → Owns m path (skip_slashes rest)
owned m path rest h ends = record {
  slashes = (skip_split rest).0;
  is_split = elim h [
    | inl e ↦ inl (e ∙ ap (λ q. m.prefix ++ q) (skip_split rest).1)
    | inr e ↦ inr (e ∙ ap (λ q. m.prefix ++ q) (skip_split rest).1)
  ];
  relative = skip_relative rest;
  bounded = elim ends [ inl r ↦ inl r | inr b ↦ inr ((skip_split rest).2 b) ];
}

tail-IsText : (c : ℕ) (p : List ℕ) → IsText (c ∷ p) → IsText p
tail-IsText c p t = t.2

some_injective {ℓ} : {A : Type ℓ} {a b : A} → some a ≡ some b → a ≡ b
some_injective {a} h = ap (λ o. elim o [ none ↦ a | some x ↦ x ]) h

bare :
    (path p : List ℕ)
    → IsText path
    → IsText p
    → starts_slash p ≡ true
    → is_zero (strncmp path (drop 1 p) (length p - 1)) ≡ true
    → b'/' ∷ path ≡ p ++ drop (length p - 1) path
bare path [] tp tm slash h = absurd (ground (arith, slash))
bare path (c ∷ p) tp tm slash h =
    let first : c ≡ b'/' = ground (arith, slash) in
    let len : suc (length p) - 1 ≡ length p = omega arith in
    rw (first, len) (ap (λ r. b'/' ∷ r) (compared path p tp (tail-IsText c p tm) (rw len at h)))

match_prefix-Owns :
    (path rest : List ℕ) (m : Mount)
    → IsText path
    → IsText m.prefix
    → match_prefix path m ≡ some rest
    → Owns m path rest
unfolding match_prefix
match_prefix-Owns path rest m tp tm =
    elim (Bool-cases (
      is_zero (strncmp path m.prefix (length m.prefix))
      && (is_root m.prefix || at_boundary (drop (length m.prefix) path)))) [
        | inr e ↦ rw e (λ h. absurd (ground (arith, h)))
        | inl e ↦
            let eq : is_zero (strncmp path m.prefix (length m.prefix)) ≡ true = ground arith in
            let ends : (m.prefix ≡ b'/' ∷ []) ⊎ (at_boundary (drop (length m.prefix) path) ≡ true) =
              elim (Bool-cases (is_root m.prefix)) [
                | inl r ↦ inl (root_prefix m.prefix r)
                | inr r ↦ inr (ground arith)
              ] in
            let own =
              owned m path (drop (length m.prefix) path) (inl (compared path m.prefix tp tm eq))
                ends in
            rw e (λ h. subst (λ r. Owns m path r) (some_injective h) own)
      ]

match_bare-Owns :
    (path rest : List ℕ) (m : Mount)
    → IsText path
    → IsText m.prefix
    → match_bare path m ≡ some rest
    → Owns m path rest
unfolding match_bare
match_bare-Owns path rest m tp tm =
    elim (Bool-cases (
      starts_slash m.prefix
      && is_zero (strncmp path (drop 1 m.prefix) (length m.prefix - 1))
      && at_boundary (drop (length m.prefix - 1) path))) [
        | inr e ↦ rw e (λ h. absurd (ground (arith, h)))
        | inl e ↦
            let slash : starts_slash m.prefix ≡ true = ground arith in
            let eq : is_zero (strncmp path (drop 1 m.prefix) (length m.prefix - 1)) ≡ true =
              ground arith in
            let own =
              owned m path (drop (length m.prefix - 1) path)
                (inr (bare path m.prefix tp tm slash eq)) (inr (ground arith)) in
            rw e (λ h. subst (λ r. Owns m path r) (some_injective h) own)
      ]

-- A mount of the list is active, has the operations, and owns the path with this rest.
pub record Routed (mounts : List Mount) (path : List ℕ) (ops : ℕ) (rest : List ℕ) : Type 0 where
  pub index : ℕ
  pub mount : Mount
  pub is_mounted : get_elem? mounts index ≡ some mount
  pub is_live : mount.active ≡ true
  pub same_ops : mount.ops ≡ ops
  pub owns : Owns mount path rest

later :
    (m : Mount) (ms : List Mount) (path : List ℕ) (ops : ℕ) (rest : List ℕ)
    → Routed ms path ops rest
    → Routed (m ∷ ms) path ops rest
later m ms path ops rest r = record {
  index = suc r.index;
  mount = r.mount;
  is_mounted = r.is_mounted;
  is_live = r.is_live;
  same_ops = r.same_ops;
  owns = r.owns;
}

here :
    (m : Mount) (ms : List Mount) (path : List ℕ) (ops : ℕ) (r rest : List ℕ)
    → m.active ≡ true
    → Owns m path r
    → ◌≡◌ {A = Option (ℕ × List ℕ)} (some (m.ops, r)) (some (ops, rest))
    → Routed (m ∷ ms) path ops rest
here m ms path ops r rest e own h = record {
  index = 0;
  mount = m;
  is_mounted = refl;
  is_live = e;
  same_ops = ap (λ p. p.0) (some_injective h);
  owns = subst (λ q. Owns m path q) (ap (λ p. p.1) (some_injective h)) own;
}

-- The mount that a path is routed to is active, and it owns the path: the path is the mount's prefix,
-- perhaps without its first slash, any slashes, and the rest that the file system gets, which does not
-- begin with a slash. There is a slash, or the rest is empty, unless the prefix is "/": a prefix never ends
-- in the middle of a name. Paths and prefixes are strings of bytes other than NUL.
pub fs_for_path-Routed :
    (mounts : List Mount) (path : List ℕ) (ops : ℕ) (rest : List ℕ)
    → IsText path
    → ((i : ℕ) (m : Mount) → get_elem? mounts i ≡ some m → IsText m.prefix)
    → fs_for_path mounts path ≡ some (ops, rest)
    → Routed mounts path ops rest
unfolding fs_for_path
fs_for_path-Routed [] path ops rest tp tm = λ h. absurd (ground (arith, h))
fs_for_path-Routed (m ∷ ms) path ops rest tp tm =
    let go : fs_for_path ms path ≡ some (ops, rest) → Routed (m ∷ ms) path ops rest = λ h.
      later m ms path ops rest
        (fs_for_path-Routed ms path ops rest tp (λ i n e. tm (suc i) n e) h) in
    elim (Bool-cases m.active) [
      | inr e ↦
          let eq : fs_for_path (m ∷ ms) path ≡ fs_for_path ms path = rw e refl in
          λ h. go (sym eq ∙ h)
      | inl e ↦ elim (Option-cases (match_prefix path m)) [
        | inr (r, f) ↦
            let eq : fs_for_path (m ∷ ms) path ≡ some (m.ops, r) = rw (f, e) refl in
            λ h.
              here m ms path ops r rest e (match_prefix-Owns path r m tp (tm 0 m refl) f)
                (sym eq ∙ h)
        | inl f ↦ elim (Option-cases (match_bare path m)) [
          | inr (r, g) ↦
              let eq : fs_for_path (m ∷ ms) path ≡ some (m.ops, r) = rw (f, g, e) refl in
              λ h.
                here m ms path ops r rest e (match_bare-Owns path r m tp (tm 0 m refl) g)
                  (sym eq ∙ h)
          | inl g ↦
              let eq : fs_for_path (m ∷ ms) path ≡ fs_for_path ms path = rw (f, g, e) refl in
              λ h. go (sym eq ∙ h)
        ]
      ]
    ]
