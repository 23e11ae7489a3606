-- ===== src/Console/Format/Rendering.antt =====
-- The size of the buffer only cuts what `vsnprintf` prints.
use mathlib.Core.Option.{map as map_option}
use lnxrm.Base.{
  ◌%◌, ◌^◌, ℕ, zero, suc, ◌-◌, ◌≤◌, ◌<◌, min, ◌≡◌, refl, sym, ap, ◌∙◌, Bool, true, false, Option,
  none, some, inl, inr, List, [], ◌∷◌, ◌++◌, ◌==◌, ltb, arith, if◌then◌else◌, length, take,
  replicate, Bool-cases, length-append,
}
use lnxrm.Console.Format.{
  convert_arg, convert_plain, takes_arg, fits_arg, Out, emit, emit_all, putnum, number_tmp,
  reverse_onto, Arg, as_number, as_string, Spec, convert, format_loop, read_spec, sign_extend,
  vsnprintf,
}

-- The output after the text `t` into a buffer of `n` bytes.
abbrev out_of : ℕ → List ℕ → Out
out_of n t = record { written = take (n - 1) t; left = n - min (n - 1) (length t) }

append_nil : (t : List ℕ) → t ++ [] ≡ t
append_nil [] = refl
append_nil (c ∷ t) = ap (λ r. c ∷ r) (append_nil t)

append_assoc : (a b c : List ℕ) → (a ++ b) ++ c ≡ a ++ (b ++ c)
append_assoc [] b c = refl
append_assoc (x ∷ a) b c = ap (λ r. x ∷ r) (append_assoc a b c)

take_nil : (k : ℕ) → take {A = ℕ} k [] ≡ []
take_nil zero = refl
take_nil (suc k) = refl

take_more : (k c : ℕ) (t : List ℕ) → length t < k → take k (t ++ (c ∷ [])) ≡ take k t ++ (c ∷ [])
take_more zero c t h = absurd (omega arith)
take_more (suc k) c [] h = ap (λ r. c ∷ r) (take_nil k)
take_more (suc k) c (x ∷ t) h = ap (λ r. x ∷ r) (take_more k c t (omega arith))

take_same : (k c : ℕ) (t : List ℕ) → k ≤ length t → take k (t ++ (c ∷ [])) ≡ take k t
take_same zero c t h = refl
take_same (suc k) c [] h = absurd (omega arith)
take_same (suc k) c (x ∷ t) h = ap (λ r. x ∷ r) (take_same k c t (omega arith))

-- A step of the output that appends one text, whatever the size and what was written before.
record Prints (f : Out → Out) : Type 0 where
  text : List ℕ
  prints : (n : ℕ) (t : List ℕ) → f (out_of n t) ≡ out_of n (t ++ text)

emit-out_of : (c n : ℕ) (t : List ℕ) → emit c (out_of n t) ≡ out_of n (t ++ (c ∷ []))
unfolding emit
emit-out_of c n t = elim (Bool-cases (ltb (length t) (n - 1))) [
  | inl e ↦
      let less : length t < n - 1 = ground arith in
      rw (take_more (n - 1) c t less, length-append t (c ∷ [])) (ground arith)
  | inr e ↦
      let more : n - 1 ≤ length t = ground arith in
      rw (take_same (n - 1) c t more, length-append t (c ∷ [])) (ground arith)
]

emit-Prints : (c : ℕ) → Prints (emit c)
emit-Prints c = record { text = c ∷ []; prints = λ n t. emit-out_of c n t }

after-Prints : {f g : Out → Out} → Prints f → Prints g → Prints (λ o. g (f o))
after-Prints {f} {g} p q = record {
  text = p.text ++ q.text;
  prints = λ n t.
      ap g (p.prints n t) ∙ q.prints n (t ++ p.text) ∙ ap (out_of n) (append_assoc t p.text q.text);
}

emit_all-Prints : (cs : List ℕ) → Prints (emit_all cs)
unfolding emit_all
emit_all-Prints [] = record { text = []; prints = λ n t. ap (out_of n) (sym (append_nil t)) }
emit_all-Prints (c ∷ cs) = after-Prints (emit-Prints c) (emit_all-Prints cs)

putnum-Prints : (v base : ℕ) (sgn : Bool) (width pad : ℕ) → Prints (putnum v base sgn width pad)
unfolding putnum
putnum-Prints v base sgn width pad =
    after-Prints (emit_all-Prints (replicate (width - length (number_tmp v base sgn)) pad))
      (emit_all-Prints (reverse_onto (number_tmp v base sgn) []))

if-Prints :
    (b : Bool) {f g : Out → Out} → Prints f → Prints g → Prints (λ o. if b then f o else g o)
if-Prints true p q = p
if-Prints false p q = q

convert_arg-Prints : (c : ℕ) (sp : Spec) (a : Arg) → Prints (convert_arg c sp a)
unfolding convert_arg
convert_arg-Prints c sp a =
    let v = as_number a in
    let word = if sp.lng then v else v % 2 ^ 32 in
    let wide = if sp.lng then v else sign_extend v in
    if-Prints (c == b'd') (putnum-Prints wide 10 true sp.width sp.pad) (
      if-Prints (c == b'u') (putnum-Prints word 10 false sp.width sp.pad) (
        if-Prints (c == b'x') (putnum-Prints word 16 false sp.width sp.pad) (
          if-Prints (c == b'p')
            (after-Prints (after-Prints (emit-Prints b'0') (emit-Prints b'x'))
              (putnum-Prints v 16 false 16 b'0'))
            (if-Prints (c == b's') (emit_all-Prints (as_string a)) (emit-Prints (v % 256))))))

convert_plain-Prints : (c : ℕ) → Prints (convert_plain c)
unfolding convert_plain
convert_plain-Prints c =
    if-Prints (c == b'%') (emit-Prints b'%') (after-Prints (emit-Prints b'%') (emit-Prints c))

-- A conversion either lacks its argument, or prints.
data Converts (c : ℕ) (sp : Spec) (args : List Arg) : Type 0 where
  lacks : ((o : Out) → convert c sp args o ≡ none) → Converts c sp args
  does :
      (rest : List Arg) (f : Out → Out)
      → Prints f
      → ((o : Out) → convert c sp args o ≡ some (rest, f o))
      → Converts c sp args

converts : (c : ℕ) (sp : Spec) (args : List Arg) → Converts c sp args
unfolding convert
converts c sp [] = elim (Bool-cases (takes_arg c)) [
  | inl e ↦ lacks (λ o. rw e refl)
  | inr e ↦ does [] (convert_plain c) (convert_plain-Prints c) (λ o. rw e refl)
]
converts c sp (a ∷ args) = elim (Bool-cases (takes_arg c)) [
  | inl e ↦ elim (Bool-cases (fits_arg c a)) [
    | inl f ↦ does args (convert_arg c sp a) (convert_arg-Prints c sp a) (λ o. rw (e, f) refl)
    | inr f ↦ lacks (λ o. rw (e, f) refl)
  ]
  | inr e ↦ does (a ∷ args) (convert_plain c) (convert_plain-Prints c) (λ o. rw e refl)
]

-- The loop prints one text, or fails, at every size and after any text.
record Loops (fuel : ℕ) (fmt : List ℕ) (args : List Arg) : Type 0 where
  text : Option (List ℕ)
  loops :
      (n : ℕ) (t : List ℕ)
      → format_loop fuel fmt args (out_of n t) ≡ map_option (λ x. out_of n (t ++ x)) text

prefixed :
    {fuel : ℕ} {fmt : List ℕ} {args : List Arg} {f : Out → Out}
    → Prints f
    → Loops fuel fmt args
    → (r : Option (List ℕ)) × ((n : ℕ) (t : List ℕ)
        → format_loop fuel fmt args (f (out_of n t)) ≡ map_option (λ x. out_of n (t ++ x)) r)
prefixed {fuel} {fmt} {args} p l = (
  map_option (λ x. p.text ++ x) l.text,
  λ n t.
      ap (format_loop fuel fmt args) (p.prints n t)
      ∙ l.loops n (t ++ p.text)
      ∙ shift n t p.text l.text,
)
  where
    shift :
        (n : ℕ) (t a : List ℕ) (r : Option (List ℕ))
        → map_option (λ x. out_of n ((t ++ a) ++ x)) r
          ≡ map_option (λ x. out_of n (t ++ x)) (map_option (λ x. a ++ x) r)
    shift n t a none = refl
    shift n t a (some x) = ap (λ q. some (out_of n q)) (append_assoc t a x)

nothing_left : (fuel : ℕ) (args : List Arg) → Loops fuel [] args
unfolding format_loop
nothing_left zero args = record {
  text = some [];
  loops = λ n t. ap (λ q. some (out_of n q)) (sym (append_nil t));
}
nothing_left (suc fuel) args = record {
  text = some [];
  loops = λ n t. ap (λ q. some (out_of n q)) (sym (append_nil t));
}

-- A directive, with `d` for its conversion and the loop behind it.
converted :
    (fuel c d : ℕ) (cs ds : List ℕ) (args : List Arg)
    → (c == b'%') ≡ true
    → (read_spec cs).rest ≡ d ∷ ds
    → Converts d (read_spec cs) args
    → ((rest : List Arg) → Loops fuel ds rest)
    → Loops (suc fuel) (c ∷ cs) args
unfolding format_loop
converted fuel c d cs ds args h e (lacks none_of) ih = record {
  text = none;
  loops = λ n t. rw (h, e, none_of (out_of n t)) refl;
}
converted fuel c d cs ds args h e (does rest f p eq) ih =
    let q = prefixed p (ih rest) in
    record { text = q.0; loops = λ n t. rw (h, e, eq (out_of n t)) (q.1 n t) }

directive :
    (fuel c : ℕ) (cs rest : List ℕ) (args : List Arg)
    → (c == b'%') ≡ true
    → (read_spec cs).rest ≡ rest
    → ((ds : List ℕ) (left : List Arg) → Loops fuel ds left)
    → Loops (suc fuel) (c ∷ cs) args
unfolding format_loop
directive fuel c cs [] args h e ih = record { text = none; loops = λ n t. rw (h, e) refl }
directive fuel c cs (d ∷ ds) args h e ih =
    converted fuel c d cs ds args h e (converts d (read_spec cs) args) (ih ds)

format_loop-Loops : (fuel : ℕ) (fmt : List ℕ) (args : List Arg) → Loops fuel fmt args
unfolding format_loop
format_loop-Loops fuel [] args = nothing_left fuel args
format_loop-Loops zero (c ∷ cs) args = record { text = none; loops = λ n t. refl }
format_loop-Loops (suc fuel) (c ∷ cs) args = elim (Bool-cases (c == b'%')) [
  | inr e ↦
      let q = prefixed (emit-Prints c) (format_loop-Loops fuel cs args) in
      record { text = q.0; loops = λ n t. rw e (q.1 n t) }
  | inl e ↦
      directive fuel c cs (read_spec cs).rest args e refl
        (λ ds left. format_loop-Loops fuel ds left)
]

start : (size : ℕ) → out_of size [] ≡ record { written = []; left = size }
start size = rw (take_nil (size - 1)) (ap (λ k. record { written = []; left = k }) (omega arith))

-- A format and its arguments have one text, or fail, whatever the size of the buffer: `vsnprintf` puts the
-- first `size - 1` characters of it in front of the NUL. So it never writes more than `size` bytes, and a
-- larger buffer changes nothing but where the text is cut.
pub vsnprintf-truncates :
    (fmt : List ℕ) (args : List Arg)
    → (text : Option (List ℕ)) × ((size : ℕ)
        → vsnprintf size fmt args ≡ map_option (take (size - 1)) text)
unfolding vsnprintf
vsnprintf-truncates fmt args =
    let l = format_loop-Loops (length fmt) fmt args in
    (l.text, λ size. cut l.text size (l.loops size []))
  where
    cut :
        (r : Option (List ℕ)) (size : ℕ)
        → format_loop (length fmt) fmt args (out_of size []) ≡ map_option (λ x. out_of size x) r
        → vsnprintf size fmt args ≡ map_option (take (size - 1)) r
    cut none size e =
        ap (map_option (λ o. o.written))
          (ap (format_loop (length fmt) fmt args) (sym (start size)) ∙ e)
    cut (some x) size e =
        ap (map_option (λ o. o.written))
          (ap (format_loop (length fmt) fmt args) (sym (start size)) ∙ e)
