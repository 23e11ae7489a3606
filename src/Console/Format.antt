-- ===== src/Console/Format.antt =====
-- kernel/print.c: `vsnprintf`. The buffer is what was written to it; a format ends in front of its NUL.
pub mod Rendering
pub mod Numbers
use lnxrm.Base.{
  ℕ, zero, suc, ◌+◌, ◌-◌, ◌*◌, ◌/◌, ◌%◌, ◌^◌, Bool, true, false, not, ◌&&◌, ◌||◌, Option, none,
  some, List, [], ◌∷◌, ◌++◌, ◌==◌, ltb, leb, if◌then◌else◌, length, replicate,
}
use lnxrm.Console.{is_digit}

-- `*buf` and `*left`.
pub record Out : Type 0 where
  pub written : List ℕ
  pub left : ℕ

pub emit : ℕ → Out → Out
emit c o = if ltb 1 o.left then record { written = o.written ++ (c ∷ []); left = o.left - 1 } else o

pub emit_all : List ℕ → Out → Out
emit_all [] o = o
emit_all (c ∷ cs) o = emit_all cs (emit c o)

abbrev pub digit_char : ℕ → ℕ
digit_char d = if ltb d 10 then b'0' + d else b'a' + (d - 10)

-- The `do ... while (v)` loop: the digits from the last one on. 64 rounds are enough for a 64-bit value.
pub digits_from : ℕ → ℕ → ℕ → List ℕ
digits_from zero v base = []
digits_from (suc n) v base =
    let rest = digits_from n (v / base) base in
    digit_char (v % base) ∷ (if v / base == 0 then [] else rest)

pub reverse_onto : List ℕ → List ℕ → List ℕ
reverse_onto [] ys = ys
reverse_onto (x ∷ xs) ys = reverse_onto xs (x ∷ ys)

-- The characters in `tmp`, from its start.
pub number_tmp : ℕ → ℕ → Bool → List ℕ
number_tmp v base sgn =
    if sgn && leb (2 ^ 63) v
    then digits_from 64 ((2 ^ 64 - v) % 2 ^ 64) base ++ (b'-' ∷ [])
    else digits_from 64 v base

-- The padding, then `tmp` backwards.
pub putnum : ℕ → ℕ → Bool → ℕ → ℕ → Out → Out
putnum v base sgn width pad o =
    let tmp = number_tmp v base sgn in
    emit_all (reverse_onto tmp []) (emit_all (replicate (width - length tmp) pad) o)

-- What `va_arg` takes next: a number in a 64-bit slot, or a string up to its NUL, `none` for NULL.
pub data Arg : Type 0 where
  number : ℕ → Arg
  string : Option (List ℕ) → Arg

abbrev pub as_number : Arg → ℕ
as_number (number v) = v
as_number (string s) = 0

abbrev pub as_string : Arg → List ℕ
as_string (number v) = []
as_string (string (some s)) = s
as_string (string none) = b'(' ∷ b'n' ∷ b'u' ∷ b'l' ∷ b'l' ∷ b')' ∷ []

unfoldable pub skip_flags : List ℕ → List ℕ
skip_flags [] = []
skip_flags (c ∷ cs) =
    let rest = skip_flags cs in
    if c == b'-' || c == b'+' || c == b' ' || c == b'#' || c == b'\'' then rest else c ∷ cs

pub skip_digits : List ℕ → List ℕ
skip_digits [] = []
skip_digits (c ∷ cs) = let rest = skip_digits cs in if is_digit c then rest else c ∷ cs

unfoldable pub read_width : ℕ → List ℕ → ℕ × List ℕ
read_width width [] = (width, [])
read_width width (c ∷ cs) =
    let rest = read_width (width * 10 + (c - b'0')) cs in
    if is_digit c then rest else (width, c ∷ cs)

unfoldable pub read_pad : List ℕ → ℕ × List ℕ
read_pad [] = (b' ', [])
read_pad (c ∷ cs) = if c == b'0' then (b'0', cs) else (b' ', c ∷ cs)

unfoldable pub skip_precision : List ℕ → List ℕ
skip_precision [] = []
skip_precision (c ∷ cs) = if c == b'.' then skip_digits cs else c ∷ cs

abbrev pub skip_l : List ℕ → List ℕ
skip_l [] = []
skip_l (c ∷ cs) = if c == b'l' then cs else c ∷ cs

unfoldable pub read_long : List ℕ → Bool × List ℕ
read_long [] = (false, [])
read_long (c ∷ cs) =
    if c == b'l' then (true, skip_l cs) else if c == b'z' then (true, cs) else (false, c ∷ cs)

-- What stands between a '%' and the character that selects the conversion.
pub record Spec : Type 0 where
  pub pad : ℕ
  pub width : ℕ
  pub lng : Bool
  pub rest : List ℕ

unfoldable pub read_spec : List ℕ → Spec
read_spec fmt =
    let padded = read_pad (skip_flags fmt) in
    let sized = read_width 0 padded.1 in
    let long = read_long (skip_precision sized.1) in
    record { pad = padded.0; width = sized.0; lng = long.0; rest = long.1 }

-- `int` and `unsigned` arguments, widened to 64 bits.
abbrev pub sign_extend : ℕ → ℕ
sign_extend v = if ltb (v % 2 ^ 32) (2 ^ 31) then v % 2 ^ 32 else v % 2 ^ 32 + (2 ^ 64 - 2 ^ 32)

-- Does the conversion take an argument?
abbrev pub takes_arg : ℕ → Bool
takes_arg c = c == b'd' || c == b'u' || c == b'x' || c == b'p' || c == b's' || c == b'c'

-- The cases of the switch that do.
pub convert_arg : ℕ → Spec → Arg → Out → Out
convert_arg c sp a o =
    let v = as_number a in
    let word = if sp.lng then v else v % 2 ^ 32 in
    if c == b'd'
    then putnum (if sp.lng then v else sign_extend v) 10 true sp.width sp.pad o
    else if c == b'u'
    then putnum word 10 false sp.width sp.pad o
    else if c == b'x'
    then putnum word 16 false sp.width sp.pad o
    else if c == b'p'
    then putnum v 16 false 16 b'0' (emit b'x' (emit b'0' o))
    else if c == b's'
    then emit_all (as_string a) o
    else emit (v % 256) o

-- The case of '%' and the default.
pub convert_plain : ℕ → Out → Out
convert_plain c o = if c == b'%' then emit b'%' o else emit c (emit b'%' o)

-- `%s` takes a pointer to text, and the others take numbers.
abbrev pub fits_arg : ℕ → Arg → Bool
fits_arg c (number v) = not (c == b's')
fits_arg c (string s) = c == b's'

-- One conversion: the arguments that it leaves, and the output. `none` stands for an argument that is
-- missing or of the wrong kind.
unfoldable pub convert : ℕ → Spec → List Arg → Out → Option (List Arg × Out)
convert c sp [] o = if takes_arg c then none else some ([], convert_plain c o)
convert c sp (a ∷ args) o =
    if takes_arg c
    then (if fits_arg c a then some (args, convert_arg c sp a o) else none)
    else some (a ∷ args, convert_plain c o)

-- The loop over the format, with fuel for its length. A format that ends inside of a directive makes the
-- source read past the NUL: `none`.
unfoldable pub format_loop : ℕ → List ℕ → List Arg → Out → Option Out
format_loop fuel [] args o = some o
format_loop zero (c ∷ cs) args o = none
format_loop (suc n) (c ∷ cs) args o =
    let sp = read_spec cs in
    let plain = format_loop n cs args (emit c o) in
    if c == b'%'
    then elim sp.rest [
      | [] ↦ none
      | d ∷ ds ↦ elim (convert d sp args o) [ none ↦ none | some r ↦ format_loop n ds r.0 r.1 ]
    ]
    else plain

-- The bytes in front of the NUL that ends the buffer, whose number is what the source returns. With
-- `size` 0 there is no NUL, and nothing is written.
unfoldable pub vsnprintf : ℕ → List ℕ → List Arg → Option (List ℕ)
vsnprintf size fmt args =
    elim (format_loop (length fmt) fmt args (record { written = []; left = size })) [
      | none ↦ none
      | some o ↦ some o.written
    ]
