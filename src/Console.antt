-- ===== src/Console.antt =====
-- kernel/print.c and kernel/ansi.c: the VGA text console, its escape sequences, and the ring of the last
-- characters. Characters are bytes. The framebuffer, the serial port and the hardware cursor only
-- receive what is printed and are left out.
pub mod Replay
pub mod Screen
pub mod Format
mod Tests
use lnxrm.Base.{
  ℕ, zero, suc, ◌+◌, ◌-◌, ◌*◌, ◌/◌, ◌%◌, bit_or, Bool, true, false, not, ◌&&◌, ◌||◌, Option, none,
  some, List, [], ◌∷◌, ◌++◌, ◌==◌, ltb, leb, if◌then◌else◌, update, length, get_or,
}

abbrev pub vga_cols : ℕ
vga_cols = 80

abbrev pub vga_rows : ℕ
vga_rows = 25

abbrev pub ring_size : ℕ
ring_size = 4096

pub record Ring : Type 0 where
  pub ring_buf : ℕ → ℕ
  pub ring_head : ℕ
  pub ring_count : ℕ

pub ring_putc : ℕ → Ring → Ring
ring_putc c r =
    if ltb r.ring_count ring_size
    then record r {
      ring_buf = update r.ring_buf ((r.ring_head + r.ring_count) % ring_size) c;
      ring_count = r.ring_count + 1;
    }
    else record r {
      ring_buf = update r.ring_buf r.ring_head c;
      ring_head = (r.ring_head + 1) % ring_size;
    }

abbrev pub ring_get_count : Ring → ℕ
ring_get_count r = r.ring_count

abbrev pub ring_get_char : ℕ → Ring → ℕ
ring_get_char i r = r.ring_buf ((r.ring_head + i) % ring_size)

-- `struct ansi_seq`: `buf` has the first `len` bytes of the array of ANSI_SEQ_MAX = 8.
pub record AnsiSeq : Type 0 where
  pub phase : ℕ
  pub buf : List ℕ

pub data Fed : Type 0 where
  ansi_text ansi_consumed ansi_done : Fed

abbrev pub is_letter : ℕ → Bool
is_letter c = leb b'A' c && leb c b'Z' || leb b'a' c && leb c b'z'

-- A full buffer drops the byte, also the letter that ends the sequence.
abbrev pub push_seq : ℕ → AnsiSeq → AnsiSeq
push_seq c s = if ltb (length s.buf) 7 then record s { buf = s.buf ++ (c ∷ []) } else s

pub ansi_feed : AnsiSeq → ℕ → Fed × AnsiSeq
ansi_feed s c =
    if s.phase == 0
    then (if c == 27 then (ansi_consumed, record s { phase = 1 }) else (ansi_text, s))
    else if s.phase == 1
    then (
      ansi_consumed,
      if c == b'[' then record { phase = 2; buf = [] } else record s { phase = 0 },
    )
    else if is_letter c
    then (ansi_done, record (push_seq c s) { phase = 0 })
    else (ansi_consumed, push_seq c s)

abbrev pub ansi_color_index : ℕ → ℕ
ansi_color_index code = get_or (0 ∷ 4 ∷ 2 ∷ 6 ∷ 1 ∷ 5 ∷ 3 ∷ 7 ∷ []) (code - 30) 0

pub record Console : Type 0 where
  pub vga : ℕ → ℕ
  pub vrow : ℕ
  pub vcol : ℕ
  pub cur_attr : ℕ
  pub vga_ansi : AnsiSeq
  pub ring : Ring

abbrev pub blank : ℕ
blank = 0x0700

-- The rows move up by one, and the last one is blank; cells outside of the screen are not written.
pub vga_scroll : (ℕ → ℕ) → ℕ → ℕ
vga_scroll vga i = if ltb i 1920 then vga (i + 80) else if ltb i 2000 then blank else vga i

pub clear_screen : (ℕ → ℕ) → ℕ → ℕ
clear_screen vga i = if ltb i 2000 then blank else vga i

abbrev pub is_digit : ℕ → Bool
is_digit c = leb b'0' c && leb c b'9'

-- The variables of the parser of `ESC[row;colH`.
pub record Place : Type 0 where
  pub row : ℕ
  pub num : ℕ
  pub have_num : Bool
  pub semi : Bool

abbrev pub place_step : ℕ → Place → Place
place_step c p =
    if is_digit c
    then record p { num = p.num * 10 + (c - b'0'); have_num = true }
    else if c == b';'
    then (if p.have_num
        then record { row = p.num; num = 0; have_num = false; semi = true }
        else record p { semi = true })
    else p

-- All bytes but the last one.
pub place_from : List ℕ → Place → Place
place_from [] p = p
place_from (c ∷ []) p = p
place_from (c ∷ d ∷ cs) p = place_from (d ∷ cs) (place_step c p)

abbrev pub clamp : ℕ → ℕ → ℕ
clamp size n = if leb size (n - 1) then size - 1 else n - 1

-- The numbers have at most 7 digits, as the buffer has at most 7 bytes, so `int` does not overflow.
pub move_cursor : List ℕ → Console → Console
move_cursor buf s =
    let p = place_from buf (record { row = 1; num = 0; have_num = false; semi = false }) in
    let row = if not p.semi && p.have_num then p.num else p.row in
    let col = if p.semi && p.have_num then p.num else 1 in
    record s { vrow = clamp vga_rows row; vcol = clamp vga_cols col }

-- The variables of the parser of `ESC[...m`.
pub record Colors : Type 0 where
  pub num : ℕ
  pub have_num : Bool
  pub fg : ℕ
  pub bg : ℕ

abbrev pub apply_code : Colors → Colors
apply_code p =
    if p.num == 0
    then record p { fg = 7; bg = 0 }
    else if leb 30 p.num && leb p.num 37
    then record p { fg = ansi_color_index p.num }
    else if leb 40 p.num && leb p.num 47
    then record p { bg = ansi_color_index (p.num - 10) }
    else if p.num == 1
    then record p { fg = bit_or p.fg 8 }
    else p

abbrev pub color_step : ℕ → Bool → Colors → Colors
color_step c at_end p =
    if is_digit c
    then record p { num = p.num * 10 + (c - b'0'); have_num = true }
    else if (c == b';' || at_end) && p.have_num
    then record (apply_code p) { num = 0; have_num = false }
    else p

pub colors_from : List ℕ → Colors → Colors
colors_from [] p = p
colors_from (c ∷ []) p = color_step c true p
colors_from (c ∷ d ∷ cs) p = colors_from (d ∷ cs) (color_step c false p)

pub set_colors : List ℕ → Console → Console
set_colors buf s =
    let p =
      colors_from buf
        (record { num = 0; have_num = false; fg = s.cur_attr % 16; bg = s.cur_attr / 16 % 8 }) in
    record s { cur_attr = if length buf == 1 then 0x07 else bit_or (p.bg * 16) p.fg }

pub last_byte : List ℕ → ℕ
last_byte [] = 0
last_byte (c ∷ []) = c
last_byte (c ∷ d ∷ cs) = last_byte (d ∷ cs)

pub esc_process : List ℕ → Console → Console
esc_process buf s =
    if last_byte buf == b'J'
    then (if leb 2 (length buf) && get_or buf 0 0 == b'2'
        then record s { vga = clear_screen s.vga; vrow = 0; vcol = 0 }
        else s)
    else if last_byte buf == b'H'
    then move_cursor buf s
    else if last_byte buf == b'm'
    then set_colors buf s
    else s

-- `vcol = 0; if (++vrow >= VGA_ROWS) { vga_scroll(); vrow--; }`
pub new_line : Console → Console
new_line s =
    if leb vga_rows (s.vrow + 1)
    then record s { vga = vga_scroll s.vga; vcol = 0 }
    else record s { vrow = s.vrow + 1; vcol = 0 }

abbrev pub put_cell : ℕ → ℕ → Console → Console
put_cell col c s = record s {
  vga = update s.vga (s.vrow * vga_cols + col) (bit_or (s.cur_attr * 256) c);
}

pub put_text : ℕ → Console → Console
unfolding new_line
put_text c s =
    if c == 8
    then (if ltb 0 s.vcol then record (put_cell (s.vcol - 1) 32 s) { vcol = s.vcol - 1 } else s)
    else if c == 10
    then new_line s
    else if c == 13
    then s
    else if c == 9
    then (if leb vga_cols ((s.vcol / 8 + 1) * 8)
        then new_line s
        else record s { vcol = (s.vcol / 8 + 1) * 8 })
    else record (put_cell s.vcol c s) { vcol = s.vcol + 1 }

-- A character that is rendered: a full line is broken first.
abbrev pub render_char : ℕ → Console → Console
render_char c s =
    let q = put_text c (if leb vga_cols s.vcol then new_line s else s) in
    record q { ring = ring_putc c q.ring }

pub after_feed : Fed → ℕ → Console → Console
after_feed ansi_done c s = esc_process s.vga_ansi.buf s
after_feed ansi_consumed c s = s
after_feed ansi_text c s = render_char c s

pub console_putc : ℕ → Console → Console
console_putc c s =
    let fed = ansi_feed s.vga_ansi c in after_feed fed.0 c (record s { vga_ansi = fed.1 })
