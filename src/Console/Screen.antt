-- ===== src/Console/Screen.antt =====
-- The console stays on its screen.
use lnxrm.Base.{
  ℕ, ◌<◌, ◌≤◌, ◌≡◌, refl, ◌∙◌, ◌&&◌, inl, inr, List, [], ◌∷◌, arith, leb, ◌==◌, length, get_or,
  Bool-cases, length-append,
}
use lnxrm.Console.{
  Console, AnsiSeq, Fed, ansi_text, ansi_consumed, ansi_done, ansi_feed, push_seq, console_putc,
  after_feed, render_char, put_text, new_line, vga_scroll, clear_screen, esc_process, move_cursor,
  set_colors, last_byte, vga_rows, vga_cols,
}

-- The cursor is on the screen, or behind the end of a line, and the sequence fits its buffer.
pub record OnScreen (s : Console) : Type 0 where
  pub row : s.vrow < vga_rows
  pub col : s.vcol ≤ vga_cols
  pub fits : length s.vga_ansi.buf ≤ 7

-- The cells outside of the screen are the same.
abbrev pub Keeps : (ℕ → ℕ) → (ℕ → ℕ) → Type 0
Keeps f g = (i : ℕ) → 2000 ≤ i → g i ≡ f i

new_line-OnScreen :
    (s : Console)
    → OnScreen s
    → OnScreen (new_line s) × Keeps s.vga (new_line s).vga × ((new_line s).vcol < vga_cols)
unfolding new_line vga_scroll
new_line-OnScreen s v = (
  record { row = ground (arith, v.row); col = ground arith; fits = ground (arith, v.fits) },
  λ i h. ground arith,
  ground arith,
)

put_text-OnScreen :
    (c : ℕ) (s : Console)
    → OnScreen s
    → s.vcol < vga_cols
    → OnScreen (put_text c s) × Keeps s.vga (put_text c s).vga
unfolding put_text new_line vga_scroll
put_text-OnScreen c s v h = (
  record {
    row = ground (arith, v.row);
    col = ground (arith, v.col);
    fits = ground (arith, v.fits);
  },
  λ i b. ground (arith, v.row),
)

move_cursor-OnScreen : (buf : List ℕ) (s : Console) → OnScreen s → OnScreen (move_cursor buf s)
unfolding move_cursor
move_cursor-OnScreen buf s v = record { row = ground arith; col = ground arith; fits = v.fits }

esc_process-OnScreen :
    (buf : List ℕ) (s : Console)
    → OnScreen s
    → OnScreen (esc_process buf s) × Keeps s.vga (esc_process buf s).vga
unfolding esc_process clear_screen move_cursor set_colors
esc_process-OnScreen buf s v = elim (Bool-cases (last_byte buf == b'J')) [
  | inl e ↦ elim (Bool-cases (leb 2 (length buf) && get_or buf 0 0 == b'2')) [
    | inl f ↦
        rw (e, f)
          (record { row = omega arith; col = omega arith; fits = v.fits }, λ i h. ground arith)
    | inr f ↦ rw (e, f) (v, λ i h. refl)
  ]
  | inr e ↦ elim (Bool-cases (last_byte buf == b'H')) [
    | inl f ↦ rw (e, f) (move_cursor-OnScreen buf s v, λ i h. refl)
    | inr f ↦ elim (Bool-cases (last_byte buf == b'm')) [
      | inl g ↦ rw (e, f, g) (record { row = v.row; col = v.col; fits = v.fits }, λ i h. refl)
      | inr g ↦ rw (e, f, g) (v, λ i h. refl)
    ]
  ]
]

push_seq_fits : (c : ℕ) (q : AnsiSeq) → length q.buf ≤ 7 → length (push_seq c q).buf ≤ 7
push_seq_fits c q h = ground (arith, length-append q.buf (c ∷ []))

ansi_feed_fits : (c : ℕ) (q : AnsiSeq) → length q.buf ≤ 7 → length (ansi_feed q c).1.buf ≤ 7
unfolding ansi_feed
ansi_feed_fits c q h = ground (arith, push_seq_fits c q h)

render_char-OnScreen :
    (c : ℕ) (s : Console)
    → OnScreen s
    → OnScreen (render_char c s) × Keeps s.vga (render_char c s).vga
render_char-OnScreen c s v = elim (Bool-cases (leb vga_cols s.vcol)) [
  | inl e ↦
      let line = new_line-OnScreen s v in
      let put = put_text-OnScreen c (new_line s) line.0 line.2 in
      rw e (
        record { row = put.0.row; col = put.0.col; fits = put.0.fits },
        λ i h. put.1 i h ∙ line.1 i h,
      )
  | inr e ↦
      let put = put_text-OnScreen c s v (ground arith) in
      rw e (record { row = put.0.row; col = put.0.col; fits = put.0.fits }, put.1)
]

fed-OnScreen :
    (f : Fed) (c : ℕ) (s : Console)
    → OnScreen s
    → OnScreen (after_feed f c s) × Keeps s.vga (after_feed f c s).vga
unfolding after_feed
fed-OnScreen ansi_text c s v = render_char-OnScreen c s v
fed-OnScreen ansi_consumed c s v = (v, λ i h. refl)
fed-OnScreen ansi_done c s v = esc_process-OnScreen s.vga_ansi.buf s v

-- Whatever character is printed, in whatever state of an escape sequence, the cursor stays on the
-- screen or just behind the end of a line, the sequence fits its buffer, and no cell outside of the
-- 80 by 25 cells is written.
pub console_putc-OnScreen :
    (c : ℕ) (s : Console)
    → OnScreen s
    → OnScreen (console_putc c s) × Keeps s.vga (console_putc c s).vga
unfolding console_putc
console_putc-OnScreen c s v =
    fed-OnScreen (ansi_feed s.vga_ansi c).0 c (record s { vga_ansi = (ansi_feed s.vga_ansi c).1 })
      (record { row = v.row; col = v.col; fits = ansi_feed_fits c s.vga_ansi v.fits })
