-- ===== src/Console/Tests.antt =====
-- Checks of the console and of the formatted output.
use lnxrm.Base.{ℕ, ◌-◌, ◌≡◌, refl, Option, none, List, [], ◌∷◌, take, arith}
use mathlib.Core.Option.{map as map_option}
use lnxrm.Console.{Console, console_putc, esc_process, push_seq, last_byte}
use lnxrm.Console.Replay.{empty, put_all, Holds, put_all-Holds}
use lnxrm.Console.Screen.{OnScreen, Keeps, console_putc-OnScreen}
use lnxrm.Console.Format.{
  number, string, vsnprintf, format_loop, read_spec, read_pad, read_width, read_long,
  skip_precision, skip_flags, convert,
}
use lnxrm.Console.Format.Rendering.{vsnprintf-truncates}

put_all-Holds_example : Holds (98 ∷ 97 ∷ []) (put_all (98 ∷ 97 ∷ []))
put_all-Holds_example = put_all-Holds (98 ∷ 97 ∷ [])

-- The cursor is behind the end of the last line.
abbrev full_screen : Console
full_screen = record {
  vga = λ i. 0x0720;
  vrow = 24;
  vcol = 80;
  cur_attr = 7;
  vga_ansi = record { phase = 0; buf = [] };
  ring = empty;
}

full_screen-OnScreen : OnScreen full_screen
full_screen-OnScreen = record { row = omega arith; col = omega arith; fits = omega arith }

console_putc-OnScreen_example :
    OnScreen (console_putc b'x' full_screen)
    × Keeps (full_screen.vga) (console_putc b'x' full_screen).vga
console_putc-OnScreen_example = console_putc-OnScreen b'x' full_screen full_screen-OnScreen

-- The format "%u%%" of 42.
vsnprintf-truncates_example :
    (text : Option (List ℕ)) × ((size : ℕ)
      → vsnprintf size (b'%' ∷ b'u' ∷ b'%' ∷ b'%' ∷ []) (number 42 ∷ [])
        ≡ map_option (take (size - 1)) text)
vsnprintf-truncates_example = vsnprintf-truncates (b'%' ∷ b'u' ∷ b'%' ∷ b'%' ∷ []) (number 42 ∷ [])

-- "%X" is not a conversion: it takes no argument, so "%s" behind it takes the number for a pointer.
hex_status : vsnprintf 80 (b'%' ∷ b'X' ∷ b'%' ∷ b's' ∷ []) (number 128 ∷ string none ∷ []) ≡ none
unfolding vsnprintf format_loop read_spec read_pad read_width read_long skip_precision skip_flags
    convert
hex_status = refl

-- The letter that ends the sequence "1;31;40m" does not fit the buffer, and the colours stay.
dropped_letter :
    (esc_process
      (push_seq b'm'
        (record { phase = 2; buf = b'1' ∷ b';' ∷ b'3' ∷ b'1' ∷ b';' ∷ b'4' ∷ b'0' ∷ [] })).buf
      full_screen).cur_attr
    ≡ 7
unfolding esc_process last_byte
dropped_letter = refl
