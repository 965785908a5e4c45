-- ===== src/Terminal.antt =====
-- kernel/core/kernel.c: the text screen. Of the memory at 0xB8000 the model has the 80 * 25 cells that
-- the file writes; that no index leaves them is proved.
pub mod Screen
mod Tests
use Prim.Native.Nat.{bit_or}
use homeserver_os.Base.{ℕ, zero, suc, ◌+◌, ◌*◌, ◌%◌, ◌^◌, List, [], ◌∷◌, map, ◌==◌, if◌then◌else◌}
use homeserver_os.Base.Text.{codes}
use homeserver_os.Base.Table.{update_at}

-- VGA_WIDTH and VGA_HEIGHT
abbrev pub vga_width : ℕ
vga_width = 80

abbrev pub vga_height : ℕ
vga_height = 25

-- `vga_entry_color`, as a uint8_t
unfoldable pub vga_entry_color : ℕ → ℕ → ℕ
vga_entry_color fg bg = bit_or fg (bg * 16) % 2 ^ 8

-- `vga_entry`
unfoldable pub vga_entry : ℕ → ℕ → ℕ
vga_entry uc color = bit_or uc (color * 256)

-- The variables of the terminal.
pub record Terminal : Type 0 where
  pub row : ℕ  -- size_t
  pub column : ℕ  -- size_t
  pub color : ℕ  -- uint8_t
  pub buffer : List ℕ  -- uint16_t *

-- VGA_COLOR_LIGHT_GREY and VGA_COLOR_BLACK
abbrev pub light_grey : ℕ
light_grey = 7

abbrev pub black : ℕ
black = 0

-- `terminal_initialize`
unfoldable pub initialize : Terminal → Terminal
initialize t =
    let color = vga_entry_color light_grey black in
    record { row = 0; column = 0; color = color; buffer = map (λ c. vga_entry b' ' color) t.buffer }

-- `terminal_column = 0; if (++terminal_row == VGA_HEIGHT) terminal_row = 0;`
abbrev pub next_line : Terminal → Terminal
next_line t = record t { column = 0; row = if t.row + 1 == vga_height then 0 else t.row + 1 }

-- `terminal_row * VGA_WIDTH + terminal_column`
abbrev pub cursor : Terminal → ℕ
cursor t = t.row * vga_width + t.column

-- `terminal_putchar`
unfoldable pub putchar : ℕ → Terminal → Terminal
putchar c t =
    if c == b'\n'
    then next_line t
    else (let t' : Terminal = record t {
      buffer = update_at (cursor t) (λ old. vga_entry c t.color) t.buffer;
    } in
        if t.column + 1 == vga_width then next_line t' else record t' { column = t.column + 1 })

-- `terminal_write`
unfoldable pub write : List ℕ → Terminal → Terminal
write [] t = t
write (c ∷ text) t = if c == 0 then t else write text (putchar c t)

-- `kernel_main`: the screen on which it halts.
unfoldable pub kernel_main : Terminal → Terminal
kernel_main t = write (codes "\nSystem ready.\n") (
    write (codes "Drivers loaded: OK\n") (
      write (codes "Network stack: OK\n") (
        write (codes "Filesystem: OK\n") (
          write (codes "Scheduler: OK\n") (
            write (codes "Memory manager: OK\n") (
              write (codes "Initializing kernel...\n")
                (write (codes "Home Server OS v0.1.0\n") (initialize t))))))))
