-- ===== src/Terminal/Tests.antt =====
-- Runs of kernel/core/kernel.c on small inputs.
use homeserver_os.Base.{ℕ, [], ◌∷◌, arith, replicate, length-replicate}
use homeserver_os.Terminal.{Terminal, write}
use homeserver_os.Terminal.Screen.{IsOnScreen, Shown, write-Shown}

-- The cursor in the last cell.
abbrev at_end : Terminal
at_end = record { row = 24; column = 79; color = 7; buffer = replicate 2000 0 }

at_end-IsOnScreen : IsOnScreen at_end
at_end-IsOnScreen = record {
  row = omega arith;
  column = omega arith;
  cells = length-replicate {A = ℕ} 2000 0;
}

write-Shown_example : Shown (b'o' ∷ b'k' ∷ []) at_end (write (b'o' ∷ b'k' ∷ []) at_end)
write-Shown_example =
    write-Shown (b'o' ∷ b'k' ∷ []) at_end (omega arith) (omega arith) at_end-IsOnScreen
