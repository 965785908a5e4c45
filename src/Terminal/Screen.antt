-- ===== src/Terminal/Screen.antt =====
-- The cursor and the cells of the screen of kernel/core/kernel.c.
use homeserver_os.Base.{
  ℕ, zero, suc, ◌+◌, ◌*◌, ◌/◌, ◌%◌, ◌<◌, ◌≤◌, ◌≡◌, ◌≢◌, refl, ap, ◌∙◌, false, List, [], ◌∷◌, arith,
  length, get_elem?, some, some_inj, ◌==◌, Bool-cases, inl, inr,
}
use homeserver_os.Base.Table.Slots.{
  All, length-update_at, get_elem?-update_at, get_elem?-update_at_ne, get_elem?-some,
}
use homeserver_os.Terminal.{Terminal, vga_entry, cursor, putchar, write}

-- The cursor is on the screen, which has all its cells.
pub record IsOnScreen (t : Terminal) : Type 0 where
  pub row : t.row < 25
  pub column : t.column < 80
  pub cells : length t.buffer ≡ 2000

-- A byte that takes a cell: neither NUL nor the line feed.
abbrev pub IsPrinted : ℕ → Type 0
IsPrinted c = (c ≢ 0) × (c ≢ 10)

-- What `terminal_putchar` of such a byte leaves.
record Put (c : ℕ) (t u : Terminal) : Type 0 where
  moved : cursor u ≡ (cursor t + 1) % 2000
  written : get_elem? u.buffer (cursor t) ≡ some (vga_entry c t.color)
  others : (j : ℕ) → j ≢ cursor t → get_elem? u.buffer j ≡ get_elem? t.buffer j
  same_color : u.color ≡ t.color
  valid : IsOnScreen u

putchar-Put : (c : ℕ) (t : Terminal) → IsPrinted c → IsOnScreen t → Put c t (putchar c t)
unfolding putchar
putchar-Put c t h v =
    let f = λ (old : ℕ). vga_entry c t.color in
    let not_feed : (c == 10) ≡ false = ground (arith, h.1) in
    let (old, here) =
      get_elem?-some (cursor t) t.buffer (omega (arith, v.row, v.column, v.cells)) in
    let written = get_elem?-update_at (cursor t) f t.buffer here in
    let others = λ (j : ℕ) (ne : j ≢ cursor t). get_elem?-update_at_ne (cursor t) j f t.buffer ne in
    let size = length-update_at (cursor t) f t.buffer ∙ v.cells in
    elim (Bool-cases (t.column + 1 == 80)) [
      | inl last ↦
          rw (not_feed, last)
            (record {
              moved = ground (arith, v.row, v.column);
              written = written;
              others = others;
              same_color = refl;
              valid = record { row = ground (arith, v.row); column = omega arith; cells = size };
            })
      | inr inner ↦
          rw (not_feed, inner)
            (record {
              moved = ground (arith, v.row, v.column);
              written = written;
              others = others;
              same_color = refl;
              valid = record { row = v.row; column = ground (arith, v.column); cells = size };
            })
    ]

-- A line feed moves the cursor to the start of the next line, or of the first behind the last, and
-- writes no cell.
pub putchar-feed :
    (t : Terminal)
    → IsOnScreen t
    → (cursor (putchar 10 t) ≡ (cursor t / 80 + 1) * 80 % 2000)
      × ((putchar 10 t).buffer ≡ t.buffer)
      × IsOnScreen (putchar 10 t)
unfolding putchar
putchar-feed t v = (
  ground (arith, v.row, v.column),
  refl,
  record { row = ground (arith, v.row); column = omega arith; cells = v.cells },
)

-- What `terminal_write` of such bytes leaves.
pub record Shown (text : List ℕ) (t u : Terminal) : Type 0 where
  pub moved : cursor u ≡ (cursor t + length text) % 2000
  pub shown :
      (i c : ℕ)
      → get_elem? text i ≡ some c
      → get_elem? u.buffer ((cursor t + i) % 2000) ≡ some (vga_entry c t.color)
  pub others :
      (j : ℕ)
      → ((i : ℕ) → i < length text → j ≢ (cursor t + i) % 2000)
      → get_elem? u.buffer j ≡ get_elem? t.buffer j
  pub same_color : u.color ≡ t.color
  pub valid : IsOnScreen u

on_screen-cursor : (t : Terminal) → IsOnScreen t → cursor t < 2000
on_screen-cursor t v = omega (arith, v.row, v.column)

write-cons :
    (c : ℕ) (text : List ℕ) (t : Terminal) → c ≢ 0 → write (c ∷ text) t ≡ write text (putchar c t)
unfolding write
write-cons c text t ne = let e : (c == 0) ≡ false = ground arith in rw e refl

-- The first cell stays while the rest is written, and the rest stands behind it.
Shown-behind :
    (c : ℕ) (text : List ℕ) (t u : Terminal) {end : Terminal}
    → cursor t < 2000
    → length text < 2000
    → Put c t u
    → Shown text u end
    → (i d : ℕ) → get_elem? (c ∷ text) i ≡ some d
    → get_elem? end.buffer ((cursor t + i) % 2000) ≡ some (vga_entry d t.color)
Shown-behind c text t u {end} low short p w zero d e =
    let same : c ≡ d = some_inj e in
    let at_cursor : (cursor t + 0) % 2000 ≡ cursor t = omega arith in
    rw at_cursor (
      w.others (cursor t) (λ i lt q. omega (arith, p.moved))
      ∙ p.written
      ∙ ap (λ k. some (vga_entry k t.color)) same)
Shown-behind c text t u {end} low short p w (suc i) d e =
    let at_i : (cursor t + suc i) % 2000 ≡ (cursor u + i) % 2000 = omega (arith, p.moved) in
    rw at_i (w.shown i d e ∙ ap (λ k. some (vga_entry d k)) p.same_color)

-- A text without NUL and line feed, and no longer than the screen, stands in the cells from the cursor
-- on, behind the last cell from the first on, in the colour of the terminal; no other cell
-- changes, and the cursor stands behind the text.
pub write-Shown :
    (text : List ℕ) (t : Terminal)
    → All IsPrinted text
    → length text ≤ 2000
    → IsOnScreen t
    → Shown text t (write text t)
write-Shown [] t h short v =
    unfold write in
    record {
      moved = omega (arith, on_screen-cursor t v);
      shown = λ i c e. absurd (cc);
      others = λ j ne. refl;
      same_color = refl;
      valid = v;
    }
write-Shown (c ∷ text) t h short v =
    let p = putchar-Put c t h.0 v in
    let u = putchar c t in
    let w = write-Shown text u h.1 (omega arith) p.valid in
    let low = on_screen-cursor t v in
    rw (write-cons c text t h.0.0) (record {
      moved = w.moved ∙ omega (arith, p.moved);
      shown = Shown-behind c text t u low (omega arith) p w;
      others = λ j ne.
          w.others j (λ i lt e. ne (suc i) (omega arith) (e ∙ omega (arith, p.moved)))
          ∙ p.others j (λ e. ne 0 (omega arith) (omega (arith, low)));
      same_color = w.same_color ∙ p.same_color;
      valid = w.valid;
    })
