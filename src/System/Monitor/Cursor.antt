-- ===== src/System/Monitor/Cursor.antt =====
-- Where `printc` of src/system/monitor.c writes, and what `scroll` does to the screen.
use pinion.Base.{
  ℕ, zero, suc, ◌+◌, ◌≤◌, ◌<◌, ◌≡◌, refl, ◌∙◌, ◌⊎◌, inl, inr, arith, List, [], ◌∷◌, Bool-cases,
  if◌then◌else◌, update, leb, ltb,
}
use pinion.System.Monitor.{
  Screen, move_up, fill_cells, scroll, put_cell, move_cursor, printc, print_chars,
}

-- The number of places of the screen.
abbrev pub places : ℕ
places = 2000

fill_cells-value :
    (left v i : ℕ) (c : ℕ → ℕ) (p : ℕ)
    → fill_cells left v i c p ≡ (if leb i p then if ltb p (i + left) then v else c p else c p)
unfolding fill_cells
fill_cells-value zero v i c p = ground arith
fill_cells-value (suc left) v i c p =
    ground (arith, fill_cells-value left v (i + 1) (update c i v) p)

move_up-value :
    (left i : ℕ) (c : ℕ → ℕ) (p : ℕ)
    → move_up left i c p ≡ (if leb i p then if ltb p (i + left) then c (p + 80) else c p else c p)
unfolding move_up
move_up-value zero i c p = ground arith
move_up-value (suc left) i c p =
    ground (arith, move_up-value left (i + 1) (update c i (c (i + 80))) p)

-- A screen moved up by one line, with the last line blank.
abbrev pub moved_up : (ℕ → ℕ) → ℕ → ℕ
moved_up c p = if ltb p 1920 then c (p + 80) else if ltb p places then 0x0F20 else c p

-- `scroll` leaves a screen with the cursor on it alone. Otherwise every line moves up by one, the last
-- line is blanked, the cursor goes to its start, and nothing outside the screen changes.
pub scroll-moved_up :
    (s : Screen)
    → ((s.cursor < places) × (scroll s ≡ s))
      ⊎ ((places ≤ s.cursor)
          × ((scroll s).cursor ≡ 1920)
          × ((p : ℕ) → (scroll s).cells p ≡ moved_up s.cells p))
unfolding scroll
scroll-moved_up s = elim (Bool-cases (leb 2000 s.cursor)) [
  | inr on ↦ inl (ground (arith, on), rw on refl)
  | inl off ↦ inr (
    ground (arith, off),
    rw off refl,
    rw off (λ p. ground (
      arith,
      fill_cells-value 80 0x0F20 1920 (move_up 1920 0 s.cells) p,
      move_up-value 1920 0 s.cells p,
    )),
  )
]

-- The cursor stands on the screen, and `t` differs from `s` in places of the screen only.
abbrev pub InScreen : Screen → Screen → Type 0
InScreen s t = (t.cursor < places) × ((i : ℕ) → t.cells (places + i) ≡ s.cells (places + i))

put_cell-bounds :
    (c : ℕ) (s : Screen)
    → s.cursor < places
    → ((put_cell c s).cursor ≤ places)
      × ((i : ℕ) → (put_cell c s).cells (places + i) ≡ s.cells (places + i))
unfolding put_cell
put_cell-bounds c s on = (ground (arith, on), λ i. ground (arith, on))

scroll-InScreen : (s : Screen) → s.cursor ≤ places → InScreen s (scroll s)
scroll-InScreen s near = elim (scroll-moved_up s) [
  | inl h ↦ rw h.1 (h.0, λ i. refl)
  | inr h ↦ (ground (arith, h.1), λ i. h.2 (places + i) ∙ ground arith)
]

pub printc-InScreen : (c : ℕ) (s : Screen) → s.cursor < places → InScreen s (printc c s)
unfolding printc move_cursor
printc-InScreen c s on =
    let put = put_cell-bounds c s on in
    let scrolled = scroll-InScreen (put_cell c s) put.0 in (scrolled.0, λ i. scrolled.1 i ∙ put.1 i)

-- Whatever characters are printed, from a cursor on the screen the cursor stays on the screen and
-- nothing is written outside the 2000 places of the video memory.
pub print_chars-InScreen :
    (cs : List ℕ) (s : Screen) → s.cursor < places → InScreen s (print_chars cs s)
unfolding print_chars
print_chars-InScreen [] s on = (on, λ i. refl)
print_chars-InScreen (c ∷ cs) s on =
    let first = printc-InScreen c s on in
    let rest = print_chars-InScreen cs (printc c s) first.0 in (rest.0, λ i. rest.1 i ∙ first.1 i)
