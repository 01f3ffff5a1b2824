-- ===== src/Screen.antt =====
-- drivers/screen.c: the two screen buffers, the cursor of the current task, and what is sent to the
-- terminal, the last item first.
pub mod Reflush
pub mod Cursor
use ucas_2024fall_oslab.Base.{
  ℕ, zero, suc, ◌+◌, ◌-◌, ◌*◌, ◌||◌, ◌==◌, ltb, leb, update, if◌then◌else◌, List, [], ◌∷◌, ◌^◌,
}

abbrev pub screen_width : ℕ
screen_width = 80

abbrev pub screen_height : ℕ
screen_height = 50

-- SCREEN_LOC
abbrev pub screen_loc : ℕ → ℕ → ℕ
screen_loc x y = y * screen_width + x

-- vt100_move_cursor, vt100_clear, vt100_hidden_cursor and bios_putchar
pub data Sent : Type 0 where
  move_cursor : ℕ → ℕ → Sent
  clear_terminal : Sent
  hide_cursor : Sent
  put_char : ℕ → Sent

pub record Screen : Type 0 where
  pub new_screen : ℕ → ℕ
  pub old_screen : ℕ → ℕ
  pub cursor_x : ℕ
  pub cursor_y : ℕ
  pub sent : List Sent

-- `if (cursor_y < SCREEN_HEIGHT) cursor_y++;` after `cursor_x = 0;`
abbrev pub next_line : Screen → Screen
next_line s = record s {
  cursor_x = 0;
  cursor_y = if ltb s.cursor_y screen_height then s.cursor_y + 1 else s.cursor_y;
}

-- the cursor's part of a backspace
abbrev pub step_back : Screen → Screen
step_back s =
    let up = record s { cursor_x = screen_width - 1; cursor_y = s.cursor_y - 1 } in
    let top = record s { cursor_x = 0 } in
    let left = record s { cursor_x = s.cursor_x - 1 } in
    if s.cursor_x == 0 then (if ltb 0 s.cursor_y then up else top) else left

-- `new_screen[SCREEN_LOC(cursor_x, cursor_y)] = ch;`
abbrev pub put_at_cursor : ℕ → Screen → Screen
put_at_cursor ch s = record s {
  new_screen = update s.new_screen (screen_loc s.cursor_x s.cursor_y) ch;
}

-- screen_write_ch
unfoldable pub screen_write_ch : ℕ → Screen → Screen
screen_write_ch ch s =
    let back = step_back (put_at_cursor 0 s) in
    let put = put_at_cursor ch s in
    let right = record put { cursor_x = put.cursor_x + 1 } in
    if ch == 10
    then next_line s
    else (if (ch == 8) || (ch == 127)
        then back
        else (if leb screen_width (s.cursor_x + 1) then next_line put else right))

-- screen_write, of the characters before the zero byte
unfoldable pub screen_write : List ℕ → Screen → Screen
screen_write [] s = s
screen_write (c ∷ cs) s = screen_write cs (screen_write_ch c s)

-- `x`, an `int`, moved into the range below `n`
abbrev pub clamp : ℕ → ℕ → ℕ
clamp n x = if leb (2 ^ 31) x then 0 else (if leb n x then n - 1 else x)

-- screen_move_cursor
unfoldable pub screen_move_cursor : ℕ → ℕ → Screen → Screen
screen_move_cursor x y s =
    let cx = clamp screen_width x in
    let cy = clamp screen_height y in
    record s { cursor_x = cx; cursor_y = cy; sent = move_cursor (cx + 1) (cy + 1) ∷ s.sent }

-- the body of the loops of screen_reflush
unfoldable pub reflush_cell : ℕ → ℕ → Screen → Screen
reflush_cell j i s =
    let p = screen_loc j i in
    let shown = record s {
      old_screen = update s.old_screen p (s.new_screen p);
      sent = put_char (s.new_screen p) ∷ move_cursor (j + 1) (i + 1) ∷ s.sent;
    } in
    if s.new_screen p == s.old_screen p then s else shown

unfoldable pub reflush_row : ℕ → ℕ → ℕ → Screen → Screen
reflush_row zero j i s = s
reflush_row (suc n) j i s = reflush_row n (j + 1) i (reflush_cell j i s)

unfoldable pub reflush_rows : ℕ → ℕ → Screen → Screen
reflush_rows zero i s = s
reflush_rows (suc n) i s = reflush_rows n (i + 1) (reflush_row screen_width 0 i s)

-- screen_reflush
unfoldable pub screen_reflush : Screen → Screen
screen_reflush s =
    let r = reflush_rows screen_height 0 s in
    record r { sent = move_cursor (r.cursor_x + 1) (r.cursor_y + 1) ∷ r.sent }

-- the loops of screen_clear: both buffers hold blanks
unfoldable pub blank_row : ℕ → ℕ → ℕ → Screen → Screen
blank_row zero j i s = s
blank_row (suc n) j i s = blank_row n (j + 1) i (record s {
  new_screen = update s.new_screen (screen_loc j i) 32;
  old_screen = update s.old_screen (screen_loc j i) 32;
})

unfoldable pub blank_rows : ℕ → ℕ → Screen → Screen
blank_rows zero i s = s
blank_rows (suc n) i s = blank_rows n (i + 1) (blank_row screen_width 0 i s)

-- screen_clear
unfoldable pub screen_clear : Screen → Screen
screen_clear s =
    let b = blank_rows screen_height 0 (record s { sent = clear_terminal ∷ s.sent }) in
    screen_reflush (record b { cursor_x = 0; cursor_y = 0 })

-- init_screen
unfoldable pub init_screen : Screen → Screen
init_screen s = screen_clear (record s { sent = clear_terminal ∷ hide_cursor ∷ s.sent })
