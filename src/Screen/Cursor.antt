-- ===== src/Screen/Cursor.antt =====
-- The cursor of drivers/screen.c.
use ucas_2024fall_oslab.Base.{ℕ, ◌≤◌, ◌<◌, List, [], ◌∷◌, arith}
use ucas_2024fall_oslab.Screen.{
  Screen, screen_write_ch, screen_write, screen_move_cursor, screen_width, screen_height,
}

-- The cursor stands in a column of the screen, and at most one line below it.
abbrev pub CursorOk : Screen → Type 0
CursorOk s = (s.cursor_x < screen_width) × (s.cursor_y ≤ screen_height)

write_ch-CursorOk : (ch : ℕ) (s : Screen) → CursorOk s → CursorOk (screen_write_ch ch s)
unfolding screen_write_ch
write_ch-CursorOk ch s (hx, hy) = (ground arith, ground arith)

-- Writing any text keeps the cursor in a column of the screen and at most one line below the last one,
-- and screen_move_cursor puts it onto the screen, whatever it is given.
pub screen_write-CursorOk :
    (text : List ℕ) (x y : ℕ) (s : Screen)
    → CursorOk s
    → CursorOk (screen_write text s)
      × ((screen_move_cursor x y s).cursor_x < screen_width)
      × ((screen_move_cursor x y s).cursor_y < screen_height)
unfolding screen_write screen_move_cursor
screen_write-CursorOk text x y s ok = (walk text s ok, ground arith, ground arith)
  where
    walk : (cs : List ℕ) (t : Screen) → CursorOk t → CursorOk (screen_write cs t)
    walk [] t h = h
    walk (c ∷ cs) t h = walk cs (screen_write_ch c t) (write_ch-CursorOk c t h)
