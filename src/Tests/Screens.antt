-- ===== src/Tests/Screens.antt =====
-- The screen with one changed cell.
use ucas_2024fall_oslab.Base.{ℕ, ◌+◌, ◌<◌, ◌≡◌, [], ◌∷◌, arith, if◌then◌else◌, ◌==◌, minus_one}
use ucas_2024fall_oslab.Screen.{
  Screen, move_cursor, screen_reflush, screen_write, screen_move_cursor, screen_loc, screen_width,
  screen_height,
}
use ucas_2024fall_oslab.Screen.Cursor.{CursorOk, screen_write-CursorOk}
use ucas_2024fall_oslab.Screen.Reflush.{screen_reflush-agree}

abbrev changed : Screen
changed = record {
  new_screen = λ p. if p == 85 then 65 else 32;
  old_screen = λ p. 32;
  cursor_x = 79;
  cursor_y = 49;
  sent = [];
}

screen_write-CursorOk_example :
    CursorOk (screen_write (72 ∷ 10 ∷ 8 ∷ []) changed)
    × ((screen_move_cursor 100 minus_one changed).cursor_x < screen_width)
    × ((screen_move_cursor 100 minus_one changed).cursor_y < screen_height)
screen_write-CursorOk_example =
    screen_write-CursorOk (72 ∷ 10 ∷ 8 ∷ []) 100 minus_one changed (omega arith, omega arith)

screen_reflush-agree_example :
    let t = screen_reflush changed in
    ((x y : ℕ)
      → x < screen_width
      → y < screen_height
      → t.old_screen (screen_loc x y) ≡ changed.new_screen (screen_loc x y))
    × (t.new_screen ≡ changed.new_screen)
    × (t.cursor_x ≡ changed.cursor_x)
    × (t.cursor_y ≡ changed.cursor_y)
    × (((p : ℕ) → changed.old_screen p ≡ changed.new_screen p)
        → t.sent ≡ move_cursor (changed.cursor_x + 1) (changed.cursor_y + 1) ∷ changed.sent)
screen_reflush-agree_example = screen_reflush-agree changed
