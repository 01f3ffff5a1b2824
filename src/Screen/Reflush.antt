-- ===== src/Screen/Reflush.antt =====
-- screen_reflush of drivers/screen.c: the old buffer catches up with the new one.
use ucas_2024fall_oslab.Base.{
  ℕ, zero, suc, ◌+◌, ◌≤◌, ◌<◌, ◌≡◌, refl, inl, inr, arith, ◌==◌, Bool-cases, eq_of_==, ne_of_==, ap,
  sym, ◌∙◌, subst, ◌∷◌,
}
use ucas_2024fall_oslab.Screen.{
  Screen, reflush_cell, reflush_row, reflush_rows, screen_reflush, screen_loc, screen_width,
  screen_height, move_cursor,
}

-- What a part of the loops leaves of the screen.
pub record Caught (s t : Screen) : Type 0 where
  pub same_new : t.new_screen ≡ s.new_screen
  pub same_x : t.cursor_x ≡ s.cursor_x
  pub same_y : t.cursor_y ≡ s.cursor_y
  -- cells that agreed still do, and nothing is sent if all agreed
  pub agree : (p : ℕ) → s.old_screen p ≡ s.new_screen p → t.old_screen p ≡ t.new_screen p
  pub silent : ((p : ℕ) → s.old_screen p ≡ s.new_screen p) → t.sent ≡ s.sent

Caught-trans : (s t u : Screen) → Caught s t → Caught t u → Caught s u
Caught-trans s t u a b = record {
  same_new = b.same_new ∙ a.same_new;
  same_x = b.same_x ∙ a.same_x;
  same_y = b.same_y ∙ a.same_y;
  agree = λ p e. b.agree p (a.agree p e);
  silent = λ e. b.silent (λ p. a.agree p (e p)) ∙ a.silent e;
}

Caught-refl : (s : Screen) → Caught s s
Caught-refl s = record {
  same_new = refl;
  same_x = refl;
  same_y = refl;
  agree = λ p e. e;
  silent = λ e. refl;
}

reflush_cell-Caught :
    (j i : ℕ) (s : Screen)
    → Caught s (reflush_cell j i s)
      × ((reflush_cell j i s).old_screen (screen_loc j i)
          ≡ (reflush_cell j i s).new_screen (screen_loc j i))
unfolding reflush_cell
reflush_cell-Caught j i s =
    elim (Bool-cases (s.new_screen (screen_loc j i) == s.old_screen (screen_loc j i))) [
      | inl e ↦ rw e (Caught-refl s, sym (eq_of_== _ _ e))
      | inr e ↦ rw e (
        record {
          same_new = refl;
          same_x = refl;
          same_y = refl;
          agree = λ p q. ground arith;
          silent = λ all. absurd (ne_of_== _ _ e (sym (all (screen_loc j i))));
        },
        ground arith,
      )
    ]

row-Caught :
    (n j i : ℕ) (s : Screen)
    → Caught s (reflush_row n j i s)
      × ((x : ℕ)
          → j ≤ x
          → x < j + n
          → (reflush_row n j i s).old_screen (screen_loc x i)
            ≡ (reflush_row n j i s).new_screen (screen_loc x i))
unfolding reflush_row
row-Caught zero j i s = (Caught-refl s, λ x a b. absurd (omega arith))
row-Caught (suc n) j i s =
    let (c, here) = reflush_cell-Caught j i s in
    let (r, later) = row-Caught n (j + 1) i (reflush_cell j i s) in
    (
      Caught-trans s (reflush_cell j i s) (reflush_row n (j + 1) i (reflush_cell j i s)) c r,
      λ x a b. elim (Bool-cases (j == x)) [
        | inl e ↦
            let p : screen_loc j i ≡ screen_loc x i = ap (λ z. screen_loc z i) (eq_of_== j x e) in
            r.agree (screen_loc x i) (
              subst (λ q. (reflush_cell j i s).old_screen q ≡ (reflush_cell j i s).new_screen q) p
                here)
        | inr e ↦ later x (omega (arith, ne_of_== j x e)) (omega arith)
      ],
    )

rows-Caught :
    (n i : ℕ) (s : Screen)
    → Caught s (reflush_rows n i s)
      × ((x y : ℕ)
          → x < screen_width
          → i ≤ y
          → y < i + n
          → (reflush_rows n i s).old_screen (screen_loc x y)
            ≡ (reflush_rows n i s).new_screen (screen_loc x y))
unfolding reflush_rows
rows-Caught zero i s = (Caught-refl s, λ x y a b c. absurd (omega arith))
rows-Caught (suc n) i s =
    let (c, here) = row-Caught screen_width 0 i s in
    let (r, later) = rows-Caught n (i + 1) (reflush_row screen_width 0 i s) in
    (
      Caught-trans s (reflush_row screen_width 0 i s)
          (reflush_rows n (i + 1) (reflush_row screen_width 0 i s)) c r,
      λ x y hx a b. elim (Bool-cases (i == y)) [
        | inl e ↦
            let p : screen_loc x i ≡ screen_loc x y = ap (λ z. screen_loc x z) (eq_of_== i y e) in
            r.agree (screen_loc x y) (
              subst
                (λ q.
                  (reflush_row screen_width 0 i s).old_screen q
                  ≡ (reflush_row screen_width 0 i s).new_screen q)
                p (here x (omega arith) (omega arith)))
        | inr e ↦ later x y hx (omega (arith, ne_of_== i y e)) (omega arith)
      ],
    )

-- After screen_reflush the old buffer agrees with the new one in every cell of the screen. The new buffer
-- and the cursor are unchanged. If the two buffers agreed before, only the cursor's place is sent.
pub screen_reflush-agree :
    (s : Screen)
    → let t = screen_reflush s in
      ((x y : ℕ)
        → x < screen_width
        → y < screen_height
        → t.old_screen (screen_loc x y) ≡ s.new_screen (screen_loc x y))
      × (t.new_screen ≡ s.new_screen)
      × (t.cursor_x ≡ s.cursor_x)
      × (t.cursor_y ≡ s.cursor_y)
      × (((p : ℕ) → s.old_screen p ≡ s.new_screen p)
          → t.sent ≡ move_cursor (s.cursor_x + 1) (s.cursor_y + 1) ∷ s.sent)
unfolding screen_reflush
screen_reflush-agree s =
    let (c, all) = rows-Caught screen_height 0 s in
    (
      (λ x y hx hy.
          all x y hx (omega arith) (omega arith) ∙ ap (λ f. f (screen_loc x y)) c.same_new),
      c.same_new,
      c.same_x,
      c.same_y,
      λ e. rw (c.same_x, c.same_y, c.silent e) refl,
    )
