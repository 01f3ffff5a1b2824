-- ===== src/Fs/Write/Overlay.antt =====
-- Bytes laid over others in parts, as do_write of kernel/fs/fs.c writes them block by block.
use ucas_2024fall_oslab.Base.{
  Bool, ℕ, ◌+◌, ◌-◌, ◌*◌, ◌<◌, ◌≤◌, ◌≡◌, ◌⊎◌, inl, inr, refl, true, false, ◌&&◌, leb, ltb, min,
  arith, ap, ap₂, ◌∙◌, sym, if◌then◌else◌, Bool-cases,
}
use ucas_2024fall_oslab.Fs.Layout.{Bytes}
use ucas_2024fall_oslab.Fs.Read.Loops.{min_cases}
use ucas_2024fall_oslab.Fs.Write.{copy_to, skip}

empty_window : (k p : ℕ) → (leb k p && ltb p (k + 0)) ≡ false
empty_window k p = ground arith

before : (next p n : ℕ) → ltb p next ≡ true → (leb next p && ltb p (next + n)) ≡ false
before next p n b = ground arith

same_before :
    (start next n left p : ℕ)
    → n ≤ left
    → next ≡ start + n
    → ltb p next ≡ true
    → (leb start p && ltb p (start + n)) ≡ (leb start p && ltb p (start + left))
same_before start next n left p l e b = ground arith

after_start :
    (start n p : ℕ) {next : ℕ}
    → next ≡ start + n
    → ltb p next ≡ false
    → (leb start p && ltb p (start + n)) ≡ false
after_start start n p e b = ground arith

same_behind :
    (start next n left p : ℕ)
    → n ≤ left
    → next ≡ start + n
    → ltb p next ≡ false
    → (leb next p && ltb p (next + (left - n))) ≡ (leb start p && ltb p (start + left))
same_behind start next n left p l e b = ground arith

back : (start next n p : ℕ) → next ≡ start + n → ltb p next ≡ false → n + (p - next) ≡ p - start
back start next n p e b = ground arith

pub next_fits :
    (b o left size hi : ℕ)
    → b < hi
    → ((size ≡ 4096 - o) × (4096 - o ≤ left)) ⊎ ((size ≡ left) × (left ≤ 4096 - o))
    → 4096 * b + o + left ≤ 4096 * hi
    → 4096 * (b + 1) + 0 + (left - size) ≤ 4096 * hi
next_fits b o left size hi hb (inl (m, l)) h = omega arith
next_fits b o left size hi hb (inr (m, l)) h = omega arith

nothing : (left n : ℕ) → left ≡ n → left - n ≡ 0
nothing left n e = omega arith

pub copy_none : (k left p : ℕ) (buff g : Bytes) → left ≡ 0 → g p ≡ copy_to k left buff g p
copy_none k left p buff g e = sym (ap (λ n. copy_to k n buff g p) e ∙ rw (empty_window k p) refl)

pub part_le : (a b : ℕ) → min a b ≤ b
part_le a b = elim (min_cases a b) [ inl (m, l) ↦ omega arith | inr (m, l) ↦ omega arith ]

pub part_next :
    (b o left : ℕ)
    → o < 4096
    → (left ≡ min (4096 - o) left) ⊎ (4096 * (b + 1) + 0 ≡ 4096 * b + o + min (4096 - o) left)
part_next b o left h = elim (min_cases (4096 - o) left) [
  | inl (m, l) ↦ inr (omega arith)
  | inr (m, l) ↦ inl (sym m)
]

-- A part that is written, and then the rest behind it.
pub overlay_step :
    (start next n left p : ℕ) (buff g : Bytes)
    → n ≤ left
    → (left ≡ n) ⊎ (next ≡ start + n)
    → copy_to next (left - n) (skip n buff) (copy_to start n buff g) p ≡ copy_to start left buff g p
overlay_step start next n left p buff g l (inl e) =
    ap
      (λ a.
        if leb next p && ltb p (next + a) then skip n buff (p - next) else copy_to start n buff g p)
      (nothing left n e)
    ∙ rw (empty_window next p) (ap (λ a. copy_to start a buff g p) (sym e))
overlay_step start next n left p buff g l (inr e) = elim (Bool-cases (ltb p next)) [
  | inl b ↦ rw (before next p (left - n) b) (
      ap (λ (t : Bool). if t then buff (p - start) else g p)
        (same_before start next n left p l e b))
  | inr b ↦ rw (after_start start n p e b) (behind b)
]
  where
    behind :
        ltb p next ≡ false
        → (if leb next p && ltb p (next + (left - n)) then skip n buff (p - next) else g p)
          ≡ copy_to start left buff g p
    behind b =
        ap₂ (λ (t : Bool) x. if t then x else g p) (same_behind start next n left p l e b)
          (ap buff (back start next n p e b))

pub copy_to-ext :
    (k n p : ℕ) (buff m g : Bytes) → m p ≡ g p → copy_to k n buff m p ≡ copy_to k n buff g p
copy_to-ext k n p buff m g e = ap (λ x. if leb k p && ltb p (k + n) then buff (p - k) else x) e
