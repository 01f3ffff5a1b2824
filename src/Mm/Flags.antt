-- ===== src/Mm/Flags.antt =====
-- The flag bits of a byte of `free_mem_map`, by a table over all bytes.
use Prim.Native.Nat.{bit_and}
use ucas_2024fall_oslab.Base.{
  ℕ, zero, suc, ◌<◌, ◌≡◌, refl, Bool, true, ◌&&◌, arith, ◌==◌, ltb, if◌then◌else◌, false, ◌≤◌,
  subst, sym, inl, inr, Bool-cases, ne_of_==, eq_of_==,
}
use ucas_2024fall_oslab.Mm.{kernel_page, map_page_accessed}

-- `x & ~MAP_PAGE_ACCESSED`
abbrev pub unaccessed : ℕ → ℕ
unaccessed x = bit_and x 127

abbrev flag_test : ℕ → Bool
flag_test x =
    (bit_and (unaccessed x) map_page_accessed == 0)
    && ((bit_and (unaccessed x) kernel_page == bit_and x kernel_page) && ltb (unaccessed x) 256)
    && (unaccessed (unaccessed x) == unaccessed x)

-- the test for the bytes up to `top`
flags_hold : ℕ → Bool
flags_hold zero = flag_test 0
flags_hold (suc top) = if flag_test (suc top) then flags_hold top else false

byte_flags : flags_hold 255 ≡ true
unfolding flags_hold
byte_flags = refl

flags_hold-flag_test : (top x : ℕ) → x ≤ top → flags_hold top ≡ true → flag_test x ≡ true
unfolding flags_hold
flags_hold-flag_test zero x le e =
    let none_below : 0 ≡ x = omega arith in subst (λ y. flag_test y ≡ true) none_below e
flags_hold-flag_test (suc top) x le e = elim (Bool-cases (x == suc top)) [
  | inl p ↦
      subst (λ y. flag_test y ≡ true) (sym (eq_of_== x (suc top) p))
        (holds_here (flag_test (suc top)) e)
  | inr p ↦
      flags_hold-flag_test top x (omega (arith, ne_of_== x (suc top) p))
        (holds_below (flag_test (suc top)) e)
]
  where
    holds_here : (b : Bool) → (if b then flags_hold top else false) ≡ true → b ≡ true
    holds_here true h = refl
    holds_here false h = h

    holds_below : (b : Bool) → (if b then flags_hold top else false) ≡ true → flags_hold top ≡ true
    holds_below true h = h
    holds_below false h = cc

-- Clearing the flag of a byte clears it, keeps the kernel flag, and gives a byte.
pub unaccessed-flags :
    (x : ℕ)
    → x < 256
    → (bit_and (unaccessed x) map_page_accessed ≡ 0)
      × (bit_and (unaccessed x) kernel_page ≡ bit_and x kernel_page)
      × (unaccessed x < 256)
      × (unaccessed (unaccessed x) ≡ unaccessed x)
unaccessed-flags x h = ground (arith, flags_hold-flag_test 255 x (omega arith) byte_flags)
