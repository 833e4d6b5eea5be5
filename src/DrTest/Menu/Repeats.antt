-- ===== src/DrTest/Menu/Repeats.antt =====
-- What the menu does with an input that is not a number.
use ribdriver.Base.{
  ℕ, zero, suc, ◌≡◌, refl, Bool, false, ◌||◌, ◌&&◌, some, [], ◌∷◌, ◌==◌, leb, arith, replicate,
}
use ribdriver.Memory.{Bytes}
use ribdriver.DrTest.Menu.{menu_call, consumes, main_menu}

-- A number of `%d` can begin with this: a digit, a sign, or white space, which is skipped.
abbrev pub may_be_number : Bytes → Bool
may_be_number [] = false
may_be_number (b ∷ input) =
    (leb 48 b && leb b 57) || (b == 43) || (b == 45) || (b == 32) || (leb 9 b && leb b 13)

-- Where no number can begin, at the end of the input too, `scanf` stores nothing and reads nothing.
module _ (scanf : ℕ → Bytes → ℕ × Bytes)
    (mismatch : (choice : ℕ) (input : Bytes)
      → may_be_number input ≡ false
      → scanf choice input ≡ (choice, input)) where
  -- The result of `scanf` is not looked at: at an input where no number can begin, if the last choice's
  -- call reads no input and does not end the program, in any round, the menu makes that call again in every round, and never gets past that input.
  pub main_menu-repeats :
      (opened : ℕ → Bool) (rounds choice : ℕ) (input : Bytes)
      → may_be_number input ≡ false
      → ((k : ℕ) → consumes (opened k) (menu_call choice) input ≡ some input)
      → main_menu scanf opened rounds choice input ≡ replicate rounds (menu_call choice)
  unfolding main_menu
  main_menu-repeats opened zero choice input no_number stays = refl
  main_menu-repeats opened (suc k) choice input no_number stays = ground (
    arith,
    mismatch choice input,
    stays k,
    main_menu-repeats opened k choice input no_number stays,
  )
