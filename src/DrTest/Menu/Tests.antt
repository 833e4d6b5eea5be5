-- ===== src/DrTest/Menu/Tests.antt =====
-- A menu whose user types a letter, on which the theorem is applied.
use ribdriver.Base.{ℕ, ◌≡◌, refl, true, false, [], ◌∷◌, if◌then◌else◌, replicate, ◌-◌}
use ribdriver.Memory.{Bytes}
use ribdriver.DrTest.Menu.{purge_rt, menu_call, consumes, main_menu}
use ribdriver.DrTest.Menu.Repeats.{may_be_number, main_menu-repeats}

-- One digit at the beginning, and nothing else.
abbrev one_digit : ℕ → Bytes → ℕ × Bytes
one_digit choice [] = (choice, [])
one_digit choice (b ∷ input) =
    if may_be_number (b ∷ input) then (b - 48, input) else (choice, b ∷ input)

one_digit-mismatch :
    (choice : ℕ) (input : Bytes)
    → may_be_number input ≡ false
    → one_digit choice input ≡ (choice, input)
one_digit-mismatch choice [] no_number = refl
one_digit-mismatch choice (b ∷ input) no_number = rw no_number refl

-- After a purge the user types "x": the table is purged again and again.
main_menu-repeats_example :
    main_menu one_digit (λ _. true) 5 2 (120 ∷ 10 ∷ []) ≡ replicate 5 purge_rt
unfolding menu_call consumes
main_menu-repeats_example =
    main_menu-repeats one_digit one_digit-mismatch (λ _. true) 5 2 (120 ∷ 10 ∷ []) refl (λ k. refl)
