-- ===== src/Queue/Window.antt =====
-- The slots of a circular queue, read downwards from the oldest one.
use ribdriver.Base.{
  ℕ, zero, suc, ◌+◌, ◌-◌, ◌%◌, ◌≤◌, ◌<◌, ◌≡◌, refl, ◌≢◌, ap, ap₂, ◌∙◌, List, [], ◌∷◌, ◌++◌, arith,
  ◌==◌, if◌then◌else◌, length, get_or, set, get_or-set_self, get_or-set_ne,
}

-- The slot after `i` in the direction of filling.
abbrev pub down : ℕ → ℕ
down i = if i == 0 then 49 else i - 1

abbrev pub window : List ℕ → ℕ → ℕ → List ℕ
window buf f zero = []
window buf f (suc n) = get_or buf f 0 ∷ window buf (down f) n

pub length-window : (buf : List ℕ) (f n : ℕ) → length (window buf f n) ≡ n
length-window buf f zero = refl
length-window buf f (suc n) = ap suc (length-window buf (down f) n)

pub window_of_ne_zero :
    (buf : List ℕ) (f n : ℕ) → n ≢ 0 → window buf f n ≡ get_or buf f 0 ∷ window buf (down f) (n - 1)
window_of_ne_zero buf f zero h = absurd (h refl)
window_of_ne_zero buf f (suc n) h = ap (λ k. window buf f (suc k)) (omega arith)

-- A write outside a window leaves it: `i` is at least `n` slots below `f`.
pub window-set_outside :
    (buf : List ℕ) (x n f i : ℕ)
    → f < 50
    → i < 50
    → n ≤ (f + 50 - i) % 50
    → window (set buf i x) f n ≡ window buf f n
window-set_outside buf x zero f i hf hi far = refl
window-set_outside buf x (suc n) f i hf hi far =
    ap₂ ◌∷◌ (get_or-set_ne buf {i = i} {j = f} x 0 (omega arith))
      (window-set_outside buf x n (down f) i (ground arith) hi (ground arith))

-- A window of one more slot ends with the slot `n` places below `f`.
window-snoc :
    (buf : List ℕ) (n f i : ℕ)
    → f < 50
    → n < 50
    → i ≡ (f + 50 - n) % 50
    → window buf f (suc n) ≡ window buf f n ++ get_or buf i 0 ∷ []
window-snoc buf zero f i hf hn e = let e' : i ≡ f = omega arith in rw e'
window-snoc buf (suc n) f i hf hn e =
    ap (λ w. get_or buf f 0 ∷ w)
      (window-snoc buf n (down f) i (ground arith) (omega arith) (ground arith))

-- Writing just past a window of fewer than 50 slots extends it.
pub window-set :
    (buf : List ℕ) (x n f i : ℕ)
    → length buf ≡ 50
    → f < 50
    → n < 50
    → i ≡ (f + 50 - n) % 50
    → window (set buf i x) f (suc n) ≡ window buf f n ++ x ∷ []
window-set buf x n f i len hf hn e =
    window-snoc (set buf i x) n f i hf hn e
    ∙ ap₂ (λ w y. w ++ y ∷ []) (window-set_outside buf x n f i hf (omega arith) (omega arith))
        (get_or-set_self buf i x 0 (omega arith))
