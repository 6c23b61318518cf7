-- ===== src/Prelude/Words.antt =====
-- Slices of a byte string, and the words that stand in them.
use wormhole_svm_utils.Prelude.Lists.{length, take, drop, get_elem?, All, take-append-drop}
use wormhole_svm_utils.Prelude.Windows.{window, drop-drop, length-window}
use wormhole_svm_utils.Prelude.Bytes.{
  Bytes, IsByte, AreBytes, to_le_bytes, from_le_bytes, to_le_bytes-from_le_bytes, from_le_bytes-lt,
}
use Prim.Native.Nat.{ℕ, zero, suc, ◌+◌, ◌^◌, ◌≤◌, ◌<◌}
use mathlib.Core.Path.{◌≡◌, refl, sym, ap, ◌∙◌, subst}
use mathlib.Core.List.{List, [], ◌∷◌, ◌++◌}
use mathlib.Core.Option.{some}
use native.Mathlib.Omega.{arith}

pub All-drop : {A : Type 0} (P : A → Type 0) (n : ℕ) (xs : List A) → All P xs → All P (drop n xs)
All-drop P zero xs h = h
All-drop P (suc n) [] h = tt
All-drop P (suc n) (x ∷ xs) (_, h) = All-drop P n xs h

pub All-take : {A : Type 0} (P : A → Type 0) (n : ℕ) (xs : List A) → All P xs → All P (take n xs)
All-take P zero xs h = tt
All-take P (suc n) [] h = tt
All-take P (suc n) (x ∷ xs) (p, h) = (p, All-take P n xs h)

pub All-window :
    {A : Type 0} (P : A → Type 0) (a w : ℕ) (xs : List A) → All P xs → All P (window a w xs)
unfolding window
All-window P a w xs h = All-take P w (drop a xs) (All-drop P a xs h)

-- What is left at `a` is the window of width `w` there and what is left behind it.
pub window-append-drop :
    {A : Type 0} (a w b : ℕ) (xs : List A) → a + w ≡ b → window a w xs ++ drop b xs ≡ drop a xs
unfolding window
window-append-drop a w b xs e = rw (← e, drop-drop a w xs) (take-append-drop w (drop a xs))

pub drop-get_elem? :
    {A : Type 0} (k : ℕ) (xs : List A) (x : A)
    → get_elem? xs k ≡ some x
    → drop k xs ≡ x ∷ drop (k + 1) xs
drop-get_elem? k [] x h = cc
drop-get_elem? zero (y ∷ xs) x h = let same : y ≡ x = cc in rw same refl
drop-get_elem? (suc k) (y ∷ xs) x h =
    let next : suc k + 1 ≡ suc (k + 1) = omega arith in rw next (drop-get_elem? k xs x h)

-- A word of `w` bytes is that of its number.
pub word-window :
    (a w : ℕ) (xs : Bytes)
    → AreBytes xs
    → a + w ≤ length xs
    → to_le_bytes w (from_le_bytes (window a w xs)) ≡ window a w xs
word-window a w xs bytes h =
    ap (λ (n : ℕ). to_le_bytes n (from_le_bytes (window a w xs))) (sym (length-window a w xs h))
    ∙ to_le_bytes-from_le_bytes (window a w xs) (All-window IsByte a w xs bytes)

pub from_le_bytes-window-lt :
    (a w : ℕ) (xs : Bytes)
    → AreBytes xs
    → a + w ≤ length xs
    → from_le_bytes (window a w xs) < 256 ^ w
from_le_bytes-window-lt a w xs bytes h =
    subst (λ (n : ℕ). from_le_bytes (window a w xs) < 256 ^ n) (length-window a w xs h)
      (from_le_bytes-lt (window a w xs) (All-window IsByte a w xs bytes))
