-- ===== src/Prelude/Windows.antt =====
-- Rust's slice expressions on byte strings, which panic out of range.
use wormhole_svm_utils.Prelude.Lists.{length, take, drop, get_elem?}
use wormhole_svm_utils.Prelude.Lists.{length-take, length-drop}
use wormhole_svm_utils.Prelude.Tests.{leb, if◌then◌else◌, ◌==◌, nat_eq, ==_self, leb_of_le}
use wormhole_svm_utils.Prelude.Outcome.{Result, ok, panic, ok_or, ◌>>=◌}
use Prim.Native.Nat.{ℕ, zero, suc, ◌+◌, ◌-◌, ◌≤◌}
use mathlib.Core.Path.{◌≡◌, refl, ap, ◌∙◌}
use mathlib.Core.Bool.{◌&&◌}
use mathlib.Core.List.{List, [], ◌∷◌, ◌++◌, append-nil}
use mathlib.Core.Option.{Option, none, some}
use native.Mathlib.Omega.{arith}

module _ {ℓ} {A : Type ℓ} where
  -- The `w` elements from `a` on, fewer where the list ends.
  unfoldable pub window : ℕ → ℕ → List A → List A
  window a w xs = take w (drop a xs)

  pub drop-skip :
      (p xs : List A) (k a : ℕ) → length p ≡ k → k ≤ a → drop a (p ++ xs) ≡ drop (a - k) xs
  drop-skip [] xs k a e h = let z : a - k ≡ a = omega arith in rw z
  drop-skip (x ∷ p) xs k zero e h = absurd (omega arith)
  drop-skip (x ∷ p) xs k (suc a) e h =
      drop-skip p xs (k - 1) a (omega arith) (omega arith) ∙ ap (λ (t : ℕ). drop t xs) (omega arith)

  pub window-skip :
      (p xs : List A) (k a w : ℕ)
      → length p ≡ k
      → k ≤ a
      → window a w (p ++ xs) ≡ window (a - k) w xs
  unfolding window
  window-skip p xs k a w e h = ap (take w) (drop-skip p xs k a e h)

  -- A first segment is read back.
  pub window-head : (p xs : List A) (w : ℕ) → length p ≡ w → window 0 w (p ++ xs) ≡ p
  unfolding window
  window-head [] xs zero e = refl
  window-head [] xs (suc w) e = absurd (omega arith)
  window-head (x ∷ p) xs zero e = absurd (omega arith)
  window-head (x ∷ p) xs (suc w) e = ap (λ (t : List A). x ∷ t) (window-head p xs w (omega arith))

  pub window-all : (p : List A) (w : ℕ) → length p ≡ w → window 0 w p ≡ p
  window-all p w e = rw (append-nil p) at (window-head p [] w e)

  pub length-window : (a w : ℕ) (xs : List A) → a + w ≤ length xs → length (window a w xs) ≡ w
  unfolding window
  length-window a w xs h = omega (arith, length-take w (drop a xs), length-drop a xs)

  pub drop-drop : (a k : ℕ) (xs : List A) → drop (a + k) xs ≡ drop k (drop a xs)
  drop-drop zero k xs = let z : 0 + k ≡ k = omega arith in rw z
  drop-drop (suc a) zero [] = let z : suc a + 0 ≡ suc a = omega arith in rw z
  drop-drop (suc a) (suc k) [] = let z : suc a + suc k ≡ suc (a + suc k) = omega arith in rw z
  drop-drop (suc a) k (x ∷ xs) =
      let z : suc a + k ≡ suc (a + k) = omega arith in rw z (drop-drop a k xs)

  -- Walking over a layout: where the segment `p` starts, it is read back, and past it `ys` follows.
  module _ (xs p ys : List A) (a k : ℕ) (at : drop a xs ≡ p ++ ys) (e : length p ≡ k) where
    pub window-at : window a k xs ≡ p
    window-at = unfold window in rw at (window-head p ys k e)

    pub drop-past : (b : ℕ) → a + k ≡ b → drop b xs ≡ ys
    drop-past b sum =
        let zeros : k - k ≡ 0 = omega arith in
        rw (← sum, drop-drop a k xs, at, drop-skip p ys k k e (omega arith), zeros)

  -- `xs[a..b]`
  unfoldable pub slice {κ} : {E : Type κ} → ℕ → ℕ → List A → Result E (List A)
  unfolding window
  slice a b xs = if leb a b && leb b (length xs) then ok (window a (b - a) xs) else panic

  -- `xs[a..]`
  unfoldable pub slice_from {κ} : {E : Type κ} → ℕ → List A → Result E (List A)
  slice_from a xs = if leb a (length xs) then ok (drop a xs) else panic

  -- `xs[i]`
  unfoldable pub index {κ} : {E : Type κ} → ℕ → List A → Result E A
  index i xs = ok_or (get_elem? xs i) panic

  -- `xs.try_into()` at `[A; n]`
  unfoldable pub try_into : ℕ → List A → Option (List A)
  unfolding nat_eq
  try_into n xs = if length xs == n then some xs else none

  -- `xs[a..b].try_into()` at `[A; w]`, with what is done where that fails.
  unfoldable pub array_or {κ} :
      {E : Type κ} → Result E (List A) → ℕ → ℕ → ℕ → List A → Result E (List A)
  unfolding slice try_into
  array_or fail w a b xs = slice a b xs >>= λ s. ok_or (try_into w s) fail

  pub slice_ok {κ} :
      {E : Type κ} (a b : ℕ) (xs : List A)
      → a ≤ b
      → b ≤ length xs
      → slice {E = E} a b xs ≡ ok (window a (b - a) xs)
  unfolding slice
  slice_ok a b xs h k = rw (leb_of_le a b h, leb_of_le b (length xs) k)

  pub slice_from_ok {κ} :
      {E : Type κ} (a : ℕ) (xs : List A) → a ≤ length xs → slice_from {E = E} a xs ≡ ok (drop a xs)
  unfolding slice_from
  slice_from_ok a xs h = rw (leb_of_le a (length xs) h)

  pub array_or_ok {κ} :
      {E : Type κ} (fail : Result E (List A)) (w a b : ℕ) (xs : List A)
      → a + w ≡ b
      → b ≤ length xs
      → array_or fail w a b xs ≡ ok (window a w xs)
  unfolding array_or window
  array_or_ok fail w a b xs e h =
      let same : b - a ≡ w = omega arith in
      let whole : length (window a w xs) ≡ w = length-window a w xs (omega arith) in
      rw (leb_of_le a b (omega arith), leb_of_le b (length xs) h, same)
        (unfold window in rw (whole, ==_self) refl)
