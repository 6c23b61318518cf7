-- ===== src/Prelude/Members.antt =====
-- Members of lists, and the searches that find them.
use wormhole_svm_utils.Prelude.Lists.{any, find?}
use wormhole_svm_utils.Prelude.Tests.{Bool-cases}
use mathlib.Core.Path.{◌≡◌, refl, sym, ◌∙◌}
use mathlib.Core.Logic.{inl, inr}
use mathlib.Core.Bool.{Bool, true, false, ◌||◌}
use mathlib.Core.Option.{none, some}
use mathlib.Core.List.{List, [], ◌∷◌, Memᴰ}
use mathlib.Core.List.Memᴰ.{head, tail}

or_right : (b : Bool) → b || true ≡ true
or_right true = refl
or_right false = refl

module _ {ℓ} {A : Type ℓ} where
  pub any-Memᴰ : (p : A → Bool) {a : A} (xs : List A) → Memᴰ a xs → p a ≡ true → any p xs ≡ true
  any-Memᴰ p [] m h = elim m [ ]
  any-Memᴰ p (x ∷ xs) (head e) h = rw (sym e, h)
  any-Memᴰ p (x ∷ xs) (tail m) h = rw (any-Memᴰ p xs m h) (or_right (p x))

  pub find?-here : (p : A → Bool) (x : A) (xs : List A) → p x ≡ true → find? p (x ∷ xs) ≡ some x
  find?-here p x xs e = rw (find?, e)

  pub find?-later :
      (p : A → Bool) (x : A) (xs : List A) → p x ≡ false → find? p (x ∷ xs) ≡ find? p xs
  find?-later p x xs e = rw (find?, e)

  -- What `find?` finds is a member that passes the test.
  pub find?-Memᴰ :
      (p : A → Bool) (xs : List A) {a : A} → find? p xs ≡ some a → Memᴰ a xs × (p a ≡ true)
  find?-Memᴰ p [] h = cc
  find?-Memᴰ p (x ∷ xs) {a} h = elim (Bool-cases (p x)) [
    | inl e ↦
        let found : some x ≡ some a = sym (find?-here p x xs e) ∙ h in
        let same : x ≡ a = cc in (head (sym same), rw (sym same) e)
    | inr e ↦
        let rest : find? p xs ≡ some a = sym (find?-later p x xs e) ∙ h in
        let (m, f) = find?-Memᴰ p xs rest in (tail m, f)
  ]

  pub find?-none :
      (p : A → Bool) {a : A} (xs : List A) → find? p xs ≡ none → Memᴰ a xs → p a ≡ false
  find?-none p [] h m = elim m [ ]
  find?-none p (x ∷ xs) h m = elim (Bool-cases (p x)) [
    | inl e ↦ let found : some x ≡ none = sym (find?-here p x xs e) ∙ h in cc
    | inr e ↦ elim m [
      | head f ↦ rw f e
      | tail rest ↦
          let later : find? p xs ≡ none = sym (find?-later p x xs e) ∙ h in
          find?-none p xs later rest
    ]
  ]
