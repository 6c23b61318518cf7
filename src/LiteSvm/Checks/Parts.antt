-- ===== src/LiteSvm/Checks/Parts.antt =====
-- The parts of which `with_vaa` is made, each on its own.
use wormhole_svm_utils.Prelude.{
  ◌≡◌, ◌↔◌, refl, sym, ap, arith, Bool, true, false, Result, ok, err, panic,
}
use wormhole_svm_utils.Submit.Connection.{Exec, mapped}
use wormhole_svm_utils.LiteSvm.Checks.{on_clone, when, fail_if_ok}

-- A check that is made, or skipped with nothing changed.
pub data Guarded {T : Type 0} (b : Bool) (P : T → T → Type 0) (s s' : T) : Type 0 where
  checked : b ≡ true → P s s' → Guarded b P s s'
  skipped : b ≡ false → s' ≡ s → Guarded b P s s'

pub when-Guarded :
    {T X : Type 0} (m : Exec T X (Unit {0})) (P : T → T → Type 0)
    → ((s s' : T) → (m s ≡ (ok tt, s')) ↔ P s s')
    → (b : Bool) (s s' : T) → (when b m s ≡ (ok tt, s')) ↔ Guarded b P s s'
unfolding when
when-Guarded m P e true s s' = (
  λ h. checked refl ((e s s').0 h),
  λ g. elim g [ checked _ p ↦ (e s s').1 p | skipped b _ ↦ cc ],
)
when-Guarded m P e false s s' =
    (λ h. skipped refl (cc), λ g. elim g [ checked b p ↦ cc | skipped _ q ↦ rw q ])

pub on_clone-ends :
    {V O X A : Type 0} (m : Exec (V × O) X A) (s s' : V × O) {r : Result X A}
    → on_clone m s ≡ (r, s')
    → (m s ≡ (r, (m s).1)) × (s' ≡ (s.0, (m s).1.1))
unfolding on_clone
on_clone-ends {X = X} {A = A} m s s' h =
    (ap (λ (p : Result X A × _). (p.0, (m s).1)) h, sym (ap (λ (p : Result X A × _). p.1) h))

pub fail_if_ok-passed :
    {T X E A : Type 0} (x : X) (p : Result E A × T) (s' : T)
    → fail_if_ok x p ≡ (ok tt, s')
    → (e : E) × (p ≡ (err e, s'))
unfolding fail_if_ok
fail_if_ok-passed x (ok a, t) s' h = ground arith
fail_if_ok-passed x (err e, t) s' h = (e, ground arith)
fail_if_ok-passed x (panic, t) s' h = ground arith

pub mapped-returned :
    {T X E A : Type 0} (g : E → X) (p : Result E A × T) (s' : T) {a : A}
    → mapped g p ≡ (ok a, s')
    → p ≡ (ok a, s')
mapped-returned g (ok a, t) s' h = cc
mapped-returned g (err e, t) s' h = ground arith
mapped-returned g (panic, t) s' h = ground arith

pub when-failed :
    {T X : Type 0} (m : Exec T X (Unit {0})) (b : Bool) (s s' : T) {x : X}
    → when b m s ≡ (err x, s')
    → (b ≡ true) × (m s ≡ (err x, s'))
unfolding when
when-failed m true s s' h = (refl, h)
when-failed m false s s' h = ground arith

pub fail_if_ok-failed :
    {T X E A : Type 0} (y : X) (p : Result E A × T) (s' : T) {x : X}
    → fail_if_ok y p ≡ (err x, s')
    → (x ≡ y) × (a : A) × (p ≡ (ok a, s'))
unfolding fail_if_ok
fail_if_ok-failed y (ok a, t) s' h = (ground arith, a, ground arith)
fail_if_ok-failed y (err e, t) s' h = ground arith
fail_if_ok-failed y (panic, t) s' h = ground arith

pub mapped-failed :
    {T X E A : Type 0} (g : E → X) (p : Result E A × T) (s' : T) {x : X}
    → mapped g p ≡ (err x, s')
    → (e : E) × (x ≡ g e) × (p ≡ (err e, s'))
mapped-failed g (ok a, t) s' h = ground arith
mapped-failed g (err e, t) s' h = (e, ground arith, ground arith)
mapped-failed g (panic, t) s' h = ground arith

pub guarded-invariant :
    {T A : Type 0} {P : T → T → Type 0} (g : T → A)
    → ((s s' : T) → P s s' → g s' ≡ g s)
    → {b : Bool} {s s' : T} → Guarded b P s s'
    → g s' ≡ g s
guarded-invariant g k (checked _ p) = k _ _ p
guarded-invariant g k (skipped _ q) = ap g q

pub when-made :
    {T X : Type 0} (m : Exec T X (Unit {0})) (b : Bool) (s : T) {p : Result X (Unit {0}) × T}
    → b ≡ true
    → m s ≡ p
    → when b m s ≡ p
unfolding when
when-made m b s on e = rw on e
