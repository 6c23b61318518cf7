-- ===== src/Submit/Connection.antt =====
-- crates/wormhole-svm-submit/src/connection.rs: the trait `SolanaConnection`, and the code that
-- runs over it.
use wormhole_svm_utils.Prelude.{
  List, Option, Result, ok, err, panic, ◌≡◌, ◌≢◌, ◌⊎◌, inl, inr, refl, arith,
}
use wormhole_svm_utils.Prelude.Bytes.{Bytes}
use wormhole_svm_utils.Solana.{Pubkey, Instruction}

-- What the crate takes from solana-sdk. `Transaction::new_signed_with_payer` panics where signing
-- fails: that is `none`.
pub record Sdk : Type 1 where
  pub Keypair : Type 0
  pub Hash : Type 0
  pub Signature : Type 0
  pub Transaction : Type 0
  pub Account : Type 0
  pub pubkey : Keypair → Pubkey
  pub new_signed_with_payer :
      List Instruction → Option Pubkey → List Keypair → Hash → Option Transaction

pub record SimulationResult : Type 0 where
  pub return_data : Option Bytes
  pub post_accounts : List (Pubkey × Bytes)

-- The trait. `State` is all that a connection talks to, with the entropy of `Keypair::new`; any
-- call may change it, since time passes at the other end.
pub record SolanaConnection (S : Sdk) : Type 1 where
  pub State : Type 0
  pub Error : Type 0
  pub get_latest_blockhash : State → Result Error S.Hash × State
  pub simulate_with_post_accounts :
      S.Transaction → List Pubkey → State → Result Error SimulationResult × State
  pub send_and_confirm : S.Transaction → State → Result Error S.Signature × State
  pub get_account : Pubkey → State → Result Error (Option S.Account) × State
  pub new_keypair : State → S.Keypair × State

-- Code over a state that returns, fails with an `X`, or panics. The state comes back in any case.
abbrev pub Exec : Type 0 → Type 0 → Type 0 → Type 0
Exec T X A = T → Result X A × T

module _ {T X : Type 0} where
  abbrev pub continue : {A B : Type 0} → Result X A × T → (A → Exec T X B) → Result X B × T
  continue (ok a, s) f = f a s
  continue (err e, s) f = (err e, s)
  continue (panic, s) f = (panic, s)

  infixl 5 ◌>>=◌ ◌>>◌
  abbrev pub ◌>>=◌ : {A B : Type 0} → Exec T X A → (A → Exec T X B) → Exec T X B
  ◌>>=◌ m f s = continue (m s) f

  abbrev pub ◌>>◌ : {B : Type 0} → Exec T X (Unit {0}) → Exec T X B → Exec T X B
  m >> k = m >>= λ _. k

  abbrev pub lift : {A : Type 0} → Result X A → Exec T X A
  lift r s = (r, s)

  abbrev pub draw : {A : Type 0} → (T → A × T) → Exec T X A
  draw f s = let (a, s') = f s in (ok a, s')

  abbrev pub mapped : {F A : Type 0} → (F → X) → Result F A × T → Result X A × T
  mapped f (ok a, s) = (ok a, s)
  mapped f (err e, s) = (err (f e), s)
  mapped f (panic, s) = (panic, s)

  -- `m.map_err(f)?`
  abbrev pub map_error : {F A : Type 0} → (F → X) → Exec T F A → Exec T X A
  map_error f m s = mapped f (m s)

  continue-returned :
      {A B : Type 0} (r : Result X A × T) (f : A → Exec T X B) (s' : T) {b : B}
      → continue r f ≡ (ok b, s')
      → (a : A) × (t : T) × (r ≡ (ok a, t)) × (f a t ≡ (ok b, s'))
  continue-returned (ok a, t) f s' h = (a, t, refl, h)
  continue-returned (err e, t) f s' h = ground arith
  continue-returned (panic, t) f s' h = ground arith

  -- A bind that returned: its first part returned, and then its second.
  pub >>=-returned :
      {A B : Type 0} (m : Exec T X A) (f : A → Exec T X B) (s s' : T) {b : B}
      → (m >>= f) s ≡ (ok b, s')
      → (a : A) × (t : T) × (m s ≡ (ok a, t)) × (f a t ≡ (ok b, s'))
  >>=-returned m f s s' h = continue-returned (m s) f s' h

  continue-failed :
      {A B : Type 0} (r : Result X A × T) (f : A → Exec T X B) (s' : T) {x : X}
      → continue r f ≡ (err x, s')
      → (r ≡ (err x, s')) ⊎ ((a : A) × (t : T) × (r ≡ (ok a, t)) × (f a t ≡ (err x, s')))
  continue-failed (ok a, t) f s' h = inr (a, t, refl, h)
  continue-failed (err e, t) f s' h = inl (cc)
  continue-failed (panic, t) f s' h = ground arith

  -- A bind that failed: its first part failed, or returned, and then its second failed.
  pub >>=-failed :
      {A B : Type 0} (m : Exec T X A) (f : A → Exec T X B) (s s' : T) {x : X}
      → (m >>= f) s ≡ (err x, s')
      → (m s ≡ (err x, s')) ⊎ ((a : A) × (t : T) × (m s ≡ (ok a, t)) × (f a t ≡ (err x, s')))
  >>=-failed m f s s' h = continue-failed (m s) f s' h

pub ok-injective :
    {X A T : Type 0} (a b : A) (s t : T)
    → ◌≡◌ {A = Result X A × T} (ok a, s) (ok b, t)
    → (a ≡ b) × (s ≡ t)
ok-injective a b s t h = (cc, cc)

pub ok-ne-err :
    {X A T : Type 0} (a : A) (x : X) (s t : T) → ◌≢◌ {A = Result X A × T} (ok a, s) (err x, t)
ok-ne-err a x s t h = cc

-- What follows without touching the state leaves it as it is, and so does a change of the errors.
pub continue-state :
    {T X A B : Type 0} (p : Result X A × T) (f : A → Result X B)
    → (continue p (λ a. lift (f a))).1 ≡ p.1
continue-state (ok a, s) f = refl
continue-state (err e, s) f = refl
continue-state (panic, s) f = refl

pub mapped-state : {T X F A : Type 0} (f : F → X) (p : Result F A × T) → (mapped f p).1 ≡ p.1
mapped-state f (ok a, s) = refl
mapped-state f (err e, s) = refl
mapped-state f (panic, s) = refl

pub mapped-failed :
    {T X F A : Type 0} (f : F → X) (p : Result F A × T) (e : X) (s : T)
    → mapped f p ≡ (err e, s)
    → (x : F) × (p ≡ (err x, s)) × (e ≡ f x)
mapped-failed f (ok a, t) e s h = ground arith
mapped-failed f (err x, t) e s h = (x, (cc), (cc))
mapped-failed f (panic, t) e s h = ground arith

-- The three ways in which a call ends.
pub data Ends {X A T : Type 0} (p : Result X A × T) : Type 0 where
  returned : (a : A) (t : T) → p ≡ (ok a, t) → Ends p
  failed : (x : X) (t : T) → p ≡ (err x, t) → Ends p
  panicked : (t : T) → p ≡ (panic, t) → Ends p

pub ends : {X A T : Type 0} (p : Result X A × T) → Ends p
ends (ok a, t) = returned a t refl
ends (err x, t) = failed x t refl
ends (panic, t) = panicked t refl
