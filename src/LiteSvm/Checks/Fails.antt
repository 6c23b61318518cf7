-- ===== src/LiteSvm/Checks/Fails.antt =====
-- `with_vaa`: the ways in which it fails.
pub mod Exact
use wormhole_svm_utils.Prelude.{
  ℕ, ◌≡◌, ◌↔◌, ◌⊎◌, inl, inr, refl, sym, ap, ◌∙◌, subst, arith, Bool, true, false, List, Result, ok,
  err, panic,
}
use wormhole_svm_utils.Prelude.Bytes.{Bytes}
use wormhole_svm_utils.Solana.{Pubkey}
use wormhole_svm_utils.Guardian.{Crypto, TestGuardianSet}
use wormhole_svm_utils.Vaa.{TestVaa, body}
use wormhole_svm_utils.Submit.Connection.{
  Sdk, Exec, ◌>>=◌, ◌>>◌, lift, mapped, map_error, >>=-returned, >>=-failed, ok-ne-err,
}
use wormhole_svm_utils.Submit.Signatures.{Shim, PostedSignatures}
use wormhole_svm_utils.Submit.Broadcast.{Definitions}
use wormhole_svm_utils.LiteSvm.{LiteSvm}
use wormhole_svm_utils.LiteSvm.Errors.{
  load_error, vaa_verification_failed, verification_bypass, emitter_chain_bypass,
  emitter_address_bypass, replay_protection_missing,
}
use wormhole_svm_utils.LiteSvm.Modified.{wrong_sequence, wrong_chain, wrong_address}
use wormhole_svm_utils.LiteSvm.Checks.{
  World, TestError, is_non_replayable, on_clone, when, fail_if_ok, negative_test, positive_test,
  with_vaa,
}
use wormhole_svm_utils.LiteSvm.Checks.Passes
use wormhole_svm_utils.LiteSvm.Checks.Parts.{
  Guarded, checked, skipped, on_clone-ends, mapped-returned, when-failed, fail_if_ok-failed,
  mapped-failed, guarded-invariant,
}

module _ (D : Definitions) (shim : Shim) {S : Sdk} (L : LiteSvm S) (F I : Type 0) {E : Type 0}
    (C : Crypto) (payer : S.Keypair) (guardians : TestGuardianSet C) (guardian_set_index : ℕ)
    (v : TestVaa) {T : Type 0} (f : Pubkey → Bytes → Exec (World L) E T) where
  abbrev pub Error : Type 0
  Error = TestError L F E I

  abbrev posting : List Bytes → World L → Result Error (PostedSignatures S) × World L
  posting = Passes.posting D shim L F I C payer guardians guardian_set_index v f

  abbrev closing : PostedSignatures S → World L → Result Error (Unit {0}) × World L
  closing = Passes.closing D shim L F I C payer guardians guardian_set_index v f

  abbrev pub signed : TestVaa → List Bytes
  signed = Passes.signed_by_guardians D shim L F I C payer guardians guardian_set_index v f

  abbrev pub running : World L → Result Error T × World L
  running = Passes.running D shim L F I C payer guardians guardian_set_index v f

  abbrev pub positive : World L → Result Error T × World L
  positive = Passes.positive D shim L F I C payer guardians guardian_set_index v f

  abbrev pub negative : Error → List Bytes → Bytes → World L → Result Error (Unit {0}) × World L
  negative = Passes.negative D shim L F I C payer guardians guardian_set_index v f

  abbrev Rejects : List Bytes → Bytes → World L → World L → Type 0
  Rejects = Passes.Rejects D shim L F I C payer guardians guardian_set_index v f

  abbrev pub Refuses : TestVaa → World L → World L → Type 0
  Refuses w = Rejects (signed w) (body w)

  abbrev Accepts : T → World L → World L → Type 0
  Accepts = Passes.Accepts D shim L F I C payer guardians guardian_set_index v f

  -- A run on a clone that must fail and does not fail in the closure: the signatures are not posted,
  -- or the closure returns.
  pub data NegativeFails (x : Error) (signatures : List Bytes) (vaa_body : Bytes) (s : World L)
      : Error → World L → Type 0 where
    not_posted :
        {e : Error} {t s' : World L}
        → posting signatures s ≡ (err e, t)
        → s' ≡ (s.0, t.1)
        → NegativeFails x signatures vaa_body s e s'
    admitted :
        {e : Error} {posted : PostedSignatures S} {t u s' : World L} {result : T}
        → e ≡ x
        → posting signatures s ≡ (ok posted, t)
        → f posted.pubkey vaa_body t ≡ (ok result, u)
        → s' ≡ (s.0, u.1)
        → NegativeFails x signatures vaa_body s e s'

  -- The run on the virtual machine itself fails.
  pub data PositiveFails (s : World L) : Error → World L → Type 0 where
    not_posted :
        {e : Error} {s' : World L} → posting (signed v) s ≡ (err e, s') → PositiveFails s e s'
    closure_fails :
        {e : Error} {posted : PostedSignatures S} {t s' : World L} {error : E}
        → e ≡ load_error (vaa_verification_failed error)
        → posting (signed v) s ≡ (ok posted, t)
        → f posted.pubkey (body v) t ≡ (err error, s')
        → PositiveFails s e s'
    not_closed :
        {e : Error} {posted : PostedSignatures S} {t u s' : World L} {result : T}
        → posting (signed v) s ≡ (ok posted, t)
        → f posted.pubkey (body v) t ≡ (ok result, u)
        → closing posted u ≡ (err e, s')
        → PositiveFails s e s'

  -- The first test that fails, after those that do not.
  pub data Fails (s : World L) (e : Error) (s' : World L) : Type 0 where
    verification :
        NegativeFails verification_bypass (signed (wrong_sequence v)) (body v) s e s' → Fails s e s'
    chain :
        {s1 : World L}
        → Rejects (signed (wrong_sequence v)) (body v) s s1
        → v.checks.emitter_chain ≡ true
        → NegativeFails emitter_chain_bypass (signed (wrong_chain v)) (body (wrong_chain v)) s1 e s'
        → Fails s e s'
    address :
        {s1 s2 : World L}
        → Rejects (signed (wrong_sequence v)) (body v) s s1
        → Guarded v.checks.emitter_chain (Refuses (wrong_chain v)) s1 s2
        → v.checks.emitter_address ≡ true
        → NegativeFails emitter_address_bypass
            (signed (wrong_address v))
            (body (wrong_address v))
            s2
            e
            s'
        → Fails s e s'
    positive_test_fails :
        {s1 s2 s3 : World L}
        → Rejects (signed (wrong_sequence v)) (body v) s s1
        → Guarded v.checks.emitter_chain (Refuses (wrong_chain v)) s1 s2
        → Guarded v.checks.emitter_address (Refuses (wrong_address v)) s2 s3
        → PositiveFails s3 e s'
        → Fails s e s'
    replay :
        {s1 s2 s3 s4 : World L} {result : T}
        → Rejects (signed (wrong_sequence v)) (body v) s s1
        → Guarded v.checks.emitter_chain (Refuses (wrong_chain v)) s1 s2
        → Guarded v.checks.emitter_address (Refuses (wrong_address v)) s2 s3
        → Accepts result s3 s4
        → is_non_replayable v.checks.replay ≡ true
        → NegativeFails replay_protection_missing (signed v) (body v) s4 e s'
        → Fails s e s'

  module _ (x : Error) (signatures : List Bytes) (vaa_body : Bytes) (s : World L) where
    pub negative-NegativeFails :
        (e : Error) (s' : World L)
        → negative x signatures vaa_body s ≡ (err e, s')
        → NegativeFails x signatures vaa_body s e s'
    unfolding negative_test
    negative-NegativeFails e s' h =
        let (g, d) = on_clone-ends _ s s' h in
        elim (>>=-failed (posting signatures) _ s _ g) [
          | inl n ↦ not_posted n d
          | inr (posted, t, n, k) ↦
              let (same, result, a) = fail_if_ok-failed x (f posted.pubkey vaa_body t) _ k in
              admitted same n a d
        ]

    pub NegativeFails-negative :
        (e : Error) (s' : World L)
        → NegativeFails x signatures vaa_body s e s'
        → negative x signatures vaa_body s ≡ (err e, s')
    unfolding negative_test on_clone fail_if_ok
    NegativeFails-negative e s' (not_posted n d) = rw (n, d)
    NegativeFails-negative e s' (admitted same n a d) = rw (n, a, d, same)

  pub NegativeFails-svm :
      (x : Error) (signatures : List Bytes) (vaa_body : Bytes) (s : World L) {e : Error}
      {s' : World L}
      → NegativeFails x signatures vaa_body s e s'
      → s'.0 ≡ s.0
  NegativeFails-svm x signatures vaa_body s (not_posted n d) = ap (λ (t : World L). t.0) d
  NegativeFails-svm x signatures vaa_body s (admitted same n a d) = ap (λ (t : World L). t.0) d

  pub Rejects-svm :
      (signatures : List Bytes) (vaa_body : Bytes) (s s' : World L)
      → Rejects signatures vaa_body s s'
      → s'.0 ≡ s.0
  Rejects-svm signatures vaa_body s s' r = ap (λ (t : World L). t.0) r.drops

  pub Guarded-svm :
      {b : Bool} (w : TestVaa) {s s' : World L} → Guarded b (Refuses w) s s' → s'.0 ≡ s.0
  Guarded-svm w g = guarded-invariant (λ (t : World L). t.0) (Rejects-svm (signed w) (body w)) g

  pub positive-PositiveFails :
      (s : World L) (e : Error) (s' : World L) → positive s ≡ (err e, s') → PositiveFails s e s'
  unfolding positive_test
  positive-PositiveFails s e s' h = elim (>>=-failed (posting (signed v)) _ s s' h) [
    | inl n ↦ not_posted n
    | inr (posted, t, n, h1) ↦ elim (>>=-failed (calling posted) _ t s' h1) [
      | inl k ↦
          let (error, same, q) = mapped-failed failing (f posted.pubkey (body v) t) s' k in
          closure_fails same n q
      | inr (result, u, k, h2) ↦
          let q = mapped-returned failing (f posted.pubkey (body v) t) u k in
          elim (>>=-failed (closing posted) _ u s' h2) [
            | inl c ↦ not_closed n q c
            | inr (_, w, c, h3) ↦ absurd (ok-ne-err result e w s' h3)
          ]
    ]
  ]
    where
      failing : E → Error
      failing e = load_error (vaa_verification_failed e)

      calling : PostedSignatures S → World L → Result Error T × World L
      calling posted = map_error failing (f posted.pubkey (body v))

  pub PositiveFails-positive :
      (s : World L) (e : Error) (s' : World L) → PositiveFails s e s' → positive s ≡ (err e, s')
  unfolding positive_test
  PositiveFails-positive s e s' (not_posted n) = rw n
  PositiveFails-positive s e s' (closure_fails same n q) = rw (n, q, same)
  PositiveFails-positive s e s' (not_closed n q c) = rw (n, q, c)
