-- ===== src/LiteSvm/Checks/Unchecked.antt =====
-- `with_vaa_unchecked` beside `with_posted_signatures` and `with_vaa`.
use wormhole_svm_utils.Prelude.{
  ℕ, ◌≡◌, Bool, refl, sym, ap, ◌∙◌, subst, arith, List, Option, none, some, Result, ok, err, panic,
}
use wormhole_svm_utils.Prelude.Bytes.{Bytes}
use wormhole_svm_utils.Solana.{Pubkey}
use wormhole_svm_utils.Guardian.{Crypto, TestGuardianSet}
use wormhole_svm_utils.Vaa.{TestVaa, body, guardian_signatures}
use wormhole_svm_utils.Submit.Connection.{Sdk, Exec, mapped, ends, returned, failed, panicked}
use wormhole_svm_utils.Submit.Signatures.{Shim, PostedSignatures}
use wormhole_svm_utils.Submit.Broadcast.{Definitions}
use wormhole_svm_utils.LiteSvm.{LiteSvm}
use wormhole_svm_utils.LiteSvm.Errors.{
  WormholeTestError, load_error, close_signatures_failed, user_closure_failed, closure_failed,
  submit_error,
}
use wormhole_svm_utils.LiteSvm.Modified.{wrong_chain, wrong_address}
use wormhole_svm_utils.LiteSvm.Checks.{
  World, TestError, closed, send_close, post_signatures, close_signatures, with_posted_signatures,
  with_vaa, with_vaa_unchecked,
}
use wormhole_svm_utils.LiteSvm.Checks.Parts.{Guarded, mapped-failed}
use wormhole_svm_utils.LiteSvm.Checks.Passes
use wormhole_svm_utils.LiteSvm.Checks.Fails

-- The message of one function for that of the other, where the closure has failed.
abbrev pub renamed : {V D E I : Type 0} → WormholeTestError V D E I → WormholeTestError V D E I
renamed (load_error (user_closure_failed e)) = load_error (closure_failed e)
renamed e = e

module _ (D : Definitions) (shim : Shim) {S : Sdk} (L : LiteSvm S) (F I : Type 0) {E : Type 0}
    (payer : S.Keypair) where
  posting-renamed :
      (guardian_set_index : ℕ) (signatures : List Bytes) (s t : World L) (e : TestError L F E I)
      → post_signatures D shim L payer guardian_set_index signatures s ≡ (err e, t)
      → renamed e ≡ e
  unfolding post_signatures
  posting-renamed guardian_set_index signatures s t e h =
      let (x, same, _) = mapped-failed submit_error _ t h in
      subst (λ (e : TestError L F E I). renamed e ≡ e) (sym same) refl

  closed-renamed :
      (r : Result L.Failure (Unit {0})) (s t : World L) (e : TestError L F E I)
      → ◌≡◌ {A = Result (TestError L F E I) (Unit {0}) × World L} (closed D shim L r, s) (err e, t)
      → renamed e ≡ e
  unfolding closed
  closed-renamed (ok _) s t e h = ground arith
  closed-renamed (err x) s t e h =
      let same : load_error (close_signatures_failed x) ≡ e = cc in
      subst (λ (e : TestError L F E I). renamed e ≡ e) same refl
  closed-renamed panic s t e h = ground arith

  sent-renamed :
      (tx : Option S.Transaction) (s t : World L) (e : TestError L F E I)
      → send_close D shim L tx s ≡ (err e, t)
      → renamed e ≡ e
  unfolding send_close
  sent-renamed none s t e h = ground arith
  sent-renamed (some tx) s t e h =
      closed-renamed (L.send_transaction tx s.0).0 ((L.send_transaction tx s.0).1, s.1) t e h

  closing-renamed :
      (k to : Pubkey) (s t : World L) (e : TestError L F E I)
      → close_signatures D shim L payer k to s ≡ (err e, t)
      → renamed e ≡ e
  unfolding close_signatures
  closing-renamed k to s t e h = sent-renamed _ s t e h

  module _ (C : Crypto) (guardians : TestGuardianSet C) (guardian_set_index : ℕ) (v : TestVaa)
      {T : Type 0} (f : Pubkey → Bytes → Exec (World L) E T) where
    abbrev Outcome : Type 0
    Outcome = Result (TestError L F E I) T × World L

    abbrev posting :
        List Bytes → World L → Result (TestError L F E I) (PostedSignatures S) × World L
    posting = post_signatures D shim L payer guardian_set_index

    abbrev close : PostedSignatures S → World L → Result (TestError L F E I) (Unit {0}) × World L
    close posted = close_signatures D shim L payer posted.pubkey (S.pubkey payer)

    abbrev pub unchecked : World L → Outcome
    unchecked = with_vaa_unchecked D shim L C payer guardians guardian_set_index v f

    abbrev pub bracketed : World L → Outcome
    bracketed =
        with_posted_signatures D shim L payer guardian_set_index (guardian_signatures C v guardians)
          (λ sigs. f sigs (body v))

    -- `with_vaa_unchecked` is `with_posted_signatures` with the VAA's signatures, its closure
    -- called with the VAA's body, up to the message of a closure that failed.
    pub with_vaa_unchecked-with_posted_signatures :
        (s : World L) → unchecked s ≡ mapped renamed (bracketed s)
    unfolding with_vaa_unchecked with_posted_signatures
    with_vaa_unchecked-with_posted_signatures s =
        elim (ends (posting (guardian_signatures C v guardians) s)) [
          | failed e t h ↦ rw (h, posting-renamed guardian_set_index _ s t e h)
          | panicked t h ↦ rw h
          | returned posted t h ↦ elim (ends (f posted.pubkey (body v) t)) [
            | failed e u g ↦ rw (h, g)
            | panicked u g ↦ rw (h, g)
            | returned result u g ↦ elim (ends (close posted u)) [
              | returned _ w k ↦ rw (h, g, k)
              | panicked w k ↦ rw (h, g, k)
              | failed e w k ↦ rw (h, g, k, closing-renamed _ _ u w e k)
            ]
          ]
        ]

    -- A result of `with_vaa` is the result of `with_vaa_unchecked`, run on the same virtual
    -- machine, and leaves the virtual machine as that run does.
    pub with_vaa-unchecked :
        (result : T) (s s' : World L)
        → with_vaa D shim L {F = F} {I = I} C payer guardians guardian_set_index v f s
          ≡ (ok result, s')
        → (t : World L) × (u : World L) × (t.0 ≡ s.0)
          × (unchecked t ≡ (ok result, u))
          × (s'.0 ≡ u.0)
    unfolding with_vaa_unchecked
    with_vaa-unchecked result s s' h =
        let p =
          (Passes.with_vaa-Passes D shim L F I C payer guardians guardian_set_index v f result s
              s').0
            h in
        let a = p.accepted in
        (
          p.s3,
          p.s4,
          same (wrong_address v) p.address
              ∙ same (wrong_chain v) p.chain
              ∙ ap (λ (t : World L). t.0) p.verification.drops,
          rw (a.posts, a.accepts, a.closes),
          same v p.replay,
        )
      where
        same :
            (w : TestVaa) {b : Bool} {s s' : World L}
            → Guarded b
                (Passes.Refuses D shim L F I C payer guardians guardian_set_index v f w)
                s
                s'
            → s'.0 ≡ s.0
        same w g = Fails.Guarded-svm D shim L F I C payer guardians guardian_set_index v f w g
