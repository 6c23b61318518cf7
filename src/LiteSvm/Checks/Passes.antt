-- ===== src/LiteSvm/Checks/Passes.antt =====
-- `with_vaa`: the tests that a closure passes.
use wormhole_svm_utils.Prelude.{ℕ, ◌≡◌, ◌↔◌, subst, Bool, List, Result, ok, err}
use wormhole_svm_utils.Prelude.Bytes.{Bytes}
use wormhole_svm_utils.Solana.{Pubkey}
use wormhole_svm_utils.Guardian.{Crypto, TestGuardianSet}
use wormhole_svm_utils.Vaa.{TestVaa, body, guardian_signatures}
use wormhole_svm_utils.Submit.Connection.{Sdk, Exec, map_error, >>=-returned, ok-injective}
use wormhole_svm_utils.Submit.Signatures.{Shim, PostedSignatures}
use wormhole_svm_utils.Submit.Broadcast.{Definitions}
use wormhole_svm_utils.LiteSvm.{LiteSvm}
use wormhole_svm_utils.LiteSvm.Errors.{
  load_error, vaa_verification_failed, verification_bypass, emitter_chain_bypass,
  emitter_address_bypass, replay_protection_missing,
}
use wormhole_svm_utils.LiteSvm.Modified.{wrong_sequence, wrong_chain, wrong_address}
use wormhole_svm_utils.LiteSvm.Checks.Parts.{
  Guarded, when-Guarded, on_clone-ends, fail_if_ok-passed, mapped-returned,
}
use wormhole_svm_utils.LiteSvm.Checks.{
  World, TestError, is_non_replayable, on_clone, when, fail_if_ok, post_signatures,
  close_signatures, negative_test, positive_test, with_vaa,
}

module _ (D : Definitions) (shim : Shim) {S : Sdk} (L : LiteSvm S) (F I : Type 0) {E : Type 0}
    (C : Crypto) (payer : S.Keypair) (guardians : TestGuardianSet C) (guardian_set_index : ℕ)
    (v : TestVaa) {T : Type 0} (f : Pubkey → Bytes → Exec (World L) E T) where
  abbrev Outcome : Type 0 → Type 0
  Outcome A = Result (TestError L F E I) A × World L

  abbrev pub posting : List Bytes → World L → Outcome (PostedSignatures S)
  posting = post_signatures D shim L payer guardian_set_index

  abbrev pub closing : PostedSignatures S → World L → Outcome (Unit {0})
  closing posted = close_signatures D shim L payer posted.pubkey (S.pubkey payer)

  abbrev pub signed_by_guardians : TestVaa → List Bytes
  signed_by_guardians w = guardian_signatures C w guardians

  abbrev pub running : World L → Outcome T
  running = with_vaa D shim L C payer guardians guardian_set_index v f

  abbrev pub positive : World L → Outcome T
  positive = positive_test D shim L C payer guardians guardian_set_index v f

  abbrev pub negative : TestError L F E I → List Bytes → Bytes → World L → Outcome (Unit {0})
  negative = negative_test D shim L C payer guardians guardian_set_index v f

  -- On a clone, the closure fails with these signatures and this body. The virtual machine is as
  -- before.
  pub record Rejects (signatures : List Bytes) (vaa_body : Bytes) (s s' : World L) : Type 0 where
    pub posted : PostedSignatures S
    pub after_post : World L
    pub error : E
    pub after_call : World L
    pub posts : posting signatures s ≡ (ok posted, after_post)
    pub rejects : f posted.pubkey vaa_body after_post ≡ (err error, after_call)
    pub drops : s' ≡ (s.0, after_call.1)

  -- The closure succeeds with the VAA's own signatures and body, and the signatures are closed.
  pub record Accepts (result : T) (s s' : World L) : Type 0 where
    pub posted : PostedSignatures S
    pub after_post : World L
    pub after_call : World L
    pub posts : posting (signed_by_guardians v) s ≡ (ok posted, after_post)
    pub accepts : f posted.pubkey (body v) after_post ≡ (ok result, after_call)
    pub closes : closing posted after_call ≡ (ok tt, s')

  -- The tests of `with_vaa`, in their order.
  pub record Passes (result : T) (s s' : World L) : Type 0 where
    pub s1 : World L
    pub s2 : World L
    pub s3 : World L
    pub s4 : World L
    pub verification : Rejects (signed_by_guardians (wrong_sequence v)) (body v) s s1
    pub chain :
        Guarded v.checks.emitter_chain
          (Rejects (signed_by_guardians (wrong_chain v)) (body (wrong_chain v)))
          s1
          s2
    pub address :
        Guarded v.checks.emitter_address
          (Rejects (signed_by_guardians (wrong_address v)) (body (wrong_address v)))
          s2
          s3
    pub accepted : Accepts result s3 s4
    pub replay :
        Guarded (is_non_replayable v.checks.replay) (Rejects (signed_by_guardians v) (body v)) s4 s'

  module _ (x : TestError L F E I) (signatures : List Bytes) (vaa_body : Bytes)
      (s s' : World L) where
    pub Rejects-negative :
        Rejects signatures vaa_body s s' → negative x signatures vaa_body s ≡ (ok tt, s')
    unfolding negative_test on_clone fail_if_ok
    Rejects-negative r = rw (r.posts, r.rejects, r.drops)

    pub negative-Rejects :
        negative x signatures vaa_body s ≡ (ok tt, s') → Rejects signatures vaa_body s s'
    unfolding negative_test
    negative-Rejects h =
        let (g, d) = on_clone-ends _ s s' h in
        let (posted, t, e, k) = >>=-returned (posting signatures) _ s _ g in
        let (error, q) = fail_if_ok-passed x (f posted.pubkey vaa_body t) _ k in
        record {
          posted = posted;
          after_post = t;
          error = error;
          after_call = _;
          posts = e;
          rejects = q;
          drops = d;
        }

  pub positive-Accepts :
      (result : T) (s s' : World L) → (positive s ≡ (ok result, s')) ↔ Accepts result s s'
  unfolding positive_test
  positive-Accepts result s s' = (
    λ h.
        let (posted, t, e, h1) = >>=-returned (posting (signed_by_guardians v)) _ s s' h in
        let (r, u, g, h2) = >>=-returned (mapping posted) _ t s' h1 in
        let (_, w, k, h3) = >>=-returned (closing posted) _ u s' h2 in
        let (same, end) = ok-injective r result w s' h3 in
        record {
          posted = posted;
          after_post = t;
          after_call = u;
          posts = e;
          accepts =
              subst (λ (y : T). f posted.pubkey (body v) t ≡ (ok y, u)) same
                (mapped-returned failing (f posted.pubkey (body v) t) u g);
          closes = subst (λ (t : World L). closing posted u ≡ (ok tt, t)) end k;
        },
    λ a. rw (a.posts, a.accepts, a.closes),
  )
    where
      failing : E → TestError L F E I
      failing e = load_error (vaa_verification_failed e)

      mapping : PostedSignatures S → World L → Outcome T
      mapping posted = map_error failing (f posted.pubkey (body v))

  -- A modified VAA is refused.
  abbrev pub Refuses : TestVaa → World L → World L → Type 0
  Refuses w = Rejects (signed_by_guardians w) (body w)

  pub guarded :
      (x : TestError L F E I) (w : TestVaa) (b : Bool) (s s' : World L)
      → (when b (negative x (signed_by_guardians w) (body w)) s ≡ (ok tt, s'))
        ↔ Guarded b (Refuses w) s s'
  guarded x w = when-Guarded _ (Refuses w) λ s s'. (
    negative-Rejects x (signed_by_guardians w) (body w) s s',
    Rejects-negative x (signed_by_guardians w) (body w) s s',
  )

  -- `with_vaa` returns a result exactly where the closure fails with the signatures of the VAA of
  -- the next sequence number, fails with the VAAs of another chain and of another address where
  -- those are checked, then returns the result on the virtual machine itself, and fails when it is
  -- run again where replays are checked. Only the run that succeeds changes the virtual machine.
  pub with_vaa-Passes :
      (result : T) (s s' : World L) → (running s ≡ (ok result, s')) ↔ Passes result s s'
  unfolding with_vaa
  with_vaa-Passes result s s' = (
    λ h.
        let (_, s1, e1, h1) = >>=-returned (negative verification_bypass _ _) _ s s' h in
        let (_, s2, e2, h2) = >>=-returned (when v.checks.emitter_chain _) _ s1 s' h1 in
        let (_, s3, e3, h3) = >>=-returned (when v.checks.emitter_address _) _ s2 s' h2 in
        let (r, s4, e4, h4) = >>=-returned positive _ s3 s' h3 in
        let (_, s5, e5, h5) =
          >>=-returned (when (is_non_replayable v.checks.replay) _) _ s4 s' h4 in
        let (same, end) = ok-injective r result s5 s' h5 in
        record {
          s1 = s1;
          s2 = s2;
          s3 = s3;
          s4 = s4;
          verification = negative-Rejects _ _ _ s s1 e1;
          chain = (guarded _ _ _ s1 s2).0 e2;
          address = (guarded _ _ _ s2 s3).0 e3;
          accepted = subst (λ (y : T). Accepts y s3 s4) same ((positive-Accepts r s3 s4).0 e4);
          replay =
              subst (Guarded (is_non_replayable v.checks.replay) (Refuses v) s4) end
                ((guarded _ _ _ s4 s5).0 e5);
        },
    λ p. rw (
      Rejects-negative verification_bypass _ _ s p.s1 p.verification,
      (guarded emitter_chain_bypass _ _ p.s1 p.s2).1 p.chain,
      (guarded emitter_address_bypass _ _ p.s2 p.s3).1 p.address,
      (positive-Accepts result p.s3 p.s4).1 p.accepted,
      (guarded replay_protection_missing _ _ p.s4 s').1 p.replay,
    ),
  )
