-- ===== src/LiteSvm/Checks/Fails/Exact.antt =====
-- `with_vaa`: its errors, and what they leave of the virtual machine.
use wormhole_svm_utils.Prelude.{ℕ, ◌≡◌, ◌↔◌, inl, inr, ◌∙◌, Bool, List, Result, ok, err}
use wormhole_svm_utils.Prelude.Bytes.{Bytes}
use wormhole_svm_utils.Solana.{Pubkey}
use wormhole_svm_utils.Guardian.{Crypto, TestGuardianSet}
use wormhole_svm_utils.Vaa.{TestVaa, body}
use wormhole_svm_utils.Submit.Connection.{Sdk, Exec, ◌>>=◌, lift, >>=-failed, ok-ne-err}
use wormhole_svm_utils.Submit.Signatures.{Shim}
use wormhole_svm_utils.Submit.Broadcast.{Definitions}
use wormhole_svm_utils.LiteSvm.{LiteSvm}
use wormhole_svm_utils.LiteSvm.Errors.{
  verification_bypass, emitter_chain_bypass, emitter_address_bypass, replay_protection_missing,
}
use wormhole_svm_utils.LiteSvm.Modified.{wrong_sequence, wrong_chain, wrong_address}
use wormhole_svm_utils.LiteSvm.Checks.{World, TestError, is_non_replayable, when, with_vaa}
use wormhole_svm_utils.LiteSvm.Checks.Passes
use wormhole_svm_utils.LiteSvm.Checks.Fails
use wormhole_svm_utils.LiteSvm.Checks.Fails.{
  verification, chain, address, positive_test_fails, replay,
}
use wormhole_svm_utils.LiteSvm.Checks.Parts.{Guarded, when-failed, when-made}

module _ (D : Definitions) (shim : Shim) {S : Sdk} (L : LiteSvm S) (F I : Type 0) {E : Type 0}
    (C : Crypto) (payer : S.Keypair) (guardians : TestGuardianSet C) (guardian_set_index : ℕ)
    (v : TestVaa) {T : Type 0} (f : Pubkey → Bytes → Exec (World L) E T) where
  abbrev Error : Type 0
  Error = TestError L F E I

  abbrev signed : TestVaa → List Bytes
  signed = Fails.signed D shim L F I C payer guardians guardian_set_index v f

  abbrev running : World L → Result Error T × World L
  running = Fails.running D shim L F I C payer guardians guardian_set_index v f

  abbrev positive : World L → Result Error T × World L
  positive = Fails.positive D shim L F I C payer guardians guardian_set_index v f

  abbrev negative : Error → List Bytes → Bytes → World L → Result Error (Unit {0}) × World L
  negative = Fails.negative D shim L F I C payer guardians guardian_set_index v f

  abbrev Refuses : TestVaa → World L → World L → Type 0
  Refuses = Fails.Refuses D shim L F I C payer guardians guardian_set_index v f

  abbrev Rejects : List Bytes → Bytes → World L → World L → Type 0
  Rejects = Passes.Rejects D shim L F I C payer guardians guardian_set_index v f

  abbrev FailsAs : World L → Error → World L → Type 0
  FailsAs = Fails.Fails D shim L F I C payer guardians guardian_set_index v f

  Rejects-negative :
      (x : Error) (signatures : List Bytes) (vaa_body : Bytes) (s s' : World L)
      → Rejects signatures vaa_body s s'
      → negative x signatures vaa_body s ≡ (ok tt, s')
  Rejects-negative = Passes.Rejects-negative D shim L F I C payer guardians guardian_set_index v f

  Guarded-when :
      (x : Error) (w : TestVaa) (b : Bool) (s s' : World L)
      → (when b (negative x (signed w) (body w)) s ≡ (ok tt, s')) ↔ Guarded b (Refuses w) s s'
  Guarded-when = Passes.guarded D shim L F I C payer guardians guardian_set_index v f

  -- After the negative tests.
  accepted-Fails :
      {s s1 s2 s3 : World L} (e : Error) (s' : World L)
      → Rejects (signed (wrong_sequence v)) (body v) s s1
      → Guarded v.checks.emitter_chain (Refuses (wrong_chain v)) s1 s2
      → Guarded v.checks.emitter_address (Refuses (wrong_address v)) s2 s3
      → (positive >>= λ result.
            when
              (is_non_replayable v.checks.replay)
              (negative replay_protection_missing (signed v) (body v))
            >>= λ _. lift (ok result))
          s3
        ≡ (err e, s')
      → FailsAs s e s'
  accepted-Fails e s' r g1 g2 h = elim (>>=-failed positive _ _ s' h) [
    | inl k ↦ positive_test_fails r g1 g2 (
        Fails.positive-PositiveFails D shim L F I C payer guardians guardian_set_index v f _ e s' k)
    | inr (result, s4, k, h1) ↦
        elim (>>=-failed (when (is_non_replayable v.checks.replay) _) _ s4 s' h1) [
          | inr (_, s5, n, h2) ↦ absurd (ok-ne-err result e s5 s' h2)
          | inl n ↦
              let (on, m) = when-failed _ _ s4 s' n in
              replay r g1 g2
                ((Passes.positive-Accepts D shim L F I C payer guardians guardian_set_index v f
                    result _ s4).0
                  k)
                on
                (Fails.negative-NegativeFails D shim L F I C payer guardians guardian_set_index v f
                  replay_protection_missing (signed v) (body v) s4 e s' m)
        ]
  ]

  with_vaa-first :
      (s : World L) (e : Error) (s' : World L) → running s ≡ (err e, s') → FailsAs s e s'
  unfolding with_vaa
  with_vaa-first s e s' h = elim (>>=-failed (negative verification_bypass _ _) _ s s' h) [
    | inl k ↦ verification (
        Fails.negative-NegativeFails D shim L F I C payer guardians guardian_set_index v f _ _ _ s e
          s' k)
    | inr (_, s1, k, h1) ↦
        let r =
          Passes.negative-Rejects D shim L F I C payer guardians guardian_set_index v f _ _ _ s s1
            k in
        elim (>>=-failed (when v.checks.emitter_chain _) _ s1 s' h1) [
          | inl n ↦
              let (on, m) = when-failed _ _ s1 s' n in
              chain r on (
                Fails.negative-NegativeFails D shim L F I C payer guardians guardian_set_index v f _
                  _ _ s1 e s' m)
          | inr (_, s2, n, h2) ↦
              let g1 = (Guarded-when _ _ _ s1 s2).0 n in
              elim (>>=-failed (when v.checks.emitter_address _) _ s2 s' h2) [
                | inl n ↦
                    let (on, m) = when-failed _ _ s2 s' n in
                    address r g1 on (
                      Fails.negative-NegativeFails D shim L F I C payer guardians guardian_set_index
                        v f _ _ _ s2 e s' m)
                | inr (_, s3, n, h3) ↦ accepted-Fails e s' r g1 ((Guarded-when _ _ _ s2 s3).0 n) h3
              ]
        ]
  ]

  Fails-with_vaa :
      (s : World L) (e : Error) (s' : World L) → FailsAs s e s' → running s ≡ (err e, s')
  unfolding with_vaa when
  Fails-with_vaa s e s' (verification n) = rw (
      Fails.NegativeFails-negative D shim L F I C payer guardians guardian_set_index v f _ _ _ _ _ _
        n)
  Fails-with_vaa s e s' (chain {s1 = s1} r on n) = rw (
    Rejects-negative verification_bypass _ _ s s1 r,
    when-made _ _ s1 on (
        Fails.NegativeFails-negative D shim L F I C payer guardians guardian_set_index v f _ _ _ _ _
          _ n),
  )
  Fails-with_vaa s e s' (address {s1 = s1} {s2 = s2} r g1 on n) = rw (
    Rejects-negative verification_bypass _ _ s s1 r,
    (Guarded-when emitter_chain_bypass _ _ s1 s2).1 g1,
    when-made _ _ s2 on (
        Fails.NegativeFails-negative D shim L F I C payer guardians guardian_set_index v f _ _ _ _ _
          _ n),
  )
  Fails-with_vaa s e s' (positive_test_fails {s1 = s1} {s2 = s2} {s3 = s3} r g1 g2 k) = rw (
    Rejects-negative verification_bypass _ _ s s1 r,
    (Guarded-when emitter_chain_bypass _ _ s1 s2).1 g1,
    (Guarded-when emitter_address_bypass _ _ s2 s3).1 g2,
    Fails.PositiveFails-positive D shim L F I C payer guardians guardian_set_index v f s3 e s' k,
  )
  Fails-with_vaa s e s'
        (replay {s1 = s1} {s2 = s2} {s3 = s3} {s4 = s4} {result = result} r g1 g2 a on n) =
      rw (
        Rejects-negative verification_bypass _ _ s s1 r,
        (Guarded-when emitter_chain_bypass _ _ s1 s2).1 g1,
        (Guarded-when emitter_address_bypass _ _ s2 s3).1 g2,
        (Passes.positive-Accepts D shim L F I C payer guardians guardian_set_index v f result s3
              s4).1
            a,
        when-made _ _ s4 on (
            Fails.NegativeFails-negative D shim L F I C payer guardians guardian_set_index v f _ _ _
              _ _ _ n),
      )

  -- `with_vaa` fails exactly in these ways: in one of the four tests that must fail, the signatures
  -- are not posted, or the closure returns, which gives the test's own error; or the run on the
  -- virtual machine itself fails to post, in the closure or to close. The tests before it have been
  -- passed or were not asked for.
  pub with_vaa-Fails :
      (s : World L) (e : Error) (s' : World L) → (running s ≡ (err e, s')) ↔ FailsAs s e s'
  with_vaa-Fails s e s' = (with_vaa-first s e s', Fails-with_vaa s e s')

  -- Where the error leaves the virtual machine.
  pub data Leaves (s : World L) (e : Error) (s' : World L) : Type 0 where
    unchanged : s'.0 ≡ s.0 → Leaves s e s'
    in_positive_test : (t : World L) → t.0 ≡ s.0 → positive t ≡ (err e, s') → Leaves s e s'
    in_replay_test :
        (t t' : World L) (result : T)
        → t.0 ≡ s.0
        → positive t ≡ (ok result, t')
        → s'.0 ≡ t'.0
        → Leaves s e s'

  -- If `with_vaa` fails, then the virtual machine is unchanged, or as the run on it left it: a run
  -- that failed with the same error, or, where the replay test failed, one that succeeded.
  pub with_vaa-Leaves :
      (s : World L) (e : Error) (s' : World L) → running s ≡ (err e, s') → Leaves s e s'
  with_vaa-Leaves s e s' h = left (with_vaa-first s e s' h)
    where
      left : FailsAs s e s' → Leaves s e s'
      left (verification n) =
          unchanged (
            Fails.NegativeFails-svm D shim L F I C payer guardians guardian_set_index v f _ _ _ _ n)
      left (chain r on n) = unchanged (
          Fails.NegativeFails-svm D shim L F I C payer guardians guardian_set_index v f _ _ _ _ n
          ∙ Fails.Rejects-svm D shim L F I C payer guardians guardian_set_index v f _ _ _ _ r)
      left (address r g1 on n) = unchanged (
          Fails.NegativeFails-svm D shim L F I C payer guardians guardian_set_index v f _ _ _ _ n
          ∙ Fails.Guarded-svm D shim L F I C payer guardians guardian_set_index v f _ g1
          ∙ Fails.Rejects-svm D shim L F I C payer guardians guardian_set_index v f _ _ _ _ r)
      left (positive_test_fails {s3 = s3} r g1 g2 k) =
          in_positive_test s3
            (Fails.Guarded-svm D shim L F I C payer guardians guardian_set_index v f _ g2
              ∙ Fails.Guarded-svm D shim L F I C payer guardians guardian_set_index v f _ g1
              ∙ Fails.Rejects-svm D shim L F I C payer guardians guardian_set_index v f _ _ _ _ r)
            (Fails.PositiveFails-positive D shim L F I C payer guardians guardian_set_index v f s3 e
              s' k)
      left (replay {s3 = s3} {s4 = s4} {result = result} r g1 g2 a on n) =
          in_replay_test s3 s4 result
            (Fails.Guarded-svm D shim L F I C payer guardians guardian_set_index v f _ g2
              ∙ Fails.Guarded-svm D shim L F I C payer guardians guardian_set_index v f _ g1
              ∙ Fails.Rejects-svm D shim L F I C payer guardians guardian_set_index v f _ _ _ _ r)
            ((Passes.positive-Accepts D shim L F I C payer guardians guardian_set_index v f result
                s3 s4).1
              a)
            (Fails.NegativeFails-svm D shim L F I C payer guardians guardian_set_index v f _ _ _ _
              n)
