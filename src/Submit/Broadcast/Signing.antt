-- ===== src/Submit/Broadcast/Signing.antt =====
-- The transactions that post and close the signatures account can be signed.
use wormhole_svm_utils.Prelude.{
  ℕ, ◌≡◌, ◌≢◌, ◌⊎◌, inl, inr, refl, sym, ap, subst, List, [], ◌∷◌, Result, panic,
}
use mathlib.Core.List.Memᴰ.{head, tail}
use wormhole_svm_utils.Prelude.Bytes.{Bytes}
use wormhole_svm_utils.Solana.{Pubkey, Instruction}
use wormhole_svm_utils.Submit.Connection.{Sdk, SolanaConnection, ends, returned, failed, panicked}
use wormhole_svm_utils.Submit.Protocol.{Protocol}
use wormhole_svm_utils.Submit.Execute.Signed.{Demands, Matches, SignsMatching}
use wormhole_svm_utils.Submit.Execute.Signed.Groups.{ArePlaceholders}
use wormhole_svm_utils.Submit.Signatures.{
  Shim, post_signatures, close_signatures, build_post_signatures_ix, build_close_signatures_ix,
}
use wormhole_svm_utils.Submit.Broadcast.{Definitions, Failure}

-- The calls that fetch a blockhash and that send a transaction do not panic.
pub record NeverPanics {S : Sdk} (W : SolanaConnection S) : Type 0 where
  pub hashes : (s : W.State) → (W.get_latest_blockhash s).0 ≢ panic
  pub sends : (tx : S.Transaction) (s : W.State) → (W.send_and_confirm tx s).0 ≢ panic

-- Of the shim's instructions, the posting demands the signatures of the payer and of the new
-- account, and the closing that of the account that gets the refund.
pub record ShimDemands (shim : Shim) : Type 0 where
  pub post_signers :
      (program payer account k : Pubkey) (index n : ℕ) (sigs : List Bytes)
      → Demands (shim.post_signatures_instruction program payer account index n sigs ∷ []) k
      → (k ≡ payer) ⊎ (k ≡ account)
  pub post_account :
      (program payer account : Pubkey) (index n : ℕ) (sigs : List Bytes)
      → Demands (shim.post_signatures_instruction program payer account index n sigs ∷ []) account
  pub close_signers :
      (program account refund k : Pubkey)
      → Demands (shim.close_signatures_instruction program account refund ∷ []) k
      → k ≡ refund

module _ (P : Protocol) (D : Definitions) (shim : Shim) {S : Sdk} (W : SolanaConnection S)
    (N : NeverPanics W) (law : SignsMatching S) (A : ArePlaceholders P) (H : ShimDemands shim)
    (payer : S.Keypair) where
  module _ (kp : S.Keypair) (index : ℕ) (sigs : List Bytes) where
    abbrev post_ix : Instruction
    post_ix =
        build_post_signatures_ix shim (S.pubkey payer) (S.pubkey kp) D.verify_vaa_shim_program_id
          index sigs

    post_ix-Matches : Matches S (post_ix ∷ []) payer (payer ∷ kp ∷ [])
    unfolding build_post_signatures_ix
    post_ix-Matches = record {
      payer_signs = head refl;
      enough = λ k d. elim (H.post_signers _ _ _ k _ _ _ d) [
        | inl e ↦ (payer, head refl, sym e)
        | inr e ↦ (kp, tail (head refl), sym e)
      ];
      wanted = λ kp' m. elim m [
        | head e ↦ inl (ap S.pubkey e)
        | tail later ↦ elim later [
          | head e ↦ inr (
              subst (Demands (post_ix ∷ [])) (ap S.pubkey (sym e)) (
                H.post_account D.verify_vaa_shim_program_id (S.pubkey payer) (S.pubkey kp) index _
                  sigs))
          | tail none_left ↦ elim none_left [ ]
        ]
      ];
    }

  close_ix-Matches :
      (account : Pubkey)
      → Matches S
          (build_close_signatures_ix shim D.verify_vaa_shim_program_id account (S.pubkey payer)
            ∷ [])
          payer
          (payer ∷ [])
  unfolding build_close_signatures_ix
  close_ix-Matches account = record {
    payer_signs = head refl;
    enough = λ k d. (payer, head refl, sym (H.close_signers _ _ _ k d));
    wanted = λ kp m. elim m [ head e ↦ inl (ap S.pubkey e) | tail none_left ↦ elim none_left [ ] ];
  }

  abbrev pub Returns : {B : Type 0} → Result (Failure P D shim W) B × W.State → Type 0
  Returns p = p.0 ≢ panic

  pub panicking :
      {E B X : Type 0} {t : X} {p : Result E B × X} → p.0 ≢ panic → p ≡ (panic, t) → ¬ Unit {0}
  panicking {E} {B} {X} n e _ = n (ap (λ (q : Result E B × X). q.0) e)

  pub post_signatures-Returns :
      (index : ℕ) (sigs : List Bytes) (t : W.State)
      → Returns (post_signatures shim W payer D.verify_vaa_shim_program_id index sigs t)
  unfolding post_signatures
  post_signatures-Returns index sigs t =
      let (kp, t1) = W.new_keypair t in
      elim (ends (W.get_latest_blockhash t1)) [
        | failed x t2 e ↦ rw (post_signatures, e) (λ p. cc)
        | panicked t2 e ↦ absurd (panicking (N.hashes t1) e tt)
        | returned h t2 e ↦
            let (tx, f) = law _ payer _ h (post_ix-Matches kp index sigs) in
            elim (ends (W.send_and_confirm tx t2)) [
              | failed x t3 g ↦ rw (post_signatures, e, f, g) (λ p. cc)
              | panicked t3 g ↦ absurd (panicking (N.sends tx t2) g tt)
              | returned sig t3 g ↦ rw (post_signatures, e, f, g) (λ p. cc)
            ]
      ]

  pub close_signatures-Returns :
      (account : Pubkey) (t : W.State)
      → Returns (close_signatures shim W payer D.verify_vaa_shim_program_id account t)
  unfolding close_signatures
  close_signatures-Returns account t = elim (ends (W.get_latest_blockhash t)) [
    | failed x t2 e ↦ rw (close_signatures, e) (λ p. cc)
    | panicked t2 e ↦ absurd (panicking (N.hashes t) e tt)
    | returned h t2 e ↦
        let (tx, f) = law _ payer _ h (close_ix-Matches account) in
        elim (ends (W.send_and_confirm tx t2)) [
          | failed x t3 g ↦ rw (close_signatures, e, f, g) (λ p. cc)
          | panicked t3 g ↦ absurd (panicking (N.sends tx t2) g tt)
          | returned sig t3 g ↦ rw (close_signatures, e, f, g) (λ p. cc)
        ]
  ]
