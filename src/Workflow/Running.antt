-- ===== src/Workflow/Running.antt =====
-- The virtual machine and the verifier program that it runs, and what sending one instruction to it
-- returns.
use wormhole_svm_utils.Prelude.{
  ◌≡◌, ◌≢◌, Option-cases, inl, inr, refl, sym, ap, arith, List, [], ◌∷◌, map, some, Result, ok, err,
  panic, map_err,
}
use wormhole_svm_utils.Prelude.Bytes.{Bytes}
use wormhole_svm_utils.Solana.{
  Pubkey, AccountMeta, writable, readonly, Instruction, Runtime, ProgramError,
}
use wormhole_svm_utils.Submit.Connection.{Sdk}
use wormhole_svm_utils.Verifier.{VerifierDeps, process_instruction}
use wormhole_svm_utils.LiteSvm.{LiteSvm}
use wormhole_svm_utils.LiteSvm.Checks.{World}
use wormhole_svm_utils.Workflow.{send_signed, send_instruction}

abbrev pub meta_key : AccountMeta → Pubkey
meta_key (writable k _) = k
meta_key (readonly k _) = k

-- The virtual machine runs the verifier program over the infos of an instruction's accounts, in
-- their order. A transaction of one instruction of the program succeeds only if the program does;
-- it may fail for the machine's own reasons (the fee payer's funds, a transaction that was processed
-- before, a program that is not loaded, limits), and those that pass all of the machine's own checks,
-- `Admits`, succeed if the program does.
pub record RunsVerifier {S : Sdk} (L : LiteSvm S) (V : VerifierDeps) : Type 1 where
  pub runtime : L.Svm → Runtime
  pub infos : (svm : L.Svm) → List AccountMeta → List (runtime svm).AccountInfo
  pub Admits : L.Svm → S.Transaction → Type 0
  pub key-infos :
      (svm : L.Svm) (metas : List AccountMeta)
      → map (runtime svm).key (infos svm metas) ≡ map meta_key metas
  pub runs_ok :
      (ix : Instruction) (payer : S.Keypair) (svm : L.Svm) (tx : S.Transaction)
      → ix.program_id ≡ V.program_id
      → S.new_signed_with_payer
          (ix ∷ [])
          (some (S.pubkey payer))
          (payer ∷ [])
          (L.latest_blockhash svm)
        ≡ some tx
      → (L.send_transaction tx svm).0 ≡ ok tt
      → (process_instruction V (runtime svm) (infos svm ix.accounts) ix.ix_data).0 ≡ ok tt
  pub sends_ok :
      (ix : Instruction) (payer : S.Keypair) (svm : L.Svm) (tx : S.Transaction)
      → ix.program_id ≡ V.program_id
      → S.new_signed_with_payer
          (ix ∷ [])
          (some (S.pubkey payer))
          (payer ∷ [])
          (L.latest_blockhash svm)
        ≡ some tx
      → Admits svm tx
      → (process_instruction V (runtime svm) (infos svm ix.accounts) ix.ix_data).0 ≡ ok tt
      → (L.send_transaction tx svm).0 ≡ ok tt

-- The transaction that a closure sends: the payer's, of one instruction.
abbrev pub IsSent :
    {S : Sdk} (L : LiteSvm S) → S.Keypair → Instruction → L.Svm → S.Transaction → Type 0
IsSent {S} L payer ix svm tx =
    S.new_signed_with_payer (ix ∷ []) (some (S.pubkey payer)) (payer ∷ []) (L.latest_blockhash svm)
    ≡ some tx

-- Infos with four keys are four.
pub four :
    {A : Type 0} (key : A → Pubkey) (xs : List A) (j k l m : Pubkey)
    → map key xs ≡ j ∷ k ∷ l ∷ m ∷ []
    → (a : A) × (b : A) × (c : A) × (d : A) × (xs ≡ a ∷ b ∷ c ∷ d ∷ [])
      × (key b ≡ k)
      × (key c ≡ l)
      × (key d ≡ m)
four key (a ∷ b ∷ c ∷ d ∷ []) j k l m h = (a, b, c, d, refl, (cc), (cc), (cc))
four key [] j k l m h = cc
four key (a ∷ []) j k l m h = cc
four key (a ∷ b ∷ []) j k l m h = cc
four key (a ∷ b ∷ c ∷ []) j k l m h = cc
four key (a ∷ b ∷ c ∷ d ∷ e ∷ xs) j k l m h = cc

-- The run of the program on an instruction.
abbrev pub runs :
    {S : Sdk} {L : LiteSvm S} {V : VerifierDeps}
    → RunsVerifier L V
    → L.Svm
    → Instruction
    → Result ProgramError (Unit {0})
runs {V = V} M svm ix =
    (process_instruction V (M.runtime svm) (M.infos svm ix.accounts) ix.ix_data).0

module _ {S : Sdk} (L : LiteSvm S) (tx_failed : L.Failure → Bytes) (V : VerifierDeps)
    (M : RunsVerifier L V) (payer : S.Keypair) where
  send_signed-ok :
      (tx : S.Transaction) (s : World L)
      → (L.send_transaction tx s.0).0 ≡ ok tt
      → send_signed L tx_failed (some tx) s ≡ (ok tt, ((L.send_transaction tx s.0).1, s.1))
  unfolding send_signed
  send_signed-ok tx s h = rw h

  pub send_instruction_of_sent :
      (ix : Instruction) (s : World L) (tx : S.Transaction)
      → IsSent L payer ix s.0 tx
      → (L.send_transaction tx s.0).0 ≡ ok tt
      → send_instruction L tx_failed payer ix s ≡ (ok tt, ((L.send_transaction tx s.0).1, s.1))
  unfolding send_instruction
  send_instruction_of_sent ix s tx signed h = rw signed (send_signed-ok tx s h)

  pub send_instruction-ok :
      (ix : Instruction) (s : World L) (tx : S.Transaction)
      → ix.program_id ≡ V.program_id
      → IsSent L payer ix s.0 tx
      → M.Admits s.0 tx
      → runs M s.0 ix ≡ ok tt
      → (svm : L.Svm) × (send_instruction L tx_failed payer ix s ≡ (ok tt, (svm, s.1)))
  send_instruction-ok ix s tx own signed admits h = (
    (L.send_transaction tx s.0).1,
    send_instruction_of_sent ix s tx signed (M.sends_ok ix payer s.0 tx own signed admits h),
  )

  ok_of_sent :
      (r : Result L.Failure (Unit {0})) (t s' : World L)
      → ◌≡◌ {A = Result Bytes (Unit {0}) × World L} (map_err tx_failed r, t) (ok tt, s')
      → r ≡ ok tt
  ok_of_sent (ok _) t s' h = refl
  ok_of_sent (err e) t s' h = ground arith
  ok_of_sent panic t s' h = ground arith

  -- What the closure returns, and does not panic, comes from a transaction.
  pub send_instruction-IsSent :
      (ix : Instruction) (s s' : World L) (r : Result Bytes (Unit {0}))
      → send_instruction L tx_failed payer ix s ≡ (r, s')
      → r ≢ panic
      → (tx : S.Transaction) × IsSent L payer ix s.0 tx
  unfolding send_instruction send_signed
  send_instruction-IsSent ix s s' r h n =
      elim (Option-cases (
        S.new_signed_with_payer (ix ∷ []) (some (S.pubkey payer)) (payer ∷ [])
          (L.latest_blockhash s.0))) [
            | inr (tx, e) ↦ (tx, e)
            | inl e ↦
                absurd (n (ap (λ (p : Result Bytes (Unit {0}) × World L). p.0) (sym (rw e at h))))
          ]

  pub ok-send_instruction :
      (ix : Instruction) (s s' : World L)
      → ix.program_id ≡ V.program_id
      → send_instruction L tx_failed payer ix s ≡ (ok tt, s')
      → runs M s.0 ix ≡ ok tt
  unfolding send_instruction send_signed
  ok-send_instruction ix s s' own h =
      let (tx, signed) = send_instruction-IsSent ix s s' (ok tt) h (λ p. cc) in
      M.runs_ok ix payer s.0 tx own signed (
        ok_of_sent (L.send_transaction tx s.0).0 ((L.send_transaction tx s.0).1, s.1) s'
          (rw signed at h))
