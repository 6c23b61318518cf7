-- ===== src/Submit/Execute/Sending.antt =====
-- `execute_instruction_groups`: which transactions are sent, and where it stops.
use wormhole_svm_utils.Prelude.{
  suc, ◌≡◌, ◌↔◌, ◌≢◌, ◌⊎◌, inl, inr, Option-cases, subst, refl, sym, ap, ◌∙◌, List, [], ◌∷◌, length,
}
use wormhole_svm_utils.Prelude.{some, Result, ok, err, panic}
use wormhole_svm_utils.Solana.{Pubkey}
use wormhole_svm_utils.Submit.Connection.{Sdk, SolanaConnection, ends, returned, failed, panicked}
use wormhole_svm_utils.Submit.Protocol.{
  Protocol, InstructionGroup, connection, execution, transaction_failed,
}
use wormhole_svm_utils.Submit.Execute.{
  Failure, discover_keypairs, group_transaction, execute_group, execute_each,
}
use wormhole_svm_utils.Submit.Execute.{execute_instruction_groups}

module _ (P : Protocol) {S : Sdk} (W : SolanaConnection S) (payer : S.Keypair)
    (signatures_pubkey guardian_set : Pubkey) where
  module _ (generated : List (Pubkey × S.Keypair)) where
    -- One group's pass over the connection, call by call.
    pub data Sends (group : InstructionGroup)
        : W.State → Result (Failure P W) S.Signature → W.State → Type 0 where
      sent :
          {s t s' : W.State} {h : S.Hash} {sig : S.Signature} (tx : S.Transaction)
          → W.get_latest_blockhash s ≡ (ok h, t)
          → group_transaction P W payer signatures_pubkey guardian_set generated group h ≡ some tx
          → W.send_and_confirm tx t ≡ (ok sig, s')
          → Sends group s (ok sig) s'
      not_confirmed :
          {s t s' : W.State} {h : S.Hash} {e : W.Error} (tx : S.Transaction)
          → W.get_latest_blockhash s ≡ (ok h, t)
          → group_transaction P W payer signatures_pubkey guardian_set generated group h ≡ some tx
          → W.send_and_confirm tx t ≡ (err e, s')
          → Sends group s (err (execution (transaction_failed e))) s'
      no_blockhash :
          {s s' : W.State} {e : W.Error}
          → W.get_latest_blockhash s ≡ (err e, s')
          → Sends group s (err (connection e)) s'

    -- The groups in order, each after the one before was sent; the first failure ends the run.
    pub data Runs
        : List InstructionGroup
          → W.State
          → Result (Failure P W) (List S.Signature)
          → W.State
          → Type 0 where
      all_sent : {s : W.State} → Runs [] s (ok []) s
      next :
          {g : InstructionGroup} {gs : List InstructionGroup} {s t s' : W.State} {sig : S.Signature}
          {sigs : List S.Signature}
          → Sends g s (ok sig) t
          → Runs gs t (ok sigs) s'
          → Runs (g ∷ gs) s (ok (sig ∷ sigs)) s'
      stopped :
          {g : InstructionGroup} {gs : List InstructionGroup} {s s' : W.State} {e : Failure P W}
          → Sends g s (err e) s'
          → Runs (g ∷ gs) s (err e) s'
      stopped_later :
          {g : InstructionGroup} {gs : List InstructionGroup} {s t s' : W.State} {sig : S.Signature}
          {e : Failure P W}
          → Sends g s (ok sig) t
          → Runs gs t (err e) s'
          → Runs (g ∷ gs) s (err e) s'

    abbrev pub send : InstructionGroup → W.State → Result (Failure P W) S.Signature × W.State
    send = execute_group P W payer signatures_pubkey guardian_set generated

    abbrev pub run :
        List InstructionGroup → W.State → Result (Failure P W) (List S.Signature) × W.State
    run = execute_each P W payer signatures_pubkey guardian_set generated

    send-Sends :
        (group : InstructionGroup) (s s' : W.State) (r : Result (Failure P W) S.Signature)
        → Sends group s r s'
        → send group s ≡ (r, s')
    unfolding execute_group
    send-Sends group s s' r (sent tx e f g) = rw (e, f, g)
    send-Sends group s s' r (not_confirmed tx e f g) = rw (e, f, g)
    send-Sends group s s' r (no_blockhash e) = rw e

    run-Runs :
        (groups : List InstructionGroup) (s s' : W.State)
        (r : Result (Failure P W) (List S.Signature))
        → Runs groups s r s'
        → run groups s ≡ (r, s')
    unfolding execute_each
    run-Runs [] s s' r all_sent = refl
    run-Runs (g ∷ gs) s s' r (next {t = t} {sig = sig} {sigs = sigs} m rest) =
        rw (send-Sends g s t (ok sig) m, run-Runs gs t s' (ok sigs) rest)
    run-Runs (g ∷ gs) s s' r (stopped {e = e} m) = rw (send-Sends g s s' (err e) m)
    run-Runs (g ∷ gs) s s' r (stopped_later {t = t} {sig = sig} {e = e} m rest) =
        rw (send-Sends g s t (ok sig) m, run-Runs gs t s' (err e) rest)

    abbrev SendPanics : InstructionGroup → W.State → Type 0
    SendPanics group s = (s' : W.State) × (send group s ≡ (panic, s'))

    send-cases :
        (group : InstructionGroup) (s : W.State)
        → ((r : Result (Failure P W) S.Signature) × (s' : W.State) × Sends group s r s')
          ⊎ SendPanics group s
    unfolding execute_group
    send-cases group s = elim (ends (W.get_latest_blockhash s)) [
      | failed x t e ↦ inl (_, t, no_blockhash e)
      | panicked t e ↦ inr (t, rw e)
      | returned b t e ↦
          elim (Option-cases
            (group_transaction P W payer signatures_pubkey guardian_set generated group b)) [
              | inl f ↦ inr (t, rw (e, f))
              | inr (tx, f) ↦ elim (ends (W.send_and_confirm tx t)) [
                | returned sig t' g ↦ inl (ok sig, t', sent tx e f g)
                | failed x t' g ↦ inl (_, t', not_confirmed tx e f g)
                | panicked t' g ↦ inr (t', rw (e, f, g))
              ]
            ]
    ]

    Runs-ne-panic : (groups : List InstructionGroup) (s s' : W.State) → ¬ Runs groups s panic s'
    Runs-ne-panic [] s s' m = elim m [ ]
    Runs-ne-panic (g ∷ gs) s s' m = elim m [ ]

    run-cases :
        (groups : List InstructionGroup) (s : W.State)
        → ((r : Result (Failure P W) (List S.Signature)) × (s' : W.State) × Runs groups s r s')
          ⊎ ((s' : W.State) × (run groups s ≡ (panic, s')))
    unfolding execute_each
    run-cases [] s = inl (ok [], s, all_sent)
    run-cases (g ∷ gs) s = elim (send-cases g s) [
      | inr (s', e) ↦ inr (s', rw e)
      | inl (panic, t, m) ↦ elim m [ ]
      | inl (err x, t, m) ↦ inl (err x, t, stopped m)
      | inl (ok sig, t, m) ↦ elim (run-cases gs t) [
        | inr (s', e) ↦ inr (s', rw (send-Sends g s t (ok sig) m, e))
        | inl (panic, s', rest) ↦ absurd (Runs-ne-panic gs t s' rest)
        | inl (err x, s', rest) ↦ inl (err x, s', stopped_later m rest)
        | inl (ok sigs, s', rest) ↦ inl (ok (sig ∷ sigs), s', next m rest)
      ]
    ]

    Runs-run :
        (groups : List InstructionGroup) (s s' : W.State)
        (r : Result (Failure P W) (List S.Signature))
        → r ≢ panic
        → run groups s ≡ (r, s')
        → Runs groups s r s'
    Runs-run groups s s' r h e = elim (run-cases groups s) [
      | inl (r0, s0, m) ↦
          subst (λ (p : Result (Failure P W) (List S.Signature) × W.State). Runs groups s p.0 p.1)
            (sym (run-Runs groups s s0 r0 m) ∙ e) m
      | inr (s0, f) ↦
          absurd
            (h (ap (λ (p : Result (Failure P W) (List S.Signature) × W.State). p.0) (sym e ∙ f)))
    ]

    length-Runs :
        (groups : List InstructionGroup) (s s' : W.State) (sigs : List S.Signature)
        → Runs groups s (ok sigs) s'
        → length sigs ≡ length groups
    length-Runs [] s s' sigs all_sent = refl
    length-Runs (g ∷ gs) s s' sigs (next {t = t} {sigs = sigs'} m rest) =
        ap suc (length-Runs gs t s' sigs' rest)

  abbrev execute :
      List InstructionGroup → W.State → Result (Failure P W) (List S.Signature) × W.State
  execute groups = execute_instruction_groups P W payer groups signatures_pubkey guardian_set

  -- For an outcome that is not a panic: `execute_instruction_groups` ends with it and a state
  -- exactly where a run of the groups leads there, with the keypairs generated at the start: the
  -- groups in order, each one's transaction over a new blockhash and sent after the one before was
  -- confirmed, and the first failure is the result.
  pub execute_instruction_groups-Runs :
      (groups : List InstructionGroup) (s s' : W.State)
      (r : Result (Failure P W) (List S.Signature))
      → r ≢ panic
      → (execute groups s ≡ (r, s'))
        ↔ Runs (discover_keypairs P W groups s).0 groups (discover_keypairs P W groups s).1 r s'
  unfolding execute_instruction_groups
  execute_instruction_groups-Runs groups s s' r h =
      let (generated, t) = discover_keypairs P W groups s in
      (Runs-run generated groups t s' r h, run-Runs generated groups t s' r)

  -- When `execute_instruction_groups` returns, it returns one signature for each group.
  pub length-execute_instruction_groups :
      (groups : List InstructionGroup) (s s' : W.State) (sigs : List S.Signature)
      → execute groups s ≡ (ok sigs, s')
      → length sigs ≡ length groups
  length-execute_instruction_groups groups s s' sigs e =
      let (generated, t) = discover_keypairs P W groups s in
      length-Runs generated groups t s' sigs
        ((execute_instruction_groups-Runs groups s s' (ok sigs) (λ p. cc)).0 e)
