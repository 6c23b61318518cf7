-- ===== src/Submit/Resolve/Silent.antt =====
-- The resolver loop, and what of a connection it leaves as it was.
use wormhole_svm_utils.Prelude.{ℕ, zero, suc, ◌+◌, ◌≡◌, inl, inr, Option-cases, refl, sym, ap, ◌∙◌}
use wormhole_svm_utils.Prelude.{List, [], ◌∷◌, Option, some, Result}
use wormhole_svm_utils.Prelude.Bytes.{Bytes}
use wormhole_svm_utils.Solana.{Pubkey, AccountMeta}
use wormhole_svm_utils.Submit.Connection.{
  Sdk, SolanaConnection, SimulationResult, ends, returned, failed, panicked,
}
use wormhole_svm_utils.Submit.Protocol.{Protocol}
use wormhole_svm_utils.Submit.Resolve.{Step, round, resolver_ix, result_account_pubkey, Failure}
use wormhole_svm_utils.Submit.Resolve.{resolve_execute_vaa_v1, add_missing}
use wormhole_svm_utils.Submit.Resolve.Rounds.{answer, finishes, asks, fails, panics, loop}
use wormhole_svm_utils.Submit.Resolve.Rounds.{
  loop-zero, loop_finished, loop_more, loop_failed, loop_panicked,
}

module _ (P : Protocol) {S : Sdk} (W : SolanaConnection S) (R : Type 0) (sent : W.State → R)
    (blockhash-sent : (s : W.State) → sent (W.get_latest_blockhash s).1 ≡ sent s)
    (simulate-sent : (tx : S.Transaction) (keys : List Pubkey) (s : W.State)
      → sent (W.simulate_with_post_accounts tx keys s).1 ≡ sent s)
    (program_id : Pubkey) (payer : S.Keypair) (vaa_body : Bytes) (guardian_set : Pubkey) where
  abbrev result_key : Pubkey
  result_key = result_account_pubkey P W program_id payer vaa_body guardian_set

  hashed :
      {s t : W.State} {r : Result W.Error S.Hash}
      → W.get_latest_blockhash s ≡ (r, t)
      → sent t ≡ sent s
  hashed {s = s} e =
      ap (λ (p : Result W.Error S.Hash × W.State). sent p.1) (sym e) ∙ blockhash-sent s

  simulated :
      {s t t' : W.State} {tx : S.Transaction} {r : Result W.Error SimulationResult}
      → W.simulate_with_post_accounts tx (result_key ∷ []) t ≡ (r, t')
      → sent t ≡ sent s
      → sent t' ≡ sent s
  simulated {t = t} {tx = tx} e h =
      ap (λ (p : Result W.Error SimulationResult × W.State). sent p.1) (sym e)
      ∙ simulate-sent tx (result_key ∷ []) t
      ∙ h

  abbrev resolver_tx : List AccountMeta → S.Hash → Option S.Transaction
  resolver_tx rem h =
      S.new_signed_with_payer (resolver_ix P W program_id payer vaa_body guardian_set rem ∷ [])
        (some (S.pubkey payer)) (payer ∷ []) h

  round-sent :
      (i : ℕ) (rem : List AccountMeta) (s : W.State)
      → sent (round P W program_id payer vaa_body guardian_set i rem s).1 ≡ sent s
  unfolding round
  round-sent i rem s = elim (ends (W.get_latest_blockhash s)) [
    | failed x t e ↦ rw e (hashed e)
    | panicked t e ↦ rw e (hashed e)
    | returned h t e ↦ elim (Option-cases (resolver_tx rem h)) [
      | inl f ↦ rw (e, f) (hashed e)
      | inr (tx, f) ↦ elim (ends (W.simulate_with_post_accounts tx (result_key ∷ []) t)) [
        | failed x t' g ↦ rw (e, f, g) (simulated g (hashed e))
        | panicked t' g ↦ rw (e, f, g) (simulated g (hashed e))
        | returned r t' g ↦ rw (e, f, g) (simulated g (hashed e))
      ]
    ]
  ]

  answered :
      (i : ℕ) (rem : List AccountMeta) (s t : W.State)
      {r : Result (Failure P W program_id payer vaa_body guardian_set) Step}
      → round P W program_id payer vaa_body guardian_set i rem s ≡ (r, t)
      → sent t ≡ sent s
  answered i rem s t e =
      ap
        (λ (p : Result (Failure P W program_id payer vaa_body guardian_set) Step × W.State).
          sent p.1)
        (sym e)
      ∙ round-sent i rem s

  loop-sent :
      (left max i : ℕ) (rem : List AccountMeta) (s : W.State)
      → sent (loop P W program_id payer vaa_body guardian_set left max i rem s).1 ≡ sent s
  loop-sent zero max i rem s =
      rw (loop-zero P W program_id payer vaa_body guardian_set max i rem s) refl
  loop-sent (suc left) max i rem s =
      elim (answer (round P W program_id payer vaa_body guardian_set i rem s)) [
        | finishes groups t e ↦
            rw
              (loop_finished P W program_id payer vaa_body guardian_set left max i rem s t groups e)
              (answered i rem s t e)
        | asks keys t e ↦
            rw (loop_more P W program_id payer vaa_body guardian_set left max i rem s t keys e) (
              loop-sent left max (i + 1)
                (add_missing P W program_id payer vaa_body guardian_set rem keys) t
              ∙ answered i rem s t e)
        | fails x t e ↦
            rw (loop_failed P W program_id payer vaa_body guardian_set left max i rem s t x e)
              (answered i rem s t e)
        | panics t e ↦
            rw (loop_panicked P W program_id payer vaa_body guardian_set left max i rem s t e)
              (answered i rem s t e)
      ]

  -- If fetching a blockhash and simulating leave something unchanged, such as the transactions sent
  -- so far, then resolving leaves it unchanged, whatever its result.
  pub resolve_execute_vaa_v1-sent :
      (max_iterations : ℕ) (s : W.State)
      → sent (resolve_execute_vaa_v1 P W program_id payer vaa_body guardian_set max_iterations s).1
        ≡ sent s
  unfolding resolve_execute_vaa_v1
  resolve_execute_vaa_v1-sent max_iterations s = loop-sent max_iterations max_iterations 1 [] s
