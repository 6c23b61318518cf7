-- ===== src/Submit/Broadcast/Unsent.antt =====
-- `broadcast_vaa`: the failures after which nothing has been sent.
use wormhole_svm_utils.Prelude.{ℕ, ◌≡◌, subst, sym, ap, ◌∙◌, ◌⊎◌, inl, inr, Option-cases}
use wormhole_svm_utils.Prelude.{List, [], ◌∷◌, Option, some, Result, ok, err, panic}
use wormhole_svm_utils.Prelude.Bytes.{Bytes}
use wormhole_svm_utils.Solana.{Pubkey}
use wormhole_svm_utils.Submit.Connection.{
  Sdk, SolanaConnection, ends, returned, failed, panicked, ok-ne-err,
}
use wormhole_svm_utils.Submit.Protocol.{Protocol, SubmitError, ResolverFailure, InstructionGroup}
use wormhole_svm_utils.Submit.Protocol.{connection, resolver_simulation, execution, shim_not_used}
use wormhole_svm_utils.Submit.Resolve.{ResolverResult}
use wormhole_svm_utils.Submit.Resolve.Silent.{resolve_execute_vaa_v1-sent}
use wormhole_svm_utils.Submit.Execute.Sending.{
  Sends, not_confirmed, no_blockhash, Runs, stopped, stopped_later,
}
use wormhole_svm_utils.Submit.Execute.Sending.{execute_instruction_groups-Runs}
use wormhole_svm_utils.Submit.Signatures.{
  Shim, PostedSignatures, post_signatures, build_post_signatures_ix,
}
use wormhole_svm_utils.Submit.Broadcast.{Definitions, max_resolver_iterations, Failure}
use wormhole_svm_utils.Submit.Broadcast.Flow.{
  Broadcasts, not_resolved, shim_unused, not_posted, ran, resolving, broadcast,
}
use wormhole_svm_utils.Submit.Broadcast.Flow.{guardian_set, broadcast_vaa-Broadcasts}

-- The errors that arise before anything is sent: the resolver's, and that the shim is not used.
pub data IsEarly {E D : Type 0} : SubmitError E D → Type 0 where
  in_resolver : (x : ResolverFailure E D) → IsEarly (resolver_simulation x)
  in_check : IsEarly (execution shim_not_used)

module _ (P : Protocol) (D : Definitions) (shim : Shim) {S : Sdk} (W : SolanaConnection S) where
  module _ (payer : S.Keypair) (signatures_pubkey guardian_set : Pubkey)
      (generated : List (Pubkey × S.Keypair)) where
    Sends-late :
        (g : InstructionGroup) (s s' : W.State) (e : Failure P D shim W)
        → Sends P W payer signatures_pubkey guardian_set generated g s (err e) s'
        → ¬ IsEarly e
    Sends-late g s s' e (not_confirmed tx a b c) early = elim early [ ]
    Sends-late g s s' e (no_blockhash a) early = elim early [ ]

    Runs-late :
        (groups : List InstructionGroup) (s s' : W.State) (e : Failure P D shim W)
        → Runs P W payer signatures_pubkey guardian_set generated groups s (err e) s'
        → ¬ IsEarly e
    Runs-late [] s s' e m early = elim m [ ]
    Runs-late (g ∷ gs) s s' e (stopped m) early = Sends-late g s s' e m early
    Runs-late (g ∷ gs) s s' e (stopped_later {t = t} m rest) early = Runs-late gs t s' e rest early

  abbrev IsLate : Result (Failure P D shim W) (PostedSignatures S) × W.State → Type 0
  IsLate (ok _, s) = Unit {0}
  IsLate (err e, s) = ¬ IsEarly e
  IsLate (panic, s) = Unit {0}

  connection-IsLate : (x : W.Error) → ¬ IsEarly {D = P.DecodeError} (connection x)
  connection-IsLate x early = elim early [ ]

  module _ (payer : S.Keypair) (guardian_set_index : ℕ) (guardian_signatures : List Bytes) where
    abbrev post : W.State → Result (Failure P D shim W) (PostedSignatures S) × W.State
    post =
        post_signatures shim W payer D.verify_vaa_shim_program_id guardian_set_index
          guardian_signatures

    abbrev post_tx : S.Keypair → S.Hash → Option S.Transaction
    post_tx kp h =
        S.new_signed_with_payer
          (build_post_signatures_ix shim (S.pubkey payer) (S.pubkey kp) D.verify_vaa_shim_program_id
              guardian_set_index guardian_signatures
            ∷ [])
          (some (S.pubkey payer)) (payer ∷ kp ∷ []) h

    post-IsLate : (t : W.State) → IsLate (post t)
    unfolding post_signatures
    post-IsLate t =
        let (kp, t1) = W.new_keypair t in
        elim (ends (W.get_latest_blockhash t1)) [
          | failed x t2 e ↦ rw (post_signatures, e) (connection-IsLate x)
          | panicked t2 e ↦ rw (post_signatures, e) tt
          | returned h t2 e ↦ elim (Option-cases (post_tx kp h)) [
            | inl f ↦ rw (post_signatures, e, f) tt
            | inr (tx, f) ↦ elim (ends (W.send_and_confirm tx t2)) [
              | failed x t3 g ↦ rw (post_signatures, e, f, g) (connection-IsLate x)
              | panicked t3 g ↦ rw (post_signatures, e, f, g) tt
              | returned sig t3 g ↦ rw (post_signatures, e, f, g) tt
            ]
          ]
        ]

  module _ (R : Type 0) (sent_so_far : W.State → R)
      (blockhash-sent : (s : W.State) → sent_so_far (W.get_latest_blockhash s).1 ≡ sent_so_far s)
      (simulate-sent : (tx : S.Transaction) (keys : List Pubkey) (s : W.State)
        → sent_so_far (W.simulate_with_post_accounts tx keys s).1 ≡ sent_so_far s)
      (payer : S.Keypair) (program_id : Pubkey) (guardian_set_index : ℕ) (vaa_body : Bytes)
      (guardian_signatures : List Bytes) (core_bridge : Pubkey) where
    abbrev set_key : Pubkey
    set_key =
        guardian_set P D shim W payer program_id guardian_set_index vaa_body guardian_signatures
          core_bridge

    resolving-sent :
        (s s' : W.State) {r : Result (Failure P D shim W) ResolverResult}
        → resolving P D shim W payer program_id guardian_set_index vaa_body guardian_signatures
            core_bridge s
          ≡ (r, s')
        → sent_so_far s' ≡ sent_so_far s
    resolving-sent s s' e =
        ap (λ (p : Result (Failure P D shim W) ResolverResult × W.State). sent_so_far p.1) (sym e)
        ∙ resolve_execute_vaa_v1-sent P W R sent_so_far blockhash-sent simulate-sent program_id
            payer vaa_body set_key max_resolver_iterations s

    abbrev resolves : W.State → Result (Failure P D shim W) ResolverResult × W.State
    resolves =
        resolving P D shim W payer program_id guardian_set_index vaa_body guardian_signatures
          core_bridge

    -- The failure `e` from the state `s` comes before the posting: it is an error that arises
    -- nowhere else, or resolving fails at all, a connection's error included.
    abbrev pub IsUnposted : W.State → Failure P D shim W → Type 0
    IsUnposted s e =
        IsEarly e ⊎ ((x : Failure P D shim W) × (t : W.State) × (resolves s ≡ (err x, t)))

    posted-IsUnposted :
        {A : Type 0} (s t : W.State) (e : Failure P D shim W) (resolved : ResolverResult)
        → resolves s ≡ (ok resolved, t)
        → ¬ IsEarly e
        → IsUnposted s e
        → A
    posted-IsUnposted s t e resolved a late (inl early) = absurd (late early)
    posted-IsUnposted s t e resolved a late (inr (x, t', b)) =
        absurd (ok-ne-err resolved x t t' (sym a ∙ b))

    Broadcasts-sent :
        (s s' : W.State) (e : Failure P D shim W)
        → IsUnposted s e
        → Broadcasts P D shim W payer program_id guardian_set_index vaa_body guardian_signatures
            core_bridge s
            (err e)
            s'
        → sent_so_far s' ≡ sent_so_far s
    Broadcasts-sent s s' e before (not_resolved a) = resolving-sent s s' a
    Broadcasts-sent s s' e before (shim_unused a b) = resolving-sent s s' a
    Broadcasts-sent s s' e before (not_posted {resolved = resolved} {t = t} a b c) =
        posted-IsUnposted s t e resolved a
          (subst IsLate c (post-IsLate payer guardian_set_index guardian_signatures t)) before
    Broadcasts-sent s s' e before (ran {resolved = resolved} {t = t} a b m n) =
        posted-IsUnposted s t e resolved a
          (Runs-late payer m.posted.pubkey set_key _ resolved.instruction_groups _ m.after_execution
            e
            ((execute_instruction_groups-Runs P W payer m.posted.pubkey set_key
                resolved.instruction_groups m.after_post m.after_execution (err e) n).0
              m.executes))
          before

    pub broadcast_vaa-sent :
        (s s' : W.State) (e : Failure P D shim W)
        → IsUnposted s e
        → broadcast P D shim W payer program_id guardian_set_index vaa_body guardian_signatures
            core_bridge s
          ≡ (err e, s')
        → sent_so_far s' ≡ sent_so_far s
    broadcast_vaa-sent s s' e before h = Broadcasts-sent s s' e before (
        (broadcast_vaa-Broadcasts P D shim W payer program_id guardian_set_index vaa_body
            guardian_signatures core_bridge s s' (err e) (λ p. cc)).0
          h)
