-- ===== src/Submit/Broadcast/Returns.antt =====
-- `broadcast_vaa` over a connection that does not panic: it does not panic either.
use wormhole_svm_utils.Prelude.{
  ℕ, ◌≡◌, ◌≢◌, inl, inr, refl, sym, ap, ◌∙◌, true, Bool-cases, List, [], ◌∷◌, Result, ok, err,
  panic, Memᴰ,
}
use mathlib.Core.List.Memᴰ.{head, tail}
use wormhole_svm_utils.Prelude.Bytes.{Bytes}
use wormhole_svm_utils.Solana.{Pubkey}
use wormhole_svm_utils.Submit.Connection.{Sdk, SolanaConnection, ends, returned, failed, panicked}
use wormhole_svm_utils.Submit.Protocol.{Protocol, InstructionGroup}
use wormhole_svm_utils.Submit.Resolve.{ResolverResult}
use wormhole_svm_utils.Submit.Execute.{
  discover_keypairs, execute_group, execute_each, execute_instruction_groups,
}
use wormhole_svm_utils.Submit.Execute.Placeholders.{generated}
use wormhole_svm_utils.Submit.Execute.Signed.{SignsMatching}
use wormhole_svm_utils.Submit.Execute.Signed.Groups.{
  ArePlaceholders, AreSigned, group_transaction-signed,
}
use wormhole_svm_utils.Submit.Signatures.{Shim, PostedSignatures, post_signatures, close_signatures}
use wormhole_svm_utils.Submit.Broadcast.{Definitions, Failure, uses_shim, broadcast_vaa}
use wormhole_svm_utils.Submit.Broadcast.Flow.{
  Broadcasts, shim_unused, not_posted, ran, Ran, guardian_set, resolving, broadcast_vaa-Broadcasts,
}
use wormhole_svm_utils.Submit.Broadcast.Signing.{
  NeverPanics, ShimDemands, Returns, panicking, post_signatures-Returns, close_signatures-Returns,
}

module _ (P : Protocol) (D : Definitions) (shim : Shim) {S : Sdk} (W : SolanaConnection S)
    (N : NeverPanics W) (law : SignsMatching S) (A : ArePlaceholders P) (H : ShimDemands shim)
    (payer : S.Keypair) where
  module _ (signatures_pubkey set : Pubkey) (groups : List InstructionGroup) (s : W.State)
      (signed : (group : InstructionGroup) → Memᴰ group groups → AreSigned P group) where
    abbrev keypairs : List (Pubkey × S.Keypair)
    keypairs = generated P W groups (S.pubkey payer) signatures_pubkey set s

    execute_group-Returns :
        (group : InstructionGroup) (t : W.State)
        → Memᴰ group groups
        → Returns P D shim W N law A H payer
            (execute_group P W payer signatures_pubkey set keypairs group t)
    unfolding execute_group
    execute_group-Returns group t m = elim (ends (W.get_latest_blockhash t)) [
      | failed x t2 e ↦ rw (execute_group, e) (λ p. cc)
      | panicked t2 e ↦ absurd (panicking P D shim W N law A H payer (N.hashes t) e tt)
      | returned h t2 e ↦
          let (tx, f) =
            group_transaction-signed P W groups payer signatures_pubkey set s A group m
              (signed group m) law h in
          elim (ends (W.send_and_confirm tx t2)) [
            | failed x t3 g ↦ rw (execute_group, e, f, g) (λ p. cc)
            | panicked t3 g ↦ absurd (panicking P D shim W N law A H payer (N.sends tx t2) g tt)
            | returned sig t3 g ↦ rw (execute_group, e, f, g) (λ p. cc)
          ]
    ]

    execute_each-Returns :
        (left : List InstructionGroup) (t : W.State)
        → ((group : InstructionGroup) → Memᴰ group left → Memᴰ group groups)
        → Returns P D shim W N law A H payer
            (execute_each P W payer signatures_pubkey set keypairs left t)
    unfolding execute_each
    execute_each-Returns [] t all = λ p. cc
    execute_each-Returns (group ∷ left) t all =
        elim (ends (execute_group P W payer signatures_pubkey set keypairs group t)) [
          | failed x t1 e ↦ rw (execute_each, e) (λ p. cc)
          | panicked t1 e ↦ absurd (
              panicking P D shim W N law A H payer
                (execute_group-Returns group t (all group (head refl))) e tt)
          | returned sig t1 e ↦
              let rest = execute_each-Returns left t1 (λ g m. all g (tail m)) in
              elim (ends (execute_each P W payer signatures_pubkey set keypairs left t1)) [
                | failed x t2 f ↦ rw (execute_each, e, f) (λ p. cc)
                | panicked t2 f ↦ absurd (panicking P D shim W N law A H payer rest f tt)
                | returned sigs t2 f ↦ rw (execute_each, e, f) (λ p. cc)
              ]
        ]

    execute_instruction_groups-Returns :
        Returns P D shim W N law A H payer
          (execute_instruction_groups P W payer groups signatures_pubkey set s)
    unfolding execute_instruction_groups
    execute_instruction_groups-Returns =
        execute_each-Returns groups (discover_keypairs P W groups s).1 (λ g m. m)

  module _ (program_id : Pubkey) (guardian_set_index : ℕ) (vaa_body : Bytes)
      (guardian_signatures : List Bytes) (core_bridge : Pubkey) (s t : W.State)
      (resolved : ResolverResult) where
    abbrev set_key : Pubkey
    set_key =
        guardian_set P D shim W payer program_id guardian_set_index vaa_body guardian_signatures
          core_bridge

    abbrev Ended : Type 0
    Ended =
        (r : Result (Failure P D shim W) (List S.Signature)) × (s' : W.State) × (r ≢ panic)
        × Broadcasts P D shim W payer program_id guardian_set_index vaa_body guardian_signatures
            core_bridge s r s'

    posted-Ended :
        (posted : PostedSignatures S) (t1 : W.State)
        → resolving P D shim W payer program_id guardian_set_index vaa_body guardian_signatures
            core_bridge s
          ≡ (ok resolved, t)
        → uses_shim P D shim W resolved.instruction_groups ≡ true
        → post_signatures shim W {D = P.DecodeError} payer D.verify_vaa_shim_program_id
            guardian_set_index guardian_signatures t
          ≡ (ok posted, t1)
        → ((group : InstructionGroup) → Memᴰ group resolved.instruction_groups → AreSigned P group)
        → Ended
    posted-Ended posted t1 e f g signed =
        elim (ends (
          execute_instruction_groups P W payer resolved.instruction_groups posted.pubkey set_key
            t1)) [
              | panicked t2 h ↦ absurd (
                  panicking P D shim W N law A H payer
                    (execute_instruction_groups-Returns posted.pubkey set_key
                      resolved.instruction_groups t1 signed)
                    h tt)
              | returned sigs t2 h ↦ closed_after (ok sigs) t2 h (λ p. cc)
              | failed x t2 h ↦ closed_after (err x) t2 h (λ p. cc)
            ]
      where
        ran_so :
            (r : Result (Failure P D shim W) (List S.Signature)) (t2 t3 : W.State)
            (c : Result (Failure P D shim W) (Unit {0}))
            → execute_instruction_groups P W payer resolved.instruction_groups posted.pubkey set_key
                t1
              ≡ (r, t2)
            → close_signatures shim W payer D.verify_vaa_shim_program_id posted.pubkey t2 ≡ (c, t3)
            → c ≢ panic
            → Ran P D shim W payer program_id guardian_set_index vaa_body guardian_signatures
                core_bridge resolved t r t3
        ran_so r t2 t3 c h k n = record {
          posted = posted;
          after_post = t1;
          after_execution = t2;
          close_result = c;
          posts = g;
          executes = h;
          closes = k;
          close_returns = n;
        }

        closed_after :
            (r : Result (Failure P D shim W) (List S.Signature)) (t2 : W.State)
            → execute_instruction_groups P W payer resolved.instruction_groups posted.pubkey set_key
                t1
              ≡ (r, t2)
            → r ≢ panic
            → Ended
        closed_after r t2 h n =
            elim (ends
              (close_signatures shim W payer D.verify_vaa_shim_program_id posted.pubkey t2)) [
                | panicked t3 k ↦ absurd (
                    panicking P D shim W N law A H payer
                      (close_signatures-Returns P D shim W N law A H payer posted.pubkey t2) k tt)
                | returned c t3 k ↦ (r, t3, n, ran e f (ran_so r t2 t3 (ok c) h k (λ p. cc)) n)
                | failed x t3 k ↦ (r, t3, n, ran e f (ran_so r t2 t3 (err x) h k (λ p. cc)) n)
              ]

    -- Suppose that the connection's calls for a blockhash and for sending do not panic, that a
    -- transaction can be signed where its signers are the payer and just those that its
    -- instructions demand, that the shim's instructions demand the signatures that it documents,
    -- and that the placeholders of keypairs are distinct keys and none of the other three. If the
    -- resolution returns groups in which only the placeholders of the payer and of keypairs sign,
    -- and those of keypairs always do, then `broadcast_vaa` does not panic, whatever fails.
    pub broadcast_vaa-ne-panic :
        resolving P D shim W payer program_id guardian_set_index vaa_body guardian_signatures
            core_bridge s
          ≡ (ok resolved, t)
        → ((group : InstructionGroup) → Memᴰ group resolved.instruction_groups → AreSigned P group)
        → (broadcast_vaa P D shim W payer program_id guardian_set_index vaa_body guardian_signatures
            core_bridge s).0
          ≢ panic
    broadcast_vaa-ne-panic e signed p =
        let (r, s', n, way) = ended in
        let run =
          (broadcast_vaa-Broadcasts P D shim W payer program_id guardian_set_index vaa_body
              guardian_signatures core_bridge s s' r n).1
            way in
        n (ap (λ (q : Result (Failure P D shim W) (List S.Signature) × W.State). q.0) (sym run) ∙ p)
      where
        ended : Ended
        ended = elim (Bool-cases (uses_shim P D shim W resolved.instruction_groups)) [
          | inr f ↦ (_, t, (λ p. cc), shim_unused e f)
          | inl f ↦
              elim (ends (
                post_signatures shim W payer D.verify_vaa_shim_program_id guardian_set_index
                  guardian_signatures t)) [
                    | failed x t1 g ↦ (err x, t1, (λ p. cc), not_posted e f g)
                    | panicked t1 g ↦ absurd (
                        panicking P D shim W N law A H payer
                          (post_signatures-Returns P D shim W N law A H payer guardian_set_index
                            guardian_signatures t)
                          g tt)
                    | returned posted t1 g ↦ posted-Ended posted t1 e f g signed
                  ]
        ]
