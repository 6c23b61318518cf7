-- ===== src/LiteSvm/Resolving.antt =====
-- The resolver loop over LiteSVM.
use wormhole_svm_utils.Prelude.{ℕ, ◌≡◌, refl}
use wormhole_svm_utils.Prelude.Bytes.{Bytes}
use wormhole_svm_utils.Solana.{Pubkey}
use wormhole_svm_utils.Submit.Connection.{Sdk}
use wormhole_svm_utils.Submit.Protocol.{Protocol}
use wormhole_svm_utils.Submit.Resolve.{resolve_execute_vaa_v1}
use wormhole_svm_utils.Submit.Resolve.Silent.{resolve_execute_vaa_v1-sent}
use wormhole_svm_utils.LiteSvm.{LiteSvm, litesvm_connection}

-- Resolving over LiteSVM leaves the virtual machine and the entropy as they were, whatever its
-- result.
pub resolve_execute_vaa_v1-litesvm_connection :
    (P : Protocol) {S : Sdk} (L : LiteSvm S) (program_id : Pubkey) (payer : S.Keypair)
    (vaa_body : Bytes) (guardian_set : Pubkey) (max_iterations : ℕ) (s : L.Svm × L.Entropy)
    → (resolve_execute_vaa_v1 P
        (litesvm_connection L)
        program_id
        payer
        vaa_body
        guardian_set
        max_iterations
        s).1
      ≡ s
resolve_execute_vaa_v1-litesvm_connection P L program_id payer vaa_body guardian_set max_iterations
      s =
    resolve_execute_vaa_v1-sent P (litesvm_connection L) (L.Svm × L.Entropy) (λ t. t) (λ t. refl)
      (λ tx keys t. refl) program_id payer vaa_body guardian_set max_iterations s
