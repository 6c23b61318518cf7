-- ===== src/Examples/Broadcasting.antt =====
-- A VAA broadcast over the toy connection.
use wormhole_svm_utils.Prelude.{◌≡◌, refl, [], ◌∷◌}
use wormhole_svm_utils.Prelude.{ok, true, false, list_eq, nat_eq}
use wormhole_svm_utils.Prelude.Bytes.{to_be_bytes, to_le_bytes}
use wormhole_svm_utils.Solana.{writable, Instruction}
use wormhole_svm_utils.Submit.Resolve.{
  round, resolve_execute_vaa_v1, add_missing, interpret, resolver_ix, resolver_data, resolve_loop,
  missing_meta, substitute_placeholder,
}
use wormhole_svm_utils.Submit.Execute.{
  discover_keypairs, execute_instruction_groups, convert_instruction, convert_account,
  keypair_placeholders,
}
use wormhole_svm_utils.Submit.Execute.{
  execute_each, execute_group, group_transaction, substitute, discover_among,
}
use wormhole_svm_utils.Submit.Signatures.{
  post_signatures, close_signatures, build_post_signatures_ix, build_close_signatures_ix,
}
use wormhole_svm_utils.Submit.Broadcast.{broadcast_vaa, broadcast_resolved, uses_shim}
use wormhole_svm_utils.Submit.Broadcast.Flow.{Broadcasts, broadcast_vaa-Broadcasts}
use wormhole_svm_utils.Examples.Toy.{toy_connection, toy_protocol, toy_shim, definitions, Sent}
use wormhole_svm_utils.Examples.Submitting.{start, converted_ix}

abbrev post_ix : Instruction
post_ix = record {
  program_id = 61 ∷ [];
  accounts = writable (20 ∷ []) true ∷ writable (104 ∷ []) true ∷ [];
  ix_data = 4 ∷ 0 ∷ [];
}

abbrev close_ix : Instruction
close_ix = record {
  program_id = 61 ∷ [];
  accounts = writable (104 ∷ []) false ∷ writable (20 ∷ []) false ∷ [];
  ix_data = [];
}

abbrev all_sent : Sent
all_sent =
    (post_ix ∷ [], 20 ∷ 104 ∷ [])
    ∷ (converted_ix ∷ [], 20 ∷ 107 ∷ [])
    ∷ (close_ix ∷ [], 20 ∷ [])
    ∷ []

broadcasting :
    broadcast_vaa toy_protocol definitions toy_shim toy_connection 20
      (50 ∷ [])
      4
      (7 ∷ [])
      []
      (62 ∷ [])
      start
    ≡ (ok (9 ∷ []), (12, all_sent))
unfolding broadcast_vaa resolve_execute_vaa_v1 resolve_loop round interpret resolver_ix
    resolver_data add_missing missing_meta substitute_placeholder broadcast_resolved uses_shim
    list_eq post_signatures build_post_signatures_ix execute_instruction_groups execute_each
    execute_group group_transaction convert_instruction convert_account substitute close_signatures
    build_close_signatures_ix discover_keypairs discover_among keypair_placeholders to_be_bytes
    to_le_bytes
broadcasting = refl

broadcast_vaa-Broadcasts_example :
    Broadcasts toy_protocol definitions toy_shim toy_connection 20
      (50 ∷ [])
      4
      (7 ∷ [])
      []
      (62 ∷ [])
      start
      (ok (9 ∷ []))
      (12, all_sent)
broadcast_vaa-Broadcasts_example =
    (broadcast_vaa-Broadcasts toy_protocol definitions toy_shim toy_connection 20 (50 ∷ []) 4
        (7 ∷ []) [] (62 ∷ []) start (12, all_sent) (ok (9 ∷ [])) (λ p. cc)).0
      broadcasting
