-- ===== src/Examples/Submitting.antt =====
-- A VAA resolved over the toy connection, and its instruction groups executed.
use wormhole_svm_utils.Prelude.{ℕ, ◌≡◌, refl, arith, List, [], ◌∷◌, All}
use wormhole_svm_utils.Prelude.{ok, err, true, list_eq, nat_eq}
use wormhole_svm_utils.Solana.{AccountMeta, writable, Instruction}
use wormhole_svm_utils.Submit.Protocol.{resolver_simulation, not_resolved}
use wormhole_svm_utils.Submit.Resolve.{
  finished, more, round, resolve_execute_vaa_v1, add_missing, interpret, resolver_ix, missing_meta,
  substitute_placeholder,
}
use wormhole_svm_utils.Submit.Resolve.Rounds.{
  last, again, Asks, none_left, one, resolve_execute_vaa_v1-Resolves, resolve_execute_vaa_v1-Asks,
}
use wormhole_svm_utils.Submit.Resolve.Accounts.{IsJustified, Asks-AreJustified}
use wormhole_svm_utils.Submit.Execute.{
  discover_keypairs, execute_instruction_groups, convert_instruction, convert_account,
  keypair_placeholders,
}
use wormhole_svm_utils.Submit.Execute.Sending.{Runs, execute_instruction_groups-Runs}
use wormhole_svm_utils.Submit.Execute.{
  execute_each, execute_group, group_transaction, substitute, discover_among,
}
use wormhole_svm_utils.Examples.Toy.{toy_connection, toy_protocol, group, Sent}

abbrev pub start : ℕ × Sent
start = (0, [])

abbrev paying : List AccountMeta
paying = writable (20 ∷ []) true ∷ []

round-first :
    round toy_protocol toy_connection (50 ∷ []) 20 (7 ∷ []) (60 ∷ []) 1 [] start
    ≡ (ok (more ((1 ∷ []) ∷ [])), (2, []))
unfolding round interpret resolver_ix
round-first = refl

round-second :
    round toy_protocol toy_connection
      (50 ∷ [])
      20
      (7 ∷ [])
      (60 ∷ [])
      2
      (add_missing toy_protocol toy_connection (50 ∷ []) 20 (7 ∷ []) (60 ∷ []) [] ((1 ∷ []) ∷ []))
      (2, [])
    ≡ (ok (finished (group ∷ [])), (4, []))
unfolding round interpret resolver_ix add_missing missing_meta substitute_placeholder list_eq
round-second = refl

resolve_execute_vaa_v1-Resolves_example :
    resolve_execute_vaa_v1 toy_protocol toy_connection (50 ∷ []) 20 (7 ∷ []) (60 ∷ []) 10 start
    ≡ (ok (record { instruction_groups = group ∷ []; iterations = 2 }), (4, []))
resolve_execute_vaa_v1-Resolves_example =
    (resolve_execute_vaa_v1-Resolves toy_protocol toy_connection (50 ∷ []) 20 (7 ∷ []) (60 ∷ []) 10
        start (4, []) (record { instruction_groups = group ∷ []; iterations = 2 })).1
      (again ((1 ∷ []) ∷ []) round-first (last (group ∷ []) round-second), omega arith)

first-Asks :
    Asks toy_protocol toy_connection (50 ∷ []) 20 (7 ∷ []) (60 ∷ []) 1 1 [] start paying (2, [])
unfolding add_missing missing_meta substitute_placeholder list_eq
first-Asks = one ((1 ∷ []) ∷ []) round-first none_left

resolve_execute_vaa_v1-Asks_example :
    resolve_execute_vaa_v1 toy_protocol toy_connection (50 ∷ []) 20 (7 ∷ []) (60 ∷ []) 1 start
    ≡ (err (resolver_simulation (not_resolved 1 ((20 ∷ []) ∷ []))), (2, []))
resolve_execute_vaa_v1-Asks_example =
    resolve_execute_vaa_v1-Asks toy_protocol toy_connection (50 ∷ []) 20 (7 ∷ []) (60 ∷ []) 1 start
      (2, []) paying first-Asks

Asks-AreJustified_example : All (IsJustified (77 ∷ []) (20 ∷ [])) paying
Asks-AreJustified_example =
    Asks-AreJustified toy_protocol toy_connection (50 ∷ []) 20 (7 ∷ []) (60 ∷ []) 1 1 [] paying
      start (2, []) first-Asks tt

-- The group's instruction with its placeholders replaced.
abbrev pub converted_ix : Instruction
converted_ix = record {
  program_id = 50 ∷ [];
  accounts = writable (20 ∷ []) true ∷ writable (104 ∷ []) true ∷ writable (107 ∷ []) true ∷ [];
  ix_data = 5 ∷ [];
}

abbrev executed : Sent
executed = (converted_ix ∷ [], 20 ∷ 107 ∷ []) ∷ []

executing :
    execute_instruction_groups toy_protocol toy_connection 20
      (group ∷ [])
      (104 ∷ [])
      (60 ∷ [])
      (7, [])
    ≡ (ok (9 ∷ []), (10, executed))
unfolding list_eq execute_instruction_groups execute_each execute_group group_transaction
    convert_instruction convert_account substitute discover_keypairs discover_among
    keypair_placeholders
executing = refl

execute_instruction_groups-Runs_example :
    Runs toy_protocol toy_connection 20
      (104 ∷ [])
      (60 ∷ [])
      ((10 ∷ [], 107) ∷ [])
      (group ∷ [])
      (8, [])
      (ok (9 ∷ []))
      (10, executed)
unfolding list_eq discover_keypairs discover_among keypair_placeholders
execute_instruction_groups-Runs_example =
    (execute_instruction_groups-Runs toy_protocol toy_connection 20 (104 ∷ []) (60 ∷ [])
        (group ∷ []) (7, []) (10, executed) (ok (9 ∷ [])) (λ p. cc)).0
      executing
