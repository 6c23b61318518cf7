-- ===== src/Examples/Refused.antt =====
-- A run of the command line whose resolver answers with data that cannot be read.
use wormhole_svm_utils.Prelude.{◌≡◌, refl, [], ◌∷◌, some, err, nat_eq, list_eq}
use wormhole_svm_utils.Prelude.Bytes.{to_be_bytes, to_le_bytes}
use wormhole_svm_utils.Prelude.Text.{codes}
use wormhole_svm_utils.Submit.Protocol.{resolver_simulation, return_data_malformed}
use wormhole_svm_utils.Submit.Broadcast.Unsent.{in_resolver}
use wormhole_svm_utils.Cli.Errors.{submitting}
use wormhole_svm_utils.Prelude.Windows.{slice, slice_from, index, array_or, try_into, window}
use wormhole_svm_utils.Submit.Resolve.{
  resolve_execute_vaa_v1, resolve_loop, round, interpret, resolver_ix, resolver_data,
}
use wormhole_svm_utils.Submit.Broadcast.{broadcast_vaa}
use wormhole_svm_utils.Submit.Rpc.Simulation.{
  simulation_config, read_value, read_return_data, read_post_accounts, read_accounts,
}
use wormhole_svm_utils.Submit.Rpc.Adapter.{simulate_with_post_accounts}
use wormhole_svm_utils.Cli.SignedVaa.{parse_signed_vaa, read_signatures}
use wormhole_svm_utils.Cli.Input.{resolve_rpc_url, read_input, after_at, core_bridge_of}
use wormhole_svm_utils.Cli.Commands.{Cli, submit, run, dispatch, cmd_submit}
use wormhole_svm_utils.Cli.Commands.Unsent.{begun, fails}
use wormhole_svm_utils.Cli.Commands.Unresolved.{is_quiet, run-sent}
use wormhole_svm_utils.Examples.Toy.{broken_protocol, toy_shim, definitions, Sent}
use wormhole_svm_utils.Examples.CommandLine.{toy_client, toy_shell, bridges}

-- A signed VAA without signatures, and a body of one byte.
abbrev refused_cli : Cli
refused_cli = record {
  rpc_url = codes "http://127.0.0.1:8899";
  core_bridge = some (73 ∷ []);
  command = submit (50 ∷ []) (codes "id.json") (some (1 ∷ 0 ∷ 0 ∷ 0 ∷ 4 ∷ 0 ∷ 7 ∷ []));
}

refused :
    run broken_protocol definitions toy_shim bridges toy_shell
      (λ url. toy_client)
      (λ a. a)
      refused_cli
      (0, [])
    ≡ (err (submitting (resolver_simulation (return_data_malformed tt))), (2, []))
unfolding run dispatch cmd_submit resolve_rpc_url list_eq nat_eq read_input after_at
    parse_signed_vaa read_signatures slice slice_from index array_or try_into window core_bridge_of
    broadcast_vaa resolve_execute_vaa_v1 resolve_loop round interpret resolver_ix resolver_data
    simulate_with_post_accounts read_value read_return_data read_post_accounts read_accounts
    simulation_config to_be_bytes to_le_bytes
refused = refl

run-sent_example : ◌≡◌ {A = Sent} [] []
run-sent_example =
    run-sent broken_protocol definitions toy_shim bridges toy_shell (λ url. toy_client) (λ a. a)
      refused_cli Sent (λ s. s.1) (λ s. refl) (λ tx keys s. refl) (λ k s. refl) (0, []) (2, [])
      (err (submitting (resolver_simulation (return_data_malformed tt))))
      (is_quiet (fails (begun (in_resolver (return_data_malformed tt))))) refused
