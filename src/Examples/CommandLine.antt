-- ===== src/Examples/CommandLine.antt =====
-- The command line, over a toy RPC client.
use wormhole_svm_utils.Prelude.{
  ℕ, ◌+◌, ◌≡◌, refl, true, List, [], ◌∷◌, ◌++◌, some, ok, err, nat_eq, list_eq,
}
use wormhole_svm_utils.Prelude.Bytes.{Bytes}
use wormhole_svm_utils.Prelude.Text.{codes}
use wormhole_svm_utils.Solana.{Pubkey}
use wormhole_svm_utils.Submit.Rpc.{RpcClient}
use wormhole_svm_utils.Submit.Rpc.Simulation.{simulation_config}
use wormhole_svm_utils.Submit.Rpc.Adapter.{simulate_with_post_accounts}
use wormhole_svm_utils.LiteSvm.{LiteSvm, litesvm_connection}
use wormhole_svm_utils.LiteSvm.Agreement.{
  node_value, succeeds, Agree, IsSimulationError, simulate_with_post_accounts-litesvm_connection,
}
use wormhole_svm_utils.Cli.Errors.{Shell}
use wormhole_svm_utils.Cli.Address.{has}
use wormhole_svm_utils.Cli.Address.Derived.{Addresses, parse_address-cmd_pda}
use wormhole_svm_utils.Cli.Input.{CoreBridges}
use wormhole_svm_utils.Examples.Toy.{toy_sdk, Sent, answer_for}
use wormhole_svm_utils.Examples.Environment.{toy_svm}

-- Its base64 is a byte more.
abbrev pub toy_client : RpcClient toy_sdk
toy_client = record {
  State = ℕ × Sent;
  ClientError = ℕ;
  TransactionError = ℕ;
  DecodeError = Unit {0};
  for_user = λ m. 7;
  error_string = λ e. codes "AccountNotFound";
  pubkey_string = λ k. k;
  decode = λ text. elim text [ [] ↦ err tt | _ ∷ bs ↦ ok bs ];
  get_latest_blockhash = λ s. (ok s.0, (s.0 + 1, s.1));
  simulate_transaction_with_config = λ tx config s.
      (ok (node_value (λ bs. 0 ∷ bs) (answer_for tx.0) [] config.addresses), (s.0 + 1, s.1));
  send_and_confirm_transaction_with_spinner_and_commitment =
      λ tx commitment s. (ok s.0, (s.0 + 1, s.1 ++ (tx ∷ [])));
  get_account = λ k s. (err 3, s);
  new_keypair = λ s. (100 + s.0, (s.0 + 1, s.1));
}

-- An account of two bytes, which a simulation reports beside its return data.
abbrev reported : List (Pubkey × Bytes)
reported = (4 ∷ [], 8 ∷ 7 ∷ []) ∷ []

abbrev reporting_client : RpcClient toy_sdk
reporting_client = record toy_client {
  simulate_transaction_with_config = λ tx config s.
      (ok (node_value (λ bs. 0 ∷ bs) (9 ∷ []) reported config.addresses), (s.0 + 1, s.1));
}

abbrev reporting_svm : LiteSvm toy_sdk
reporting_svm = record toy_svm { simulate_transaction = λ tx svm. ok (9 ∷ [], reported) }

abbrev asked : List Pubkey
asked = (5 ∷ []) ∷ (4 ∷ []) ∷ []

simulated :
    reporting_client.simulate_transaction_with_config
      ([], [])
      (simulation_config reporting_client asked)
      (0, [])
    ≡ (ok (node_value (λ bs. 0 ∷ bs) (9 ∷ []) reported asked), (1, []))
unfolding simulation_config
simulated = refl

simulate_with_post_accounts-litesvm_connection_example :
    Agree
      (IsSimulationError reporting_client (λ bs. 0 ∷ bs) (λ bs. refl) reporting_svm)
      (simulate_with_post_accounts reporting_client ([], []) asked (0, [])).0
      ((litesvm_connection reporting_svm).simulate_with_post_accounts ([], []) asked ([], 5)).0
    × ((simulate_with_post_accounts reporting_client ([], []) asked (0, [])).1 ≡ (1, []))
    × (((litesvm_connection reporting_svm).simulate_with_post_accounts ([], []) asked ([], 5)).1
        ≡ ([], 5))
simulate_with_post_accounts-litesvm_connection_example =
    simulate_with_post_accounts-litesvm_connection reporting_client (λ bs. 0 ∷ bs) (λ bs. refl)
      reporting_svm ([], []) asked (0, []) (1, []) [] 5
      (node_value (λ bs. 0 ∷ bs) (9 ∷ []) reported asked) simulated (succeeds (9 ∷ []) reported)

-- Its hex and its base58 are the bytes themselves.
abbrev pub toy_shell : Shell ℕ
toy_shell = record {
  HexError = Unit {0};
  KeyError = Unit {0};
  IoError = Unit {0};
  KeypairError = Unit {0};
  hex_decode = λ text. ok text;
  hex_encode = λ bs. bs;
  pubkey_from_str = λ text. ok text;
  find_program_address = λ seeds program. some (program, 255);
  read_keypair_file = λ path. ok 20;
  read_to_string = λ path. err tt;
  stdin_is_terminal = true;
  stdin = err tt;
  trim = λ text. text;
  to_lowercase = λ text. text;
}

abbrev address : Bytes
address = codes "prog:seed:0x01"

address_has : has b':' address ≡ true
unfolding has nat_eq
address_has = refl

parse_address-cmd_pda_example :
    (program : Bytes) × (seed : Bytes) × (seeds : List Bytes) × Addresses toy_shell ℕ ℕ address
      program seed seeds
parse_address-cmd_pda_example = parse_address-cmd_pda toy_shell ℕ ℕ address address_has

abbrev pub bridges : CoreBridges
bridges = record { core_bridge_mainnet = 71 ∷ []; core_bridge_devnet = 72 ∷ [] }
