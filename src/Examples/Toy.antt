-- ===== src/Examples/Toy.antt =====
-- A toy connection, with a resolver that asks for the payer and then answers with one group, and
-- a shim for it.
use wormhole_svm_utils.Prelude.{ℕ, zero, suc, ◌+◌, List, [], ◌∷◌, ◌++◌}
use wormhole_svm_utils.Prelude.{some, none, Result, ok, err, true, false, list_eq, nat_eq}
use wormhole_svm_utils.Prelude.Bytes.{Bytes}
use wormhole_svm_utils.Solana.{Pubkey, writable, Instruction}
use wormhole_svm_utils.Submit.Connection.{Sdk, SolanaConnection}
use wormhole_svm_utils.Submit.Protocol.{
  Protocol, Resolver, resolved, missing, SerializableAccountMeta, SerializableInstruction,
  InstructionGroup,
}
use wormhole_svm_utils.Submit.Signatures.{Shim}
use wormhole_svm_utils.Submit.Broadcast.{Definitions}

abbrev pub toy_sdk : Sdk
toy_sdk = record {
  Keypair = ℕ;
  Hash = ℕ;
  Signature = ℕ;
  Transaction = List Instruction × List ℕ;
  Account = Bytes;
  pubkey = λ k. k ∷ [];
  new_signed_with_payer = λ ixs payer signers blockhash. some (ixs, signers);
}

abbrev pub Sent : Type 0
Sent = List (List Instruction × List ℕ)

-- The resolver's answer, from the accounts that it was given.
abbrev pub answer_for : List Instruction → Bytes
answer_for [] = []
answer_for (ix ∷ _) = elim ix.accounts [ [] ↦ 0 ∷ [] | _ ∷ _ ↦ 1 ∷ [] ]

-- The number of calls so far, and the transactions sent.
abbrev pub toy_connection : SolanaConnection toy_sdk
toy_connection = record {
  State = ℕ × Sent;
  Error = ℕ;
  get_latest_blockhash = λ s. (ok s.0, (s.0 + 1, s.1));
  simulate_with_post_accounts = λ tx keys s.
      (ok (record { return_data = some (answer_for tx.0); post_accounts = [] }), (s.0 + 1, s.1));
  send_and_confirm = λ tx s. (ok s.0, (s.0 + 1, s.1 ++ (tx ∷ [])));
  get_account = λ k s. (ok none, s);
  new_keypair = λ s. (100 + s.0, (s.0 + 1, s.1));
}

abbrev pub account_of : Pubkey → SerializableAccountMeta
account_of k = record { pubkey = k; is_signer = true; is_writable = true }

abbrev pub instruction : SerializableInstruction
instruction = record {
  program_id = 50 ∷ [];
  accounts = account_of (1 ∷ []) ∷ account_of (3 ∷ []) ∷ account_of (10 ∷ []) ∷ [];
  ix_data = 5 ∷ [];
}

abbrev pub group : InstructionGroup
group = record { instructions = instruction ∷ [] }

abbrev pub decode : Bytes → Result (Unit {0}) Resolver
decode [] = err tt
decode (zero ∷ _) = ok (missing ((1 ∷ []) ∷ []))
decode (suc _ ∷ _) = ok (resolved (group ∷ []))

abbrev pub protocol_with : (Bytes → Result (Unit {0}) Resolver) → Protocol
protocol_with decoder = record {
  DecodeError = Unit {0};
  resolver_execute_vaa_v1 = 8 ∷ [];
  resolver_result_account_seed = 9 ∷ [];
  resolver_pubkey_payer = 1 ∷ [];
  resolver_pubkey_guardian_set = 2 ∷ [];
  resolver_pubkey_shim_vaa_sigs = 3 ∷ [];
  resolver_pubkey_keypair = λ i. (10 + i) ∷ [];
  deserialize = decoder;
  find_program_address = λ seeds program. (77 ∷ [], 255);
}

abbrev pub toy_protocol : Protocol
toy_protocol = protocol_with decode

-- With a program whose answers are no Borsh.
abbrev pub broken_protocol : Protocol
broken_protocol = protocol_with (λ _. err tt)

abbrev pub toy_shim : Shim
toy_shim = record {
  post_signatures_instruction = λ program payer account index n sigs. record {
    program_id = program;
    accounts = writable payer true ∷ writable account true ∷ [];
    ix_data = index ∷ n ∷ [];
  };
  close_signatures_instruction = λ program account recipient. record {
    program_id = program;
    accounts = writable account false ∷ writable recipient false ∷ [];
    ix_data = [];
  };
}

abbrev pub definitions : Definitions
definitions = record {
  find_guardian_set_address = λ index bridge. (60 ∷ [], 255);
  verify_vaa_shim_program_id = 61 ∷ [];
}
