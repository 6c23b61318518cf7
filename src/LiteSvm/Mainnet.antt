-- ===== src/LiteSvm/Mainnet.antt =====
-- The addresses of the Wormhole programs and accounts that the test crate takes from
-- wormhole-svm-definitions.
use wormhole_svm_utils.Solana.{Pubkey}

pub record Mainnet : Type 0 where
  pub core_bridge_program_id : Pubkey
  pub core_bridge_config : Pubkey
  pub core_bridge_fee_collector : Pubkey
  pub post_message_shim_program_id : Pubkey
