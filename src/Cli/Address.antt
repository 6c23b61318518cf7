-- ===== src/Cli/Address.antt =====
-- crates/wormhole-svm-cli/src/main.rs: addresses, and the derivation of a PDA from seeds.
pub mod Derived
use wormhole_svm_utils.Prelude.{
  ℕ, ltb, ◌==◌, nat_eq, if◌then◌else◌, Bool, true, false, any, List, [], ◌∷◌, length, Option, none,
  some,
}
use wormhole_svm_utils.Prelude.{Result, ok, err, panic, ok_or, map_err, ◌>>=◌, ◌>>◌, fail_if}
use wormhole_svm_utils.Prelude.Bytes.{Bytes}
use wormhole_svm_utils.Solana.{Pubkey}
use wormhole_svm_utils.Cli.Errors.{
  Shell, CliError, invalid_program_id, pda_syntax, invalid_pda_program_id, invalid_account_address,
  invalid_hex_seed,
}

-- `s.contains(c)`
unfoldable pub has : ℕ → Bytes → Bool
unfolding nat_eq
has c s = any (λ b. b == c) s

-- A byte before the first part.
abbrev pub on_first : ℕ → List Bytes → List Bytes
on_first b [] = (b ∷ []) ∷ []
on_first b (part ∷ parts) = (b ∷ part) ∷ parts

-- `s.split(c).collect()`: one part more than there are separators.
unfoldable pub split : ℕ → Bytes → List Bytes
unfolding nat_eq
split c [] = [] ∷ []
split c (b ∷ s) = let parts = split c s in if b == c then [] ∷ parts else on_first b parts

-- `s.strip_prefix("0x")`
unfoldable pub strip_hex_prefix : Bytes → Option Bytes
unfolding nat_eq
strip_hex_prefix [] = none
strip_hex_prefix (a ∷ []) = none
strip_hex_prefix (a ∷ b ∷ s) = if a == b'0' then if b == b'x' then some s else none else none

module _ {Keypair : Type 0} (Sh : Shell Keypair) {B R : Type 0} where
  unfoldable pub seed_bytes : Bytes → Result (CliError Sh B R) Bytes
  unfolding strip_hex_prefix
  seed_bytes s = elim (strip_hex_prefix s) [
    | some hex_str ↦ map_err (invalid_hex_seed s) (Sh.hex_decode hex_str)
    | none ↦ ok s
  ]

  -- `.map(..).collect::<Result<_>>()`: the first error ends it.
  unfoldable pub all_seed_bytes : List Bytes → Result (CliError Sh B R) (List Bytes)
  unfolding seed_bytes
  all_seed_bytes [] = ok []
  all_seed_bytes (s ∷ seeds) = do
    bytes ← seed_bytes s
    rest ← all_seed_bytes seeds
    ok (bytes ∷ rest)

  -- After the split: `parts[0]` and `parts[1..]`.
  unfoldable pub parse_parts : List Bytes → Result (CliError Sh B R) Pubkey
  unfolding all_seed_bytes
  parse_parts [] = panic
  parse_parts (program ∷ seeds) = do
    program_id ← map_err invalid_pda_program_id (Sh.pubkey_from_str program)
    seed_slices ← all_seed_bytes seeds
    (pda, bump) ← ok_or (Sh.find_program_address seed_slices program_id) panic
    ok pda

  unfoldable pub parse_address : Bytes → Result (CliError Sh B R) Pubkey
  unfolding has split parse_parts
  parse_address address =
      if has b':' address
      then (fail_if (ltb (length (split b':' address)) 2) pda_syntax
          >> parse_parts (split b':' address))
      else map_err invalid_account_address (Sh.pubkey_from_str address)

  -- The PDA and its bump, which are printed.
  unfoldable pub cmd_pda : Bytes → List Bytes → Result (CliError Sh B R) (Pubkey × ℕ)
  unfolding all_seed_bytes
  cmd_pda program_id seeds = do
    program_id ← map_err invalid_program_id (Sh.pubkey_from_str program_id)
    seed_slices ← all_seed_bytes seeds
    ok_or (Sh.find_program_address seed_slices program_id) panic
