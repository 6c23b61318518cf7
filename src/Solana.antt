-- ===== src/Solana.antt =====
-- What the crates of this repository use of the Solana SDK: keys, instructions, and the runtime
-- of an on-chain program.
use wormhole_svm_utils.Prelude.{ℕ, Bool, true, false, List, [], ◌∷◌, ◌++◌, Result, ok, err, panic}
use wormhole_svm_utils.Prelude.Bytes.{Bytes}

-- A `Pubkey` is its 32 bytes.
abbrev pub Pubkey : Type 0
Pubkey = Bytes

-- A call of `AccountMeta::new` or `AccountMeta::new_readonly`: the key, and whether it signs.
pub data AccountMeta : Type 0 where
  writable : Pubkey → Bool → AccountMeta
  readonly : Pubkey → Bool → AccountMeta

pub record Instruction : Type 0 where
  pub program_id : Pubkey
  pub accounts : List AccountMeta
  pub ix_data : Bytes

-- The errors that the programs return themselves, and those that a CPI hands up.
pub data ProgramError : Type 0 where
  invalid_instruction_data incorrect_program_id invalid_seeds not_enough_account_keys : ProgramError
  from_cpi : ℕ → ProgramError

-- What a program calls: the keys of the accounts that it was given, and the two CPI functions.
pub record Runtime : Type 1 where
  pub AccountInfo : Type 0
  pub key : AccountInfo → Pubkey
  pub invoke : Instruction → List AccountInfo → Result ProgramError (Unit {0})
  pub invoke_signed :
      Instruction → List AccountInfo → List (List Bytes) → Result ProgramError (Unit {0})

-- What a run leaves behind: its log lines (of type `L`) and its CPI calls, in order.
pub data Event (L : Type 0) (A : Type 0) : Type 0 where
  log : L → Event L A
  cpi : Instruction → List A → List (List Bytes) → Event L A

-- Code that logs, makes CPI calls, and may fail: its outcome, and the events up to there.
abbrev pub Run : Type 0 → Type 0 → Type 0 → Type 0
Run L I A = Result ProgramError A × List (Event L I)

module _ {L I : Type 0} where
  abbrev pub after : {A : Type 0} → List (Event L I) → Run L I A → Run L I A
  after es (r, more) = (r, es ++ more)

  infixl 5 ◌>>=◌ ◌>>◌
  abbrev pub ◌>>=◌ : {A B : Type 0} → Run L I A → (A → Run L I B) → Run L I B
  (ok a, es) >>= f = after es (f a)
  (err e, es) >>= f = (err e, es)
  (panic, es) >>= f = (panic, es)

  abbrev pub ◌>>◌ : {B : Type 0} → Run L I (Unit {0}) → Run L I B → Run L I B
  m >> k = m >>= λ _. k

  -- `msg!`
  abbrev pub msg : L → Run L I (Unit {0})
  msg l = (ok tt, log l ∷ [])

  abbrev pub lift : {A : Type 0} → Result ProgramError A → Run L I A
  lift r = (r, [])

  -- `if test { msg!(l); return Err(e); }`
  abbrev pub reject_if : Bool → L → ProgramError → Run L I (Unit {0})
  reject_if b l e = elim b [ true ↦ (err e, log l ∷ []) | false ↦ (ok tt, []) ]

  -- A block of an `if` that only logs.
  abbrev pub when : Bool → Run L I (Unit {0}) → Run L I (Unit {0})
  when b m = elim b [ true ↦ m | false ↦ (ok tt, []) ]

  -- A CPI call and its answer.
  abbrev pub call :
      Result ProgramError (Unit {0}) → Instruction → List I → List (List Bytes) → Run L I (Unit {0})
  call r ix infos seeds = (r, cpi ix infos seeds ∷ [])

-- `next_account_info`
abbrev pub next_account_info : {A : Type 0} → List A → Result ProgramError (A × List A)
next_account_info [] = err not_enough_account_keys
next_account_info (a ∷ more) = ok (a, more)
