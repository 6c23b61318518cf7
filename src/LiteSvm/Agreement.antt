-- ===== src/LiteSvm/Agreement.antt =====
-- The two implementations of `SolanaConnection`, over an RPC client and over LiteSVM, side by side.
use wormhole_svm_utils.Prelude.{
  ℕ, zero, suc, ◌+◌, ◌<◌, ltb_of_lt, ◌==◌, list_eq, find?, ◌≡◌, refl, sym, ap, arith, inl, inr,
  Option-cases, List, [], ◌∷◌, ◌++◌, map, drop, length, get_elem?, Option, none, some, ok, err,
  Result,
}
use wormhole_svm_utils.Prelude.Bytes.{Bytes}
use wormhole_svm_utils.Solana.{Pubkey}
use wormhole_svm_utils.Submit.Connection.{Sdk, SimulationResult}
use wormhole_svm_utils.Submit.Rpc.{
  RpcClient, SimulationValue, UiAccountData, binary, simulation_error,
}
use wormhole_svm_utils.Submit.Rpc.Simulation.{
  simulation_config, read_value, non_empty, read_account, read_accounts, read_text, text_of,
  read_return_data, read_post_accounts,
}
use wormhole_svm_utils.Submit.Rpc.Adapter.{simulate_with_post_accounts}
use wormhole_svm_utils.LiteSvm.{
  LiteSvm, LiteSvmError, simulation_failed, simulated, litesvm_connection, requested,
  return_data_of,
}

drop-cons :
    (i : ℕ) (xs : List Pubkey) {x : Pubkey} {rest : List Pubkey}
    → drop i xs ≡ x ∷ rest
    → (get_elem? xs i ≡ some x) × (drop (i + 1) xs ≡ rest) × (i < length xs)
drop-cons zero [] h = cc
drop-cons (suc i) [] h = cc
drop-cons zero (y ∷ xs) h = (cc, cc, omega arith)
drop-cons (suc i) (y ∷ xs) {x} {rest} h =
    let (at, next, lt) = drop-cons i xs h in
    let later : suc i + 1 ≡ suc (i + 1) = omega arith in (at, rw later next, omega arith)

non_empty-return_data_of : (bs : Bytes) → non_empty bs ≡ return_data_of bs
non_empty-return_data_of [] = refl
non_empty-return_data_of (b ∷ bs) = refl

-- What a node reports for an account: its data in base64, or nothing.
abbrev pub encoded : (Bytes → Bytes) → Option (Pubkey × Bytes) → Option UiAccountData
encoded encode none = none
encoded encode (some a) = some (binary (encode a.1))

abbrev pub lookup : List (Pubkey × Bytes) → Pubkey → Option (Pubkey × Bytes)
lookup reported pubkey = find? (λ (a : Pubkey × Bytes). a.0 == pubkey) reported

-- The return data as a node reports it: nothing where it is empty.
abbrev pub reported_data : (Bytes → Bytes) → Bytes → Option Bytes
reported_data encode [] = none
reported_data encode (b ∷ bs) = some (encode (b ∷ bs))

-- A node's answer to a simulation that succeeds: the return data, and for each address, in order,
-- its account.
abbrev pub node_value :
    {E : Type 0} → (Bytes → Bytes) → Bytes → List (Pubkey × Bytes) → List Pubkey → SimulationValue E
node_value encode return_data reported accounts = record {
  transaction_error = none;
  return_data = reported_data encode return_data;
  accounts = some (map (λ k. encoded encode (lookup reported k)) accounts);
}

-- The same simulation, as LiteSVM returns it and as a node answers. Where it fails, the node reports
-- an error of the transaction, and whatever else.
pub data IsSame {F E : Type 0} (encode : Bytes → Bytes) (accounts : List Pubkey)
    : Result F (Bytes × List (Pubkey × Bytes)) → SimulationValue E → Type 0 where
  succeeds :
      (return_data : Bytes) (reported : List (Pubkey × Bytes))
      → IsSame encode accounts
          (ok (return_data, reported))
          (node_value encode return_data reported accounts)
  fails :
      (f : F) (e : E) (return_data : Option Bytes) (told : Option (List (Option UiAccountData)))
      → IsSame encode accounts
          (err f)
          (record { transaction_error = some e; return_data = return_data; accounts = told })

-- Both connections return the same result, or each fails with its own error of the simulation.
pub data Agree {F X : Type 0} (simulation_error_of : X → Type 0)
    : Result X SimulationResult → Result (LiteSvmError F) SimulationResult → Type 0 where
  both_return : (r : SimulationResult) → Agree simulation_error_of (ok r) (ok r)
  both_fail :
      (x : X) (f : F)
      → simulation_error_of x
      → Agree simulation_error_of (err x) (err (simulation_failed f))

module _ {S : Sdk} (R : RpcClient S) (encode : Bytes → Bytes)
    (decode-encode : (bs : Bytes) → R.decode (encode bs) ≡ ok bs)
    (reported : List (Pubkey × Bytes)) where
  read_account-requested :
      (accounts : List Pubkey) (i : ℕ) (k : Pubkey)
      → get_elem? accounts i ≡ some k
      → i < length accounts
      → read_account R accounts i (encoded encode (lookup reported k))
        ≡ ok (requested reported (k ∷ []))
  unfolding read_account read_text text_of requested
  read_account-requested accounts i k at lt = elim (Option-cases (lookup reported k)) [
    | inl e ↦ rw (read_account, ltb_of_lt i (length accounts) lt, e, requested)
    | inr (a, e) ↦
        rw (read_account, ltb_of_lt i (length accounts) lt, e, decode-encode a.1, at, requested)
  ]

  requested-cons :
      (k : Pubkey) (accounts : List Pubkey)
      → requested reported (k ∷ accounts)
        ≡ requested reported (k ∷ []) ++ requested reported accounts
  unfolding requested
  requested-cons k accounts = elim (Option-cases (lookup reported k)) [
    | inl e ↦ rw (requested, e)
    | inr (a, e) ↦ rw (requested, e)
  ]

  read_accounts-requested :
      (accounts : List Pubkey) (i : ℕ) (left : List Pubkey)
      → drop i accounts ≡ left
      → read_accounts R accounts i (map (λ k. encoded encode (lookup reported k)) left)
        ≡ ok (requested reported left)
  unfolding read_accounts requested
  read_accounts-requested accounts i [] h = refl
  read_accounts-requested accounts i (k ∷ left) h =
      let (at, next, lt) = drop-cons i accounts h in
      rw
        (
          read_account-requested accounts i k at lt,
          read_accounts-requested accounts (i + 1) left next,
        )
        (ap (λ (a : List (Pubkey × Bytes)). ok a) (sym (requested-cons k left)))

  read_return_data-reported_data :
      (bs : Bytes) → read_return_data R (reported_data encode bs) ≡ ok (return_data_of bs)
  unfolding read_return_data
  read_return_data-reported_data [] = refl
  read_return_data-reported_data (b ∷ bs) = rw (decode-encode (b ∷ bs))

module _ {S : Sdk} (R : RpcClient S) (encode : Bytes → Bytes)
    (decode-encode : (bs : Bytes) → R.decode (encode bs) ≡ ok bs) (L : LiteSvm S) where
  -- The client's message for an error of the simulated transaction.
  abbrev pub IsSimulationError : R.ClientError → Type 0
  IsSimulationError x = (e : R.TransactionError) × (x ≡ R.for_user (simulation_error e))

  read_value-Agree :
      (accounts : List Pubkey) (answer : Result L.Failure (Bytes × List (Pubkey × Bytes)))
      (value : SimulationValue R.TransactionError)
      → IsSame encode accounts answer value
      → Agree IsSimulationError (read_value R accounts value) (simulated L answer accounts)
  unfolding read_value read_post_accounts
  read_value-Agree accounts answer value (succeeds return_data reported) =
      rw
        (
          read_return_data-reported_data R encode decode-encode reported return_data,
          read_accounts-requested R encode decode-encode reported accounts 0 accounts refl,
        )
        (both_return _)
  read_value-Agree accounts answer value (fails f e return_data told) = both_fail _ f (e, refl)

  -- If base64 decoding undoes encoding, and a node answers as LiteSVM simulates (where it succeeds
  -- with the return data, or none where it is empty, and with the account of each requested address
  -- in order; where it fails with an error of the transaction and whatever else), then the
  -- connections over both return the same result, or each fails with its own error of the
  -- simulation, and neither changes what it talks to but by the call.
  pub simulate_with_post_accounts-litesvm_connection :
      (tx : S.Transaction) (accounts : List Pubkey) (s t : R.State) (svm : L.Svm)
      (entropy : L.Entropy) (value : SimulationValue R.TransactionError)
      → R.simulate_transaction_with_config tx (simulation_config R accounts) s ≡ (ok value, t)
      → IsSame encode accounts (L.simulate_transaction tx svm) value
      → (let over_node = simulate_with_post_accounts R tx accounts s in
          let over_svm =
            (litesvm_connection L).simulate_with_post_accounts tx accounts (svm, entropy) in
          Agree IsSimulationError over_node.0 over_svm.0
          × (over_node.1 ≡ t)
          × (over_svm.1 ≡ (svm, entropy)))
  unfolding simulate_with_post_accounts
  simulate_with_post_accounts-litesvm_connection tx accounts s t svm entropy value h same =
      rw h (read_value-Agree accounts (L.simulate_transaction tx svm) value same, refl, refl)
