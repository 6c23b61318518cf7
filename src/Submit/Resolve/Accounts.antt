-- ===== src/Submit/Resolve/Accounts.antt =====
-- What the accounts that the resolver loop adds may do: who signs, and what is written.
use wormhole_svm_utils.Prelude.{ℕ, zero, suc, ◌+◌, ◌≡◌, inl, inr, true, false}
use wormhole_svm_utils.Prelude.{
  List, [], ◌∷◌, map, All, All-append, ◌==◌, list_eq, ==_iff, Bool-cases,
}
use wormhole_svm_utils.Prelude.Bytes.{Bytes}
use wormhole_svm_utils.Solana.{Pubkey, AccountMeta, writable, readonly}
use wormhole_svm_utils.Submit.Connection.{Sdk, SolanaConnection}
use wormhole_svm_utils.Submit.Protocol.{Protocol}
use wormhole_svm_utils.Submit.Resolve.{
  result_account_pubkey, substitute_placeholder, missing_meta, add_missing,
}
use wormhole_svm_utils.Submit.Resolve.Rounds.{Asks, none_left, one}

-- Only the payer signs, and only the payer and the result account are written.
pub data IsJustified (result_account payer : Pubkey) : AccountMeta → Type 0 where
  pays : IsJustified result_account payer (writable payer true)
  holds_result : IsJustified result_account payer (writable result_account false)
  is_read : (k : Pubkey) → IsJustified result_account payer (readonly k false)

module _ (P : Protocol) (result_account payer guardian_set : Pubkey) where
  substitute-payer :
      (pubkey : Pubkey)
      → (pubkey == P.resolver_pubkey_payer) ≡ true
      → substitute_placeholder P pubkey payer guardian_set ≡ payer
  unfolding substitute_placeholder
  substitute-payer pubkey e = rw e

  missing_meta-IsJustified :
      (pubkey : Pubkey)
      → IsJustified result_account payer (missing_meta P result_account payer guardian_set pubkey)
  unfolding missing_meta
  missing_meta-IsJustified pubkey =
      let actual = substitute_placeholder P pubkey payer guardian_set in
      elim (Bool-cases (actual == result_account)) [
        | inl e ↦ rw (e, (==_iff actual result_account).0 e) holds_result
        | inr e ↦ elim (Bool-cases (pubkey == P.resolver_pubkey_payer)) [
          | inl f ↦ rw (e, f, substitute-payer pubkey f) pays
          | inr f ↦ rw (e, f) (is_read actual)
        ]
      ]

  every_missing-IsJustified :
      (keys : List Pubkey)
      → All
          (IsJustified result_account payer)
          (map (missing_meta P result_account payer guardian_set) keys)
  every_missing-IsJustified [] = tt
  every_missing-IsJustified (k ∷ keys) =
      (missing_meta-IsJustified k, every_missing-IsJustified keys)

module _ (P : Protocol) {S : Sdk} (W : SolanaConnection S) (program_id : Pubkey) (payer : S.Keypair)
    (vaa_body : Bytes) (guardian_set : Pubkey) where
  abbrev AreJustified : List AccountMeta → Type 0
  AreJustified = All (
      IsJustified (result_account_pubkey P W program_id payer vaa_body guardian_set)
        (S.pubkey payer))

  added-AreJustified :
      (remaining_accounts : List AccountMeta) (keys : List Pubkey)
      → AreJustified remaining_accounts
      → AreJustified
          (add_missing P W program_id payer vaa_body guardian_set remaining_accounts keys)
  unfolding add_missing
  added-AreJustified remaining_accounts keys h =
      All-append
        (IsJustified (result_account_pubkey P W program_id payer vaa_body guardian_set)
          (S.pubkey payer))
        remaining_accounts _ h
        (every_missing-IsJustified P
          (result_account_pubkey P W program_id payer vaa_body guardian_set) (S.pubkey payer)
          guardian_set keys)

  -- However many rounds ask for more accounts, and whatever keys they ask for: if the accounts that
  -- the rounds start from are justified (the payer signs and is writable, the result account is
  -- writable and does not sign, any other neither signs nor is writable), so are those they end
  -- with.
  pub Asks-AreJustified :
      (n i : ℕ) (remaining_accounts later_accounts : List AccountMeta) (s s' : W.State)
      → Asks P W program_id payer vaa_body guardian_set n i remaining_accounts s later_accounts s'
      → AreJustified remaining_accounts
      → AreJustified later_accounts
  Asks-AreJustified zero i remaining_accounts later_accounts s s' none_left h = h
  Asks-AreJustified (suc n) i remaining_accounts later_accounts s s' (one {t = t} keys e rest) h =
      Asks-AreJustified n (i + 1) _ later_accounts t s' rest
        (added-AreJustified remaining_accounts keys h)
