-- ===== src/LiteSvm/Fixtures/Standing.antt =====
-- The accounts that stand in the virtual machine after `setup_wormhole`.
use wormhole_svm_utils.Prelude.{
  ℕ, ◌^◌, ◌<◌, ◌≡◌, ◌≢◌, refl, sym, ap, ◌∙◌, subst, arith, [], ◌++◌, length, some, false, Result,
  ok, err, panic, drop, append-nil,
}
use wormhole_svm_utils.Prelude.Bytes.{
  Bytes, to_le_bytes, from_le_bytes, to_be_bytes, length-to_le_bytes, from_le_bytes-to_le_bytes,
}
use wormhole_svm_utils.Prelude.Windows.{window, window-at, drop-past}
use wormhole_svm_utils.Solana.{Pubkey}
use wormhole_svm_utils.Guardian.{Crypto, TestGuardianSet}
use wormhole_svm_utils.Submit.Connection.{Sdk, >>=-returned, ok-injective}
use wormhole_svm_utils.Submit.Broadcast.{Definitions}
use wormhole_svm_utils.LiteSvm.{LiteSvm, build_guardian_set_data}
use wormhole_svm_utils.LiteSvm.Host.{Host, KeepsAccounts}
use wormhole_svm_utils.LiteSvm.Mainnet.{Mainnet}
use wormhole_svm_utils.LiteSvm.Programs.{FileSystem, WormholeProgramsConfig, BundledFixtures}
use wormhole_svm_utils.LiteSvm.Programs.Loading.{load_wormhole_programs}
use wormhole_svm_utils.LiteSvm.Fixtures.{
  WormholeAccounts, default_bridge_fee, unwrapped, rent_exempt, put_account, bridge_config_data,
  create_guardian_set_account, create_bridge_config, create_fee_collector, setup_wormhole,
}

unwrapped-returned :
    {T X Y A : Type 0} (p : Result Y A × T) (a : A) (t : T)
    → unwrapped {X = X} p ≡ (ok a, t)
    → p ≡ (ok a, t)
unwrapped-returned (ok b, s) a t h = cc
unwrapped-returned (err e, s) a t h = ground arith
unwrapped-returned (panic, s) a t h = ground arith

module _ (M : Mainnet) {S : Sdk} {L : LiteSvm S} (H : Host L) where
  -- The fields of the bridge config that the core bridge checks, read back.
  module _ (index : ℕ) where
    abbrev config : Bytes
    config = bridge_config_data M H index

    abbrev last_two : Bytes
    last_two = to_le_bytes 4 86400 ++ to_le_bytes 8 10

    past_index : drop 4 config ≡ to_le_bytes 8 (H.minimum_balance 0) ++ last_two
    unfolding bridge_config_data
    past_index =
        drop-past config (to_le_bytes 4 index) _ 0 4 refl (length-to_le_bytes 4 index) 4 refl

    past_lamports : drop 12 config ≡ last_two
    past_lamports =
        drop-past config _ last_two 4 8 past_index (length-to_le_bytes 8 (H.minimum_balance 0)) 12
          refl

    past_expiration : drop 16 config ≡ to_le_bytes 8 10 ++ []
    past_expiration =
        drop-past config (to_le_bytes 4 86400) _ 12 4 past_lamports (length-to_le_bytes 4 86400) 16
          refl
        ∙ sym (append-nil (to_le_bytes 8 10))

    config_index : index < 2 ^ 32 → from_le_bytes (window 0 4 config) ≡ index
    unfolding bridge_config_data
    config_index h =
        ap from_le_bytes
          (window-at config (to_le_bytes 4 index) _ 0 4 refl (length-to_le_bytes 4 index))
        ∙ from_le_bytes-to_le_bytes 4 index h

    config_last_lamports :
        H.minimum_balance 0 < 2 ^ 64 → from_le_bytes (window 4 8 config) ≡ H.minimum_balance 0
    config_last_lamports h =
        ap from_le_bytes
          (window-at config _ last_two 4 8 past_index (length-to_le_bytes 8 (H.minimum_balance 0)))
        ∙ from_le_bytes-to_le_bytes 8 (H.minimum_balance 0) h

    config_fee : from_le_bytes (window 16 8 config) ≡ default_bridge_fee
    config_fee =
        ap from_le_bytes
          (window-at config (to_le_bytes 8 10) [] 16 8 past_expiration (length-to_le_bytes 8 10))
        ∙ from_le_bytes-to_le_bytes 8 10 (omega arith)

  -- The three accounts in the virtual machine. The core bridge compares the fee collector's lamports
  -- with those that the config holds.
  pub record Stands (D : Definitions) (C : Crypto) (guardians : TestGuardianSet C) (index : ℕ)
      (accounts : WormholeAccounts) (svm : L.Svm) : Type 0 where
    pub found :
        (accounts.guardian_set, accounts.guardian_set_bump)
        ≡ D.find_guardian_set_address (to_be_bytes 4 index) M.core_bridge_program_id
    pub guardian_set : S.Account
    pub guardian_set_there : L.get_account accounts.guardian_set svm ≡ some guardian_set
    pub guardian_set_data : H.account_data guardian_set ≡ build_guardian_set_data C guardians index
    pub bridge_config : S.Account
    pub bridge_config_there : L.get_account M.core_bridge_config svm ≡ some bridge_config
    pub fee_collector : S.Account
    pub fee_collector_there : L.get_account M.core_bridge_fee_collector svm ≡ some fee_collector
    pub current_set : from_le_bytes (window 0 4 (H.account_data bridge_config)) ≡ index
    pub last_lamports :
        from_le_bytes (window 4 8 (H.account_data bridge_config)) ≡ H.account_lamports fee_collector
    pub fee : from_le_bytes (window 16 8 (H.account_data bridge_config)) ≡ default_bridge_fee

  module _ {X : Type 0} where
    created :
        (D : Definitions) (C : Crypto) (guardians : TestGuardianSet C) (index : ℕ)
        (found : Pubkey × ℕ) (svm svm' : L.Svm)
        → create_guardian_set_account M H {X = X} D C guardians index svm ≡ (ok found, svm')
        → (D.find_guardian_set_address (to_be_bytes 4 index) M.core_bridge_program_id ≡ found)
          × (H.set_account
                (D.find_guardian_set_address (to_be_bytes 4 index) M.core_bridge_program_id).0
                (rent_exempt M H
                  (build_guardian_set_data C guardians index)
                  M.core_bridge_program_id)
                svm
              ≡ (ok tt, svm'))
    unfolding create_guardian_set_account
    created D C guardians index found svm svm' h =
        let address = D.find_guardian_set_address (to_be_bytes 4 index) M.core_bridge_program_id in
        let contents = build_guardian_set_data C guardians index in
        let account = rent_exempt M H contents M.core_bridge_program_id in
        let (_, t, e, k) = >>=-returned (put_account M H {X = X} address.0 account) _ svm svm' h in
        let (same, end) = ok-injective address found t svm' k in
        (
          same,
          subst (λ (t : L.Svm). H.set_account address.0 account svm ≡ (ok tt, t)) end
              (unwrapped-returned (H.set_account address.0 account svm) tt t e),
        )

    configured :
        (index : ℕ) (svm svm' : L.Svm)
        → create_bridge_config M H {X = X} index svm ≡ (ok tt, svm')
        → H.set_account M.core_bridge_config
            (rent_exempt M H (bridge_config_data M H index) M.core_bridge_program_id)
            svm
          ≡ (ok tt, svm')
    unfolding create_bridge_config
    configured index svm svm' h = unwrapped-returned _ tt svm' h

    collecting :
        (svm svm' : L.Svm)
        → create_fee_collector M H {X = X} svm ≡ (ok tt, svm')
        → H.set_account M.core_bridge_fee_collector
            (H.new_account (H.minimum_balance 0) [] H.system_program_id false 0)
            svm
          ≡ (ok tt, svm')
    unfolding create_fee_collector
    collecting svm svm' h = unwrapped-returned _ tt svm' h

  -- The accounts after the three that are set, one after the other.
  module _ (K : KeepsAccounts H) (D : Definitions) (C : Crypto) (guardians : TestGuardianSet C)
      (index : ℕ) (hi : index < 2 ^ 32) (hm : H.minimum_balance 0 < 2 ^ 64) where
    abbrev set_address : Pubkey × ℕ
    set_address = D.find_guardian_set_address (to_be_bytes 4 index) M.core_bridge_program_id

    set-Stands :
        (s1 s2 s3 s4 : L.Svm)
        → set_address.0 ≢ M.core_bridge_config
        → set_address.0 ≢ M.core_bridge_fee_collector
        → M.core_bridge_config ≢ M.core_bridge_fee_collector
        → H.set_account set_address.0
            (rent_exempt M H (build_guardian_set_data C guardians index) M.core_bridge_program_id)
            s1
          ≡ (ok tt, s2)
        → H.set_account M.core_bridge_config
            (rent_exempt M H (bridge_config_data M H index) M.core_bridge_program_id)
            s2
          ≡ (ok tt, s3)
        → H.set_account M.core_bridge_fee_collector
            (H.new_account (H.minimum_balance 0) [] H.system_program_id false 0)
            s3
          ≡ (ok tt, s4)
        → Stands D C guardians index
            (record { guardian_set = set_address.0; guardian_set_bump = set_address.1 })
            s4
    set-Stands s1 s2 s3 s4 n1 n2 n3 e2 e3 e4 =
        let bytes = bridge_config_data M H index in
        let contents =
          K.account_data-new_account (H.minimum_balance (length bytes)) bytes
            M.core_bridge_program_id false 0 in
        record {
          found = refl;
          guardian_set = _;
          guardian_set_there =
              K.get_account-set_account_other _ _ _ s3 s4 e4 n2
              ∙ K.get_account-set_account_other _ _ _ s2 s3 e3 n1
              ∙ K.get_account-set_account _ _ s1 s2 e2;
          guardian_set_data = K.account_data-new_account _ _ _ _ _;
          bridge_config = _;
          bridge_config_there =
              K.get_account-set_account_other _ _ _ s3 s4 e4 n3
              ∙ K.get_account-set_account _ _ s2 s3 e3;
          fee_collector = _;
          fee_collector_there = K.get_account-set_account _ _ s3 s4 e4;
          current_set = rw contents (config_index index hi);
          last_lamports =
              rw contents (config_last_lamports index hm)
              ∙ sym (K.account_lamports-new_account _ _ _ _ _);
          fee = rw contents (config_fee index);
        }

    -- If the index is a u32, the rent of an empty account a u64, and the three addresses differ,
    -- then after a `setup_wormhole` that returned, the guardian set stands at the address that it
    -- returned with the set's data, and the bridge config and the fee collector at theirs: the
    -- config names the guardian set's index and the default fee, and its last lamports are the fee
    -- collector's.
    pub setup_wormhole-Stands :
        {F E I : Type 0} (fs : FileSystem I) (bundled : BundledFixtures)
        (config : WormholeProgramsConfig) (svm svm' : L.Svm) (accounts : WormholeAccounts)
        → set_address.0 ≢ M.core_bridge_config
        → set_address.0 ≢ M.core_bridge_fee_collector
        → M.core_bridge_config ≢ M.core_bridge_fee_collector
        → setup_wormhole M H {F = F} {E = E} D fs bundled C guardians index config svm
          ≡ (ok accounts, svm')
        → Stands D C guardians index accounts svm'
    unfolding setup_wormhole
    setup_wormhole-Stands fs bundled config svm svm' accounts n1 n2 n3 h =
        let (_, s1, e1, h1) =
          >>=-returned (load_wormhole_programs fs H D M bundled config) _ svm svm' h in
        let (found, s2, e2, h2) =
          >>=-returned (create_guardian_set_account M H D C guardians index) _ s1 svm' h1 in
        let (_, s3, e3, h3) = >>=-returned (create_bridge_config M H index) _ s2 svm' h2 in
        let (_, s4, e4, h4) = >>=-returned (create_fee_collector M H) _ s3 svm' h3 in
        let (address, set_e) = created D C guardians index found s1 s2 e2 in
        let (same, end) = ok-injective _ accounts s4 svm' h4 in
        let made : accounts_at set_address ≡ accounts = ap accounts_at address ∙ same in
        subst (λ (a : WormholeAccounts). Stands D C guardians index a svm') made
          (subst (Stands D C guardians index (accounts_at set_address)) end (
            set-Stands s1 s2 s3 s4 n1 n2 n3 set_e (configured index s2 s3 e3)
              (collecting s3 s4 e4)))
      where
        accounts_at : Pubkey × ℕ → WormholeAccounts
        accounts_at p = record { guardian_set = p.0; guardian_set_bump = p.1 }
