-- ===== src/Cli/Commands/Unsent.antt =====
-- The runs of the command line that end before anything is sent, by their results.
use wormhole_svm_utils.Prelude.{
  ℕ, arith, ◌≡◌, ◌≢◌, refl, sym, ap, ◌∙◌, subst, inl, inr, List, Option, Result, ok, err, panic,
  map_err,
}
use wormhole_svm_utils.Prelude.Bytes.{Bytes}
use wormhole_svm_utils.Solana.{Pubkey}
use wormhole_svm_utils.Submit.Connection.{
  Sdk, Exec, ◌>>=◌, lift, map_error, mapped, continue-state, mapped-state, mapped-failed,
  >>=-failed, ok-ne-err,
}
use wormhole_svm_utils.Submit.Protocol.{Protocol, SubmitError}
use wormhole_svm_utils.Submit.Signatures.{Shim}
use wormhole_svm_utils.Submit.Rpc.{RpcClient}
use wormhole_svm_utils.Submit.Rpc.Simulation.{simulation_config, read_value}
use wormhole_svm_utils.Submit.Rpc.Adapter.{rpc_connection, simulate_with_post_accounts}
use wormhole_svm_utils.Submit.Broadcast.{Definitions, broadcast_vaa}
use wormhole_svm_utils.Submit.Broadcast.Unsent.{IsEarly, broadcast_vaa-sent}
use wormhole_svm_utils.Cli.SignedVaa.{parse_signed_vaa}
use wormhole_svm_utils.Cli.Errors.{
  Shell, CliError, parsing_signed_vaa, reading_keypair, invalid_program_id, submitting,
  fetching_account,
}
use wormhole_svm_utils.Cli.Address.{parse_address, cmd_pda}
use wormhole_svm_utils.Cli.Input.{CoreBridges, read_input, core_bridge_of}
use wormhole_svm_utils.Cli.Commands.{
  Command, submit, account, pda, Cli, Output, account_hex, signatures, Failure, cmd_submit,
  cmd_account, dispatch,
}

-- The failures before anything is sent: an argument, the VAA or an account, or one of the
-- submission's early ones.
pub data IsUnsent {K : Type 0} {Sh : Shell K} {E D R : Type 0}
    : CliError Sh (SubmitError E D) R → Type 0 where
  not_begun :
      {e : CliError Sh (SubmitError E D) R}
      → ((x : SubmitError E D) → e ≢ submitting x)
      → IsUnsent e
  begun : {x : SubmitError E D} → IsEarly x → IsUnsent (submitting x)

-- The runs that send nothing: those of the other commands, however they end, and those of `submit`
-- that fail so.
pub data IsQuiet {K : Type 0} {Sh : Shell K} {E D R G : Type 0}
    : Command → Result (CliError Sh (SubmitError E D) R) (Output G) → Type 0 where
  asks_account :
      {address : Bytes} {r : Result (CliError Sh (SubmitError E D) R) (Output G)}
      → IsQuiet (account address) r
  asks_pda :
      {program : Bytes} {seeds : List Bytes}
      {r : Result (CliError Sh (SubmitError E D) R) (Output G)}
      → IsQuiet (pda program seeds) r
  fails : {c : Command} {e : CliError Sh (SubmitError E D) R} → IsUnsent e → IsQuiet c (err e)

IsUnsent-IsEarly :
    {K : Type 0} {Sh : Shell K} {E D R : Type 0} (x : SubmitError E D)
    → IsUnsent {Sh = Sh} {R = R} (submitting x)
    → IsEarly x
IsUnsent-IsEarly x (not_begun ne) = absurd (ne x refl)
IsUnsent-IsEarly x (begun early) = early

module _ (P : Protocol) (D : Definitions) (shim : Shim) (bridges : CoreBridges) {S : Sdk}
    (Sh : Shell S.Keypair) (client : Bytes → RpcClient S) (account_data : S.Account → Bytes) where
  module _ (cli : Cli) (L : Type 0) (sent : (client cli.rpc_url).State → L)
      (blockhash-sent : (s : (client cli.rpc_url).State)
        → sent ((client cli.rpc_url).get_latest_blockhash s).1 ≡ sent s)
      (simulate-sent : (tx : S.Transaction) (keys : List Pubkey) (s : (client cli.rpc_url).State)
        → sent
            ((client cli.rpc_url).simulate_transaction_with_config tx
              (simulation_config (client cli.rpc_url) keys)
              s).1
          ≡ sent s)
      (account-sent : (k : Pubkey) (s : (client cli.rpc_url).State)
        → sent ((client cli.rpc_url).get_account k s).1 ≡ sent s) where
    abbrev pub T : Type 0
    T = (client cli.rpc_url).State

    abbrev X : Type 0
    X = Failure P D shim bridges Sh client account_data (client cli.rpc_url)

    -- Its early failures leave what was sent as it was.
    abbrev Quiet : {A : Type 0} → Exec T X A → Type 0
    Quiet m = (s s' : T) (e : X) → IsUnsent e → m s ≡ (err e, s') → sent s' ≡ sent s

    lift-Quiet :
        {A B : Type 0} (r : Result X A) (f : A → Exec T X B)
        → ((a : A) → Quiet (f a))
        → Quiet (lift r >>= f)
    lift-Quiet (ok a) f rest s s' e unsent h = rest a s s' e unsent h
    lift-Quiet (err x) f rest s s' e unsent h = let same : s' ≡ s = cc in ap sent same
    lift-Quiet panic f rest s s' e unsent h = ground arith

    pub simulation-sent :
        (tx : S.Transaction) (keys : List Pubkey) (s : T)
        → sent (simulate_with_post_accounts (client cli.rpc_url) tx keys s).1 ≡ sent s
    unfolding simulate_with_post_accounts
    simulation-sent tx keys s =
        ap sent (
          continue-state
            ((client cli.rpc_url).simulate_transaction_with_config tx
              (simulation_config (client cli.rpc_url) keys) s)
            (read_value (client cli.rpc_url) keys))
        ∙ simulate-sent tx keys s

    submission-Quiet :
        (payer : S.Keypair) (program_id : Pubkey) (index : ℕ) (body : Bytes) (sigs : List Bytes)
        (core_bridge : Pubkey)
        → Quiet (
            map_error submitting (
              broadcast_vaa P D shim
                (rpc_connection (client cli.rpc_url))
                payer
                program_id
                index
                body
                sigs
                core_bridge))
    submission-Quiet payer program_id index body sigs core_bridge s s' e unsent h =
        let (x, failed, same) =
          mapped-failed submitting
            (broadcast_vaa P D shim (rpc_connection (client cli.rpc_url)) payer program_id index
              body sigs core_bridge s)
            e s' h in
        broadcast_vaa-sent P D shim (rpc_connection (client cli.rpc_url)) L sent blockhash-sent
          simulation-sent payer program_id index body sigs core_bridge s s' x
          (inl (IsUnsent-IsEarly x (subst IsUnsent same unsent))) failed

    cmd_submit-sent :
        (program_id payer_path : Bytes) (vaa : Option Bytes)
        → Quiet (cmd_submit P D shim bridges Sh client account_data cli program_id payer_path vaa)
    unfolding cmd_submit
    cmd_submit-sent program_id payer_path vaa = lift-Quiet (read_input Sh vaa) _ (λ raw.
        lift-Quiet (map_err parsing_signed_vaa (parse_signed_vaa raw)) _ (λ vaa.
          lift-Quiet (map_err reading_keypair (Sh.read_keypair_file payer_path)) _ (λ payer.
            lift-Quiet (map_err invalid_program_id (Sh.pubkey_from_str program_id)) _ (λ program.
              lift-Quiet (core_bridge_of Sh bridges cli.core_bridge cli.rpc_url) _ (λ bridge.
                submission-Quiet payer program vaa.guardian_set_index vaa.body vaa.signatures
                  bridge)))))

    lift-sent :
        {A B : Type 0} (r : Result X A) (f : A → Exec T X B) (s : T)
        → ((a : A) → sent (f a s).1 ≡ sent s)
        → sent ((lift r >>= f) s).1 ≡ sent s
    lift-sent (ok a) f s still = still a
    lift-sent (err x) f s still = refl
    lift-sent panic f s still = refl

    fetched-sent :
        {B : Type 0} (pubkey : Pubkey) (f : S.Account → Result X B) (s : T)
        → sent
            ((map_error (fetching_account pubkey) ((client cli.rpc_url).get_account pubkey)
                >>= λ fetched. lift (f fetched))
              s).1
          ≡ sent s
    fetched-sent pubkey f s =
        let fetched = (client cli.rpc_url).get_account pubkey s in
        ap sent (
          continue-state {X = X} (mapped (fetching_account pubkey) fetched) f
          ∙ mapped-state (fetching_account pubkey) fetched)
        ∙ account-sent pubkey s

    cmd_account-sent :
        (address : Bytes) (s : T)
        → sent (cmd_account P D shim bridges Sh client account_data cli address s).1 ≡ sent s
    unfolding cmd_account
    cmd_account-sent address s =
        lift-sent (parse_address Sh address) _ s
          (λ pubkey. fetched-sent pubkey (λ fetched. ok (Sh.hex_encode (account_data fetched))) s)

    pub dispatch-sent :
        (c : Command) (s s' : T) (r : Result X (Output S.Signature))
        → IsQuiet c r
        → dispatch P D shim bridges Sh client account_data cli c s ≡ (r, s')
        → sent s' ≡ sent s
    unfolding dispatch
    dispatch-sent (account address) s s' r quiet h =
        ap (λ (p : Result X (Output S.Signature) × T). sent p.1) (sym h)
        ∙ ap sent (
            continue-state (cmd_account P D shim bridges Sh client account_data cli address s)
              (λ hex. ok (account_hex hex)))
        ∙ cmd_account-sent address s
    dispatch-sent (pda program seeds) s s' r quiet h =
        ap (λ (p : Result X (Output S.Signature) × T). sent p.1) (sym h)
        ∙ lift-sent (cmd_pda Sh program seeds) _ s (λ found. refl)
    dispatch-sent (submit program payer vaa) s s' r (fails {e = e} unsent) h =
        elim (>>=-failed (cmd_submit P D shim bridges Sh client account_data cli program payer vaa)
          _ s s' h) [
            | inl failed ↦ cmd_submit-sent program payer vaa s s' e unsent failed
            | inr (sigs, t, _, ended) ↦ absurd (ok-ne-err {X = X} (signatures sigs) e t s' ended)
          ]
