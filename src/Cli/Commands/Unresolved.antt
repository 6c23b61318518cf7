-- ===== src/Cli/Commands/Unresolved.antt =====
-- The runs of the command line after which nothing has been sent, also where the resolver fails for
-- want of a connection.
use wormhole_svm_utils.Prelude.{ℕ, ◌≡◌, sym, ap, ◌∙◌, inr, List, Option, Result, ok, err}
use wormhole_svm_utils.Prelude.Bytes.{Bytes}
use wormhole_svm_utils.Solana.{Pubkey}
use wormhole_svm_utils.Submit.Connection.{Sdk, continue-state, mapped-state}
use wormhole_svm_utils.Submit.Protocol.{Protocol, SubmitError}
use wormhole_svm_utils.Submit.Signatures.{Shim}
use wormhole_svm_utils.Submit.Rpc.{RpcClient}
use wormhole_svm_utils.Submit.Rpc.Simulation.{simulation_config}
use wormhole_svm_utils.Submit.Rpc.Adapter.{rpc_connection}
use wormhole_svm_utils.Submit.Broadcast.{Definitions, broadcast_vaa}
use wormhole_svm_utils.Submit.Broadcast.Unsent.{broadcast_vaa-sent}
use wormhole_svm_utils.Submit.Broadcast.Flow.{resolving, not_resolved, broadcast_vaa-Broadcasts}
use wormhole_svm_utils.Cli.SignedVaa.{SignedVaa, parse_signed_vaa}
use wormhole_svm_utils.Cli.Errors.{Shell, submitting}
use wormhole_svm_utils.Cli.Input.{CoreBridges, read_input, core_bridge_of, resolve_rpc_url}
use wormhole_svm_utils.Cli.Commands.{
  Command, submit, Cli, Output, signatures, Failure, cmd_submit, dispatch, run,
}
use wormhole_svm_utils.Cli.Commands.Unsent.{IsQuiet, simulation-sent, dispatch-sent}

module _ (P : Protocol) (D : Definitions) (shim : Shim) (bridges : CoreBridges) {S : Sdk}
    (Sh : Shell S.Keypair) (client : Bytes → RpcClient S) (account_data : S.Account → Bytes) where
  -- The arguments of `submit` are good, and at `s` the resolver fails for what they say, whatever its
  -- error.
  pub record IsUnresolved (cli : Cli) (s : (client cli.rpc_url).State) (program payer_path : Bytes)
      (vaa_arg : Option Bytes) : Type 0 where
    pub raw : Bytes
    pub vaa : SignedVaa
    pub payer : S.Keypair
    pub program_id : Pubkey
    pub core_bridge : Pubkey
    pub failure : SubmitError (client cli.rpc_url).ClientError P.DecodeError
    pub after : (client cli.rpc_url).State
    pub reads :
        read_input Sh {B = SubmitError (client cli.rpc_url).ClientError P.DecodeError}
          {R = (client cli.rpc_url).ClientError} vaa_arg
        ≡ ok raw
    pub parses : parse_signed_vaa raw ≡ ok vaa
    pub has_payer : Sh.read_keypair_file payer_path ≡ ok payer
    pub has_program : Sh.pubkey_from_str program ≡ ok program_id
    pub has_bridge :
        core_bridge_of Sh {B = SubmitError (client cli.rpc_url).ClientError P.DecodeError}
          {R = (client cli.rpc_url).ClientError} bridges cli.core_bridge cli.rpc_url
        ≡ ok core_bridge
    pub resolver_fails :
        resolving P D shim
          (rpc_connection (client cli.rpc_url))
          payer
          program_id
          vaa.guardian_set_index
          vaa.body
          vaa.signatures
          core_bridge
          s
        ≡ (err failure, after)

  -- A quiet run, or one of `submit` whose resolver fails.
  pub data SendsNothing (cli : Cli) (s : (client cli.rpc_url).State)
      : Command
        → Result
            (Failure P D shim bridges Sh client account_data (client cli.rpc_url))
            (Output S.Signature)
        → Type 0 where
    is_quiet :
        {c : Command}
        {r : Result
          (Failure P D shim bridges Sh client account_data (client cli.rpc_url))
          (Output S.Signature)}
        → IsQuiet c r
        → SendsNothing cli s c r
    is_unresolved :
        {program payer_path : Bytes} {vaa_arg : Option Bytes}
        {r : Result
          (Failure P D shim bridges Sh client account_data (client cli.rpc_url))
          (Output S.Signature)}
        → IsUnresolved cli s program payer_path vaa_arg
        → SendsNothing cli s (submit program payer_path vaa_arg) r

  module _ (cli : Cli) (L : Type 0) (sent : (client cli.rpc_url).State → L)
      (blockhash-sent : (s : (client cli.rpc_url).State)
        → sent ((client cli.rpc_url).get_latest_blockhash s).1 ≡ sent s)
      (simulate-sent : (tx : S.Transaction) (keys : List Pubkey) (s : (client cli.rpc_url).State)
        → sent
            ((client cli.rpc_url).simulate_transaction_with_config tx
              (simulation_config (client cli.rpc_url) keys)
              s).1
          ≡ sent s)
      (account-sent : (k : Pubkey) (s : (client cli.rpc_url).State)
        → sent ((client cli.rpc_url).get_account k s).1 ≡ sent s) where
    abbrev T : Type 0
    T = (client cli.rpc_url).State

    abbrev X : Type 0
    X = Failure P D shim bridges Sh client account_data (client cli.rpc_url)

    -- A submission whose resolver fails.
    unresolved-sent :
        (payer : S.Keypair) (program_id : Pubkey) (index : ℕ) (body : Bytes) (sigs : List Bytes)
        (core_bridge : Pubkey) (s t : T)
        (x : SubmitError (client cli.rpc_url).ClientError P.DecodeError)
        → resolving P D shim
            (rpc_connection (client cli.rpc_url))
            payer
            program_id
            index
            body
            sigs
            core_bridge
            s
          ≡ (err x, t)
        → sent
            (broadcast_vaa P D shim
              (rpc_connection (client cli.rpc_url))
              payer
              program_id
              index
              body
              sigs
              core_bridge
              s).1
          ≡ sent s
    unresolved-sent payer program_id index body sigs core_bridge s t x failing =
        let W = rpc_connection (client cli.rpc_url) in
        let ended =
          (broadcast_vaa-Broadcasts P D shim W payer program_id index body sigs core_bridge s t
              (err x) (λ p. cc)).1
            (not_resolved failing) in
        ap
          (λ (p : Result (SubmitError (client cli.rpc_url).ClientError P.DecodeError)
                (List S.Signature)
              × T).
            sent p.1)
          ended
        ∙ broadcast_vaa-sent P D shim W L sent blockhash-sent
            (simulation-sent P D shim bridges Sh client account_data cli L sent blockhash-sent
              simulate-sent account-sent)
            payer program_id index body sigs core_bridge s t x (inr (x, t, failing)) ended

    cmd_submit-unresolved :
        (program payer_path : Bytes) (vaa_arg : Option Bytes) (s : T)
        → IsUnresolved cli s program payer_path vaa_arg
        → sent
            (cmd_submit P D shim bridges Sh client account_data cli program payer_path vaa_arg s).1
          ≡ sent s
    unfolding cmd_submit
    cmd_submit-unresolved program payer_path vaa_arg s u =
        rw (u.reads, u.parses, u.has_payer, u.has_program, u.has_bridge)
          (ap sent (
              mapped-state submitting (
                broadcast_vaa P D shim (rpc_connection (client cli.rpc_url)) u.payer u.program_id
                  u.vaa.guardian_set_index u.vaa.body u.vaa.signatures u.core_bridge s))
            ∙ unresolved-sent u.payer u.program_id u.vaa.guardian_set_index u.vaa.body
                u.vaa.signatures u.core_bridge s u.after u.failure u.resolver_fails)

    SendsNothing-sent :
        (c : Command) (s s' : T) (r : Result X (Output S.Signature))
        → SendsNothing cli s c r
        → dispatch P D shim bridges Sh client account_data cli c s ≡ (r, s')
        → sent s' ≡ sent s
    unfolding dispatch
    SendsNothing-sent c s s' r (is_quiet q) h =
        dispatch-sent P D shim bridges Sh client account_data cli L sent blockhash-sent
          simulate-sent account-sent c s s' r q h
    SendsNothing-sent c s s' r
          (is_unresolved {program = program} {payer_path = payer_path} {vaa_arg = vaa_arg} u) h =
        ap (λ (p : Result X (Output S.Signature) × T). sent p.1) (sym h)
        ∙ ap sent (
            continue-state
              (cmd_submit P D shim bridges Sh client account_data cli program payer_path vaa_arg s)
              (λ sigs. ok (signatures sigs)))
        ∙ cmd_submit-unresolved program payer_path vaa_arg s u

  -- The client over the URL that is meant.
  abbrev used : Cli → RpcClient S
  used cli = client (resolve_rpc_url cli.rpc_url)

  -- Suppose that the client's calls for a blockhash, a simulation and an account leave what was
  -- sent so far unchanged. Then `run` leaves it unchanged with the commands `account` and `pda`,
  -- however they end, and with `submit` if it fails with an error other than the submission's, if
  -- it fails with one of the submission's that come only from the resolver or from the check that
  -- the shim is used, or if its arguments are good and the resolver fails for them, with whatever
  -- error, a connection's included.
  pub run-sent :
      (cli : Cli) (L : Type 0) (sent : (used cli).State → L)
      → ((s : (used cli).State) → sent ((used cli).get_latest_blockhash s).1 ≡ sent s)
      → ((tx : S.Transaction) (keys : List Pubkey) (s : (used cli).State)
          → sent
              ((used cli).simulate_transaction_with_config tx
                (simulation_config (used cli) keys)
                s).1
            ≡ sent s)
      → ((k : Pubkey) (s : (used cli).State) → sent ((used cli).get_account k s).1 ≡ sent s)
      → (s s' : (used cli).State)
        (r : Result
          (Failure P D shim bridges Sh client account_data (used cli))
          (Output S.Signature))
      → SendsNothing (record cli { rpc_url = resolve_rpc_url cli.rpc_url }) s cli.command r
      → run P D shim bridges Sh client account_data cli s ≡ (r, s')
      → sent s' ≡ sent s
  unfolding run
  run-sent cli L sent blockhash simulate fetch s s' r =
      SendsNothing-sent (record cli { rpc_url = resolve_rpc_url cli.rpc_url }) L sent blockhash
        simulate fetch cli.command s s' r
