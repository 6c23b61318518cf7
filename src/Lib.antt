-- ===== src/Lib.antt =====
-- This repository's own code: VAAs made by test guardians, the command line, the two example
-- programs, the messages read back from a transaction, the submission of a VAA through the
-- executor-account-resolver protocol, and the test environment over LiteSVM with its checks.
--
-- Prelude holds what the modules share: Boolean tests, lists measured by native numbers, members
-- and searches, the type of outcomes (a value, an error or a panic), byte strings with their
-- little- and big-endian numbers, slices with their panics, and texts as lists of codes.
--
-- Guardian is crates/wormhole-svm-test/src/guardian.rs and Vaa is its vaa.rs. The crates sha3 and
-- libsecp256k1 are the record Crypto; what is relied on of them are the lengths of their arrays
-- (HasArrayTypes). Integers are natural numbers; a cast that drops bits is written as a remainder.
--
-- Cli is crates/wormhole-svm-cli/src/main.rs: SignedVaa is `parse_signed_vaa`, which reads what
-- Vaa.build_signed_vaa writes; Address has `parse_address` and `cmd_pda`, Input the VAA's text and
-- the RPC URL, and Commands the other commands and `run`. hex, base58, files, the standard input and
-- the Unicode functions of str are the record Shell of Cli.Errors.
--
-- Solana holds what the crates use of the Solana SDK. A program's run is its outcome together with
-- the log lines and CPI calls that it leaves behind, in order; what a CPI answers is given by the
-- record Runtime. Verifier is programs/vaa-verifier-example/src/lib.rs and Emitter is
-- programs/message-emitter-example/src/lib.rs, each with its client's instruction builders. The
-- addresses and derivations that they take from other crates are VerifierDeps and EmitterDeps.
--
-- Capture is the part of crates/wormhole-svm-test/src/litesvm.rs that parses the calls and events
-- of posted messages and pairs them (from PostMessageData to extract_posted_message_info_from_tx);
-- its Reading has the layouts that the two parsers read.
--
-- Submit is crates/wormhole-svm-submit/src: Connection is the trait of connection.rs, with all
-- that a connection talks to as a state that is passed along, and the entropy of `Keypair::new` in
-- it; Rpc is its implementation for the RPC client, with the client and base64 as the record
-- RpcClient; Protocol is the executor-account-resolver crate as a parameter, with the errors of
-- lib.rs, whose formatted messages are kept as the values that they print; Resolve is resolve.rs,
-- Execute is execute.rs, Signatures is signatures.rs (the shim's instruction encodings are the
-- record Shim), and Broadcast is `broadcast_vaa` of lib.rs. What is relied on of the signing of
-- transactions is SignsMatching of Execute.Signed, and of the signers in the shim's instructions
-- ShimDemands. The loop of resolve.rs is a recursion on the number of rounds that are left, which
-- starts from max_iterations, so that it needs no fuel beyond what the source itself counts. The
-- loops over signatures, guardians, groups, seeds, search paths and accounts recur on their lists
-- or counts.
--
-- LiteSvm is the rest of crates/wormhole-svm-test/src/litesvm.rs, with LiteSVM itself as the records
-- LiteSvm and Host: the connection over it; Checks, the signatures account, `with_posted_signatures`,
-- `with_vaa` and `with_vaa_unchecked`, where a closure is a function on the virtual machine and all
-- that is outside of it, and a clone is a run whose virtual machine is dropped; Modified, the VAAs
-- that `with_vaa` signs for its negative tests; Programs, where the binaries come from and how they
-- are loaded; Fixtures, the accounts of `setup_wormhole` and `read_emitter_sequence`. Submitting is
-- resolver.rs, the submission under these checks. What is relied on of LiteSVM's accounts is
-- KeepsAccounts. Agreement is about the two connections together. GuardianSet is about the data of
-- the guardian set's account, and its Verifies about the signatures that are checked against it,
-- with the recovery of a key from a signature, as secp256k1 documents it, as the record Recovery;
-- its Chosen is about VAAs that some of the set's guardians sign.
--
-- Workflow puts the parts together as crates/wormhole-svm-test/tests/verify_vaa_example.rs does. It
-- has the two closures that those tests hand to `with_vaa`; Running says what is relied on of the
-- virtual machine that runs the verifier program (RunsVerifier; its Admits are the transactions that
-- pass the machine's own checks), and Skipping and Verifying are
-- about `with_vaa` over the two closures. Emission is a transaction of emitter instructions and what
-- is read back from it, and Delivery follows such a message to the verifier program.
--
-- Examples has toy instances of the parameters, and runs of the code over them.
--
-- Not modelled: clap's parsing of the command line, what is printed to the standard error and the
-- exit code, the progress messages of `broadcast_vaa`, the choice at build time of the bundled
-- binaries (the record BundledFixtures has them or not), and of the tests their set-up of LiteSVM and
-- their assertions on fixed inputs, which say no more than a run at one input.
pub mod Prelude
pub mod Guardian
pub mod Vaa
pub mod Cli
pub mod Solana
pub mod Verifier
pub mod Emitter
pub mod Capture
pub mod Submit
pub mod LiteSvm
pub mod Workflow
pub mod Examples
