-- ===== src/Examples/Environment.antt =====
-- A toy LiteSVM, which answers as the toy connection does.
use wormhole_svm_utils.Prelude.{ℕ, ◌+◌, [], ◌∷◌, ◌++◌, some, ok}
use wormhole_svm_utils.LiteSvm.{LiteSvm}
use wormhole_svm_utils.Examples.Toy.{toy_sdk, Sent, answer_for}

abbrev pub toy_svm : LiteSvm toy_sdk
toy_svm = record {
  Svm = Sent;
  Entropy = ℕ;
  Failure = ℕ;
  latest_blockhash = λ svm. 1;
  simulate_transaction = λ tx svm. ok (answer_for tx.0, []);
  send_transaction = λ tx svm. (ok tt, svm ++ (tx ∷ []));
  first_signature = λ tx. some 2;
  get_account = λ k svm. some k;
  new_keypair = λ entropy. (100 + entropy, entropy + 1);
}
