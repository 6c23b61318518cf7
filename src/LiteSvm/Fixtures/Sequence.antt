-- ===== src/LiteSvm/Fixtures/Sequence.antt =====
-- The sequence number that is read for an emitter.
use wormhole_svm_utils.Prelude.{
  ℕ, ◌<◌, ◌^◌, ◌≡◌, sym, ap, ◌∙◌, arith, ◌++◌, length, Option, none, some, leb, leb→le, take, drop,
  length-take, take-append-drop, Bool-cases, inl, inr, zero, suc, [], ◌∷◌,
}
use wormhole_svm_utils.Prelude.Bytes.{
  Bytes, to_le_bytes, from_le_bytes, AreBytes, from_le_bytes-lt, to_le_bytes-from_le_bytes,
}
use wormhole_svm_utils.Prelude.Windows.{window}
use wormhole_svm_utils.Solana.{Pubkey}
use wormhole_svm_utils.Submit.Connection.{Sdk}
use wormhole_svm_utils.LiteSvm.{LiteSvm}
use wormhole_svm_utils.LiteSvm.Host.{Host}
use wormhole_svm_utils.LiteSvm.Mainnet.{Mainnet}
use wormhole_svm_utils.LiteSvm.Fixtures.{sequence_of, read_emitter_sequence}

-- What is read from an account's data: none where they have less than 8 bytes, and else the u64
-- whose little-endian bytes they begin with.
pub data Reads (contents : Bytes) (o : Option ℕ) : Type 0 where
  too_short : length contents < 8 → o ≡ none → Reads contents o
  reads :
      (n : ℕ) (rest : Bytes)
      → n < 2 ^ 64
      → contents ≡ to_le_bytes 8 n ++ rest
      → o ≡ some n
      → Reads contents o

take-AreBytes : (k : ℕ) (bs : Bytes) → AreBytes bs → AreBytes (take k bs)
take-AreBytes zero bs h = tt
take-AreBytes (suc k) [] h = tt
take-AreBytes (suc k) (b ∷ bs) (hb, h) = (hb, take-AreBytes k bs h)

module _ (M : Mainnet) {S : Sdk} {L : LiteSvm S} (H : Host L)
    (find_emitter_sequence_address : Pubkey → Pubkey → Pubkey × ℕ) (svm : L.Svm) (emitter : Pubkey)
    (account : S.Account)
    (there : L.get_account (find_emitter_sequence_address emitter M.core_bridge_program_id).0 svm
      ≡ some account) where
  abbrev sequence : Option ℕ
  sequence = read_emitter_sequence M H find_emitter_sequence_address svm emitter

  -- If an account of bytes stands at the emitter's sequence address, then `read_emitter_sequence`
  -- reads none where its data have less than 8 bytes, and else the u64 whose little-endian bytes
  -- the data begin with.
  pub read_emitter_sequence-Reads :
      AreBytes (H.account_data account) → Reads (H.account_data account) sequence
  unfolding read_emitter_sequence sequence_of window
  read_emitter_sequence-Reads h =
      let contents = H.account_data account in
      elim (Bool-cases (leb 8 (length contents))) [
        | inr short ↦ too_short (ground arith) (rw (there, sequence_of, short))
        | inl long ↦
            let size : length (take 8 contents) ≡ 8 =
              omega (arith, length-take 8 contents, leb→le 8 (length contents) long) in
            let word = take-AreBytes 8 contents h in
            reads (from_le_bytes (take 8 contents)) (drop 8 contents)
              (rw size at (from_le_bytes-lt (take 8 contents) word))
              (sym (take-append-drop 8 contents)
                ∙ ap (λ (bs : Bytes). bs ++ drop 8 contents)
                    (sym (rw size at (to_le_bytes-from_le_bytes (take 8 contents) word))))
              (rw (there, sequence_of, long))
      ]
