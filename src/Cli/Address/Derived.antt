-- ===== src/Cli/Address/Derived.antt =====
-- An address with a colon is the PDA that the command `pda` derives.
use wormhole_svm_utils.Prelude.{
  ℕ, ◌==◌, nat_eq, ==_iff, true, false, Bool-cases, inl, inr, ◌≡◌, refl, sym, ap, ◌∙◌, subst, arith,
  List, [], ◌∷◌, ◌++◌, length, All, Option-cases, Result, ok, err, panic, Result-cases, >>=-eq-err,
  suc, ltb_of_le,
}
use wormhole_svm_utils.Prelude.Bytes.{Bytes}
use wormhole_svm_utils.Solana.{Pubkey}
use wormhole_svm_utils.Cli.Errors.{
  Shell, CliError, invalid_program_id, invalid_pda_program_id, invalid_hex_seed,
}
use wormhole_svm_utils.Cli.Address.{
  has, split, strip_hex_prefix, seed_bytes, all_seed_bytes, parse_parts, parse_address, cmd_pda,
}

unfoldable pub join : ℕ → List Bytes → Bytes
join c [] = []
join c (part ∷ []) = part
join c (part ∷ next ∷ parts) = part ++ (c ∷ join c (next ∷ parts))

abbrev pub Lacks : ℕ → Bytes → Type 0
Lacks c part = has c part ≡ false

join-on_first :
    (c b : ℕ) (first : Bytes) (later : List Bytes)
    → join c ((b ∷ first) ∷ later) ≡ b ∷ join c (first ∷ later)
unfolding join
join-on_first c b first [] = refl
join-on_first c b first (next ∷ parts) = refl

-- The parts of a text: joined they give it back, none has a separator, and if there is but one then
-- the text has none.
record Parts (c : ℕ) (s : Bytes) : Type 0 where
  first : Bytes
  later : List Bytes
  splits : split c s ≡ first ∷ later
  joins : join c (first ∷ later) ≡ s
  lacking : All (Lacks c) (first ∷ later)
  single : later ≡ [] → has c s ≡ false

module _ (c b : ℕ) (s : Bytes) (p : Parts c s) where
  at_separator : (b == c) ≡ true → Parts c (b ∷ s)
  unfolding split join has
  at_separator e = record {
    first = [];
    later = p.first ∷ p.later;
    splits = rw (e, p.splits);
    joins =
        let same : b ≡ c = (==_iff b c).0 e in
        ap (λ (t : Bytes). c ∷ t) p.joins ∙ ap (λ (d : ℕ). d ∷ s) (sym same);
    lacking = (refl, p.lacking);
    single = λ h. cc;
  }

  in_part : (b == c) ≡ false → Parts c (b ∷ s)
  unfolding split has
  in_part e = record {
    first = b ∷ p.first;
    later = p.later;
    splits = rw (e, p.splits);
    joins = join-on_first c b p.first p.later ∙ ap (λ (t : Bytes). b ∷ t) p.joins;
    lacking = (rw (e, p.lacking.0), p.lacking.1);
    single = λ h. rw (e, p.single h);
  }

split-Parts : (c : ℕ) (s : Bytes) → Parts c s
unfolding split join has
split-Parts c [] = record {
  first = [];
  later = [];
  splits = refl;
  joins = refl;
  lacking = (refl, tt);
  single = λ h. refl;
}
split-Parts c (b ∷ s) = elim (Bool-cases (b == c)) [
  | inl e ↦ at_separator c b s (split-Parts c s) e
  | inr e ↦ in_part c b s (split-Parts c s) e
]

module _ {Keypair : Type 0} (Sh : Shell Keypair) (B R : Type 0) where
  -- The error of `parse_address` for that of `cmd_pda`.
  abbrev pub in_address : CliError Sh B R → CliError Sh B R
  in_address (invalid_program_id e) = invalid_pda_program_id e
  in_address e = e

  abbrev pub address_of : Result (CliError Sh B R) (Pubkey × ℕ) → Result (CliError Sh B R) Pubkey
  address_of (ok p) = ok p.0
  address_of (err e) = err (in_address e)
  address_of panic = panic

  seed_bytes-in_address :
      (s : Bytes) (x : CliError Sh B R) → seed_bytes Sh s ≡ err x → in_address x ≡ x
  unfolding seed_bytes
  seed_bytes-in_address s x h = elim (Option-cases (strip_hex_prefix s)) [
    | inl e ↦ let plain : ok s ≡ err x = sym (rw (seed_bytes, e)) ∙ h in cc
    | inr (hex_str, e) ↦ elim (Result-cases (Sh.hex_decode hex_str)) [
      | inl (bytes, g) ↦ let good : ok bytes ≡ err x = sym (rw (seed_bytes, e, g)) ∙ h in cc
      | inr (inr g) ↦ let stuck : panic ≡ err x = sym (rw (seed_bytes, e, g)) ∙ h in cc
      | inr (inl (y, g)) ↦
          let bad : err (invalid_hex_seed s y) ≡ err x = sym (rw (seed_bytes, e, g)) ∙ h in
          let same : invalid_hex_seed s y ≡ x = cc in
          subst (λ (x : CliError Sh B R). in_address x ≡ x) same refl
    ]
  ]

  all_seed_bytes-in_address :
      (seeds : List Bytes) (x : CliError Sh B R)
      → all_seed_bytes Sh seeds ≡ err x
      → in_address x ≡ x
  unfolding all_seed_bytes
  all_seed_bytes-in_address [] x h = cc
  all_seed_bytes-in_address (s ∷ seeds) x h = elim (>>=-eq-err (seed_bytes Sh s) _ h) [
    | inl e ↦ seed_bytes-in_address s x e
    | inr (bytes, e, k) ↦ elim (>>=-eq-err (all_seed_bytes Sh seeds) _ k) [
      | inl g ↦ all_seed_bytes-in_address seeds x g
      | inr (rest, g, m) ↦ cc
    ]
  ]

  parse_parts-cmd_pda :
      (program : Bytes) (seeds : List Bytes)
      → parse_parts Sh (program ∷ seeds) ≡ address_of (cmd_pda Sh program seeds)
  unfolding parse_parts cmd_pda
  parse_parts-cmd_pda program seeds = elim (Result-cases (Sh.pubkey_from_str program)) [
    | inr (inl (e, h)) ↦ rw h
    | inr (inr h) ↦ rw h
    | inl (program_id, h) ↦ elim (Result-cases (all_seed_bytes Sh {B = B} {R = R} seeds)) [
      | inl (slices, g) ↦ elim (Option-cases (Sh.find_program_address slices program_id)) [
        | inl found ↦ rw (h, g, found)
        | inr (pda, found) ↦ rw (h, g, found)
      ]
      | inr (inr g) ↦ rw (h, g)
      | inr (inl (x, g)) ↦ rw (h, g, all_seed_bytes-in_address seeds x g)
    ]
  ]

  two_parts :
      (address program seed : Bytes) (seeds : List Bytes)
      → has b':' address ≡ true
      → split b':' address ≡ program ∷ seed ∷ seeds
      → parse_address Sh {B = B} {R = R} address ≡ address_of (cmd_pda Sh program (seed ∷ seeds))
  unfolding parse_address
  two_parts address program seed seeds h e =
      rw (h, e, ltb_of_le (suc (suc (length seeds))) 2 (omega arith))
        (parse_parts-cmd_pda program (seed ∷ seeds))

  -- What an address says: a program and at least one seed, joined by colons, and none with a colon.
  pub record Addresses (address program seed : Bytes) (seeds : List Bytes) : Type 0 where
    pub joined : address ≡ join b':' (program ∷ seed ∷ seeds)
    pub parts : All (Lacks b':') (program ∷ seed ∷ seeds)
    pub derives :
        parse_address Sh {B = B} {R = R} address ≡ address_of (cmd_pda Sh program (seed ∷ seeds))

  split-Addresses :
      (address first : Bytes) (later : List Bytes)
      → has b':' address ≡ true
      → split b':' address ≡ first ∷ later
      → join b':' (first ∷ later) ≡ address
      → All (Lacks b':') (first ∷ later)
      → (later ≡ [] → has b':' address ≡ false)
      → (program : Bytes) × (seed : Bytes) × (seeds : List Bytes) × Addresses address program seed
          seeds
  split-Addresses address first [] h e j l one = let never = one refl in cc
  split-Addresses address first (seed ∷ seeds) h e j l one = (
    first,
    seed,
    seeds,
    record { joined = sym j; parts = l; derives = two_parts address first seed seeds h e },
  )

  -- An address with a colon is a program and at least one seed, without colons themselves and
  -- joined by colons, and `parse_address` gives the address that `cmd_pda` derives from these, with
  -- the same errors but for the message of an invalid program, and panics exactly where the
  -- derivation does.
  pub parse_address-cmd_pda :
      (address : Bytes)
      → has b':' address ≡ true
      → (program : Bytes) × (seed : Bytes) × (seeds : List Bytes) × Addresses address program seed
          seeds
  parse_address-cmd_pda address h =
      let p = split-Parts b':' address in
      split-Addresses address p.first p.later h p.splits p.joins p.lacking p.single
