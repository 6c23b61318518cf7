-- ===== src/Submit/Resolve/Rounds.antt =====
-- The resolver loop as a relation on rounds.
use wormhole_svm_utils.Prelude.{
  ℕ, zero, suc, ◌+◌, ◌≤◌, ◌<◌, ◌↔◌, ◌≡◌, refl, sym, ap, ◌∙◌, subst, arith, List, [], map,
}
use wormhole_svm_utils.Prelude.{ok, err, panic, Result}
use wormhole_svm_utils.Prelude.Bytes.{Bytes}
use wormhole_svm_utils.Solana.{Pubkey, AccountMeta}
use wormhole_svm_utils.Submit.Connection.{Sdk, SolanaConnection}
use wormhole_svm_utils.Submit.Protocol.{
  Protocol, InstructionGroup, resolver_simulation, not_resolved,
}
use wormhole_svm_utils.Submit.Resolve.{ResolverResult, Step, finished, more, key_of, Failure, round}
use wormhole_svm_utils.Submit.Resolve.{add_missing, resolve_loop, resolve_execute_vaa_v1}

-- The four ways in which a round ends.
pub data Answer {X T : Type 0} (p : Result X Step × T) : Type 0 where
  finishes : (groups : List InstructionGroup) (t : T) → p ≡ (ok (finished groups), t) → Answer p
  asks : (keys : List Pubkey) (t : T) → p ≡ (ok (more keys), t) → Answer p
  fails : (x : X) (t : T) → p ≡ (err x, t) → Answer p
  panics : (t : T) → p ≡ (panic, t) → Answer p

pub answer : {X T : Type 0} (p : Result X Step × T) → Answer p
answer (ok (finished groups), t) = finishes groups t refl
answer (ok (more keys), t) = asks keys t refl
answer (err x, t) = fails x t refl
answer (panic, t) = panics t refl

module _ (P : Protocol) {S : Sdk} (W : SolanaConnection S) (program_id : Pubkey) (payer : S.Keypair)
    (vaa_body : Bytes) (guardian_set : Pubkey) where
  abbrev pub Outcome : Type 0 → Type 0
  Outcome A = Result (Failure P W program_id payer vaa_body guardian_set) A × W.State

  abbrev returned : ResolverResult → W.State → Outcome ResolverResult
  returned r t = (ok r, t)

  abbrev pub round' : ℕ → List AccountMeta → W.State → Outcome Step
  round' = round P W program_id payer vaa_body guardian_set

  abbrev pub added : List AccountMeta → List Pubkey → List AccountMeta
  added = add_missing P W program_id payer vaa_body guardian_set

  abbrev pub loop : ℕ → ℕ → ℕ → List AccountMeta → W.State → Outcome ResolverResult
  loop = resolve_loop P W program_id payer vaa_body guardian_set

  -- Rounds from number `i` with the accounts `rem`, up to the one that is answered with a result.
  pub data Resolves : ℕ → List AccountMeta → W.State → ResolverResult → W.State → Type 0 where
    last :
        {i : ℕ} {rem : List AccountMeta} {s s' : W.State} (groups : List InstructionGroup)
        → round' i rem s ≡ (ok (finished groups), s')
        → Resolves i rem s (record { instruction_groups = groups; iterations = i }) s'
    again :
        {i : ℕ} {rem : List AccountMeta} {s t s' : W.State} {r : ResolverResult}
        (keys : List Pubkey)
        → round' i rem s ≡ (ok (more keys), t)
        → Resolves (i + 1) (added rem keys) t r s'
        → Resolves i rem s r s'

  -- `n` rounds from number `i` on, all answered with more accounts.
  pub data Asks : ℕ → ℕ → List AccountMeta → W.State → List AccountMeta → W.State → Type 0 where
    none_left : {i : ℕ} {rem : List AccountMeta} {s : W.State} → Asks zero i rem s rem s
    one :
        {n i : ℕ} {rem rem' : List AccountMeta} {s t s' : W.State} (keys : List Pubkey)
        → round' i rem s ≡ (ok (more keys), t)
        → Asks n (i + 1) (added rem keys) t rem' s'
        → Asks (suc n) i rem s rem' s'

  module _ (left max i : ℕ) (rem : List AccountMeta) (s t : W.State) where
    pub loop_finished :
        (groups : List InstructionGroup)
        → round' i rem s ≡ (ok (finished groups), t)
        → loop (suc left) max i rem s
          ≡ (ok (record { instruction_groups = groups; iterations = i }), t)
    unfolding resolve_loop
    loop_finished groups e = rw e

    pub loop_more :
        (keys : List Pubkey)
        → round' i rem s ≡ (ok (more keys), t)
        → loop (suc left) max i rem s ≡ loop left max (i + 1) (added rem keys) t
    unfolding resolve_loop
    loop_more keys e = rw e

    pub loop_failed :
        (x : Failure P W program_id payer vaa_body guardian_set)
        → round' i rem s ≡ (err x, t)
        → loop (suc left) max i rem s ≡ (err x, t)
    unfolding resolve_loop
    loop_failed x e = rw e

    pub loop_panicked : round' i rem s ≡ (panic, t) → loop (suc left) max i rem s ≡ (panic, t)
    unfolding resolve_loop
    loop_panicked e = rw e

  pub loop-zero :
      (max i : ℕ) (rem : List AccountMeta) (s : W.State)
      → loop zero max i rem s ≡ (err (resolver_simulation (not_resolved max (map key_of rem))), s)
  unfolding resolve_loop
  loop-zero max i rem s = refl

  abbrev iterations_of : Outcome ResolverResult → ℕ
  iterations_of (ok r, s) = r.iterations
  iterations_of (err x, s) = 0
  iterations_of (panic, s) = 0

  module _ (i : ℕ) (rem : List AccountMeta) (s : W.State) where
    abbrev Given : Outcome ResolverResult → Type 0
    Given (ok r, s') = Resolves i rem s r s'
    Given (err x, s') = Unit
    Given (panic, s') = Unit

  module _ {i : ℕ} {t s' : W.State} {r : ResolverResult} (groups : List InstructionGroup) where
    last_at :
        {rem : List AccountMeta} {s : W.State}
        → returned (record { instruction_groups = groups; iterations = i }) t ≡ returned r s'
        → round' i rem s ≡ (ok (finished groups), t)
        → Resolves i rem s r s'
    last_at {rem = rem} {s = s} same e =
        subst (λ (p : Outcome ResolverResult). Given i rem s p) same (last groups e)

    iterations-ok :
        returned (record { instruction_groups = groups; iterations = i }) t ≡ returned r s'
        → r.iterations ≡ i
    iterations-ok same = ap iterations_of (sym same)

  Resolves-from :
      {i : ℕ} {rem : List AccountMeta} {s s' : W.State} {r : ResolverResult}
      → Resolves i rem s r s'
      → i ≤ r.iterations
  Resolves-from (last groups e) = omega arith
  Resolves-from (again keys e rest) = let from = Resolves-from rest in omega arith

  loop_sound :
      (left max i : ℕ) (rem : List AccountMeta) (s s' : W.State) (r : ResolverResult)
      → loop left max i rem s ≡ (ok r, s')
      → Resolves i rem s r s' × (r.iterations < i + left)
  loop_sound zero max i rem s s' r h = cc (loop-zero max i rem s)
  loop_sound (suc left) max i rem s s' r h = elim (answer (round' i rem s)) [
    | finishes groups t e ↦
        let same = sym (loop_finished left max i rem s t groups e) ∙ h in
        let number = iterations-ok groups same in (last_at groups same e, omega arith)
    | asks keys t e ↦
        let (rounds, bound) =
          loop_sound left max (i + 1) (added rem keys) t s' r
            (rw (loop_more left max i rem s t keys e) at h) in
        (again keys e rounds, omega arith)
    | fails x t e ↦ cc (loop_failed left max i rem s t x e)
    | panics t e ↦ cc (loop_panicked left max i rem s t e)
  ]

  loop_complete :
      (left max : ℕ) {i : ℕ} {rem : List AccountMeta} {s s' : W.State} {r : ResolverResult}
      → Resolves i rem s r s'
      → r.iterations < i + left
      → loop left max i rem s ≡ (ok r, s')
  loop_complete zero max rounds h = let from = Resolves-from rounds in absurd (omega arith)
  loop_complete (suc left) max (last groups e) h = loop_finished left max _ _ _ _ groups e
  loop_complete (suc left) max (again keys e rest) h =
      loop_more left max _ _ _ _ keys e ∙ loop_complete left max rest (omega arith)

  loop-Asks :
      (left max : ℕ) {i : ℕ} {rem rem' : List AccountMeta} {s s' : W.State}
      → Asks left i rem s rem' s'
      → loop left max i rem s ≡ (err (resolver_simulation (not_resolved max (map key_of rem'))), s')
  loop-Asks zero max none_left = loop-zero max _ _ _
  loop-Asks (suc left) max (one keys e rest) =
      loop_more left max _ _ _ _ keys e ∙ loop-Asks left max rest

  abbrev resolve : ℕ → W.State → Outcome ResolverResult
  resolve = resolve_execute_vaa_v1 P W program_id payer vaa_body guardian_set

  -- `resolve_execute_vaa_v1` returns a result exactly where rounds lead to it, from round 1 and no
  -- accounts, each but the last answered with more accounts, and their number is within
  -- `max_iterations`; the result holds the groups of the last round and its number.
  pub resolve_execute_vaa_v1-Resolves :
      (max_iterations : ℕ) (s s' : W.State) (r : ResolverResult)
      → (resolve max_iterations s ≡ (ok r, s'))
        ↔ (Resolves 1 [] s r s' × (r.iterations ≤ max_iterations))
  unfolding resolve_execute_vaa_v1
  resolve_execute_vaa_v1-Resolves max_iterations s s' r = (
    λ h.
        let (rounds, bound) = loop_sound max_iterations max_iterations 1 [] s s' r h in
        (rounds, omega arith),
    λ (rounds, bound). loop_complete max_iterations max_iterations rounds (omega arith),
  )

  -- If the first `max_iterations` rounds are all answered with more accounts,
  -- `resolve_execute_vaa_v1` runs just these and fails, with the number of rounds and the keys of
  -- all the accounts added so far in the message.
  pub resolve_execute_vaa_v1-Asks :
      (max_iterations : ℕ) (s s' : W.State) (remaining_accounts : List AccountMeta)
      → Asks max_iterations 1 [] s remaining_accounts s'
      → resolve max_iterations s ≡ (
        err (resolver_simulation (not_resolved max_iterations (map key_of remaining_accounts))),
        s',
      )
  unfolding resolve_execute_vaa_v1
  resolve_execute_vaa_v1-Asks max_iterations s s' remaining_accounts rounds =
      loop-Asks max_iterations max_iterations rounds
