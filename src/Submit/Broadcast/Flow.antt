-- ===== src/Submit/Broadcast/Flow.antt =====
-- `broadcast_vaa`: the ways through its flow, and what each has done.
use wormhole_svm_utils.Prelude.{
  ℕ, ◌≡◌, ◌≢◌, ◌↔◌, ◌⊎◌, inl, inr, Bool-cases, subst, refl, sym, ap, ◌∙◌,
}
use wormhole_svm_utils.Prelude.{true, false, List, Result, ok, err, panic}
use wormhole_svm_utils.Prelude.Bytes.{Bytes, to_be_bytes}
use wormhole_svm_utils.Solana.{Pubkey}
use wormhole_svm_utils.Submit.Connection.{Sdk, SolanaConnection, ends, returned, failed, panicked}
use wormhole_svm_utils.Submit.Protocol.{Protocol, execution, shim_not_used}
use wormhole_svm_utils.Submit.Resolve.{ResolverResult, resolve_execute_vaa_v1}
use wormhole_svm_utils.Submit.Execute.{execute_instruction_groups}
use wormhole_svm_utils.Submit.Signatures.{Shim, PostedSignatures, post_signatures, close_signatures}
use wormhole_svm_utils.Submit.Broadcast.{
  Definitions, Failure, max_resolver_iterations, uses_shim, broadcast_resolved, broadcast_vaa,
}

module _ (P : Protocol) (D : Definitions) (shim : Shim) {S : Sdk} (W : SolanaConnection S)
    (payer : S.Keypair) (program_id : Pubkey) (guardian_set_index : ℕ) (vaa_body : Bytes)
    (guardian_signatures : List Bytes) (core_bridge : Pubkey) where
  abbrev Outcome : Type 0 → Type 0
  Outcome A = Result (Failure P D shim W) A × W.State

  abbrev pub guardian_set : Pubkey
  guardian_set = (D.find_guardian_set_address (to_be_bytes 4 guardian_set_index) core_bridge).0

  abbrev pub resolving : W.State → Outcome ResolverResult
  resolving =
      resolve_execute_vaa_v1 P W program_id payer vaa_body guardian_set max_resolver_iterations

  abbrev pub posting : W.State → Outcome (PostedSignatures S)
  posting =
      post_signatures shim W payer D.verify_vaa_shim_program_id guardian_set_index
        guardian_signatures

  abbrev pub executing : ResolverResult → PostedSignatures S → W.State → Outcome (List S.Signature)
  executing resolved posted =
      execute_instruction_groups P W payer resolved.instruction_groups posted.pubkey guardian_set

  abbrev pub closing : PostedSignatures S → W.State → Outcome (Unit {0})
  closing posted = close_signatures shim W payer D.verify_vaa_shim_program_id posted.pubkey

  abbrev pub broadcast : W.State → Outcome (List S.Signature)
  broadcast =
      broadcast_vaa P D shim W payer program_id guardian_set_index vaa_body guardian_signatures
        core_bridge

  -- The signatures account was posted at `t`, the groups were executed, with the result `r`, and
  -- the account was closed or failed to close after them.
  pub record Ran (resolved : ResolverResult) (t : W.State)
      (r : Result (Failure P D shim W) (List S.Signature)) (s' : W.State) : Type 0 where
    pub posted : PostedSignatures S
    pub after_post : W.State
    pub after_execution : W.State
    pub close_result : Result (Failure P D shim W) (Unit {0})
    pub posts : posting t ≡ (ok posted, after_post)
    pub executes : executing resolved posted after_post ≡ (r, after_execution)
    pub closes : closing posted after_execution ≡ (close_result, s')
    pub close_returns : close_result ≢ panic

  pub data Broadcasts (s : W.State)
      : Result (Failure P D shim W) (List S.Signature) → W.State → Type 0 where
    not_resolved :
        {e : Failure P D shim W} {s' : W.State}
        → resolving s ≡ (err e, s')
        → Broadcasts s (err e) s'
    shim_unused :
        {resolved : ResolverResult} {s' : W.State}
        → resolving s ≡ (ok resolved, s')
        → uses_shim P D shim W resolved.instruction_groups ≡ false
        → Broadcasts s (err (execution shim_not_used)) s'
    not_posted :
        {resolved : ResolverResult} {t s' : W.State} {e : Failure P D shim W}
        → resolving s ≡ (ok resolved, t)
        → uses_shim P D shim W resolved.instruction_groups ≡ true
        → posting t ≡ (err e, s')
        → Broadcasts s (err e) s'
    ran :
        {resolved : ResolverResult} {t s' : W.State}
        {r : Result (Failure P D shim W) (List S.Signature)}
        → resolving s ≡ (ok resolved, t)
        → uses_shim P D shim W resolved.instruction_groups ≡ true
        → Ran resolved t r s'
        → r ≢ panic
        → Broadcasts s r s'

  abbrev resolved_then : ResolverResult → W.State → Outcome (List S.Signature)
  resolved_then =
      broadcast_resolved P D shim W payer guardian_set_index guardian_signatures guardian_set

  broadcast-resolving :
      (s t : W.State) (resolved : ResolverResult)
      → resolving s ≡ (ok resolved, t)
      → broadcast s ≡ resolved_then resolved t
  unfolding broadcast_vaa
  broadcast-resolving s t resolved e = rw e

  broadcast-unresolved :
      (s t : W.State) (x : Failure P D shim W) → resolving s ≡ (err x, t) → broadcast s ≡ (err x, t)
  unfolding broadcast_vaa
  broadcast-unresolved s t x e = rw e

  resolved-unused :
      (t : W.State) (resolved : ResolverResult)
      → uses_shim P D shim W resolved.instruction_groups ≡ false
      → resolved_then resolved t ≡ (err (execution shim_not_used), t)
  unfolding broadcast_resolved
  resolved-unused t resolved f = rw (broadcast_resolved, f)

  module _ (t : W.State) (resolved : ResolverResult)
      (f : uses_shim P D shim W resolved.instruction_groups ≡ true) where
    resolved-not_posted :
        (e : Failure P D shim W) (s' : W.State)
        → posting t ≡ (err e, s')
        → resolved_then resolved t ≡ (err e, s')
    unfolding broadcast_resolved
    resolved-not_posted e s' g = rw (broadcast_resolved, f, g)

    resolved-Ran :
        (r : Result (Failure P D shim W) (List S.Signature)) (s' : W.State)
        → Ran resolved t r s'
        → r ≢ panic
        → resolved_then resolved t ≡ (r, s')
    unfolding broadcast_resolved
    resolved-Ran r s' m n = ran_end r m.close_result m.executes m.closes n m.close_returns
      where
        ran_end :
            (r : Result (Failure P D shim W) (List S.Signature))
            (c : Result (Failure P D shim W) (Unit {0}))
            → executing resolved m.posted m.after_post ≡ (r, m.after_execution)
            → closing m.posted m.after_execution ≡ (c, s')
            → r ≢ panic
            → c ≢ panic
            → resolved_then resolved t ≡ (r, s')
        ran_end (ok sigs) (ok _) h k n n' = rw (broadcast_resolved, f, m.posts, h, k)
        ran_end (ok sigs) (err _) h k n n' = rw (broadcast_resolved, f, m.posts, h, k)
        ran_end (err x) (ok _) h k n n' = rw (broadcast_resolved, f, m.posts, h, k)
        ran_end (err x) (err _) h k n n' = rw (broadcast_resolved, f, m.posts, h, k)
        ran_end panic c h k n n' = absurd (n refl)
        ran_end r panic h k n n' = absurd (n' refl)

  Broadcasts-broadcast :
      (s s' : W.State) (r : Result (Failure P D shim W) (List S.Signature))
      → Broadcasts s r s'
      → broadcast s ≡ (r, s')
  Broadcasts-broadcast s s' r (not_resolved {e = x} e) = broadcast-unresolved s s' x e
  Broadcasts-broadcast s s' r (shim_unused {resolved = resolved} e f) =
      broadcast-resolving s s' resolved e ∙ resolved-unused s' resolved f
  Broadcasts-broadcast s s' r (not_posted {resolved = resolved} {t = t} {e = x} e f g) =
      broadcast-resolving s t resolved e ∙ resolved-not_posted t resolved f x s' g
  Broadcasts-broadcast s s' r (ran {resolved = resolved} {t = t} e f m n) =
      broadcast-resolving s t resolved e ∙ resolved-Ran t resolved f r s' m n

  closed :
      {t t' t'' s' : W.State} {resolved : ResolverResult} {posted : PostedSignatures S}
      {r : Result (Failure P D shim W) (List S.Signature)}
      {c : Result (Failure P D shim W) (Unit {0})}
      → posting t ≡ (ok posted, t')
      → executing resolved posted t' ≡ (r, t'')
      → closing posted t'' ≡ (c, s')
      → c ≢ panic
      → Ran resolved t r s'
  closed g h k n = record {
    posted = _;
    after_post = _;
    after_execution = _;
    close_result = _;
    posts = g;
    executes = h;
    closes = k;
    close_returns = n;
  }

  abbrev Ended : W.State → Type 0
  Ended s =
      (r : Result (Failure P D shim W) (List S.Signature)) × (s' : W.State) × Broadcasts s r s'

  abbrev PanicsFrom : (W.State → Outcome (List S.Signature)) → W.State → Type 0
  PanicsFrom m s = (s' : W.State) × (m s ≡ (panic, s'))

  ran-cases :
      (s t t' : W.State) (resolved : ResolverResult) (posted : PostedSignatures S)
      → resolving s ≡ (ok resolved, t)
      → uses_shim P D shim W resolved.instruction_groups ≡ true
      → posting t ≡ (ok posted, t')
      → Ended s ⊎ PanicsFrom (resolved_then resolved) t
  unfolding broadcast_resolved
  ran-cases s t t' resolved posted e f g = elim (ends (executing resolved posted t')) [
    | panicked t'' h ↦ inr (t'', rw (broadcast_resolved, f, g, h))
    | returned sigs t'' h ↦ elim (ends (closing posted t'')) [
      | panicked s' k ↦ inr (s', rw (broadcast_resolved, f, g, h, k))
      | returned _ s' k ↦ inl (ok sigs, s', ran e f (closed g h k (λ p. cc)) (λ p. cc))
      | failed _ s' k ↦ inl (ok sigs, s', ran e f (closed g h k (λ p. cc)) (λ p. cc))
    ]
    | failed x t'' h ↦ elim (ends (closing posted t'')) [
      | panicked s' k ↦ inr (s', rw (broadcast_resolved, f, g, h, k))
      | returned _ s' k ↦ inl (err x, s', ran e f (closed g h k (λ p. cc)) (λ p. cc))
      | failed _ s' k ↦ inl (err x, s', ran e f (closed g h k (λ p. cc)) (λ p. cc))
    ]
  ]

  resolved-cases :
      (s t : W.State) (resolved : ResolverResult)
      → resolving s ≡ (ok resolved, t)
      → Ended s ⊎ PanicsFrom (resolved_then resolved) t
  unfolding broadcast_resolved
  resolved-cases s t resolved e =
      elim (Bool-cases (uses_shim P D shim W resolved.instruction_groups)) [
        | inr f ↦ inl (_, t, shim_unused e f)
        | inl f ↦ elim (ends (posting t)) [
          | returned posted t' g ↦ ran-cases s t t' resolved posted e f g
          | failed x t' g ↦ inl (err x, t', not_posted e f g)
          | panicked t' g ↦ inr (t', rw (broadcast_resolved, f, g))
        ]
      ]

  broadcast-cases : (s : W.State) → Ended s ⊎ PanicsFrom broadcast s
  unfolding broadcast_vaa
  broadcast-cases s = elim (ends (resolving s)) [
    | failed x t e ↦ inl (err x, t, not_resolved e)
    | panicked t e ↦ inr (t, rw e)
    | returned resolved t e ↦ elim (resolved-cases s t resolved e) [
      | inl d ↦ inl d
      | inr (s', h) ↦ inr (s', broadcast-resolving s t resolved e ∙ h)
    ]
  ]

  -- For an outcome that is not a panic: `broadcast_vaa` ends with it and a state exactly in these
  -- ways: resolving failed; the resolved instructions do not name the signatures account; posting
  -- the signatures failed; or they were posted, the groups were executed, and after that, whether
  -- the execution succeeded or failed, the account's closing was run, and the result is the
  -- execution's, whether or not the closing succeeded.
  pub broadcast_vaa-Broadcasts :
      (s s' : W.State) (r : Result (Failure P D shim W) (List S.Signature))
      → r ≢ panic
      → (broadcast s ≡ (r, s')) ↔ Broadcasts s r s'
  broadcast_vaa-Broadcasts s s' r n = (
    λ h. elim (broadcast-cases s) [
      | inl (r0, s0, m) ↦
          subst (λ (p : Outcome (List S.Signature)). Broadcasts s p.0 p.1)
            (sym (Broadcasts-broadcast s s0 r0 m) ∙ h) m
      | inr (s0, f) ↦ absurd (n (ap (λ (p : Outcome (List S.Signature)). p.0) (sym h ∙ f)))
    ],
    λ m. Broadcasts-broadcast s s' r m,
  )
