-- ===== src/Lease/Exclusion.antt =====
-- At most one token owns a lease.
use team5_ewaste_platform.Common.{
  ℕ, false, List, [], ◌∷◌, some, ◌≡◌, ◌≢◌, ◌∙◌, arith, Text, text_eq, text_eq_iff, text_eq_refl,
  All, Bool-cases, Option-cases, inl, inr, ◌<◌, ◌==◌,
}
use team5_ewaste_platform.Lease.{
  Redis, LeaseResult, LeaseCall, acquire_lease, renew_lease, release_lease, run_call, token_of,
  is_owner_of,
}

not_same : (s t : Text) → s ≢ t → text_eq s t ≡ false
not_same s t ne = elim (Bool-cases (text_eq s t)) [
  | inl e ↦ absurd (ne ((text_eq_iff s t).0 e))
  | inr e ↦ e
]

module _ {Server : Type 0} (r : Redis Server) where
  owner_lem :
      (s : Server) (owner token : Text)
      → r.get s ≡ some owner
      → is_owner_of r s token ≡ text_eq owner token
  owner_lem s owner token h = ground (arith, h)

  -- No call of another token changes the owner.
  call-keeps :
      (call : LeaseCall) (s : Server) (owner : Text)
      → r.get s ≡ some owner
      → owner ≢ token_of call
      → r.get (run_call r call s).1 ≡ some owner
  unfolding run_call acquire_lease renew_lease release_lease
  call-keeps (LeaseCall.acquire token ttl) s owner h ne = elim (Bool-cases (ttl == 0)) [
    | inl e ↦ ground (arith, e, h)
    | inr e ↦ ground (arith, e, h, r.set_nx-taken token owner ttl s h)
  ]
  call-keeps (LeaseCall.renew token ttl) s owner h ne =
      ground (arith, owner_lem s owner token h, not_same owner token ne, h)
  call-keeps (LeaseCall.release token) s owner h ne =
      ground (arith, owner_lem s owner token h, not_same owner token ne, h)

  unfoldable pub run_calls : List LeaseCall → Server → Server
  unfolding run_call
  run_calls [] s = s
  run_calls (call ∷ calls) s = run_calls calls (run_call r call s).1

  calls-keep :
      (calls : List LeaseCall) (s : Server) (owner : Text)
      → r.get s ≡ some owner
      → All (λ c. owner ≢ token_of c) calls
      → r.get (run_calls calls s) ≡ some owner
  unfolding run_calls
  calls-keep [] s owner h others = h
  calls-keep (call ∷ calls) s owner h others =
      calls-keep calls (run_call r call s).1 owner (call-keeps call s owner h others.0) others.1

  refused :
      (token owner : Text) (ttl : ℕ) (s : Server)
      → r.get s ≡ some owner
      → owner ≢ token
      → ((acquire_lease r token ttl s).0 ≢ LeaseResult.done)
        × ((renew_lease r token ttl s).0 ≢ LeaseResult.done)
  unfolding acquire_lease renew_lease
  refused token owner ttl s h ne = elim (Bool-cases (ttl == 0)) [
    | inl e ↦ ((λ k. ground (arith, e, k)), (λ k. ground (arith, e, k)))
    | inr e ↦ (
      (λ k. ground (arith, e, k, r.set_nx-taken token owner ttl s h)),
      (λ k. ground (arith, e, k, owner_lem s owner token h, not_same owner token ne)),
    )
  ]

  acquired-owner :
      (token : Text) (ttl : ℕ) (s : Server) {s' : Server}
      → acquire_lease r token ttl s ≡ (LeaseResult.done, s')
      → r.get s' ≡ some token
  unfolding acquire_lease
  acquired-owner token ttl s h = elim (Option-cases (r.get s)) [
    | inl free ↦ ground (arith, h, r.set_nx-free token ttl s free)
    | inr (owner, taken) ↦ absurd (ground (arith, h, r.set_nx-taken token owner ttl s taken))
  ]

-- A token that has acquired a lease owns it through every sequence of calls of other tokens, as long
-- as the key does not expire; meanwhile no other token acquires or renews it.
pub acquire_lease-exclusive :
    {Server : Type 0} (r : Redis Server) (token other : Text) (ttl ttl' : ℕ) (s s' : Server)
    (calls : List LeaseCall)
    → acquire_lease r token ttl s ≡ (LeaseResult.done, s')
    → All (λ c. token ≢ token_of c) calls
    → token ≢ other
    → (r.get (run_calls r calls s') ≡ some token)
      × ((acquire_lease r other ttl' (run_calls r calls s')).0 ≢ LeaseResult.done)
      × ((renew_lease r other ttl' (run_calls r calls s')).0 ≢ LeaseResult.done)
acquire_lease-exclusive r token other ttl ttl' s s' calls h others ne =
    let owned = calls-keep r calls s' token (acquired-owner r token ttl s h) others in
    let (no_acquire, no_renew) = refused r other token ttl' (run_calls r calls s') owned ne in
    (owned, no_acquire, no_renew)

-- Once its owner has released a lease, whoever asks for it with a positive time to live acquires it.
pub release_lease-acquire_lease :
    {Server : Type 0} (r : Redis Server) (token next : Text) (ttl : ℕ) (s : Server)
    → r.get s ≡ some token
    → 0 < ttl
    → ((acquire_lease r next ttl (release_lease r token s).1).0 ≡ LeaseResult.done)
      × (r.get (acquire_lease r next ttl (release_lease r token s).1).1 ≡ some next)
unfolding release_lease acquire_lease
release_lease-acquire_lease r token next ttl s h positive =
    let own = owner_lem r s token token h ∙ text_eq_refl token in
    let (set, now) = r.set_nx-free next ttl (r.del s) (r.get-del s) in
    (ground (arith, own, set), ground (arith, own, set, now))
