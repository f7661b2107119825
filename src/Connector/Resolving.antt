-- ===== src/Connector/Resolving.antt =====
-- What resolve_routine brings about.
use stream_client.Common.{
  ◌≡◌, refl, ap, ◌∙◌, ◌⊎◌, inl, inr, true, false, not, List, [], ◌∷◌, ◌++◌, arith, if◌then◌else◌,
  Bool-cases, ◌||◌,
}
use stream_client.ErrorCode.{success, failed}
use stream_client.Connector.Defs.{
  Connector, Action, sets_error, takes_up, updates, notifies_done, notifies_needed, act, act_all,
  RoundEnv, after_resolve, resolve_round, resolve_routine,
}

module _ {E : Type 0} where
  -- What clients do to a connector: they ask for endpoints.
  abbrev pub AreClients : List (Action E) → Type 0
  AreClients [] = Unit
  AreClients (notifies_needed ∷ as_) = AreClients as_
  AreClients (_ ∷ as_) = ⊥

  abbrev pub AllRounds : List (RoundEnv E) → Type 0
  AllRounds [] = Unit
  AllRounds (env ∷ envs) = AreClients env.before × AllRounds envs

  -- Endpoints are there, or the thread has a reason to resolve.
  abbrev pub IsLive : Connector E → Type 0
  IsLive c = (c.resolve_done ≡ true) ⊎ (c.resolve_needed ≡ true)

  -- Clients change nothing but the flag that asks for endpoints, and that only to true.
  pub clients-act_all :
      (as_ : List (Action E)) (c : Connector E)
      → AreClients as_
      → (act_all as_ c ≡ c) ⊎ (act_all as_ c ≡ record c { resolve_needed = true })
  unfolding act_all act
  clients-act_all [] c h = inl refl
  clients-act_all (notifies_needed ∷ as_) c h =
      elim (clients-act_all as_ (record c { resolve_needed = true }) h) [
        | inl e ↦ inr e
        | inr e ↦ inr e
      ]
  clients-act_all (sets_error err ∷ as_) c h = absurd h
  clients-act_all (takes_up ∷ as_) c h = absurd h
  clients-act_all (updates es ∷ as_) c h = absurd h
  clients-act_all (notifies_done ∷ as_) c h = absurd h

  clients-IsLive :
      (as_ : List (Action E)) (c : Connector E) → AreClients as_ → IsLive c → IsLive (act_all as_ c)
  clients-IsLive as_ c h live = elim (clients-act_all as_ c h) [
    | inl e ↦ rw e live
    | inr e ↦ inr (ap (λ x. x.resolve_needed) e)
  ]

  clients-needed :
      (as_ : List (Action E)) (c : Connector E)
      → AreClients as_
      → c.resolve_needed ≡ true
      → (act_all as_ c).resolve_needed ≡ true
  clients-needed as_ c h needed = elim (clients-act_all as_ c h) [
    | inl e ↦ ap (λ x. x.resolve_needed) e ∙ needed
    | inr e ↦ ap (λ x. x.resolve_needed) e
  ]

  -- What a round leaves of the connector that it finds.
  abbrev resolved_by : RoundEnv E → Connector E → Connector E
  resolved_by env c =
      if not env.locked || not c.resolve_needed
      then c
      else if failed env.resolve_ec
      then record c { resolve_error = env.resolve_ec }
      else record {
        endpoints = env.resolved;
        resolve_error = env.resolve_ec;
        resolve_needed = false;
        resolve_done = true;
      }

  resolve_round_lem :
      (env : RoundEnv E) (c : Connector E)
      → resolve_round env c ≡ resolved_by env (act_all env.before c)
  unfolding resolve_round after_resolve act_all act
  resolve_round_lem env c = elim (Bool-cases (failed env.resolve_ec)) [
    | inl e ↦ rw e
    | inr e ↦ rw e
  ]

  resolved_by-IsLive : (env : RoundEnv E) (c : Connector E) → IsLive c → IsLive (resolved_by env c)
  resolved_by-IsLive env c live = ground arith

  resolve_round-IsLive :
      (env : RoundEnv E) (c : Connector E)
      → AreClients env.before
      → IsLive c
      → IsLive (resolve_round env c)
  resolve_round-IsLive env c h live =
      rw (resolve_round_lem env c)
        (resolved_by-IsLive env (act_all env.before c) (clients-IsLive env.before c h live))

  -- If other threads only ask for endpoints, then through all rounds of resolve_routine a connector
  -- whose endpoints are there or wanted stays such: the thread never stops before the first
  -- success.
  pub resolve_routine-IsLive :
      (envs : List (RoundEnv E)) (c : Connector E)
      → AllRounds envs
      → IsLive c
      → IsLive (resolve_routine envs c)
  unfolding resolve_routine
  resolve_routine-IsLive [] c h live = live
  resolve_routine-IsLive (env ∷ envs) c h live = ground (
    arith,
    resolve_routine-IsLive envs (resolve_round env c) h.1 (resolve_round-IsLive env c h.0 live),
  )

  -- Rounds that do not get the lock, or whose resolve() fails.
  abbrev pub AllFail : List (RoundEnv E) → Type 0
  AllFail [] = Unit
  AllFail (env ∷ envs) =
      ((env.running ≡ true) × ((env.locked ≡ false) ⊎ (failed env.resolve_ec ≡ true)))
      × AllFail envs

  fails-needed :
      (env : RoundEnv E) (c : Connector E)
      → AreClients env.before
      → (env.locked ≡ false) ⊎ (failed env.resolve_ec ≡ true)
      → c.resolve_needed ≡ true
      → (resolve_round env c).resolve_needed ≡ true
  fails-needed env c h bad needed =
      rw (resolve_round_lem env c) (ground (arith, clients-needed env.before c h needed))

  -- If endpoints are wanted and other threads only ask for more, then rounds that miss the lock or
  -- fail to resolve, followed by one that gets the lock and resolves, leave exactly the new
  -- endpoints, no error and no wish for others.
  pub resolve_routine-recovers :
      (envs : List (RoundEnv E)) (good : RoundEnv E) (c : Connector E)
      → AllRounds envs
      → AllFail envs
      → AreClients good.before
      → good.running ≡ true
      → good.locked ≡ true
      → good.resolve_ec ≡ success
      → c.resolve_needed ≡ true
      → resolve_routine (envs ++ good ∷ []) c ≡ record {
        endpoints = good.resolved;
        resolve_error = success;
        resolve_needed = false;
        resolve_done = true;
      }
  unfolding resolve_routine
  resolve_routine-recovers [] good c h bad k running locked fine needed =
      rw running
        (resolve_round_lem good c ∙ rw (clients-needed good.before c k needed, locked, fine))
  resolve_routine-recovers (env ∷ envs) good c h bad k running locked fine needed = rw bad.0.0 (
      resolve_routine-recovers envs good (resolve_round env c) h.1 bad.1 k running locked fine
        (fails-needed env c h.0 bad.0.1 needed))
