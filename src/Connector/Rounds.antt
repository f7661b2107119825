-- ===== src/Connector/Rounds.antt =====
-- What the resolving thread does among the interleaved threads of a connector is what
-- resolve_routine of the model does in some rounds.
use stream_client.Common.{◌≡◌, refl, ◌∙◌, true, false, List, [], ◌∷◌, ◌++◌}
use stream_client.ErrorCode.{ErrorCode, success}
use stream_client.Connector.Defs.{
  Connector, Action, act_all, base_connector, RoundEnv, after_resolve, resolve_round,
  resolve_routine,
}
use stream_client.Connector.Resolving.{AreClients, AllRounds}

module _ {E : Type 0} where
  abbrev pub AllRunning : List (RoundEnv E) → Type 0
  AllRunning [] = Unit
  AllRunning (env ∷ envs) = (env.running ≡ true) × AllRunning envs

  -- Rounds of resolve_routine, beside which others only ask for endpoints, have made of a new
  -- connector what it is.
  pub record IsRounds (c : Connector E) : Type 0 where
    pub envs : List (RoundEnv E)
    pub running : AllRunning envs
    pub clients : AllRounds envs
    pub leads : resolve_routine envs base_connector ≡ c

  resolve_routine-append :
      (envs : List (RoundEnv E)) (env : RoundEnv E) (c : Connector E)
      → AllRunning envs
      → env.running ≡ true
      → resolve_routine (envs ++ env ∷ []) c ≡ resolve_round env (resolve_routine envs c)
  unfolding resolve_routine
  resolve_routine-append [] env c h running = rw running
  resolve_routine-append (env' ∷ envs) env c h running =
      rw h.0 (resolve_routine-append envs env (resolve_round env' c) h.1 running)

  AllRunning-append :
      (envs : List (RoundEnv E)) (env : RoundEnv E)
      → AllRunning envs
      → env.running ≡ true
      → AllRunning (envs ++ env ∷ [])
  AllRunning-append [] env h k = (k, tt)
  AllRunning-append (_ ∷ envs) env h k = (h.0, AllRunning-append envs env h.1 k)

  AllRounds-append :
      (envs : List (RoundEnv E)) (env : RoundEnv E)
      → AllRounds envs
      → AreClients env.before
      → AllRounds (envs ++ env ∷ [])
  AllRounds-append [] env h k = (k, tt)
  AllRounds-append (_ ∷ envs) env h k = (h.0, AllRounds-append envs env h.1 k)

  IsRounds-next :
      {c d : Connector E} (env : RoundEnv E)
      → env.running ≡ true
      → AreClients env.before
      → resolve_round env c ≡ d
      → IsRounds c
      → IsRounds d
  IsRounds-next env running clients e r = record {
    envs = r.envs ++ env ∷ [];
    running = AllRunning-append r.envs env r.running running;
    clients = AllRounds-append r.envs env r.clients clients;
    leads = resolve_routine-append r.envs env base_connector r.running running ∙ rw r.leads e;
  }

  -- A round that others' requests precede and that misses the lock, and one that resolves.
  missing : List (Action E) → RoundEnv E
  missing before = record {
    running = true;
    locked = false;
    before = before;
    resolve_ec = success;
    resolved = [];
  }

  resolving_round : ErrorCode → List E → RoundEnv E
  resolving_round ec es = record {
    running = true;
    locked = true;
    before = [];
    resolve_ec = ec;
    resolved = es;
  }

  pub IsRounds-asked :
      {c : Connector E} (as_ : List (Action E))
      → AreClients as_
      → IsRounds c
      → IsRounds (act_all as_ c)
  unfolding missing resolve_round
  IsRounds-asked as_ h r = IsRounds-next (missing as_) refl h refl r

  pub IsRounds-resolved :
      {c : Connector E} (ec : ErrorCode) (es : List E)
      → c.resolve_needed ≡ true
      → IsRounds c
      → IsRounds (act_all (after_resolve ec es) c)
  unfolding resolving_round resolve_round
  IsRounds-resolved {c} ec es needed r =
      IsRounds-next (resolving_round ec es) refl tt (resolves c needed) r
    where
      resolves :
          (c : Connector E)
          → c.resolve_needed ≡ true
          → resolve_round (resolving_round ec es) c ≡ act_all (after_resolve ec es) c
      resolves c needed = simp (resolve_round, act_all, needed)
