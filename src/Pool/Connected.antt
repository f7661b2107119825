-- ===== src/Pool/Connected.antt =====
-- The pool with its connector: impl/connection_pool.ipp, where each attempt of the strategy is a
-- call of new_session of impl/connector.ipp.
use stream_client.Common.{
  ℕ, ◌≡◌, refl, ◌∙◌, ap, inl, inr, Bool, true, false, List, [], ◌∷◌, ◌++◌, ltb, if◌then◌else◌,
  is_empty, arith,
}
use mathlib.Core.List.{Permᴰ}
use mathlib.Core.List.Permᴰ.{nil, cons, swap, trans}
use stream_client.ErrorCode.{success, value}
use stream_client.Connector.Defs.{
  Connector, Action, Wake, SessionEnv, RoundEnv, base_connector, act_all, wait_done, try_endpoints,
  new_session, new_session_or_throw, session_or_throw, resolve_routine,
}
use stream_client.Connector.Resolving.{
  AreClients, clients-act_all, AllRounds, AllFail, resolve_routine-recovers,
}
use stream_client.Pool.Defs.{Pool}
use stream_client.Pool.Size.{pool_size}
use stream_client.Pool.Watch
use stream_client.Pool.Watch.{swept_size, watch_round}
use stream_client.Pool.Strategies.{greedy_strategy}
use stream_client.Pool.Fill.{greedy_round-fills}

shuffled : {A : Type 0} {xs ys : List A} → Permᴰ xs ys → is_empty xs ≡ false → is_empty ys ≡ false
shuffled nil h = h
shuffled (cons e p) h = refl
shuffled (swap e f) h = refl
shuffled (trans p q) h = shuffled q (shuffled p h)

-- A round that gets every lock and is alone with the pool.
pub record IsUndisturbed {S : Type 0} (env : Watch.RoundEnv S) : Type 0 where
  pub got_lock : env.locked ≡ true
  pub alone : env.between ≡ []
  pub alone_too : (i : ℕ) → (env.appends i).others ≡ []
  pub got_locks : (i : ℕ) → (env.appends i).locked ≡ true

module _ {E S : Type 0} (is_open : S → Bool) where
  -- A call of new_session that gets its lock while other threads only ask for endpoints, whose
  -- shuffle permutes, and to which every peer answers with an open session.
  pub record IsCall (call : SessionEnv E S) : Type 0 where
    pub gets_lock : call.locked ≡ true
    pub undisturbed : AreClients call.unlocked
    pub permutes : (es : List E) → Permᴰ es (call.shuffle_vector es)
    pub session_of : E → S
    pub answers : (peer : E) → call.connect peer ≡ value (session_of peer)
    pub answers_open : (peer : E) → is_open (session_of peer) ≡ true

  -- Endpoints are there.
  pub record IsResolved (c : Connector E) : Type 0 where
    pub done : c.resolve_done ≡ true
    pub some_endpoints : is_empty c.endpoints ≡ false

  wait_done-at_once :
      (wakes : List (Wake E)) (c : Connector E)
      → c.resolve_done ≡ true
      → wait_done wakes c ≡ (c, true)
  unfolding wait_done
  wait_done-at_once [] c h = rw h
  wait_done-at_once (w ∷ ws) c h = rw h

  clients-endpoints :
      (as_ : List (Action E)) (c : Connector E)
      → AreClients as_
      → (act_all as_ c).endpoints ≡ c.endpoints
  clients-endpoints as_ c h = elim (clients-act_all as_ c h) [
    | inl e ↦ ap (λ x. x.endpoints) e
    | inr e ↦ ap (λ x. x.endpoints) e
  ]

  try_endpoints-connects :
      (call : SessionEnv E S) (is : IsCall call) (es : List E) (c : Connector E)
      → is_empty es ≡ false
      → (s : S) × (session_or_throw
            (try_endpoints call.connect call.connecting es success c).1
            (try_endpoints call.connect call.connecting es success c).2
          ≡ value s)
        × (is_open s ≡ true)
  unfolding try_endpoints session_or_throw
  try_endpoints-connects call is [] c h = absurd (ground arith)
  try_endpoints-connects call is (peer ∷ rest) c h =
      (is.session_of peer, rw (is.answers peer, try_endpoints), is.answers_open peer)

  new_session-connects :
      (call : SessionEnv E S) (c : Connector E)
      → IsCall call
      → IsResolved c
      → (s : S) × ((new_session_or_throw call c).1 ≡ value s) × (is_open s ≡ true)
  unfolding new_session_or_throw new_session
  new_session-connects call c is resolved =
      rw (is.gets_lock, wait_done-at_once call.wakes c resolved.done)
        (try_endpoints-connects call is (call.shuffle_vector (act_all call.unlocked c).endpoints)
          (act_all call.unlocked c)
          (shuffled (is.permutes (act_all call.unlocked c).endpoints)
            (rw (clients-endpoints call.unlocked c is.undisturbed) resolved.some_endpoints)))

  -- A new connector whose thread misses locks or fails to resolve for some rounds and then resolves
  -- some endpoints, all of which answer with open sessions, fills a pool: if every call of
  -- new_session gets its lock and permutes the endpoints, other threads only ask for endpoints, and
  -- the watcher gets its locks and is alone with the pool, then a round of the greedy strategy
  -- leaves pool_max_size sessions where the sweep leaves fewer, and otherwise what the sweep
  -- leaves.
  pub greedy_round-connects :
      (failing : List (RoundEnv E)) (good : RoundEnv E) (calls : ℕ → SessionEnv E S)
      (env : Watch.RoundEnv S) (p : Pool S)
      → AllRounds failing
      → AllFail failing
      → AreClients good.before
      → good.running ≡ true
      → good.locked ≡ true
      → good.resolve_ec ≡ success
      → is_empty good.resolved ≡ false
      → ((i : ℕ) → IsCall (calls i))
      → env.refilling.new_session ≡ (λ i.
        (new_session_or_throw (calls i) (resolve_routine (failing ++ good ∷ []) base_connector)).1)
      → IsUndisturbed env
      → let left = swept_size env.now p in
        pool_size (watch_round (greedy_strategy S) is_open env (tt, p)).1
        ≡ (if ltb left p.pool_max_size then p.pool_max_size else left)
  unfolding base_connector
  greedy_round-connects failing good calls env p all bad clients running locked fine found willing
        dials quiet =
      greedy_round-fills is_open env p (record {
        got_lock = quiet.got_lock;
        alone = quiet.alone;
        alone_too = quiet.alone_too;
        got_locks = quiet.got_locks;
        given = λ i. (connected i).0;
        connects = λ i. ap (λ f. f i) dials ∙ (connected i).1;
        opens = λ i. (connected i).2;
      })
    where
      connector : Connector E
      connector = resolve_routine (failing ++ good ∷ []) base_connector

      is_resolved : IsResolved connector
      is_resolved =
          let e =
            resolve_routine-recovers failing good base_connector all bad clients running locked fine
              refl in
          record {
            done = ap (λ c. c.resolve_done) e;
            some_endpoints = ap (λ c. is_empty c.endpoints) e ∙ found;
          }

      connected :
          (i : ℕ)
          → (s : S) × ((new_session_or_throw (calls i) connector).1 ≡ value s) × (is_open s ≡ true)
      connected i = new_session-connects (calls i) connector (willing i) is_resolved
