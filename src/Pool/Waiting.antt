-- ===== src/Pool/Waiting.antt =====
-- get_session of impl/connection_pool.ipp against try_get_session: when its wait takes effect.
use stream_client.Common.{
  ◌≡◌, refl, sym, none, ap, ◌∙◌, inl, inr, Bool, true, false, List, [], ◌∷◌, ◌++◌, if◌then◌else◌,
  is_empty, Bool-cases,
}
use mathlib.Core.List.{append_assoc}
use stream_client.ErrorCode.{ErrorCode, not_found}
use stream_client.Pool.Defs.{
  Pool, Action, Wake, act_all, wait_until, ensure_session, take_front, get_session, try_get_session,
}
use stream_client.Pool.Take.{get_session-locked}

module _ {S : Type 0} where
  -- What other threads do during a wait that is never cut short.
  abbrev pub all_others : List (Wake S) → List (Action S)
  all_others [] = []
  all_others (w ∷ ws) = w.others ++ all_others ws

  act_all-append :
      (as_ bs : List (Action S)) (p : Pool S) → act_all (as_ ++ bs) p ≡ act_all bs (act_all as_ p)
  unfolding act_all
  act_all-append [] bs p = refl
  act_all-append (a ∷ as_) bs p = act_all-append as_ bs _

  -- A wait sees an initial part of what the others do.
  wait_until-prefix :
      (wakes : List (Wake S)) (p : Pool S)
      → (seen : List (Action S)) × (unseen : List (Action S)) × (all_others wakes ≡ seen ++ unseen)
        × ((wait_until wakes p).0 ≡ act_all seen p)
  unfolding wait_until act_all
  wait_until-prefix [] p = ([], [], refl, refl)
  wait_until-prefix (w ∷ ws) p =
      let after = act_all w.others p in
      elim (Bool-cases (is_empty p.sesson_pool)) [
        | inr some_there ↦ ([], all_others (w ∷ ws), refl, rw some_there)
        | inl empty ↦ elim (Bool-cases w.expired) [
          | inl over ↦ (w.others, all_others ws, refl, rw (empty, over))
          | inr goes_on ↦
              let (seen, unseen, e, f) = wait_until-prefix ws after in
              (
                w.others ++ seen,
                unseen,
                rw e (sym (append_assoc w.others seen unseen)),
                rw (empty, goes_on) (f ∙ sym (act_all-append w.others seen p)),
              )
        ]
      ]

  -- get_session, whatever other threads do while it waits, gives and leaves what try_get_session
  -- does at a single moment: after some initial part of what the others do.
  pub get_session-linearizes :
      (locked : Bool) (wakes : List (Wake S)) (ec : ErrorCode) (p : Pool S)
      → (seen : List (Action S)) × (unseen : List (Action S)) × (all_others wakes ≡ seen ++ unseen)
        × (get_session locked wakes ec p ≡ try_get_session locked ec (act_all seen p))
  unfolding get_session try_get_session ensure_session act_all
  get_session-linearizes false wakes ec p = ([], all_others wakes, refl, refl)
  get_session-linearizes true wakes ec p =
      let (seen, unseen, e, f) = wait_until-prefix wakes p in
      (
        seen,
        unseen,
        e,
        get_session-locked wakes ec p
            ∙ ap (λ q. if is_empty q.sesson_pool then (q, none, not_found) else take_front ec q) f,
      )
