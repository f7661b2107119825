-- ===== src/Connector/Actions.antt =====
-- What a list of critical sections of other threads does to a connector
-- (include/stream-client/connector/connector.hpp).
use mathlib.Core.List.{append_assoc}
use stream_client.Common.{◌≡◌, refl, sym, ◌∙◌, ap, List, [], ◌∷◌, ◌++◌}
use stream_client.Connector.Defs.{
  Connector, Action, takes_up, updates, notifies_done, notifies_needed, sets_error, act, act_all,
}
use stream_client.Connector.System.{Label, begins, acts, rests, apply}

module _ {E : Type 0} where
  pub act_all-append :
      (as_ bs : List (Action E)) (c : Connector E)
      → act_all (as_ ++ bs) c ≡ act_all bs (act_all as_ c)
  unfolding act_all
  act_all-append [] bs c = refl
  act_all-append (a ∷ as_) bs c = act_all-append as_ bs (act a c)

  abbrev pub shown : Label E → List (Action E)
  shown begins = []
  shown (acts a) = a ∷ []
  shown rests = []

  -- The actions of a run, the first of them first.
  abbrev pub history : List (Label E) → List (Action E)
  history [] = []
  history (e ∷ tr) = history tr ++ shown e

  act_all-shown : (e : Label E) (c : Connector E) → act_all (shown e) c ≡ apply e c
  unfolding apply act_all
  act_all-shown begins c = refl
  act_all-shown (acts a) c = refl
  act_all-shown rests c = refl

  pub act_all-later :
      (as_ : List (Action E)) (e : Label E) (c d : Connector E)
      → act_all as_ c ≡ d
      → act_all (as_ ++ shown e) c ≡ apply e d
  act_all-later as_ e c d h = act_all-append as_ (shown e) c ∙ rw h (act_all-shown e d)

  pub append-later :
      (before rest bs all : List (Action E))
      → before ++ rest ≡ all
      → before ++ (rest ++ bs) ≡ all ++ bs
  append-later before rest bs all h = sym (append_assoc before rest bs) ∙ ap (λ x. x ++ bs) h

  -- A request that others' actions follow may as well stand behind them.
  needed_twice :
      (as_ : List (Action E)) (c : Connector E)
      → act notifies_needed (act_all as_ (act notifies_needed c))
        ≡ act notifies_needed (act_all as_ c)
  unfolding act_all act
  needed_twice [] c = refl
  needed_twice (sets_error err ∷ as_) c = needed_twice as_ (act (sets_error err) c)
  needed_twice (takes_up ∷ as_) c = refl
  needed_twice (updates es ∷ as_) c = needed_twice as_ (act (updates es) c)
  needed_twice (notifies_done ∷ as_) c = needed_twice as_ (act notifies_done c)
  needed_twice (notifies_needed ∷ as_) c = refl

  pub act_all-needed :
      (as_ : List (Action E)) (c d : Connector E)
      → act_all as_ c ≡ d
      → act_all (as_ ++ notifies_needed ∷ []) (act notifies_needed c) ≡ act notifies_needed d
  unfolding act_all
  act_all-needed as_ c d h =
      act_all-append as_ (notifies_needed ∷ []) (act notifies_needed c)
      ∙ needed_twice as_ c
      ∙ ap (act notifies_needed) h
