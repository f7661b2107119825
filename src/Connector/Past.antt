-- ===== src/Connector/Past.antt =====
-- What a call of new_session (impl/connector.ipp) among other threads has done so far, in terms of
-- the function new_session of the model.
pub mod Defs
use mathlib.Core.Path.{subst}
use mathlib.Core.List.{append-nil}
use stream_client.Common.{
  ◌≡◌, refl, sym, ◌∙◌, ap, inl, inr, Bool, true, not, Option, none, some, List, [], ◌∷◌, ◌++◌,
  Bool-cases, if◌then◌else◌,
}
use stream_client.ErrorCode.{ErrorCode, success, Throws, value, failed}
use stream_client.Connector.Defs.{
  Connector, Action, notifies_needed, act, act_all, Wake, wait_done, SessionEnv, new_session,
  try_endpoints, waiting_error,
}
use stream_client.Connector.Session.{in_time}
use stream_client.Connector.Actions.{
  act_all-append, shown, act_all-later, append-later, act_all-needed,
}
use stream_client.Connector.System.{
  Label, Calling, called, denied, admitted, dialing, lost, asking, done, CallStep, expires, enters,
  reports, reads, ends_empty, connects, breaks, decides, asks, apply,
}
use stream_client.Connector.Waits.{
  last_wake, wait_done-last_wake, wait_done-nil, Fails, gives_up, woken_by, shut_out,
}
use stream_client.Connector.Past.Defs.{heard, seen, Woken, Entered, Found, Asks, IsCall, Past}

module _ {E S : Type 0} (connect : E → Throws S) (shuffle_vector : List E → List E)
    (c0 : Connector E) where
  Found-later :
      {es : List E} {all : List (Action E)} {c : Connector E} (e : Label E)
      → Found connect shuffle_vector c0 es all c
      → Found connect shuffle_vector c0 es (all ++ shown e) (apply e c)
  Found-later {all} {c} e h = record {
    wakes = h.wakes;
    woken = h.woken;
    unlocked = h.unlocked;
    shuffled = h.shuffled;
    since = h.since ++ shown e;
    leads = act_all-later h.since e (act_all h.unlocked (wait_done h.wakes c0).0) c h.leads;
    whole =
        ap (λ x. heard h.wakes ++ x)
          (append-later h.unlocked h.since (shown e) (h.unlocked ++ h.since) refl)
        ∙ append-later (heard h.wakes) (h.unlocked ++ h.since) (shown e) all h.whole;
  }

  pub Past-later :
      (p : Calling E S) (e : Label E) (all : List (Action E)) (c : Connector E)
      → Past connect shuffle_vector c0 p all c
      → Past connect shuffle_vector c0 p (all ++ shown e) (apply e c)
  Past-later called e all c h = act_all-later all e c0 c h
  Past-later denied e all c h = act_all-later all e c0 c h
  Past-later admitted e all c h = record {
    wakes = h.wakes;
    woken = h.woken;
    since = h.since ++ shown e;
    leads = act_all-later h.since e (wait_done h.wakes c0).0 c h.leads;
    whole = append-later (heard h.wakes) h.since (shown e) all h.whole;
  }
  Past-later (dialing es) e all c h = Found-later e h
  Past-later (lost ec) e all c h = (h.0, Found-later e h.1, h.2)
  Past-later (asking ec) e all c h = record {
    env = h.env;
    dials = h.dials;
    shuffles = h.shuffles;
    whole_wait = h.whole_wait;
    deciding = h.deciding;
    gives = h.gives;
    since = h.since ++ shown e;
    leads = act_all-later h.since e h.deciding c h.leads;
    whole = append-later (seen c0 h.env) h.since (shown e) all h.whole;
  }
  Past-later (done session ec) e all c h = record {
    env = h.env;
    dials = h.dials;
    shuffles = h.shuffles;
    whole_wait = h.whole_wait;
    gives_session = h.gives_session;
    gives_code = h.gives_code;
    since = h.since ++ shown e;
    leads = act_all-later h.since e (new_session h.env success c0).0 c h.leads;
    whole = append-later (seen c0 h.env) h.since (shown e) all h.whole;
  }

  reports-IsCall :
      (all : List (Action E)) (c : Connector E)
      → act_all all c0 ≡ c
      → IsCall connect shuffle_vector c0 none (waiting_error c) all c
  unfolding new_session shut_out wait_done act_all
  reports-IsCall all c h = record {
    env = shut_out connect shuffle_vector all;
    dials = refl;
    shuffles = refl;
    whole_wait = refl;
    gives_session = refl;
    gives_code = ap waiting_error h;
    since = [];
    leads = h;
    whole = append-nil all;
  }

  enters-Entered :
      (all : List (Action E)) (c : Connector E)
      → act_all all c0 ≡ c
      → c.resolve_done ≡ true
      → Entered connect shuffle_vector c0 all c
  unfolding act_all last_wake
  enters-Entered all c h is_done = elim (Bool-cases c0.resolve_done) [
    | inl before ↦ record {
      wakes = [];
      woken = record {
        woken = rw (wait_done-nil c0) before;
        whole_wait = sym (ap (λ x. x.0) (wait_done-nil c0));
      };
      since = all;
      leads = rw (wait_done-nil c0) h;
      whole = refl;
    }
    | inr after ↦
        let once = wait_done-last_wake c0 all after in
        record {
          wakes = last_wake all;
          woken = record {
            woken = ap (λ x. x.1) once ∙ ap (λ x. x.resolve_done) h ∙ is_done;
            whole_wait = ap (λ x. act_all x c0) (append-nil all) ∙ sym (ap (λ x. x.0) once);
          };
          since = [];
          leads = ap (λ x. x.0) once ∙ h;
          whole = append-nil (all ++ []) ∙ append-nil all;
        }
  ]

  module _ (es : List E) (all : List (Action E)) (c : Connector E)
      (h : Found connect shuffle_vector c0 es all c) where
    call : SessionEnv E S
    call = woken_by connect shuffle_vector h.wakes h.unlocked h.since

    call_lem :
        new_session call success c0
        ≡ try_endpoints connect h.since es success (act_all h.unlocked (wait_done h.wakes c0).0)
    unfolding call woken_by
    call_lem = in_time call c0 h.woken.woken ∙ rw h.shuffled

    call-seen : seen c0 call ++ [] ≡ all
    unfolding call woken_by
    call-seen = append-nil (seen c0 call) ∙ rw h.woken.woken h.whole

    connects-IsCall :
        (peer : E) (rest : List E) (session : S)
        → es ≡ peer ∷ rest
        → connect peer ≡ value session
        → IsCall connect shuffle_vector c0 (some session) success all c
    unfolding call woken_by try_endpoints act_all
    connects-IsCall peer rest session e given =
        let result : new_session call success c0 ≡ (c, some session, success) =
          call_lem ∙ rw (e, given, try_endpoints, h.leads) in
        record {
          env = call;
          dials = refl;
          shuffles = refl;
          whole_wait = h.woken.whole_wait;
          gives_session = ap (λ x. x.1) result;
          gives_code = ap (λ x. x.2) result;
          since = [];
          leads = ap (λ x. x.0) result;
          whole = call-seen;
        }

    decides-Asks :
        (ec : ErrorCode)
        → Fails connect es ec
        → Asks connect shuffle_vector c0 (if not (failed ec) then c.resolve_error else ec) all c
    unfolding call woken_by act_all
    decides-Asks ec bad = record {
      env = call;
      dials = refl;
      shuffles = refl;
      whole_wait = h.woken.whole_wait;
      deciding = c;
      gives = call_lem ∙ gives_up connect h.since es ec c _ h.leads bad;
      since = [];
      leads = refl;
      whole = call-seen;
    }

  Asks-IsCall :
      (ec : ErrorCode) (all : List (Action E)) (c : Connector E)
      → Asks connect shuffle_vector c0 ec all c
      → IsCall connect shuffle_vector c0 none ec
          (all ++ notifies_needed ∷ [])
          (act notifies_needed c)
  Asks-IsCall ec all c h = record {
    env = h.env;
    dials = h.dials;
    shuffles = h.shuffles;
    whole_wait = h.whole_wait;
    gives_session = ap (λ x. x.1) h.gives;
    gives_code = ap (λ x. x.2) h.gives;
    since = h.since ++ notifies_needed ∷ [];
    leads = rw h.gives (act_all-needed h.since h.deciding c h.leads);
    whole = append-later (seen c0 h.env) h.since (notifies_needed ∷ []) all h.whole;
  }

  same_actions :
      (p : Calling E S) (all : List (Action E)) (c : Connector E)
      → Past connect shuffle_vector c0 p all c
      → Past connect shuffle_vector c0 p (all ++ []) c
  same_actions p all c h =
      subst (λ x. Past connect shuffle_vector c0 p x c) (sym (append-nil all)) h

  pub CallStep-Past :
      {held : Bool} {c : Connector E} {p q : Calling E S} {e : Label E} (all : List (Action E))
      → CallStep connect shuffle_vector held c p e q
      → Past connect shuffle_vector c0 p all c
      → Past connect shuffle_vector c0 q (all ++ shown e) (apply e c)
  unfolding apply act_all
  CallStep-Past {c} {q} all expires h = same_actions q all c h
  CallStep-Past {c} {q} all (enters is_done) h =
      same_actions q all c (enters-Entered all c h is_done)
  CallStep-Past {c} {q} all reports h = same_actions q all c (reports-IsCall all c h)
  CallStep-Past {c} {q} all reads h = same_actions q all c (record {
    wakes = h.wakes;
    woken = h.woken;
    unlocked = h.since;
    shuffled = ap (λ x. shuffle_vector x.endpoints) h.leads;
    since = [];
    leads = h.leads;
    whole = ap (λ x. heard h.wakes ++ x) (append-nil h.since) ∙ h.whole;
  })
  CallStep-Past {c} {q} all ends_empty h = same_actions q all c ([], h, refl)
  CallStep-Past {c} {q} all (connects peer rest s given) h =
      same_actions q all c (connects-IsCall (peer ∷ rest) all c h peer rest s refl given)
  CallStep-Past {c} {q} all (breaks peer rest code given) h =
      same_actions q all c (peer ∷ rest, h, given)
  CallStep-Past {c} {q} all (decides ec) h =
      same_actions q all c (decides-Asks h.0 all c h.1 ec h.2)
  CallStep-Past {c} all (asks ec free) h = Asks-IsCall ec all c h
