-- ===== src/Node/Monitor/InStep.antt =====
-- The controller, its limiter and the table of limiters stay in step with the panel's user list.
use bxtest.Prelude.{
  Str, ℤ, ℕ, true, Option, none, some, List, [], ◌∷◌, Map, Result, Result-cases, lookup, ◌≡◌, refl,
  ap, arith, Option-cases, inl, inr, text_eq,
}
use bxtest.Format.{user_tag}
use bxtest.Panel.{UserInfo, NodeInfo, Rules}
use bxtest.Core.{Core}
use bxtest.Limiter.State.{Limiter}
use bxtest.Limiter.Rule.{update_rule}
use bxtest.Limiter.Rule.Laws.{update_rule_users}
use bxtest.Limiter.Users.{get_limiter}
use bxtest.Limiter.Users.Sync.{Synced}
use bxtest.Node.Users.Reconcile.{IsUserList}
use bxtest.Node.Controller.{
  World, End, goes_on, returns, fails, panics, ◌>>=◌, is_nameless, own_limiter, put_limiter,
  put_alive, put_rules, call,
}
use bxtest.Node.Lifecycle.{request_cert}
use bxtest.Node.Monitor.{reschedule, check_intervals, push_deleted, push_added, quietly}

-- What holds of the world where a part of a handler ends, unless it panics.
abbrev pub Holds {ℓ κ} : {W : Type ℓ} → (W → Type κ) → End W → Type κ
Holds P (goes_on w) = P w
Holds P (returns w) = P w
Holds P (fails e w) = P w
Holds P (panics w) = Unit

-- what holds where the first part goes on may be more than what holds where it ends
pub Holds->>= {ℓ κ} :
    {W : Type ℓ} (P Q : W → Type κ) (m : End W) (k : W → End W)
    → ((w : W) → P w → Q w)
    → Holds P m
    → ((w : W) → P w → Holds Q (k w))
    → Holds Q (m >>= k)
Holds->>= P Q (goes_on w) k weaken h next = next w h
Holds->>= P Q (returns w) k weaken h next = weaken w h
Holds->>= P Q (fails e w) k weaken h next = weaken w h
Holds->>= P Q (panics w) k weaken h next = tt

module _ {S B R : Type 0} (n : ℕ) where
  -- The limiter of a nameless node knows exactly the users `us`, which are those of the controller's
  -- list and a list as the panel sends it, and is the one in the table under the controller's tag.
  pub record InStep (us : List UserInfo) (w : World S B R) : Type 0 where
    pub synced : Synced w.controller.tag us (own_limiter w)
    pub listed : IsUserList n us
    pub users : w.controller.user_list ≡ us
    pub found : get_limiter w.controller.tag w.registry ≡ some w.controller.limiter
    pub nameless : is_nameless w.controller.options ≡ true

module _ {S B R : Type 0} (n : ℕ) (us : List UserInfo) where
  -- a limiter with the same users in place of the controller's own
  pub put_limiter-InStep :
      (l : Limiter B R) (w : World S B R)
      → l.user_limit_info ≡ (own_limiter w).user_limit_info
      → InStep n us w
      → InStep n us (put_limiter l w)
  unfolding get_limiter
  put_limiter-InStep l w e v = record {
    synced = λ x. ground (arith, v.synced x, ap (lookup (user_tag w.controller.tag x)) e);
    listed = v.listed;
    users = v.users;
    found = v.found;
    nameless = v.nameless;
  }

  pub put_alive-InStep :
      (alive : Option (Map ℤ ℤ)) (w : World S B R) → InStep n us w → InStep n us (put_alive alive w)
  put_alive-InStep none w v = v
  put_alive-InStep (some alive) w v =
      put_limiter-InStep (record (own_limiter w) { alive_list = alive }) w refl v

  server-InStep : (s : S) (w : World S B R) → InStep n us w → InStep n us (record w { server = s })
  server-InStep s w v = record {
    synced = v.synced;
    listed = v.listed;
    users = v.users;
    found = v.found;
    nameless = v.nameless;
  }

  pub call-InStep :
      {A : Type 0} (op : S → Result A × S) (failure : Str → World S B R → End (World S B R))
      (w : World S B R)
      → ((e : Str) (x : World S B R) → InStep n us x → Holds (InStep n us) (failure e x))
      → InStep n us w
      → Holds (InStep n us) (call op failure w)
  call-InStep op failure w f v = elim (Result-cases (op w.server).0) [
    | inl (a, e) ↦ rw (e, Holds) (server-InStep (op w.server).1 w v)
    | inr (m, e) ↦
        rw (e, Holds)
          (f m (record w { server = (op w.server).1 }) (server-InStep (op w.server).1 w v))
  ]

  pub put_rules-InStep :
      (mc : Str → Option R) (rules : Rules) (w : World S B R)
      → InStep n us w
      → Holds (InStep n us) (put_rules mc rules w)
  unfolding put_rules
  put_rules-InStep mc rules w v = elim (Option-cases (update_rule mc rules (own_limiter w))) [
    | inl e ↦ rw (e, put_rules) tt
    | inr (l, e) ↦
        rw (e, put_rules)
          (put_limiter-InStep l w (update_rule_users mc rules (own_limiter w) l e) v)
  ]

  pub request_cert-InStep :
      (node : NodeInfo) (cert : Result (Unit {0})) (w : World S B R)
      → InStep n us w
      → Holds (InStep n us) (request_cert quietly node cert w)
  request_cert-InStep node cert w v = elim (Result-cases cert) [
    | inl (a, e) ↦ rw (e, Holds) (ground (arith, v))
    | inr (m, e) ↦ rw (e, Holds) (ground (arith, v))
  ]

  -- the tasks do not matter
  pub check_intervals-InStep :
      (node : NodeInfo) (w : World S B R)
      → InStep n us w
      → Holds (InStep n us) (check_intervals node w)
  unfolding check_intervals
  check_intervals-InStep node w v =
      elim (Option-cases (
        reschedule node.pull_interval node.pull_interval w.controller.node_info_monitor_periodic)) [
          | inl e ↦ rw (e, check_intervals) tt
          | inr (t, e) ↦
              elim (Option-cases (
                reschedule node.push_interval node.pull_interval
                  w.controller.user_report_periodic)) [
                    | inl f ↦ rw (e, f, check_intervals) tt
                    | inr (r, f) ↦
                        rw (e, f, check_intervals)
                          (record {
                            synced = v.synced;
                            listed = v.listed;
                            users = v.users;
                            found = v.found;
                            nameless = v.nameless;
                          })
                  ]
        ]

  pub push_deleted-InStep :
      (core : Core S) (mc : Str → Option R) (deleted : List UserInfo) (w : World S B R)
      → InStep n us w
      → Holds (InStep n us) (push_deleted core mc deleted w)
  unfolding push_deleted
  push_deleted-InStep core mc [] w v = v
  push_deleted-InStep core mc (u ∷ us) w v = elim (Option-cases w.controller.info) [
    | inl e ↦ rw (e, push_deleted) tt
    | inr (info, e) ↦
        rw (e, push_deleted)
          (call-InStep (core.del_users (u ∷ us) w.controller.tag info) quietly w (λ e x h. h) v)
  ]

  pub push_added-InStep :
      (core : Core S) (mc : Str → Option R) (added : List UserInfo) (w : World S B R)
      → InStep n us w
      → Holds (InStep n us) (push_added core mc added w)
  unfolding push_added
  push_added-InStep core mc [] w v = v
  push_added-InStep core mc (u ∷ us) w v = elim (Option-cases w.controller.info) [
    | inl e ↦ rw (e, push_added) tt
    | inr (info, e) ↦
        rw (e, push_added)
          (call-InStep
            (core.add_users (record { tag = w.controller.tag; users = u ∷ us; node_info = info }))
            quietly w (λ e x h. h) v)
  ]
