-- ===== src/Node/Monitor/Follows.antt =====
-- Every run of nodeInfoMonitor keeps a nameless node in step with the panel; a reload of a node with a
-- configured name does not.
use bxtest.Prelude.{
  Str, ℤ, ℕ, true, if◌then◌else◌, Option, List, [], ◌∷◌, Map, Result, Result-cases, ◌≡◌, refl,
  subst, sym, arith, inl, inr, text_eq, lookup-insert, beq_refl, get_or_default,
}
use bxtest.Panel.{UserInfo, NodeInfo}
use bxtest.Core.{Core, AddUsersParams}
use bxtest.Limiter.Users.{get_limiter, add_limiter, update_user, delete_limiter}
use bxtest.Limiter.Users.Sync.{Synced, new_limiter-Synced, update_user-nil}
use bxtest.Node.Users.{compare_user_list}
use bxtest.Node.Users.Reconcile.{IsUserList, update_user-follows_panel}
use bxtest.Node.Controller.{
  World, End, goes_on, returns, fails, panics, ◌>>=◌, build_node_tag, is_nameless, with_controller,
  own_limiter, put_limiter, put_alive, make_limiter, drop_limiter, put_rules, call,
}
use bxtest.Node.Lifecycle.{or_empty, request_cert}
use bxtest.Node.Monitor.{
  renew_limiter, install, reload, push_deleted, push_added, apply_users, refresh, erase_all,
  quietly, panicking,
}
use bxtest.Node.Monitor.InStep.{
  Holds, Holds->>=, InStep, put_alive-InStep, call-InStep, put_rules-InStep, request_cert-InStep,
  check_intervals-InStep, push_deleted-InStep, push_added-InStep,
}

abbrev traffic_after : {S B R : Type 0} → List UserInfo → World S B R → Map Str ℤ
traffic_after deleted w =
    if w.controller.options.limit_config.enable_dynamic_speed_limit
    then erase_all deleted w.controller.traffic
    else w.controller.traffic

module _ {S B R : Type 0} (n : ℕ) where
  -- in step with whatever list the controller has
  abbrev pub IsInStep : World S B R → Type 0
  IsInStep w = InStep n w.controller.user_list w

  to_IsInStep : (us : List UserInfo) (w : World S B R) → InStep n us w → IsInStep w
  to_IsInStep us w v = subst (λ l. InStep n l w) (sym v.users) v

  pub weaken :
      (us : List UserInfo) (m : End (World S B R)) → Holds (InStep n us) m → Holds IsInStep m
  weaken us (goes_on w) h = to_IsInStep us w h
  weaken us (returns w) h = to_IsInStep us w h
  weaken us (fails e w) h = to_IsInStep us w h
  weaken us (panics w) h = tt

  -- the controller with the new list, after an UpdateUser through its pointer
  put_users-InStep :
      (old new deleted added : List UserInfo) (traffic : Map Str ℤ) (w : World S B R)
      → InStep n old w
      → IsUserList n new
      → Synced w.controller.tag new (update_user w.controller.tag added deleted (own_limiter w))
      → InStep n new (
          with_controller
            (λ c. record c { user_list = new; traffic = traffic })
            (put_limiter (update_user w.controller.tag added deleted (own_limiter w)) w))
  unfolding get_limiter
  put_users-InStep old new deleted added traffic w v l s = record {
    synced = λ x. ground (arith, s x);
    listed = l;
    users = refl;
    found = v.found;
    nameless = v.nameless;
  }

  apply_users-InStep :
      (old new deleted added : List UserInfo) (w : World S B R)
      → InStep n old w
      → IsUserList n new
      → Synced w.controller.tag new (update_user w.controller.tag added deleted (own_limiter w))
      → InStep n new
          (with_controller (λ c. record c { user_list = new }) (apply_users deleted added w))
  unfolding apply_users
  apply_users-InStep old new [] [] w v l s = record {
    synced = λ x. rw (← update_user-nil w.controller.tag (own_limiter w)) (s x);
    listed = l;
    users = refl;
    found = v.found;
    nameless = v.nameless;
  }
  apply_users-InStep old new [] (u ∷ us) w v l s =
      put_users-InStep old new [] (u ∷ us) (traffic_after [] w) w v l s
  apply_users-InStep old new (u ∷ us) [] w v l s =
      put_users-InStep old new (u ∷ us) [] (traffic_after (u ∷ us) w) w v l s
  apply_users-InStep old new (u ∷ us) (x ∷ xs) w v l s =
      put_users-InStep old new (u ∷ us) (x ∷ xs) (traffic_after (u ∷ us) w) w v l s

  -- a new limiter, for the list that the controller has
  renew_limiter-InStep :
      (node : NodeInfo) (alive : Option (Map ℤ ℤ)) (us : List UserInfo) (w : World S B R)
      → is_nameless w.controller.options ≡ true
      → w.controller.user_list ≡ us
      → IsUserList n us
      → InStep n us (renew_limiter node alive w)
  unfolding renew_limiter make_limiter drop_limiter add_limiter get_limiter
  renew_limiter-InStep node alive us w free e l = rw free (record {
    synced = λ x. ground (
      arith,
      e,
      new_limiter-Synced B R (build_node_tag w.controller.api_host node)
          w.controller.options.limit_config w.controller.user_list (or_empty alive) x,
    );
    listed = l;
    users = e;
    found = ground (
      arith,
      lookup-insert (build_node_tag w.controller.api_host node)
          (build_node_tag w.controller.api_host node)
          (delete_limiter (build_node_tag w.controller.api_host node) w.registry).objects.next
          (delete_limiter (build_node_tag w.controller.api_host node) w.registry).table,
      beq_refl (build_node_tag w.controller.api_host node),
    );
    nameless = free;
  })

  -- A run that finds the node unchanged: in step before, in step after, with the new list if it was
  -- not empty and every call of the core succeeded, and with the old one otherwise.
  pub refresh-IsInStep :
      (core : Core S) (mc : Str → Option R) (us : List UserInfo) (alive : Option (Map ℤ ℤ))
      (w : World S B R)
      → IsInStep w
      → IsUserList n us
      → Holds IsInStep (refresh core mc us alive w)
  unfolding refresh
  refresh-IsInStep core mc [] alive w v l =
      to_IsInStep w.controller.user_list (put_alive alive w)
        (put_alive-InStep n w.controller.user_list alive w v)
  refresh-IsInStep core mc (u ∷ us) alive w v l =
      let old = w.controller.user_list in
      let new : List UserInfo = u ∷ us in
      let (deleted, added) = compare_user_list old new in
      Holds->>= (InStep n old) IsInStep (push_deleted core mc deleted (put_alive alive w)) _
        (to_IsInStep old)
        (push_deleted-InStep n old core mc deleted (put_alive alive w)
          (put_alive-InStep n old alive w v))
        λ w1 v1.
          Holds->>= (InStep n old) IsInStep (push_added core mc added w1) _ (to_IsInStep old)
            (push_added-InStep n old core mc added w1 v1)
            λ w2 v2. to_IsInStep new _ (
              apply_users-InStep old new deleted added w2 v2 l (
                update_user-follows_panel n old new v.listed l w2.controller.tag (own_limiter w2)
                  v2.synced))

  -- the rest of a reload, from the new limiter on
  module _ (core : Core S) (mc : Str → Option R) (node : NodeInfo) (us : List UserInfo) where
    install-InStep :
        (cert : Result (Unit {0})) (w : World S B R)
        → InStep n us w
        → Holds (InStep n us) (install core mc node cert w)
    unfolding install
    install-InStep cert w v =
        step (put_rules mc node.rules w) _ (put_rules-InStep n us mc node.rules w v) λ w2 v2.
          step (request_cert quietly node cert w2) _ (request_cert-InStep n us node cert w2 v2)
            λ w3 v3.
              step (call (core.add_node w3.controller.tag node w3.controller.options) panicking w3)
                _
                (call-InStep n us (core.add_node w3.controller.tag node w3.controller.options)
                  panicking w3 (λ e x h. tt) v3)
                λ w4 v4.
                  step (call (core.add_users (params w4)) quietly w4) _
                    (call-InStep n us (core.add_users (params w4)) quietly w4 (λ e x h. h) v4)
                    λ w5 v5. check_intervals-InStep n us node w5 v5
      where
        step :
            (m : End (World S B R)) (k : World S B R → End (World S B R))
            → Holds (InStep n us) m
            → ((x : World S B R) → InStep n us x → Holds (InStep n us) (k x))
            → Holds (InStep n us) (m >>= k)
        step m k = Holds->>= (InStep n us) (InStep n us) m k (λ x h. h)

        params : World S B R → AddUsersParams
        params x = record {
          tag = x.controller.tag;
          users = x.controller.user_list;
          node_info = node;
        }

    -- A reload of a nameless node, for a valid list: in step after it, whatever was before.
    pub reload-InStep :
        (users : Option (List UserInfo)) (alive : Option (Map ℤ ℤ)) (cert : Result (Unit {0}))
        (w : World S B R)
        → is_nameless w.controller.options ≡ true
        → get_or_default w.controller.user_list users ≡ us
        → IsUserList n us
        → Holds (InStep n us) (reload core mc node users alive cert w)
    unfolding reload
    reload-InStep users alive cert w free e l =
        elim (Result-cases (core.del_node w.controller.tag w.server).0) [
          | inr (m, f) ↦ rw (f, Holds) tt
          | inl (a, f) ↦
              rw (f, Holds)
                (install-InStep cert _
                  (put_alive-InStep n us alive _ (renew_limiter-InStep node alive us _ free e l)))
        ]
