-- ===== src/Node/Monitor.antt =====
-- nodeInfoMonitor and SpeedChecker of node/task.go.
pub mod InStep
pub mod Follows
pub mod Sync
use bxtest.Prelude.{
  Str, ℤ, pos, int_eq, text_eq, leb_ℤ, Bool, true, false, not, ◌&&◌, ◌||◌, if◌then◌else◌, Option,
  none, some, List, [], ◌∷◌, Map, erase, get_or_default, Result, ok, err, ◌==◌, ◌+ℤ◌, ◌*ℤ◌, wrap64,
}
use bxtest.Panel.{UserInfo, NodeInfo}
use bxtest.Core.{Core}
use bxtest.Task.{Task, set_interval}
use bxtest.Task
use bxtest.Limiter.Users.{update_user, update_dynamic_speed_limit}
use bxtest.Node.Users.{compare_user_list}
use bxtest.Node.Controller.{
  Controller, World, End, goes_on, returns, panics, ◌>>=◌, build_node_tag, is_nameless,
  with_controller, own_limiter, put_limiter, put_alive, make_limiter, drop_limiter, put_rules, call,
}
use bxtest.Node.Lifecycle.{Answers, or_empty, request_cert}

abbrev pub is_empty {ℓ} : {A : Type ℓ} → List A → Bool
is_empty [] = true
is_empty (x ∷ xs) = false

abbrev pub quietly : {W : Type 0} → Str → W → End W
quietly e w = returns w

abbrev pub panicking : {W : Type 0} → Str → W → End W
panicking e w = panics w

-- a new interval: Close, then Start(false); nothing if the interval is the same or 0
abbrev pub reschedule : ℤ → ℤ → Option Task → Option (Option Task)
reschedule seen interval none = none
reschedule seen interval (some t) =
    if not (t.interval == seen) && not (seen == pos 0)
    then elim (Task.close (set_interval interval t)) [
      | none ↦ none
      | some t' ↦ some (some (Task.start false t'))
    ]
    else some (some t)

-- the loop under "clear traffic record"
pub erase_all : List UserInfo → Map Str ℤ → Map Str ℤ
erase_all [] m = m
erase_all (u ∷ us) m = erase_all us (erase u.uuid m)

module _ {S Bucket Regexp : Type 0} where
  -- "Check interval": the report task gets the pull interval, as in the source
  unfoldable pub check_intervals : NodeInfo → World S Bucket Regexp → End (World S Bucket Regexp)
  check_intervals node w =
      elim (reschedule node.pull_interval node.pull_interval
        w.controller.node_info_monitor_periodic) [
          | none ↦ panics w
          | some t ↦
              let w1 = with_controller (λ c. record c { node_info_monitor_periodic = t }) w in
              elim (reschedule node.push_interval node.pull_interval
                w1.controller.user_report_periodic) [
                  | none ↦ panics w1
                  | some r ↦
                      goes_on (with_controller (λ c. record c { user_report_periodic = r }) w1)
                ]
        ]

  -- "Update limiter": a new one under the new tag, unless the node has a configured name
  unfoldable pub renew_limiter :
      NodeInfo → Option (Map ℤ ℤ) → World S Bucket Regexp → World S Bucket Regexp
  renew_limiter node alive w =
      if is_nameless w.controller.options
      then make_limiter (or_empty alive) (
          drop_limiter (with_controller (λ c. record c { tag = build_node_tag c.api_host node }) w))
      else w

  -- "update Limiter" and "clear traffic record"
  unfoldable pub apply_users :
      List UserInfo → List UserInfo → World S Bucket Regexp → World S Bucket Regexp
  unfolding erase_all
  apply_users deleted added w =
      if is_empty added && is_empty deleted
      then w
      else let w1 = put_limiter (update_user w.controller.tag added deleted (own_limiter w)) w in
        with_controller
          (λ c. record c {
            traffic =
                if c.options.limit_config.enable_dynamic_speed_limit
                then erase_all deleted c.traffic
                else c.traffic;
          })
          w1

module _ {S Bucket Regexp : Type 0} (core : Core S) (must_compile : Str → Option Regexp) where
  -- the branch `newN != nil` from "Update rule" on
  unfoldable pub install :
      NodeInfo → Result (Unit {0}) → World S Bucket Regexp → End (World S Bucket Regexp)
  install node cert w = do
    w2 ← put_rules must_compile node.rules w
    w3 ← request_cert quietly node cert w2
    w4 ← call (core.add_node w3.controller.tag node w3.controller.options) panicking w3
    w5 ←
        call
          (core.add_users
            (record { tag = w4.controller.tag; users = w4.controller.user_list; node_info = node }))
          quietly w4
    check_intervals node w5

  -- the branch `newN != nil`
  unfoldable pub reload :
      NodeInfo
      → Option (List UserInfo)
      → Option (Map ℤ ℤ)
      → Result (Unit {0})
      → World S Bucket Regexp
      → End (World S Bucket Regexp)
  reload node users alive cert w = do
    let w0 =
        with_controller
          (λ c. record c {
            info = some node;
            user_list = get_or_default c.user_list users;
            traffic = [];
          })
          w
    w1 ← call (core.del_node w0.controller.tag) panicking w0
    install node cert (put_alive alive (renew_limiter node alive w1))

  -- DelUsers with `deleted`, if there are any; a nil `c.info` would be dereferenced by the core
  unfoldable pub push_deleted : List UserInfo → World S Bucket Regexp → End (World S Bucket Regexp)
  push_deleted deleted w = if is_empty deleted then goes_on w else elim w.controller.info [
    | none ↦ panics w
    | some info ↦ call (core.del_users deleted w.controller.tag info) quietly w
  ]

  -- AddUsers with `added`, if there are any
  unfoldable pub push_added : List UserInfo → World S Bucket Regexp → End (World S Bucket Regexp)
  push_added added w = if is_empty added then goes_on w else elim w.controller.info [
    | none ↦ panics w
    | some info ↦
        call (core.add_users (record { tag = w.controller.tag; users = added; node_info = info }))
          quietly w
  ]

  -- the rest of nodeInfoMonitor, where the node has not changed
  unfoldable pub refresh :
      List UserInfo → Option (Map ℤ ℤ) → World S Bucket Regexp → End (World S Bucket Regexp)
  refresh [] alive w = returns (put_alive alive w)
  refresh (u ∷ us) alive w = do
    let (deleted, added) = compare_user_list w.controller.user_list (u ∷ us)
    w1 ← push_deleted deleted (put_alive alive w)
    w2 ← push_added added w1
    returns (with_controller (λ c. record c { user_list = u ∷ us }) (apply_users deleted added w2))

  -- func (c *Controller) nodeInfoMonitor()
  unfoldable pub node_info_monitor : Answers → World S Bucket Regexp → End (World S Bucket Regexp)
  node_info_monitor a w = elim a.new_n [
    | err e ↦ returns w
    | ok node ↦ elim a.new_u [
      | err e ↦ returns w
      | ok users ↦ elim a.new_a [
        | err e ↦ returns w
        | ok alive ↦ elim node [
          | some n ↦ reload n users alive a.cert w
          | none ↦ refresh (or_empty users) alive w
        ]
      ]
    ]
  ]

-- one round of SpeedChecker; the error of UpdateDynamicSpeedLimit is only logged
check_speed :
    {S Bucket Regexp : Type 0} → ℤ → Str × ℤ → World S Bucket Regexp → World S Bucket Regexp
check_speed now (uuid, t) w =
    let conf = w.controller.options.limit_config.dynamic_speed_limit_config in
    let limited =
      update_dynamic_speed_limit w.controller.tag uuid conf.speed_limit
        (now +ℤ conf.expire_time *ℤ pos 60) (own_limiter w) in
    if leb_ℤ conf.traffic t
    then with_controller (λ c. record c { traffic = erase uuid c.traffic })
        (elim limited [ none ↦ w | some l ↦ put_limiter l w ])
    else w

check_speeds :
    {S Bucket Regexp : Type 0} → ℤ → Map Str ℤ → World S Bucket Regexp → World S Bucket Regexp
unfolding check_speed
check_speeds now [] w = w
check_speeds now (e ∷ es) w = check_speeds now es (check_speed now e w)

-- func (c *Controller) SpeedChecker(); `now` is time.Now().Unix(), and ExpireTime stays below the 292
-- years of a Duration
unfoldable pub speed_checker :
    {S Bucket Regexp : Type 0} → ℤ → World S Bucket Regexp → World S Bucket Regexp
unfolding check_speeds
speed_checker now w = check_speeds now w.controller.traffic w
