-- ===== src/Node/Lifecycle.antt =====
-- Start and Close of node/controller.go. The answers of the panel and of requestCert are arguments.
use bxtest.Prelude.{
  Str, codes, ℤ, int_eq, text_eq, if◌then◌else◌, Option, none, some, List, [], ◌∷◌, Map, Result, ok,
  err, ◌==◌,
}
use bxtest.Panel.{UserInfo, NodeInfo, tls}
use bxtest.Core.{Core}
use bxtest.Task.{Task}
use bxtest.Task
use bxtest.Node.Controller.{
  Controller, World, End, goes_on, returns, fails, panics, ◌>>=◌, build_node_tag, is_nameless,
  with_controller, make_limiter, drop_limiter, put_rules, call, start_tasks,
}

-- what the panel and requestCert answer during one run of Start or of nodeInfoMonitor; a nil pointer,
-- slice or map is `none`
pub record Answers : Type 0 where
  pub new_n : Result (Option NodeInfo)
  pub new_u : Result (Option (List UserInfo))
  pub new_a : Result (Option (Map ℤ ℤ))
  pub cert : Result (Unit {0})

abbrev pub or_empty {ℓ} : {A : Type ℓ} → Option (List A) → List A
or_empty none = []
or_empty (some l) = l

module _ {S Bucket Regexp : Type 0} where
  -- `if node.Security == panel.Tls { err = c.requestCert() … }`
  abbrev pub request_cert :
      (Str → World S Bucket Regexp → End (World S Bucket Regexp))
      → NodeInfo
      → Result (Unit {0})
      → World S Bucket Regexp
      → End (World S Bucket Regexp)
  request_cert failure node cert w =
      if node.security == tls
      then elim cert [ ok a ↦ goes_on w | err e ↦ failure e w ]
      else goes_on w

-- a tag for the node, or the configured name
abbrev named : NodeInfo → Controller → Controller
named node c = record c {
  tag = if is_nameless c.options then build_node_tag c.api_host node else c.options.name;
}

-- `if c.xPeriodic != nil { c.xPeriodic.Close() }`
abbrev close_task : Option Task → Option (Option Task)
close_task none = some none
close_task (some t) = elim (Task.close t) [ none ↦ none | some t' ↦ some (some t') ]

module _ {S Bucket Regexp : Type 0} (core : Core S) (must_compile : Str → Option Regexp) where
  -- Start from the limiter on
  start_node :
      NodeInfo → Map ℤ ℤ → Result (Unit {0}) → World S Bucket Regexp → End (World S Bucket Regexp)
  start_node node alive cert w0 = do
    w1 ← put_rules must_compile node.rules (make_limiter alive w0)
    w2 ← request_cert fails node cert w1
    w3 ← call (core.add_node w2.controller.tag node w2.controller.options) fails w2
    w4 ←
        call
          (core.add_users
            (record { tag = w3.controller.tag; users = w3.controller.user_list; node_info = node }))
          fails w3
    returns (with_controller (λ c. start_tasks node (record c { info = some node })) w4)

  -- func (c *Controller) Start(); a nil node is dereferenced, which panics
  unfoldable pub start : Answers → World S Bucket Regexp → End (World S Bucket Regexp)
  unfolding start_node
  start a w = elim a.new_n [
    | err e ↦ fails e w
    | ok node ↦ elim a.new_u [
      | err e ↦ fails e (with_controller (λ c. record c { user_list = [] }) w)
      | ok users ↦
          let w1 = with_controller (λ c. record c { user_list = or_empty users }) w in
          elim (or_empty users) [
            | [] ↦ fails (codes "add users error: not have any user") w1
            | u ∷ us ↦ elim a.new_a [
              | err e ↦ fails e (with_controller (λ c. record c { alive_map = [] }) w1)
              | ok alive ↦
                  let w2 = with_controller (λ c. record c { alive_map = or_empty alive }) w1 in
                  elim node [
                    | none ↦ panics w2
                    | some n ↦ start_node n (or_empty alive) a.cert (with_controller (named n) w2)
                  ]
            ]
          ]
    ]
  ]

  abbrev close_one :
      (Controller → Option Task)
      → (Option Task → Controller → Controller)
      → World S Bucket Regexp
      → End (World S Bucket Regexp)
  close_one get put w = elim (close_task (get w.controller)) [
    | none ↦ panics w
    | some t ↦ goes_on (with_controller (put t) w)
  ]

  -- func (c *Controller) Close(); onlineIpReportPeriodic is never set
  unfoldable pub close : World S Bucket Regexp → End (World S Bucket Regexp)
  close w = do
    w1 ←
        close_one (λ c. c.node_info_monitor_periodic)
          (λ t c. record c { node_info_monitor_periodic = t }) (drop_limiter w)
    w2 ← close_one (λ c. c.user_report_periodic) (λ t c. record c { user_report_periodic = t }) w1
    w3 ← close_one (λ c. c.renew_cert_periodic) (λ t c. record c { renew_cert_periodic = t }) w2
    w4 ←
        close_one (λ c. c.dynamic_speed_limit_periodic)
          (λ t c. record c { dynamic_speed_limit_periodic = t }) w3
    w5 ← call (core.del_node w4.controller.tag) fails w4
    returns w5
