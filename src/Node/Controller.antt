-- ===== src/Node/Controller.antt =====
-- node/controller.go: the controller, its Start and its Close. `S` is the state of the proxy core, and
-- `Bucket` and `Regexp` are those of the limiter.
use bxtest.Prelude.{
  Str, codes, ℤ, pos, int_eq, text_eq, Bool, true, false, if◌then◌else◌, Option, none, some, List,
  [], ◌∷◌, ◌++◌, Map, Addr, write, Result, ok, err, itoa, ◌==◌, ◌&&◌, ◌||◌, not, ◌*ℤ◌, wrap64,
}
use bxtest.Panel.{UserInfo, NodeInfo, Rules, tls}
use bxtest.Conf.{Options}
use bxtest.Task.{Task, new_task}
use bxtest.Task
use bxtest.Limiter.State.{Limiter}
use bxtest.Limiter.Users.{Registry, add_limiter, delete_limiter}
use bxtest.Limiter.Rule.{update_rule}

pub record Controller : Type 0 where
  pub api_host : Str
  pub tag : Str
  pub limiter : Addr
  pub traffic : Map Str ℤ
  pub user_list : List UserInfo
  pub alive_map : Map ℤ ℤ
  pub info : Option NodeInfo
  pub node_info_monitor_periodic : Option Task
  pub user_report_periodic : Option Task
  pub renew_cert_periodic : Option Task
  pub dynamic_speed_limit_periodic : Option Task
  pub options : Options

-- the controller with what it shares with the rest of the program
pub record World (S Bucket Regexp : Type 0) : Type 0 where
  pub controller : Controller
  pub registry : Registry Bucket Regexp
  pub server : S

-- How a part of a handler ends: it goes on to the next, or it returns with no error, with an error, or
-- by a panic.
pub data End {ℓ} (W : Type ℓ) : Type ℓ where
  goes_on : W → End W
  returns : W → End W
  fails : Str → W → End W
  panics : W → End W

infixl 5 ◌>>=◌
abbrev pub ◌>>=◌ {ℓ} : {W : Type ℓ} → End W → (W → End W) → End W
goes_on w >>= k = k w
returns w >>= k = returns w
fails e w >>= k = fails e w
panics w >>= k = panics w

-- fmt.Sprintf("[%s]-%s:%d", c.apiClient.APIHost, node.Type, node.Id)
unfoldable pub build_node_tag : Str → NodeInfo → Str
build_node_tag api_host node =
    codes "[" ++ (api_host ++ (codes "]-" ++ (node.type ++ (codes ":" ++ itoa node.id))))

-- len(c.Options.Name) == 0
abbrev pub is_nameless : Options → Bool
is_nameless o = elim o.name [ [] ↦ true | c ∷ cs ↦ false ]

module _ {S Bucket Regexp : Type 0} where
  abbrev pub with_controller :
      (Controller → Controller) → World S Bucket Regexp → World S Bucket Regexp
  with_controller f w = record w { controller = f w.controller }

  -- the Limiter that `c.limiter` points to
  abbrev pub own_limiter : World S Bucket Regexp → Limiter Bucket Regexp
  own_limiter w = w.registry.objects.cell w.controller.limiter

  -- an assignment through `c.limiter`
  abbrev pub put_limiter : Limiter Bucket Regexp → World S Bucket Regexp → World S Bucket Regexp
  put_limiter l w = record w {
    registry = record w.registry { objects = write w.controller.limiter l w.registry.objects };
  }

  -- `c.limiter.AliveList = newA`, if newA is not nil
  abbrev pub put_alive : Option (Map ℤ ℤ) → World S Bucket Regexp → World S Bucket Regexp
  put_alive none w = w
  put_alive (some alive) w = put_limiter (record (own_limiter w) { alive_list = alive }) w

  -- `c.limiter = limiter.AddLimiter(c.tag, &c.LimitConfig, c.userList, alive)`
  unfoldable pub make_limiter : Map ℤ ℤ → World S Bucket Regexp → World S Bucket Regexp
  make_limiter alive w =
      let c = w.controller in
      let (p, r) = add_limiter c.tag c.options.limit_config c.user_list alive w.registry in
      record w { controller = record c { limiter = p }; registry = r }

  -- `limiter.DeleteLimiter(c.tag)`
  unfoldable pub drop_limiter : World S Bucket Regexp → World S Bucket Regexp
  drop_limiter w = record w { registry = delete_limiter w.controller.tag w.registry }

  -- `c.limiter.UpdateRule(&rules)`; a pattern that does not compile panics
  unfoldable pub put_rules :
      (Str → Option Regexp) → Rules → World S Bucket Regexp → End (World S Bucket Regexp)
  put_rules must_compile rules w = elim (update_rule must_compile rules (own_limiter w)) [
    | none ↦ panics w
    | some l ↦ goes_on (put_limiter l w)
  ]

  -- a call of the core, with what its failure does
  abbrev pub call :
      {A : Type 0}
      → (S → Result A × S)
      → (Str → World S Bucket Regexp → End (World S Bucket Regexp))
      → World S Bucket Regexp
      → End (World S Bucket Regexp)
  call op failure w =
      let (r, s) = op w.server in
      elim r [
        | ok a ↦ goes_on (record w { server = s })
        | err e ↦ failure e (record w { server = s })
      ]

-- a task that Start has been called on
abbrev started : Bool → ℤ → Option Task
started first interval = some (Task.start first (new_task interval))

-- the `case "none", "", "file", "self"` of startTasks
abbrev no_renewal : Str → Bool
no_renewal mode = mode == codes "none" || mode == [] || mode == codes "file" || mode == codes "self"

-- func (c *Controller) startTasks(node). The dynamic speed limit task is made, and not started.
unfoldable pub start_tasks : NodeInfo → Controller → Controller
start_tasks node c =
    let c1 = record c {
      node_info_monitor_periodic = started false node.pull_interval;
      user_report_periodic = started false node.push_interval;
    } in
    let c2 =
      if (node.security == tls) && not (no_renewal c.options.cert_mode)
      then record c1 { renew_cert_periodic = started true (pos 86400000000000) }
      else c1 in
    if c.options.limit_config.enable_dynamic_speed_limit
    then record c2 {
      traffic = [];
      dynamic_speed_limit_periodic = some (
          new_task (
            wrap64 (c.options.limit_config.dynamic_speed_limit_config.periodic *ℤ pos 1000000000)));
    }
    else c2
