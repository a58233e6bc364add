-- ===== src/Node/Nodes.antt =====
-- node/node.go: the controllers of all nodes. `new_client` is panel.New, as far as its error goes, and
-- `host` the APIHost of the client.
use bxtest.Prelude.{Str, List, [], ◌∷◌, ◌++◌, Option, none, Result, ok, err}
use bxtest.Conf.{Options}
use bxtest.Core.{Core}
use bxtest.Limiter.Users.{Registry}
use bxtest.Node.Controller.{Controller, World, End, goes_on, returns, fails, panics}
use bxtest.Node.Lifecycle.{Answers, start, close}

-- NodeConfig of conf/node.go
pub record NodeConfig : Type 0 where
  pub api_host : Str
  pub options : Options

-- the controllers, and what they share
pub record Nodes (S B R : Type 0) : Type 0 where
  pub controllers : List Controller
  pub registry : Registry B R
  pub server : S

-- func NewController(server, api, config); a controller has no limiter before Start, and address 0
-- stands for the nil
unfoldable pub new_controller : Str → Options → Controller
new_controller host options = record {
  api_host = host;
  tag = [];
  limiter = 0;
  traffic = [];
  user_list = [];
  alive_map = [];
  info = none;
  node_info_monitor_periodic = none;
  user_report_periodic = none;
  renew_cert_periodic = none;
  dynamic_speed_limit_periodic = none;
  options = options;
}

module _ {S B R : Type 0} where
  abbrev pub world_of : Controller → Nodes S B R → World S B R
  world_of c n = record { controller = c; registry = n.registry; server = n.server }

  abbrev pub with_world : World S B R → Nodes S B R → Nodes S B R
  with_world w n = record {
    controllers = n.controllers ++ (w.controller ∷ []);
    registry = w.registry;
    server = w.server;
  }

module _ {S B R : Type 0} (core : Core S) (must_compile : Str → Option R)
    (new_client : NodeConfig → Result (Unit {0})) where
  -- the loop of Start; each controller comes with the answers that its Start gets
  start_each : List (NodeConfig × Answers) → Nodes S B R → End (Nodes S B R)
  start_each [] n = returns n
  start_each ((conf, a) ∷ more) n = elim (new_client conf) [
    | err e ↦ fails e n
    | ok u ↦
        elim (start core must_compile a (world_of (new_controller conf.api_host conf.options) n)) [
          | goes_on w ↦ start_each more (with_world w n)
          | returns w ↦ start_each more (with_world w n)
          | fails e w ↦ fails e (with_world w n)
          | panics w ↦ panics (with_world w n)
        ]
  ]

  -- func (n *Node) Start(nodes, core)
  unfoldable pub start_all : List (NodeConfig × Answers) → Nodes S B R → End (Nodes S B R)
  unfolding start_each
  start_all nodes n = start_each nodes (record n { controllers = [] })

  -- the loop of Close; an error panics
  close_each : List Controller → Nodes S B R → End (Nodes S B R)
  close_each [] n = returns n
  close_each (c ∷ cs) n = elim (close core must_compile (world_of c n)) [
    | goes_on w ↦ close_each cs (with_world w n)
    | returns w ↦ close_each cs (with_world w n)
    | fails e w ↦ panics (with_world w n)
    | panics w ↦ panics (with_world w n)
  ]

  -- func (n *Node) Close()
  unfoldable pub close_all : Nodes S B R → End (Nodes S B R)
  unfolding close_each
  close_all n = elim (close_each n.controllers (record n { controllers = [] })) [
    | goes_on m ↦ goes_on (record m { controllers = [] })
    | returns m ↦ returns (record m { controllers = [] })
    | fails e m ↦ fails e m
    | panics m ↦ panics m
  ]
