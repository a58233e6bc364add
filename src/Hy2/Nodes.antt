-- ===== src/Hy2/Nodes.antt =====
-- AddNode and DelNode of core/hy2/node.go and Close of core/hy2/hy2.go. Serving runs in a goroutine of
-- the library and is left out. new_server and close_server answer with the error of hysteria's
-- NewServer and Close, and the sockets that are open then.
pub mod Undo
use bxtest.Prelude.{
  Str, codes, text_eq, ℤ, pos, ◌*ℤ◌, wrap64, Bool, if◌then◌else◌, Option, none, some, List, [], ◌∷◌,
  ◌++◌, Map, lookup, insert, erase, Result, ok, err,
}
use bxtest.Hy2.Config.{ServerConfig}
use bxtest.Hy2.Config.Outbounds.{is_blank}
use bxtest.Hy2.Config.Masquerade.{TcpServer}
use bxtest.Hy2.Config.Build.{
  Hysteria2Info, HyOptions, System, HyConfig, socket_of, get_hy_config, masq_started,
}

-- Hysteria2node, with the threshold of its hook
pub record Hysteria2Node (Out Ports Url Cert Socket Mimic : Type 0) : Type 0 where
  pub hy2server : HyConfig Out Ports Url Cert Socket
  pub report_min_traffic_bytes : ℤ
  pub mimic : Option Mimic

-- the nodes, the open UDP sockets, the instances of Mimic that run, and the servers for browsers that
-- runMasqTCPServer has started, the last one first
pub record Servers (Out Ports Url Cert Socket Mimic : Type 0) : Type 0 where
  pub hy2nodes : Map Str (Hysteria2Node Out Ports Url Cert Socket Mimic)
  pub sockets : List Socket
  pub mimics : List Mimic
  pub browsers : List (TcpServer Url)

-- Serving of the library, and the child process of Mimic
pub record Service (Out Ports Url Cert Socket Mimic : Type 0) : Type 0 where
  pub new_server : HyConfig Out Ports Url Cert Socket → List Socket → Option Str × List Socket
  pub close_server : HyConfig Out Ports Url Cert Socket → List Socket → Option Str × List Socket
  pub close_mimic : Mimic → List Mimic → List Mimic

module _ {Out Ip Ports Url Cert Socket Addr Mimic : Type 0}
    (x : System Out Ip Ports Url Cert Socket Addr Mimic)
    (y : Service Out Ports Url Cert Socket Mimic) where
  abbrev pub State : Type 0
  State = Servers Out Ports Url Cert Socket Mimic

  -- n.Mimic.Close(), which does nothing on nil
  abbrev pub stop_mimic : Option Mimic → List Mimic → List Mimic
  stop_mimic none running = running
  stop_mimic (some m) running = y.close_mimic m running

  -- server.NewServer and the entry in the map
  pub start_server :
      Str
      → HyOptions
      → HyConfig Out Ports Url Cert Socket
      → Option Mimic
      → State
      → Option Str × State
  start_server tag o hc m s =
      let (failed, sockets') = y.new_server hc s.sockets in
      elim failed [
        | some e ↦ (some e, record s { sockets = sockets'; mimics = stop_mimic m s.mimics })
        | none ↦ (
          none,
          record s {
            hy2nodes =
                insert tag
                  (record {
                    hy2server = hc;
                    report_min_traffic_bytes = wrap64 (o.report_min_traffic *ℤ pos 1024);
                    mimic = m;
                  })
                  s.hy2nodes;
            sockets = sockets';
          },
        )
      ]

  -- Mimic, when it is enabled: without it the node runs all the same, but not without an address
  pub start_with_mimic :
      Str
      → HyOptions
      → ServerConfig
      → HyConfig Out Ports Url Cert Socket
      → State
      → Option Str × State
  unfolding start_server
  start_with_mimic tag o c hc s =
      if c.mimic.enabled
      then elim (x.udp_addr hc.conn) [
        | none ↦ (
          some (codes "mimic: unsupported listen address"),
          record s { sockets = x.close_socket (socket_of hc.conn) s.sockets },
        )
        | some addr ↦ elim (x.start_mimic c.mimic addr) [
          | err e ↦ start_server tag o hc none s
          | ok m ↦ start_server tag o hc (some m) (record s { mimics = m ∷ s.mimics })
        ]
      ]
      else start_server tag o hc none s

  -- the settings of config.Hysteria2ConfigPath; `none` for a file that ends the program by Fatal
  pub load_config : HyOptions → Option ServerConfig
  load_config o =
      if is_blank o.hysteria2_config_path
      then some x.no_config
      else elim (x.read_config o.hysteria2_config_path) [ err e ↦ none | ok c ↦ some c ]

  -- func (h *Hysteria2) AddNode(tag, info, config), with its error; `none` when the program ends. `key`
  -- is what loadStatelessResetKey answers.
  unfoldable pub add_node :
      Str → Hysteria2Info → HyOptions → Result (Option Str) → State → Option (Option Str × State)
  unfolding load_config start_with_mimic
  add_node tag info o key s = elim (load_config o) [
    | none ↦ none
    | some c ↦
        let (built, sockets') = get_hy_config x info o c key s.sockets in
        let s' : State = record s {
          sockets = sockets';
          browsers = masq_started x info o c s.sockets ++ s.browsers;
        } in
        elim built [ err e ↦ some (some e, s') | ok hc ↦ some (start_with_mimic tag o c hc s') ]
  ]

  -- func (h *Hysteria2) DelNode(tag); a node that is not there panics, `none`
  unfoldable pub del_node : Str → State → Option (Option Str × State)
  del_node tag s = elim (lookup tag s.hy2nodes) [
    | none ↦ none
    | some n ↦
        let (failed, sockets') = y.close_server n.hy2server s.sockets in
        elim failed [
          | some e ↦ some (some e, record s { sockets = sockets' })
          | none ↦ some (
            none,
            record {
              hy2nodes = erase tag s.hy2nodes;
              sockets = sockets';
              mimics = stop_mimic n.mimic s.mimics;
              browsers = s.browsers;
            },
          )
        ]
  ]

  -- the loop of Close over the nodes, in the order in which the map gives them
  close_all :
      Map Str (Hysteria2Node Out Ports Url Cert Socket Mimic)
      → List Socket
      → Option Str × List Socket
  close_all [] sockets = (none, sockets)
  close_all ((tag, n) ∷ rest) sockets =
      let (failed, sockets') = y.close_server n.hy2server sockets in
      let after = close_all rest sockets' in
      elim failed [ some e ↦ (some e, sockets') | none ↦ after ]

  -- func (h *Hysteria2) Close()
  unfoldable pub close : State → Option Str × State
  unfolding close_all
  close s =
      let (failed, sockets') = close_all s.hy2nodes s.sockets in
      (failed, record s { sockets = sockets' })
