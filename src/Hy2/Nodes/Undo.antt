-- ===== src/Hy2/Nodes/Undo.antt =====
-- AddNode and DelNode of core/hy2/node.go: a node that is added and deleted again.
use bxtest.Prelude.{
  Str, text_eq, pos, ◌*ℤ◌, wrap64, Option, none, some, List, ◌∷◌, ◌++◌, lookup, insert, erase,
  lookup-insert, beq_refl, erase-insert, some_inj, Result, Result-cases, Option-cases, Bool-cases,
  inl, inr, ◌≡◌, refl, sym, ap, ◌∙◌,
}
use bxtest.Hy2.Config.{ServerConfig}
use bxtest.Hy2.Config.Build.{
  Hysteria2Info, HyOptions, System, HyConfig, socket_of, get_hy_config, masq_started,
}
use bxtest.Hy2.Config.Build.Sockets.{get_hy_config-ok}
use bxtest.Hy2.Nodes.{
  Hysteria2Node, Service, State, stop_mimic, start_server, start_with_mimic, load_config, add_node,
  del_node,
}

-- What AddNode and DelNode rely on: a server that starts keeps its socket, and Close gives it back, as
-- Close of Mimic does with its process.
pub record IsService {Out Ports Url Cert Socket Mimic : Type 0}
    (y : Service Out Ports Url Cert Socket Mimic) : Type 0 where
  pub keeps :
      (hc : HyConfig Out Ports Url Cert Socket) (sockets : List Socket)
      → (y.new_server hc sockets).0 ≡ none
      → (y.new_server hc sockets).1 ≡ sockets
  pub gives_back :
      (hc : HyConfig Out Ports Url Cert Socket) (sockets : List Socket)
      → y.close_server hc (socket_of hc.conn ∷ sockets) ≡ (none, sockets)
  pub stops : (m : Mimic) (running : List Mimic) → y.close_mimic m (m ∷ running) ≡ running

module _ {Out Ip Ports Url Cert Socket Addr Mimic : Type 0}
    (x : System Out Ip Ports Url Cert Socket Addr Mimic)
    (y : Service Out Ports Url Cert Socket Mimic) (service : IsService y) where
  del_node-lookup :
      (tag : Str) (n : Hysteria2Node Out Ports Url Cert Socket Mimic) (s : State x y)
      (sockets : List Socket)
      → lookup tag s.hy2nodes ≡ some n
      → y.close_server n.hy2server s.sockets ≡ (none, sockets)
      → del_node x y tag s
        ≡ some (
          none,
          record {
            hy2nodes = erase tag s.hy2nodes;
            sockets = sockets;
            mimics = stop_mimic x y n.mimic s.mimics;
            browsers = s.browsers;
          },
        )
  unfolding del_node
  del_node-lookup tag n s sockets e closed =
      rw (del_node, e, ap (λ (r : Option Str × List Socket). r.0) closed)
        (ap
          (λ left. some (
            none,
            record {
              hy2nodes = erase tag s.hy2nodes;
              sockets = left;
              mimics = stop_mimic x y n.mimic s.mimics;
              browsers = s.browsers;
            },
          ))
          (ap (λ (r : Option Str × List Socket). r.1) closed))

  -- the node that start_server adds
  abbrev node_of :
      HyOptions
      → HyConfig Out Ports Url Cert Socket
      → Option Mimic
      → Hysteria2Node Out Ports Url Cert Socket Mimic
  node_of o hc m = record {
    hy2server = hc;
    report_min_traffic_bytes = wrap64 (o.report_min_traffic *ℤ pos 1024);
    mimic = m;
  }

  start_server-none :
      (tag : Str) (o : HyOptions) (hc : HyConfig Out Ports Url Cert Socket) (m : Option Mimic)
      (s s' : State x y)
      → start_server x y tag o hc m s ≡ (none, s')
      → ((y.new_server hc s.sockets).0 ≡ none)
        × (record s {
          hy2nodes = insert tag (node_of o hc m) s.hy2nodes;
          sockets = (y.new_server hc s.sockets).1;
        }
            ≡ s')
  unfolding start_server
  start_server-none tag o hc m s s' h = elim (Option-cases (y.new_server hc s.sockets).0) [
    | inr (e, a) ↦ cc (h, a)
    | inl a ↦ (a, ap (λ (r : Option Str × State x y). r.1) (rw (start_server, a) at h))
  ]

  del_node-start_server :
      (tag : Str) (o : HyOptions) (hc : HyConfig Out Ports Url Cert Socket) (m : Option Mimic)
      (s s' : State x y) (sockets : List Socket)
      → lookup tag s.hy2nodes ≡ none
      → s.sockets ≡ socket_of hc.conn ∷ sockets
      → start_server x y tag o hc m s ≡ (none, s')
      → del_node x y tag s'
        ≡ some (
          none,
          record {
            hy2nodes = s.hy2nodes;
            sockets = sockets;
            mimics = stop_mimic x y m s.mimics;
            browsers = s.browsers;
          },
        )
  del_node-start_server tag o hc m s s' sockets fresh top h =
      let (a, b) = start_server-none tag o hc m s s' h in
      let closed =
        ap (y.close_server hc) (service.keeps hc s.sockets a ∙ top)
        ∙ service.gives_back hc sockets in
      ap (del_node x y tag) (sym b)
      ∙ del_node-lookup tag (node_of o hc m) _ sockets
          (lookup-insert tag tag (node_of o hc m) s.hy2nodes ∙ rw (beq_refl tag) refl) closed
      ∙ ap
          (λ nodes. some (
            none,
            record {
              hy2nodes = nodes;
              sockets = sockets;
              mimics = stop_mimic x y m s.mimics;
              browsers = s.browsers;
            },
          ))
          (erase-insert tag (node_of o hc m) s.hy2nodes fresh)

  del_node-start_with_mimic :
      (tag : Str) (o : HyOptions) (c : ServerConfig) (hc : HyConfig Out Ports Url Cert Socket)
      (s s' : State x y) (sockets : List Socket)
      → lookup tag s.hy2nodes ≡ none
      → s.sockets ≡ socket_of hc.conn ∷ sockets
      → start_with_mimic x y tag o c hc s ≡ (none, s')
      → del_node x y tag s'
        ≡ some (
          none,
          record {
            hy2nodes = s.hy2nodes;
            sockets = sockets;
            mimics = s.mimics;
            browsers = s.browsers;
          },
        )
  unfolding start_with_mimic
  del_node-start_with_mimic tag o c hc s s' sockets fresh top h =
      elim (Bool-cases c.mimic.enabled) [
        | inr f ↦
            del_node-start_server tag o hc none s s' sockets fresh top
              (rw (start_with_mimic, f) at h)
        | inl f ↦ elim (Option-cases (x.udp_addr hc.conn)) [
          | inl d ↦ cc (rw (start_with_mimic, f, d) at h)
          | inr (addr, d) ↦ elim (Result-cases (x.start_mimic c.mimic addr)) [
            | inr (m, e) ↦
                del_node-start_server tag o hc none s s' sockets fresh top
                  (rw (start_with_mimic, f, d, e) at h)
            | inl (m, e) ↦
                del_node-start_server tag o hc (some m) (record s { mimics = m ∷ s.mimics }) s'
                  sockets fresh top (rw (start_with_mimic, f, d, e) at h)
                ∙ ap
                    (λ running. some (
                      none,
                      record {
                        hy2nodes = s.hy2nodes;
                        sockets = sockets;
                        mimics = running;
                        browsers = s.browsers;
                      },
                    ))
                    (service.stops m s.mimics)
          ]
        ]
      ]

  -- A node that was added under a tag that was free, and is deleted again, gives back the nodes, the open
  -- UDP sockets and the instances of Mimic from before; but the server for browsers that its masquerade
  -- has started, if it has one, is left running beside those from before.
  pub del_node-add_node :
      (tag : Str) (info : Hysteria2Info) (o : HyOptions) (key : Result (Option Str))
      (s s' : State x y)
      → lookup tag s.hy2nodes ≡ none
      → add_node x y tag info o key s ≡ some (none, s')
      → (c : ServerConfig) × (load_config x y o ≡ some c)
        × (del_node x y tag s'
            ≡ some (none, record s { browsers = masq_started x info o c s.sockets ++ s.browsers }))
  unfolding add_node
  del_node-add_node tag info o key s s' fresh h = elim (Option-cases (load_config x y o)) [
    | inl e ↦ cc (rw (add_node, e) at h)
    | inr (c, e) ↦ elim (Result-cases (get_hy_config x info o c key s.sockets).0) [
      | inr (m, f) ↦ cc (rw (add_node, e, f) at h)
      | inl (hc, f) ↦ (
        c,
        e,
        del_node-start_with_mimic tag o c hc
            (record s {
              sockets = (get_hy_config x info o c key s.sockets).1;
              browsers = masq_started x info o c s.sockets ++ s.browsers;
            })
            s' s.sockets fresh (get_hy_config-ok x info o c key s.sockets hc f)
            (some_inj (rw (add_node, e, f) at h)),
      )
    ]
  ]
