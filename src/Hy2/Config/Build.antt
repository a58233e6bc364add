-- ===== src/Hy2/Config/Build.antt =====
-- The server of a Hysteria2 node: getTLSConfig, getConn and getHyConfig of core/hy2/config.go, with the
-- sockets that are open.
pub mod Sockets
use bxtest.Prelude.{
  Str, codes, text_eq, ℤ, pos, ◌*ℤ◌, wrap64, Bool, true, false, if◌then◌else◌, ◌||◌, Option, none,
  some, List, [], ◌∷◌, Map, lookup, insert, erase, Result, ok, err, ◌>>=◌, ◌==◌,
}
use bxtest.Hy2.Config.{ServerConfig, MimicSettings}
use bxtest.Hy2.Config.Quic.{QuicConfig, get_quic_config, BandwidthConfig, get_bandwidth_config}
use bxtest.Hy2.Config.Redundancy.{Multipliers, get_multipliers, get_exclude_port}
use bxtest.Hy2.Config.Outbounds.{is_blank, Sniffer, get_request_hook, Extras, get_outbound_config}
use bxtest.Hy2.Config.Masquerade.{Handler, TcpServer, NetText, format_address, get_masq_handler}
use bxtest.Hy2.Config.Certificate.{Loader, new_loader}

-- Hysteria2Node of api/panel/node.go, with the port of its CommonNode
pub record Hysteria2Info : Type 0 where
  pub server_port : ℤ
  pub ignore_client_bandwidth : Bool
  pub up_mbps : ℤ
  pub down_mbps : ℤ
  pub obfs_type : Str
  pub obfs_password : Str

pub record CertSettings : Type 0 where
  pub cert_mode : Str
  pub cert_file : Str
  pub key_file : Str

-- the fields of conf.Options that the core reads
pub record HyOptions : Type 0 where
  pub listen_ip : Str
  pub cert_config : Option CertSettings
  pub hysteria2_config_path : Str
  pub report_min_traffic : ℤ

-- the packet connection: the socket, or the socket behind the obfuscation with a password
pub data Conn (Socket : Type 0) : Type 0 where
  plain : Socket → Conn Socket
  salamander : Socket → Str → Conn Socket

abbrev pub socket_of : {Socket : Type 0} → Conn Socket → Socket
socket_of (plain s) = s
socket_of (salamander s password) = s

-- The libraries: the sockets of the system, the files, the proxies and hysteria's server. `new_server`
-- accepts a configuration or refuses it, and `close_server` answers Close with its error.
pub record System (Out Ip Ports Url Cert Socket Addr Mimic : Type 0) : Type 0 where
  pub extras : Extras Out Ip
  pub net_text : NetText Url
  pub parse_port_union : Str → Option Ports
  pub load_pair : Str → Str → Result Cert
  pub resolve_udp : Str → Result Addr
  pub listen_udp : Addr → List Socket → Result Socket
  pub local_addr : Conn Socket → Str
  pub udp_addr : Conn Socket → Option Addr
  pub check_password : Str → Option Str
  pub start_mimic : MimicSettings → Addr → Result Mimic
  pub read_config : Str → Result ServerConfig
  -- the configuration when there is no file: every setting is left out
  pub no_config : ServerConfig
  pub close_socket : Socket → List Socket → List Socket

-- server.Config
pub record HyConfig (Out Ports Url Cert Socket : Type 0) : Type 0 where
  pub tls_config : Loader Cert
  pub quic_config : QuicConfig
  pub conn : Conn Socket
  pub stateless_reset_key : Option Str
  pub request_hook : Option (Sniffer Ports)
  pub outbound : Out
  pub congestion_type : Str
  pub congestion_bbr_profile : Str
  pub bandwidth_config : BandwidthConfig
  pub ignore_client_bandwidth : Bool
  pub disable_udp : Bool
  pub udp_idle_timeout : ℤ
  pub multipliers : Multipliers
  pub exclude_port : Option Ports
  pub masq_handler : Handler Url
  -- the server for browsers that getMasqHandler has started
  pub masq_server : Option (TcpServer Url)

module _ {Out Ip Ports Url Cert Socket Addr Mimic : Type 0}
    (x : System Out Ip Ports Url Cert Socket Addr Mimic) where
  -- func (n *Hysteria2node) getTLSConfig(config)
  unfoldable pub get_tls_config : HyOptions → Result (Loader Cert)
  get_tls_config o = elim o.cert_config [
    | none ↦ err (codes "the CertConfig is not vail")
    | some c ↦
        if c.cert_mode == codes "none" || is_blank c.cert_mode
        then err (codes "the CertMode cannot be none")
        else new_loader (x.load_pair c.cert_file c.key_file)
  ]

  -- the switch on info.Hysteria2.ObfsType
  obfuscate : Hysteria2Info → Socket → Result (Conn Socket)
  obfuscate info socket =
      let type = x.extras.to_lower info.obfs_type in
      if is_blank type || type == codes "plain"
      then ok (plain socket)
      else if type == codes "salamander"
      then elim (x.check_password info.obfs_password) [
        | none ↦ ok (salamander socket info.obfs_password)
        | some e ↦ err e
      ]
      else err (codes "unsupported obfuscation type")

  -- func (n *Hysteria2node) getConn(info, config), with the open sockets after it
  unfoldable pub get_conn :
      Hysteria2Info → HyOptions → List Socket → Result (Conn Socket) × List Socket
  unfolding obfuscate
  get_conn info o sockets = elim (x.resolve_udp (format_address o.listen_ip info.server_port)) [
    | err e ↦ (err e, sockets)
    | ok addr ↦ elim (x.listen_udp addr sockets) [
      | err e ↦ (err e, sockets)
      | ok socket ↦ (obfuscate info socket, socket ∷ sockets)
    ]
  ]

  -- the steps of getHyConfig after getConn; `key` is what loadStatelessResetKey answers, and an error of
  -- it is only logged
  finish_config :
      Hysteria2Info
      → ServerConfig
      → Result (Option Str)
      → Loader Cert
      → QuicConfig
      → Conn Socket
      → Result (HyConfig Out Ports Url Cert Socket)
  finish_config info c key tls quic conn = do
    sniff ← get_request_hook x.parse_port_union c.sniff
    out ← get_outbound_config x.extras c.outbounds c.acl c.resolver
    masq ← get_masq_handler x.net_text (x.local_addr conn) c.masquerade
    copies ← get_multipliers c.udp_forwarding_redundancy
    ports ← get_exclude_port x.parse_port_union c.udp_forwarding_redundancy
    ok (record {
      tls_config = tls;
      quic_config = quic;
      conn = conn;
      stateless_reset_key = elim key [ ok k ↦ k | err e ↦ none ];
      request_hook = sniff;
      outbound = out;
      congestion_type = c.congestion_type;
      congestion_bbr_profile = c.congestion_bbr_profile;
      bandwidth_config = get_bandwidth_config info.up_mbps info.down_mbps;
      ignore_client_bandwidth = info.ignore_client_bandwidth;
      disable_udp = c.disable_udp;
      udp_idle_timeout = c.udp_idle_timeout;
      multipliers = copies;
      exclude_port = ports;
      masq_handler = masq.0;
      masq_server = masq.1;
    })

  -- func (n *Hysteria2node) getHyConfig(info, config, c), with the open sockets after it
  unfoldable pub get_hy_config :
      Hysteria2Info
      → HyOptions
      → ServerConfig
      → Result (Option Str)
      → List Socket
      → Result (HyConfig Out Ports Url Cert Socket) × List Socket
  unfolding get_tls_config get_conn finish_config
  get_hy_config info o c key sockets = elim (get_tls_config o) [
    | err e ↦ (err e, sockets)
    | ok tls ↦ elim (get_quic_config c.mimic.enabled c.quic) [
      | err e ↦ (err e, sockets)
      | ok quic ↦
          let (conn, sockets') = get_conn info o sockets in
          (conn >>= finish_config info c key tls quic, sockets')
    ]
  ]

  -- the steps of getHyConfig up to getMasqHandler
  reach_masq :
      Hysteria2Info
      → HyOptions
      → ServerConfig
      → List Socket
      → Result (Handler Url × Option (TcpServer Url))
  unfolding get_tls_config get_conn
  reach_masq info o c sockets = do
    tls ← get_tls_config o
    quic ← get_quic_config c.mimic.enabled c.quic
    conn ← (get_conn info o sockets).0
    sniff ← get_request_hook x.parse_port_union c.sniff
    out ← get_outbound_config x.extras c.outbounds c.acl c.resolver
    get_masq_handler x.net_text (x.local_addr conn) c.masquerade

  -- The server for browsers that getMasqHandler starts by runMasqTCPServer. No later step of getHyConfig
  -- stops it, whether that step fails or not.
  unfoldable pub masq_started :
      Hysteria2Info → HyOptions → ServerConfig → List Socket → List (TcpServer Url)
  unfolding reach_masq
  masq_started info o c sockets = elim (reach_masq info o c sockets) [
    | err e ↦ []
    | ok (handler, none) ↦ []
    | ok (handler, some s) ↦ s ∷ []
  ]
