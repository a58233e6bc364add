-- ===== src/Tests/Servers.antt =====
-- Runs of the configuration of Hysteria2 nodes.
use bxtest.Prelude.{
  ◌↔◌, Str, codes, text_eq, str_eq, pos, ℕ, true, false, Option, none, some, List, [], ◌∷◌, ◌++◌,
  replicate, Result, ok, err, lookup, insert, length, ◌≡◌, refl, ap, arith, inl, inr, map,
}
use bxtest.Hy2.Config.{
  QuicSettings, RedundancySettings, PlainResolver, SecureResolver, ResolverSettings, AclSettings,
  MasqueradeSettings, ServerConfig,
}
use bxtest.Hy2.Config.Quic.{get_quic_config}
use bxtest.Hy2.Config.Quic.Bounds.{built_quic, IsAccepted, IsInBounds, get_quic_config-IsInBounds}
use bxtest.Hy2.Config.Redundancy.{get_exclude_port, get_multipliers}
use bxtest.Hy2.Config.Outbounds.{
  get_request_hook, Extras, get_entries, apply_acl, get_outbound_config, IsResolved,
}
use bxtest.Hy2.Config.Outbounds.Resolved.{get_outbound_config-IsResolved}
use bxtest.Hy2.Config.Masquerade.{NetText, format_address, get_masq_handler}
use bxtest.Hy2.Config.Certificate.{new_loader, handshakes, last_good, handshakes-last_good}
use bxtest.Hy2.Config.StatelessReset.{Codec, Disk, load_key, load_key-load_key}
use bxtest.Hy2.Config.Build.{
  Hysteria2Info, get_tls_config, HyOptions, System, get_hy_config, masq_started,
}
use bxtest.Hy2.Config.Build.Sockets.{get_hy_config-listen_udp}
use bxtest.Hy2.Nodes.{Service, Servers, load_config, add_node, del_node}
use bxtest.Hy2.Nodes.Undo.{IsService, del_node-add_node}

abbrev quic : QuicSettings
quic = record {
  init_stream_receive_window = 65536;
  max_stream_receive_window = 0;
  init_connection_receive_window = 20000;
  max_connection_receive_window = 0;
  max_idle_timeout = pos 5000000000;
  max_incoming_streams = pos 8;
  disable_stateless_reset = false;
}

quic-IsAccepted : IsAccepted quic
quic-IsAccepted = record {
  init_stream = inr (ground arith);
  max_stream = inl refl;
  init_connection = inr (ground arith);
  max_connection = inl refl;
  idle = inr (ground arith, ground arith);
  streams = inr (ground arith);
}

get_quic_config-IsInBounds_example : (get_quic_config false quic ≡ ok (built_quic false quic)) ↔ (
    IsAccepted quic
    × IsInBounds quic (built_quic false quic)
    × (built_quic false quic ≡ built_quic false quic))
get_quic_config-IsInBounds_example = get_quic_config-IsInBounds false quic (built_quic false quic)

-- the configuration is built
quic-built :
    IsAccepted quic
    × IsInBounds quic (built_quic false quic)
    × (built_quic false quic ≡ built_quic false quic)
unfolding get_quic_config
quic-built = get_quic_config-IsInBounds_example.0 refl

abbrev redundancy : RedundancySettings
redundancy = record {
  enabled = true;
  multiplier = some (pos 3);
  write_to_multiplier = none;
  send_message_multiplier = some (pos 100);
  exclude_ports = [];
}

-- outbounds that are named by the calls that made them
abbrev extras : Extras Str Str
extras = record {
  to_lower = λ s. s;
  parse_ip = λ s. some s;
  direct_simple = λ m. codes "direct";
  direct_to_ips = λ m a b. ok (codes "ips");
  direct_to_device = λ m d. ok d;
  socks5 = λ a u p. a;
  http = λ u i. ok u;
  acl_from_file = λ f obs c. ok f;
  acl_from_string = λ s obs c. ok (codes "acl");
  system_resolver = λ o. codes "system:" ++ o;
  tcp_resolver = λ a t o. a ++ o;
  udp_resolver = λ a t o. a ++ o;
  tls_resolver = λ a t s i o. a ++ o;
  https_resolver = λ a t s i o. a ++ o;
  ipv4_only_resolver = λ o. o;
}

abbrev acl : AclSettings
acl = record {
  file = codes "acl.txt";
  lines = [];
  geo_ip = [];
  geo_site = [];
  geo_update_interval = pos 0;
}

abbrev no_plain : PlainResolver
no_plain = record { addr = []; timeout = pos 0 }

abbrev no_secure : SecureResolver
no_secure = record { addr = []; timeout = pos 0; sni = []; insecure = false }

abbrev resolver : ResolverSettings
resolver = record {
  type = [];
  ipv4_only = false;
  tcp = no_plain;
  udp = no_plain;
  tls = no_secure;
  https = no_secure;
}

get_outbound_config-IsResolved_example :
    (obs : List (Str × Str)) × (engine : Str) × (get_entries extras [] ≡ ok obs)
    × (apply_acl extras acl obs ≡ ok (engine, true))
    × IsResolved extras engine (codes "system:acl.txt")
unfolding get_outbound_config str_eq
get_outbound_config-IsResolved_example =
    get_outbound_config-IsResolved extras [] acl resolver (codes "system:acl.txt") refl refl

abbrev net_text : NetText Str
net_text = record {
  to_lower = λ s. s;
  parse_url = λ s. ok s;
  split_port = λ s. some s;
  atoi = λ s. some (pos 443);
}

abbrev masquerade : MasqueradeSettings
masquerade = record {
  type = codes "string";
  file_dir = [];
  proxy_url = [];
  proxy_rewrite_host = false;
  string_content = codes "hi";
  string_status_code = pos 404;
  listen_http = [];
  listen_https = codes ":443";
  force_https = false;
}

-- the certificate is replaced at the second handshake, and the third reading fails
abbrev readings : List (Result ℕ)
readings = ok 1 ∷ ok 2 ∷ err (codes "gone") ∷ []

handshakes-last_good_example :
    handshakes readings (record { cert = some 1 }) ≡ map (λ d. ok (some d)) (last_good 1 readings)
unfolding new_loader
handshakes-last_good_example = handshakes-last_good 1 (record { cert = some 1 }) readings refl

abbrev drop_last : Str → Str
drop_last [] = []
drop_last (c ∷ []) = []
drop_last (c ∷ d ∷ s) = c ∷ drop_last (d ∷ s)

drop_last-append : (s : Str) (c : ℕ) → drop_last (s ++ (c ∷ [])) ≡ s
drop_last-append [] c = refl
drop_last-append (a ∷ []) c = refl
drop_last-append (a ∷ b ∷ s) c = ap (λ t. a ∷ t) (drop_last-append (b ∷ s) c)

-- a file holds the bytes of the secret themselves
abbrev codec : Codec
codec = record {
  secret_path = λ p. codes "secret";
  trim_space = drop_last;
  encode = λ s. s;
  decode = λ s. some s;
  hmac = λ s t. t ++ s;
}

abbrev disk : Disk
disk = record {
  files = [];
  read_error = λ p. none;
  create_error = λ p. none;
  write_error = λ p. none;
}

abbrev secret : Str
secret = replicate 32 7

abbrev disk_after : Disk
disk_after = record disk { files = (codes "secret", secret ++ codes "\n") ∷ [] }

load_key-load_key_example :
    load_key codec (codes "c.json") (codes "n") (err (codes "no entropy")) [] disk_after
    ≡ (ok (some (codes "n" ++ secret)), disk_after)
unfolding load_key str_eq lookup insert
load_key-load_key_example =
    load_key-load_key codec (record { decode_encode = λ s. ap some (drop_last-append s 10) })
      (codes "c.json") (codes "n") secret [] disk disk_after (codes "n" ++ secret)
      (err (codes "no entropy")) [] (ground arith) refl

abbrev server_config : ServerConfig
server_config = record {
  quic = quic;
  congestion_type = [];
  congestion_bbr_profile = [];
  disable_udp = false;
  udp_idle_timeout = pos 0;
  udp_forwarding_redundancy = redundancy;
  resolver = resolver;
  sniff = record {
    enable = false;
    timeout = pos 0;
    rewrite_domain = false;
    tcp_ports = [];
    udp_ports = [];
  };
  acl = acl;
  outbounds = [];
  masquerade = masquerade;
  mimic = record { enabled = true; interface = []; xdp_mode = []; path = []; extra_args = [] };
}

-- every call succeeds: the sockets are numbered, and so are the instances of Mimic
abbrev system : System Str Str (List ℕ) Str ℕ ℕ Str ℕ
system = record {
  extras = extras;
  net_text = net_text;
  parse_port_union = λ s. some s;
  load_pair = λ c k. ok 1;
  resolve_udp = λ s. ok s;
  listen_udp = λ a sockets. ok (length sockets);
  local_addr = λ c. codes "443";
  udp_addr = λ c. some (codes "local");
  check_password = λ p. none;
  start_mimic = λ c a. ok 5;
  read_config = λ p. ok server_config;
  no_config = server_config;
  close_socket = λ s sockets. sockets;
}

abbrev info : Hysteria2Info
info = record {
  server_port = pos 443;
  ignore_client_bandwidth = false;
  up_mbps = pos 100;
  down_mbps = pos 0;
  obfs_type = codes "plain";
  obfs_password = [];
}

abbrev hy_options : HyOptions
hy_options = record {
  listen_ip = codes "::";
  cert_config =
      some (record { cert_mode = codes "file"; cert_file = codes "c"; key_file = codes "k" });
  hysteria2_config_path = codes "c.json";
  report_min_traffic = pos 0;
}

abbrev bad_config : ServerConfig
bad_config = record server_config { masquerade = record masquerade { type = codes "none" } }

get_hy_config-listen_udp_example :
    (get_hy_config system info hy_options bad_config (ok none) (9 ∷ [])).1 ≡ 1 ∷ 9 ∷ []
unfolding get_tls_config get_quic_config new_loader str_eq format_address
get_hy_config-listen_udp_example =
    get_hy_config-listen_udp system info hy_options bad_config (ok none) (9 ∷ [])
      (record { cert = some 1 }) (built_quic true quic) _ 1 refl refl refl refl

abbrev drop_first : List ℕ → List ℕ
drop_first [] = []
drop_first (m ∷ ms) = ms

abbrev service : Service Str (List ℕ) Str ℕ ℕ ℕ
service = record {
  new_server = λ hc sockets. (none, sockets);
  close_server = λ hc sockets. (none, drop_first sockets);
  close_mimic = λ m running. drop_first running;
}

service-IsService : IsService service
service-IsService = record {
  keeps = λ hc sockets h. refl;
  gives_back = λ hc sockets. refl;
  stops = λ m running. refl;
}

abbrev no_servers : Servers Str (List ℕ) Str ℕ ℕ ℕ
no_servers = record { hy2nodes = []; sockets = 9 ∷ []; mimics = []; browsers = [] }

abbrev added : Option (Option Str × Servers Str (List ℕ) Str ℕ ℕ ℕ)
added = add_node system service (codes "n") info hy_options (ok none) no_servers

abbrev state_of :
    Option (Option Str × Servers Str (List ℕ) Str ℕ ℕ ℕ) → Servers Str (List ℕ) Str ℕ ℕ ℕ
state_of none = no_servers
state_of (some (e, s)) = s

-- the node masquerades for browsers as well, and their server stays
del_node-add_node_example :
    (c : ServerConfig) × (load_config system service hy_options ≡ some c)
    × (del_node system service (codes "n") (state_of added)
        ≡ some (
          none,
          record no_servers {
            browsers = masq_started system info hy_options c (9 ∷ []) ++ no_servers.browsers;
          },
        ))
unfolding add_node lookup str_eq get_hy_config new_loader get_quic_config get_request_hook
    get_outbound_config get_masq_handler get_multipliers get_exclude_port masq_started
del_node-add_node_example =
    del_node-add_node system service service-IsService (codes "n") info hy_options (ok none)
      no_servers (state_of added) refl refl

browsers-left : length (state_of added).browsers ≡ 1
unfolding add_node lookup str_eq get_hy_config new_loader get_quic_config get_request_hook
    get_outbound_config get_masq_handler get_multipliers get_exclude_port masq_started
browsers-left = refl
