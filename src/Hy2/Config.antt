-- ===== src/Hy2/Config.antt =====
-- core/hy2/serverConfig.go: the settings of a Hysteria2 node that core/hy2/config.go reads. A Duration
-- is its nanoseconds, and a uint64 a natural number below 2 ^ 64.
pub mod Quic
pub mod Redundancy
pub mod Outbounds
pub mod Masquerade
pub mod Certificate
pub mod StatelessReset
pub mod Build
use bxtest.Prelude.{Str, ℤ, ℕ, Bool, Option, List}

pub record QuicSettings : Type 0 where
  pub init_stream_receive_window : ℕ
  pub max_stream_receive_window : ℕ
  pub init_connection_receive_window : ℕ
  pub max_connection_receive_window : ℕ
  pub max_idle_timeout : ℤ
  pub max_incoming_streams : ℤ
  pub disable_stateless_reset : Bool

pub record RedundancySettings : Type 0 where
  pub enabled : Bool
  pub multiplier : Option ℤ
  pub write_to_multiplier : Option ℤ
  pub send_message_multiplier : Option ℤ
  pub exclude_ports : Str

-- serverConfigResolverTCP and serverConfigResolverUDP
pub record PlainResolver : Type 0 where
  pub addr : Str
  pub timeout : ℤ

-- serverConfigResolverTLS and serverConfigResolverHTTPS
pub record SecureResolver : Type 0 where
  pub addr : Str
  pub timeout : ℤ
  pub sni : Str
  pub insecure : Bool

pub record ResolverSettings : Type 0 where
  pub type : Str
  pub ipv4_only : Bool
  pub tcp : PlainResolver
  pub udp : PlainResolver
  pub tls : SecureResolver
  pub https : SecureResolver

pub record SniffSettings : Type 0 where
  pub enable : Bool
  pub timeout : ℤ
  pub rewrite_domain : Bool
  pub tcp_ports : Str
  pub udp_ports : Str

pub record AclSettings : Type 0 where
  pub file : Str
  pub lines : List Str
  pub geo_ip : Str
  pub geo_site : Str
  pub geo_update_interval : ℤ

pub record DirectSettings : Type 0 where
  pub mode : Str
  pub bind_ipv4 : Str
  pub bind_ipv6 : Str
  pub bind_device : Str

pub record Socks5Settings : Type 0 where
  pub addr : Str
  pub username : Str
  pub password : Str

pub record HttpSettings : Type 0 where
  pub url : Str
  pub insecure : Bool

pub record OutboundEntry : Type 0 where
  pub name : Str
  pub type : Str
  pub direct : DirectSettings
  pub socks5 : Socks5Settings
  pub http : HttpSettings

-- serverConfigMasquerade with its File, Proxy and String; the headers are written to each response
pub record MasqueradeSettings : Type 0 where
  pub type : Str
  pub file_dir : Str
  pub proxy_url : Str
  pub proxy_rewrite_host : Bool
  pub string_content : Str
  pub string_status_code : ℤ
  pub listen_http : Str
  pub listen_https : Str
  pub force_https : Bool

pub record MimicSettings : Type 0 where
  pub enabled : Bool
  pub interface : Str
  pub xdp_mode : Str
  pub path : Str
  pub extra_args : List Str

pub record ServerConfig : Type 0 where
  pub quic : QuicSettings
  pub congestion_type : Str
  pub congestion_bbr_profile : Str
  pub disable_udp : Bool
  pub udp_idle_timeout : ℤ
  pub udp_forwarding_redundancy : RedundancySettings
  pub resolver : ResolverSettings
  pub sniff : SniffSettings
  pub acl : AclSettings
  pub outbounds : List OutboundEntry
  pub masquerade : MasqueradeSettings
  pub mimic : MimicSettings
