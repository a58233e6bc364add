-- ===== src/Hy2/Config/Quic.antt =====
-- getQUICConfig and getBandwidthConfig of core/hy2/config.go.
pub mod Bounds
use bxtest.Prelude.{
  codes, ℤ, pos, int_eq, ltb_ℤ, ◌≤ℤ◌, ◌*ℤ◌, wrap64, quot_ℤ, bits64, ℕ, ◌*◌, ◌/◌, ◌≤◌, ltb, nat_beq,
  Bool, false, if◌then◌else◌, ◌||◌, ◌⊎◌, Result, ok, err, ◌>>=◌, ok_inj, ap, ◌==◌, ◌≡◌, ◌↔◌, refl,
  sym, subst, ◌∙◌, arith,
}
use bxtest.Hy2.Config.{QuicSettings}

pub record QuicConfig : Type 0 where
  pub initial_stream_receive_window : ℕ
  pub max_stream_receive_window : ℕ
  pub initial_connection_receive_window : ℕ
  pub max_connection_receive_window : ℕ
  pub max_idle_timeout : ℤ
  pub max_incoming_streams : ℤ
  pub disable_path_mtu_discovery : Bool
  pub disable_stateless_reset : Bool
  pub disable_gso : Bool

abbrev pub default_stream_receive_window : ℕ
default_stream_receive_window = 8388608

abbrev pub default_conn_receive_window : ℕ
default_conn_receive_window = default_stream_receive_window * 5 / 2

abbrev pub default_max_idle_timeout : ℤ
default_max_idle_timeout = pos 30000000000

abbrev pub default_max_incoming_streams : ℤ
default_max_incoming_streams = pos 4096

-- &server.QUICConfig{}
abbrev no_quic : QuicConfig
no_quic = record {
  initial_stream_receive_window = 0;
  max_stream_receive_window = 0;
  initial_connection_receive_window = 0;
  max_connection_receive_window = 0;
  max_idle_timeout = pos 0;
  max_incoming_streams = pos 0;
  disable_path_mtu_discovery = false;
  disable_stateless_reset = false;
  disable_gso = false;
}

-- The six tests in their order, each with its assignment. The first one writes the connection window
-- where it tests the stream window, as in the source.
set_init_stream : QuicSettings → QuicConfig → Result QuicConfig
set_init_stream s q =
    if nat_beq s.init_stream_receive_window 0
    then ok (record q { initial_stream_receive_window = default_stream_receive_window })
    else if ltb s.init_stream_receive_window 16384
    then err (codes "QUICConfig.InitialStreamReceiveWindowf must be at least 16384")
    else ok (record q { initial_connection_receive_window = s.init_connection_receive_window })

set_max_stream : QuicSettings → QuicConfig → Result QuicConfig
set_max_stream s q =
    if nat_beq s.max_stream_receive_window 0
    then ok (record q { max_stream_receive_window = default_stream_receive_window })
    else if ltb s.max_stream_receive_window 16384
    then err (codes "QUICConfig.MaxStreamReceiveWindowf must be at least 16384")
    else ok (record q { max_stream_receive_window = s.max_stream_receive_window })

set_init_connection : QuicSettings → QuicConfig → Result QuicConfig
set_init_connection s q =
    if nat_beq s.init_connection_receive_window 0
    then ok (record q { initial_connection_receive_window = default_conn_receive_window })
    else if ltb s.init_connection_receive_window 16384
    then err (codes "QUICConfig.InitialConnectionReceiveWindowf must be at least 16384")
    else ok (record q { initial_connection_receive_window = s.init_connection_receive_window })

set_max_connection : QuicSettings → QuicConfig → Result QuicConfig
set_max_connection s q =
    if nat_beq s.max_connection_receive_window 0
    then ok (record q { max_connection_receive_window = default_conn_receive_window })
    else if ltb s.max_connection_receive_window 16384
    then err (codes "QUICConfig.MaxConnectionReceiveWindowf must be at least 16384")
    else ok (record q { max_connection_receive_window = s.max_connection_receive_window })

set_idle : QuicSettings → QuicConfig → Result QuicConfig
set_idle s q =
    if s.max_idle_timeout == pos 0
    then ok (record q { max_idle_timeout = default_max_idle_timeout })
    else if ltb_ℤ s.max_idle_timeout (pos 4000000000) || ltb_ℤ (pos 120000000000) s.max_idle_timeout
    then err (codes "QUICConfig.MaxIdleTimeoutf must be between 4s and 120s")
    else ok (record q { max_idle_timeout = s.max_idle_timeout })

set_streams : QuicSettings → QuicConfig → Result QuicConfig
set_streams s q =
    if s.max_incoming_streams == pos 0
    then ok (record q { max_incoming_streams = default_max_incoming_streams })
    else if ltb_ℤ s.max_incoming_streams (pos 8)
    then err (codes "QUICConfig.MaxIncomingStreamsf must be at least 8")
    else ok (record q { max_incoming_streams = s.max_incoming_streams })

-- func (n *Hysteria2node) getQUICConfig(config); `mimic` is config.Mimic.Enabled
unfoldable pub get_quic_config : Bool → QuicSettings → Result QuicConfig
unfolding set_init_stream set_max_stream set_init_connection set_max_connection set_idle set_streams
get_quic_config mimic s = do
  a ← set_init_stream s no_quic
  b ← set_max_stream s a
  c ← set_init_connection s b
  d ← set_max_connection s c
  e ← set_idle s d
  f ← set_streams s e
  ok (record f {
    disable_path_mtu_discovery = false;
    disable_stateless_reset = s.disable_stateless_reset;
    disable_gso = mimic;
  })

pub record BandwidthConfig : Type 0 where
  pub max_tx : ℕ
  pub max_rx : ℕ

-- (uint64)(mbps * Megabyte / 8)
abbrev pub to_bytes : ℤ → ℕ
to_bytes mbps = bits64 (quot_ℤ (wrap64 (mbps *ℤ pos 1000000)) 8)

-- func (n *Hysteria2node) getBandwidthConfig(info)
unfoldable pub get_bandwidth_config : ℤ → ℤ → BandwidthConfig
get_bandwidth_config up_mbps down_mbps = record {
  max_tx = if up_mbps == pos 0 then 0 else to_bytes up_mbps;
  max_rx = if down_mbps == pos 0 then 0 else to_bytes down_mbps;
}
