-- ===== src/Hy2/Config/Quic/Bounds.antt =====
-- Which settings getQUICConfig of core/hy2/config.go accepts, and what it builds from them.
use bxtest.Prelude.{
  ℤ, pos, int_eq, ◌≤ℤ◌, ℕ, ◌≤◌, nat_beq, Bool, false, if◌then◌else◌, ◌⊎◌, ok, ok_inj, ap, ◌==◌, ◌≡◌,
  ◌↔◌, refl, sym, subst, ◌∙◌, arith,
}
use bxtest.Hy2.Config.{QuicSettings}
use bxtest.Hy2.Config.Quic.{
  QuicConfig, default_stream_receive_window, default_conn_receive_window, default_max_idle_timeout,
  default_max_incoming_streams, no_quic, set_init_stream, set_max_stream, set_init_connection,
  set_max_connection, set_idle, set_streams, get_quic_config,
}

-- a window that is left to the default or large enough
abbrev pub IsWindow : ℕ → Type 0
IsWindow n = (n ≡ 0) ⊎ (16384 ≤ n)

-- the settings that are accepted
pub record IsAccepted (s : QuicSettings) : Type 0 where
  pub init_stream : IsWindow s.init_stream_receive_window
  pub max_stream : IsWindow s.max_stream_receive_window
  pub init_connection : IsWindow s.init_connection_receive_window
  pub max_connection : IsWindow s.max_connection_receive_window
  pub idle :
      (s.max_idle_timeout ≡ pos 0)
      ⊎ ((pos 4000000000 ≤ℤ s.max_idle_timeout) × (s.max_idle_timeout ≤ℤ pos 120000000000))
  pub streams : (s.max_incoming_streams ≡ pos 0) ⊎ (pos 8 ≤ℤ s.max_incoming_streams)

-- the limits of the configuration that is built
pub record IsInBounds (s : QuicSettings) (q : QuicConfig) : Type 0 where
  pub max_stream : 16384 ≤ q.max_stream_receive_window
  pub init_connection : 16384 ≤ q.initial_connection_receive_window
  pub max_connection : 16384 ≤ q.max_connection_receive_window
  pub idle : (pos 4000000000 ≤ℤ q.max_idle_timeout) × (q.max_idle_timeout ≤ℤ pos 120000000000)
  pub streams : pos 8 ≤ℤ q.max_incoming_streams
  -- the first window is the default, or missing
  pub init_stream :
      q.initial_stream_receive_window
      ≡ (if nat_beq s.init_stream_receive_window 0 then default_stream_receive_window else 0)

-- a setting, or its default when it is 0
abbrev window_or : ℕ → ℕ → ℕ
window_or d n = if nat_beq n 0 then d else n

abbrev integer_or : ℤ → ℤ → ℤ
integer_or d n = if n == pos 0 then d else n

-- what is built from settings that are accepted
abbrev pub built_quic : Bool → QuicSettings → QuicConfig
built_quic mimic s = record {
  initial_stream_receive_window =
      if nat_beq s.init_stream_receive_window 0 then default_stream_receive_window else 0;
  max_stream_receive_window = window_or default_stream_receive_window s.max_stream_receive_window;
  initial_connection_receive_window =
      window_or default_conn_receive_window s.init_connection_receive_window;
  max_connection_receive_window =
      window_or default_conn_receive_window s.max_connection_receive_window;
  max_idle_timeout = integer_or default_max_idle_timeout s.max_idle_timeout;
  max_incoming_streams = integer_or default_max_incoming_streams s.max_incoming_streams;
  disable_path_mtu_discovery = false;
  disable_stateless_reset = s.disable_stateless_reset;
  disable_gso = mimic;
}

set_init_stream-IsWindow :
    (s : QuicSettings) (q : QuicConfig)
    → IsWindow s.init_stream_receive_window
    → set_init_stream s q
      ≡ ok (record q {
        initial_stream_receive_window =
            if nat_beq s.init_stream_receive_window 0
            then default_stream_receive_window
            else q.initial_stream_receive_window;
        initial_connection_receive_window =
            if nat_beq s.init_stream_receive_window 0
            then q.initial_connection_receive_window
            else s.init_connection_receive_window;
      })
unfolding set_init_stream
set_init_stream-IsWindow s q w = ground arith

set_max_stream-IsWindow :
    (s : QuicSettings) (q : QuicConfig)
    → IsWindow s.max_stream_receive_window
    → set_max_stream s q
      ≡ ok (record q {
        max_stream_receive_window =
            window_or default_stream_receive_window s.max_stream_receive_window;
      })
unfolding set_max_stream
set_max_stream-IsWindow s q w = ground arith

set_init_connection-IsWindow :
    (s : QuicSettings) (q : QuicConfig)
    → IsWindow s.init_connection_receive_window
    → set_init_connection s q
      ≡ ok (record q {
        initial_connection_receive_window =
            window_or default_conn_receive_window s.init_connection_receive_window;
      })
unfolding set_init_connection
set_init_connection-IsWindow s q w = ground arith

set_max_connection-IsWindow :
    (s : QuicSettings) (q : QuicConfig)
    → IsWindow s.max_connection_receive_window
    → set_max_connection s q
      ≡ ok (record q {
        max_connection_receive_window =
            window_or default_conn_receive_window s.max_connection_receive_window;
      })
unfolding set_max_connection
set_max_connection-IsWindow s q w = ground arith

set_idle-IsAccepted :
    (s : QuicSettings) (q : QuicConfig)
    → IsAccepted s
    → set_idle s q
      ≡ ok (record q { max_idle_timeout = integer_or default_max_idle_timeout s.max_idle_timeout })
unfolding set_idle
set_idle-IsAccepted s q a = ground arith

set_streams-IsAccepted :
    (s : QuicSettings) (q : QuicConfig)
    → IsAccepted s
    → set_streams s q
      ≡ ok (record q {
        max_incoming_streams = integer_or default_max_incoming_streams s.max_incoming_streams;
      })
unfolding set_streams
set_streams-IsAccepted s q a = ground arith

get_quic_config-built_quic :
    (mimic : Bool) (s : QuicSettings)
    → IsAccepted s
    → get_quic_config mimic s ≡ ok (built_quic mimic s)
unfolding get_quic_config
get_quic_config-built_quic mimic s a =
    rw
      (
        set_init_stream-IsWindow s no_quic a.init_stream,
        set_max_stream-IsWindow s _ a.max_stream,
        set_init_connection-IsWindow s _ a.init_connection,
        set_max_connection-IsWindow s _ a.max_connection,
        set_idle-IsAccepted s _ a,
        set_streams-IsAccepted s _ a,
      )
      refl

built_quic-IsInBounds :
    (mimic : Bool) (s : QuicSettings) → IsAccepted s → IsInBounds s (built_quic mimic s)
built_quic-IsInBounds mimic s a = record {
  max_stream = ground arith;
  init_connection = ground arith;
  max_connection = ground arith;
  idle = ground arith;
  streams = ground arith;
  init_stream = refl;
}

-- Whatever is built was accepted.
get_quic_config-IsAccepted :
    (mimic : Bool) (s : QuicSettings) (q : QuicConfig)
    → get_quic_config mimic s ≡ ok q
    → IsAccepted s
unfolding get_quic_config
get_quic_config-IsAccepted mimic s q h = ground arith

-- A configuration `q` is built exactly from the settings that are accepted, each one taken over or set to
-- its default, and it is within the bounds of the QUIC library, except for the initial stream window: set
-- to any value it is lost, and 0 is passed on.
pub get_quic_config-IsInBounds :
    (mimic : Bool) (s : QuicSettings) (q : QuicConfig)
    → (get_quic_config mimic s ≡ ok q) ↔ (IsAccepted s × IsInBounds s q × (q ≡ built_quic mimic s))
get_quic_config-IsInBounds mimic s q = (
  λ h.
      let a = get_quic_config-IsAccepted mimic s q h in
      let e = ok_inj (sym (get_quic_config-built_quic mimic s a) ∙ h) in
      (a, subst (IsInBounds s) e (built_quic-IsInBounds mimic s a), sym e),
  λ p. get_quic_config-built_quic mimic s p.0 ∙ ap (λ x. ok x) (sym p.2),
)
