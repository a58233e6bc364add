-- ===== src/Conf.antt =====
-- conf/limit.go and conf/node.go: the settings of a node that the modelled code reads.
use bxtest.Prelude.{Str, ℤ, Bool}

pub record DynamicSpeedLimitConfig : Type 0 where
  pub periodic : ℤ
  pub traffic : ℤ
  pub speed_limit : ℤ
  pub expire_time : ℤ

-- The fields left out are read nowhere in the program.
pub record LimitConfig : Type 0 where
  pub speed_limit : ℤ
  pub enable_dynamic_speed_limit : Bool
  pub dynamic_speed_limit_config : DynamicSpeedLimitConfig

-- Options, without the settings that are handed on to the proxy libraries only
pub record Options : Type 0 where
  pub name : Str
  pub core : Str
  pub core_name : Str
  pub device_online_min_traffic : ℤ
  pub report_min_traffic : ℤ
  pub limit_config : LimitConfig
  pub raw_options : Str
  -- CertConfig.CertMode
  pub cert_mode : Str
