-- ===== src/Limiter/State.antt =====
-- limiter/limiter.go, the types. `Bucket` is the token bucket of github.com/juju/ratelimit and
-- `Regexp` a compiled pattern; neither is looked into.
use bxtest.Prelude.{Str, ℤ, Bool, List, Map}

pub record UserLimitInfo : Type 0 where
  pub uid : ℤ
  pub speed_limit : ℤ
  pub device_limit : ℤ
  pub dynamic_speed_limit : ℤ
  pub expire_time : ℤ
  pub over_limit : Bool

-- ip to uid
abbrev pub IpMap : Type 0
IpMap = Map Str ℤ

pub record Limiter (Bucket Regexp : Type 0) : Type 0 where
  pub domain_rules : List Regexp
  pub protocol_rules : List Str
  pub speed_limit : ℤ
  pub user_online_ip : Map Str IpMap
  pub old_user_online : IpMap
  pub uuid_to_uid : Map Str ℤ
  pub user_limit_info : Map Str UserLimitInfo
  pub speed_limiter : Map Str Bucket
  pub alive_list : Map ℤ ℤ
