-- ===== src/Panel.antt =====
-- api/panel: the records that the panel exchanges with a node.
pub mod Client
pub mod Fetch
pub mod Users
use bxtest.Prelude.{Str, ℤ, pos, List}

pub record OnlineUser : Type 0 where
  pub uid : ℤ
  pub ip : Str

pub record UserInfo : Type 0 where
  pub id : ℤ
  pub uuid : Str
  pub speed_limit : ℤ
  pub device_limit : ℤ

pub record UserTraffic : Type 0 where
  pub uid : ℤ
  pub upload : ℤ
  pub download : ℤ

pub record Rules : Type 0 where
  pub regexp : List Str
  pub protocol : List Str

-- the constants None, Tls and Reality of api/panel/node.go
abbrev pub tls : ℤ
tls = pos 1

-- NodeInfo of api/panel/node.go, without the parts that are handed on to the proxy libraries only:
-- the raw DNS settings and the settings of each protocol
pub record NodeInfo : Type 0 where
  pub id : ℤ
  pub type : Str
  pub security : ℤ
  pub push_interval : ℤ
  pub pull_interval : ℤ
  pub rules : Rules
