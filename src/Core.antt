-- ===== src/Core.antt =====
-- core/interface.go: the operations that a node controller and the selector use of a proxy core. An
-- operation takes the core's state and returns its result with the state after it.
pub mod Selector
use bxtest.Prelude.{Str, ℤ, Bool, List, Result}
use bxtest.Panel.{UserInfo, UserTraffic, NodeInfo}
use bxtest.Conf.{Options}

pub record AddUsersParams : Type 0 where
  pub tag : Str
  pub users : List UserInfo
  pub node_info : NodeInfo

pub record Core (S : Type 0) : Type 0 where
  pub start : S → Result (Unit {0}) × S
  pub close : S → Result (Unit {0}) × S
  pub add_node : Str → NodeInfo → Options → S → Result (Unit {0}) × S
  pub del_node : Str → S → Result (Unit {0}) × S
  pub add_users : AddUsersParams → S → Result ℤ × S
  pub get_user_traffic_slice : Str → Bool → S → Result (List UserTraffic) × S
  pub del_users : List UserInfo → Str → NodeInfo → S → Result (Unit {0}) × S
  pub protocols : S → List Str
  pub type : S → Str
