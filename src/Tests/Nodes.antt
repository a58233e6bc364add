-- ===== src/Tests/Nodes.antt =====
-- Runs of a node controller.
use bxtest.Prelude.{
  int_eq, Str, codes, ℤ, pos, ℕ, not, ◌&&◌, ◌||◌, Option, none, some, List, [], ◌∷◌, ok, lookup,
  text_eq, str_eq, ◌≡◌, refl,
}
use bxtest.Panel.{OnlineUser, UserInfo, UserTraffic}
use bxtest.Limiter.State.{Limiter}
use bxtest.Limiter.Users.{new_limiter, update_user, get_limiter}
use bxtest.Limiter.Users.Sync.{has_uuid, Synced, new_limiter-Synced}
use bxtest.Node.Users.{compare_user_list}
use bxtest.Node.Users.Diff.{has_key, DistinctKeys}
use bxtest.Node.Users.Reconcile.{IsUserList, compare_user_list-uuids, update_user-follows_panel}
use bxtest.Node.Controller.{World, Controller}
use bxtest.Node.Lifecycle.{Answers}
use bxtest.Node.Monitor.{node_info_monitor}
use bxtest.Node.Monitor.InStep.{Holds}
use bxtest.Node.Monitor.Follows.{IsInStep}
use bxtest.Node.Monitor.Sync.{node_info_monitor-IsInStep}
use bxtest.Node.Report.{report_user_traffic_task}
use bxtest.Node.Report.Round.{IsReported, report_user_traffic_task-IsReported}
use bxtest.Tests.Data.{core, user_a, user_b, tag, node, options, limit_config}

abbrev before : List UserInfo
before = user_a ∷ user_b ∷ []

-- b has a new speed limit, and a is gone
abbrev after : List UserInfo
after = record user_b { speed_limit = pos 20 } ∷ []

before-IsUserList : IsUserList 1 before
unfolding has_uuid str_eq
before-IsUserList = record { sized = (refl, (refl, tt)); unique = (refl, (refl, tt)) }

after-IsUserList : IsUserList 1 after
unfolding has_uuid
after-IsUserList = record { sized = (refl, tt); unique = (refl, tt) }

after-DistinctKeys : DistinctKeys after
unfolding has_key
after-DistinctKeys = (refl, tt)

compare_user_list-uuids_example : has_uuid (codes "b") after ≡ (
    has_uuid (codes "b") before && not (has_uuid (codes "b") (compare_user_list before after).0)
    || has_uuid (codes "b") (compare_user_list before after).1)
compare_user_list-uuids_example =
    compare_user_list-uuids 1 before after before-IsUserList after-IsUserList (codes "b")

abbrev synced_limiter : Limiter ℤ Str
synced_limiter = new_limiter tag limit_config before []

synced_limiter-Synced : Synced tag before synced_limiter
synced_limiter-Synced = new_limiter-Synced ℤ Str tag limit_config before []

update_user-follows_panel_example :
    let (deleted, added) = compare_user_list before after in
    Synced tag after (update_user tag added deleted synced_limiter)
update_user-follows_panel_example =
    update_user-follows_panel 1 before after before-IsUserList after-IsUserList tag synced_limiter
      synced_limiter-Synced

abbrev controller : Controller
controller = record {
  api_host = codes "https://panel";
  tag = tag;
  limiter = 0;
  traffic = [];
  user_list = before;
  alive_map = [];
  info = some node;
  node_info_monitor_periodic = none;
  user_report_periodic = none;
  renew_cert_periodic = none;
  dynamic_speed_limit_periodic = none;
  options = options;
}

abbrev world : World ℕ ℤ Str
world = record {
  controller = controller;
  registry = record {
    table = (tag, 0) ∷ [];
    objects = record { cell = λ p. synced_limiter; next = 1 };
  };
  server = 0;
}

abbrev compile : Str → Option Str
compile s = some s

abbrev answers : Answers
answers = record { new_n = ok none; new_u = ok (some after); new_a = ok none; cert = ok tt }

world-IsInStep : IsInStep 1 world
unfolding get_limiter lookup str_eq
world-IsInStep = record {
  synced = synced_limiter-Synced;
  listed = before-IsUserList;
  users = refl;
  found = refl;
  nameless = refl;
}

node_info_monitor-IsInStep_example :
    Holds (IsInStep 1) (node_info_monitor core compile answers world)
node_info_monitor-IsInStep_example =
    node_info_monitor-IsInStep 1 core compile answers world world-IsInStep after-IsUserList

report_user_traffic_task-IsReported_example :
    IsReported core world (report_user_traffic_task core world)
report_user_traffic_task-IsReported_example = report_user_traffic_task-IsReported core world

abbrev slice : List UserTraffic
slice = record { uid = pos 7; upload = pos 10; download = pos 20 } ∷ []

abbrev online : List OnlineUser
online =
    record { uid = pos 7; ip = codes "1.1.1.1" } ∷ record { uid = pos 8; ip = codes "2.2.2.2" } ∷ []
