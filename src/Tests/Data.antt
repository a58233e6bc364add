-- ===== src/Tests/Data.antt =====
-- Two users, a limiter that knows both, and a panel's settings.
use bxtest.Prelude.{ℕ, ok, err, ◌+◌, Str, codes, ℤ, pos, [], ◌∷◌, true, false}
use bxtest.Panel.{UserInfo, NodeInfo}
use bxtest.Conf.{LimitConfig, Options}
use bxtest.Core.{Core}
use bxtest.Limiter.State.{Limiter, UserLimitInfo}

abbrev pub user_a : UserInfo
user_a = record { id = pos 7; uuid = codes "a"; speed_limit = pos 0; device_limit = pos 1 }

abbrev pub user_b : UserInfo
user_b = record { id = pos 8; uuid = codes "b"; speed_limit = pos 10; device_limit = pos 0 }

abbrev pub tag : Str
tag = codes "n"

abbrev pub tag_a : Str
tag_a = codes "n|a"

abbrev pub tag_b : Str
tag_b = codes "n|b"

abbrev pub home : Str
home = codes "::ffff:1.1.1.1"

abbrev pub away : Str
away = codes "2.2.2.2"

-- a's dynamic limit of 5 runs out after second 100
abbrev pub entry_a : UserLimitInfo
entry_a = record {
  uid = pos 7;
  speed_limit = pos 0;
  device_limit = pos 1;
  dynamic_speed_limit = pos 5;
  expire_time = pos 100;
  over_limit = false;
}

abbrev pub entry_b : UserLimitInfo
entry_b = record entry_a {
  uid = pos 8;
  speed_limit = pos 10;
  device_limit = pos 0;
  over_limit = true;
}

-- a is online from home, and the panel has counted one device of a
abbrev pub limiter : Limiter ℤ Str
limiter = record {
  domain_rules = [];
  protocol_rules = [];
  speed_limit = pos 0;
  user_online_ip = (tag_a, (codes "1.1.1.1", pos 7) ∷ []) ∷ [];
  old_user_online = [];
  uuid_to_uid = (codes "a", pos 7) ∷ (codes "b", pos 8) ∷ [];
  user_limit_info = (tag_a, entry_a) ∷ (tag_b, entry_b) ∷ [];
  speed_limiter = [];
  alive_list = (pos 7, pos 1) ∷ [];
}

-- the rate stands for the bucket
abbrev pub new_bucket : ℤ → ℤ → ℤ → ℤ
new_bucket interval capacity quantum = quantum

abbrev pub limit_config : LimitConfig
limit_config = record {
  speed_limit = pos 0;
  enable_dynamic_speed_limit = true;
  dynamic_speed_limit_config = record {
    periodic = pos 60;
    traffic = pos 1000;
    speed_limit = pos 5;
    expire_time = pos 10;
  };
}

abbrev pub options : Options
options = record {
  name = [];
  core = codes "sing";
  core_name = [];
  device_online_min_traffic = pos 0;
  report_min_traffic = pos 1;
  limit_config = limit_config;
  raw_options = [];
  cert_mode = codes "none";
}

abbrev pub node : NodeInfo
node = record {
  id = pos 1;
  type = codes "vmess";
  security = pos 0;
  push_interval = pos 60000000000;
  pull_interval = pos 60000000000;
  rules = record { regexp = []; protocol = codes "bittorrent" ∷ [] };
}

-- a core that counts its calls
abbrev pub core : Core ℕ
core = record {
  start = λ n. (ok tt, n + 1);
  close = λ n. (ok tt, n + 1);
  add_node = λ t i o n. (ok tt, n + 1);
  del_node = λ t n. (ok tt, n + 1);
  add_users = λ p n. (ok (pos 1), n + 1);
  get_user_traffic_slice = λ t r n. (ok [], n + 1);
  del_users = λ us t i n. (err (codes "closed"), n + 1);
  protocols = λ n. codes "vmess" ∷ [];
  type = λ n. codes "sing";
}
