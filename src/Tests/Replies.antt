-- ===== src/Tests/Replies.antt =====
-- Replies of a panel.
use bxtest.Prelude.{
  Str, true, codes, ℤ, pos, text_eq, str_eq, wrap64, ◌*ℤ◌, has_prefix, trim_prefix, none, some, [],
  ◌∷◌, Result, ok, ◌≡◌, refl,
}
use bxtest.Panel.{NodeInfo}
use bxtest.Panel.Client.{Reply, check_response, assemble_url}
use bxtest.Panel.Fetch.{
  Route, match_text, match_values, value_text, interval_number, interval_text, CommonNode, Client,
  security_of, parse_node, get_node_info, interval_to_time,
}
use bxtest.Panel.Fetch.Blocked.{blocked, protocols_of, patterns_of, parse_node-rules}
use bxtest.Panel.Fetch.Repeats.{get_node_info-err}

abbrev pub client : Client
client = record {
  api_host = codes "https://panel";
  node_id = pos 1;
  node_type = codes "vmess";
  node_etag = [];
  response_body_hash = [];
  user_etag = [];
}

abbrev block : Route
block = record {
  match = match_text (codes "protocol:bittorrent,regexp:bad");
  action = codes "block";
  action_value = [];
}

abbrev resolve : Route
resolve = record {
  match = match_values (value_text (codes "main") ∷ []);
  action = codes "dns";
  action_value = codes "1.1.1.1";
}

abbrev common : CommonNode
common = record {
  routes = block ∷ resolve ∷ [];
  base_config = some (record {
    push_interval = interval_number (pos 60);
    pull_interval = interval_text (codes "60");
  });
  tls = pos 1;
}

abbrev atoi : Str → ℤ
atoi s = pos 60

abbrev read_rules : NodeInfo
read_rules = record {
  id = pos 1;
  type = codes "vmess";
  security = pos 1;
  push_interval = pos 60000000000;
  pull_interval = pos 60000000000;
  rules = record { regexp = codes "bad" ∷ []; protocol = codes "bittorrent" ∷ [] };
}

parse_node-rules_example :
    (read_rules.rules.protocol ≡ protocols_of (blocked common.routes))
    × (read_rules.rules.regexp ≡ patterns_of (blocked common.routes))
unfolding parse_node interval_to_time security_of str_eq wrap64 has_prefix ◌*ℤ◌ trim_prefix
parse_node-rules_example =
    parse_node-rules atoi client common read_rules (record { dns_map = []; dns_json = [] }) refl

abbrev failure : Reply
failure = record { failure = none; raw = true; status = 500; body = codes "down" }

abbrev refused : Client
refused = record client { response_body_hash = codes "down"; node_etag = codes "e" }

abbrev decode : Str → Str → Result CommonNode
decode type body = ok common

get_node_info-err_example :
    get_node_info atoi (λ s. s) (λ s. s) decode failure (codes "e") refused
    ≡ some (ok none, refused)
unfolding get_node_info check_response assemble_url str_eq
get_node_info-err_example =
    get_node_info-err atoi (λ s. s) (λ s. s) decode failure (codes "e") client refused
      (codes "request https://panel/api/v1/server/UniProxy/config failed: down") refl
