-- ===== src/Panel/Fetch.antt =====
-- GetNodeInfo of api/panel/node.go and New of api/panel/panel.go. SHA-256, json.Unmarshal, strconv.Atoi
-- and strings.ToLower are parameters; `none` is a panic.
pub mod Blocked
pub mod Repeats
use bxtest.Prelude.{
  Str, codes, text_eq, ℤ, pos, ◌*ℤ◌, wrap64, ℕ, nat_beq, itoa, suc, has_prefix, trim_prefix, Bool,
  true, false, ◌==◌, ◌||◌, if◌then◌else◌, Option, none, some, List, [], ◌∷◌, ◌++◌, Map, insert,
  Result, ok, err,
}
use bxtest.Panel.{NodeInfo, Rules}
use bxtest.Panel.Client.{Reply, check_response}

-- a value in the array of a route's match: a string, or anything else
pub data Value : Type 0 where
  value_text : Str → Value
  value_other : Value

-- Match of a Route, as encoding/json decodes it
pub data Match : Type 0 where
  match_text : Str → Match
  match_values : List Value → Match
  match_other : Match

pub record Route : Type 0 where
  pub match : Match
  pub action : Str
  pub action_value : Str

-- PushInterval and PullInterval: a text, a number with its integral part, or anything else
pub data Interval : Type 0 where
  interval_text : Str → Interval
  interval_number : ℤ → Interval
  interval_other : Interval

pub record BaseConfig : Type 0 where
  pub push_interval : Interval
  pub pull_interval : Interval

-- CommonNode, with Tls of VAllssNode
pub record CommonNode : Type 0 where
  pub routes : List Route
  pub base_config : Option BaseConfig
  pub tls : ℤ

-- RawDNS: the address and the domains of each route, and the text
pub record RawDns : Type 0 where
  pub dns_map : Map Str (Str × List Str)
  pub dns_json : Str

pub record Parsed : Type 0 where
  pub rules : Rules
  pub dns : RawDns

-- Client, with the parts that GetNodeInfo and GetUserList read and write
pub record Client : Type 0 where
  pub api_host : Str
  pub node_id : ℤ
  pub node_type : Str
  pub node_etag : Str
  pub response_body_hash : Str
  pub user_etag : Str

-- strings.Split(s, ","); `piece` is read so far
split_from : Str → Str → List Str
split_from piece [] = piece ∷ []
split_from piece (c ∷ s) =
    let next = split_from [] s in
    let longer = split_from (piece ++ (c ∷ [])) s in if nat_beq c b',' then piece ∷ next else longer

-- temp[i].(string), for all of them
texts_of : List Value → Option (List Str)
texts_of [] = some []
texts_of (value_other ∷ vs) = none
texts_of (value_text t ∷ vs) = elim (texts_of vs) [ none ↦ none | some ts ↦ some (t ∷ ts) ]

-- matchs
pub match_texts : Match → Option (List Str)
unfolding split_from texts_of
match_texts (match_text s) = some (split_from [] s)
match_texts (match_values vs) = texts_of vs
match_texts match_other = none

-- a text of a route that blocks
block_one : Str → Rules → Rules
block_one v r =
    if has_prefix v (codes "protocol:")
    then record r { protocol = r.protocol ++ (trim_prefix v (codes "protocol:") ∷ []) }
    else record r { regexp = r.regexp ++ (trim_prefix v (codes "regexp:") ∷ []) }

block_all : List Str → Rules → Rules
unfolding block_one
block_all [] r = r
block_all (v ∷ vs) r = block_all vs (block_one v r)

-- strings.Join(ts, "")
concat : List Str → Str
concat [] = []
concat (t ∷ ts) = t ++ concat ts

-- a route for the DNS, the i-th one; matchs[0] of no match panics
dns_one : ℕ → List Str → Str → RawDns → Option RawDns
unfolding concat
dns_one i [] value dns = none
dns_one i (m ∷ ms) value dns =
    if m == codes "main"
    then some (record dns { dns_json = concat ms })
    else some (record dns { dns_map = insert (itoa (pos i)) (value, m ∷ ms) dns.dns_map })

-- the switch on the action
parse_route : ℕ → Route → Parsed → Option Parsed
unfolding match_texts block_all dns_one
parse_route i r p = elim (match_texts r.match) [
  | none ↦ none
  | some ms ↦
      if r.action == codes "block"
      then some (record p { rules = block_all ms p.rules })
      else if r.action == codes "dns"
      then elim (dns_one i ms r.action_value p.dns) [
        | none ↦ none
        | some dns ↦ some (record p { dns = dns })
      ]
      else some p
]

-- the loop over cm.Routes
pub parse_routes : ℕ → List Route → Parsed → Option Parsed
unfolding parse_route
parse_routes i [] p = some p
parse_routes i (r ∷ rs) p = elim (parse_route i r p) [
  | none ↦ none
  | some p' ↦ parse_routes (suc i) rs p'
]

abbrev pub nothing_parsed : Parsed
nothing_parsed = record {
  rules = record { regexp = []; protocol = [] };
  dns = record { dns_map = []; dns_json = [] };
}

-- the types of nodes of the switch on c.NodeType that have Security from the reply, None and Tls
abbrev pub from_reply : Str → Bool
from_reply type = type == codes "vmess" || type == codes "vless"

abbrev pub without_tls : Str → Bool
without_tls type = type == codes "shadowsocks"

abbrev pub with_tls : Str → Bool
with_tls type =
    type == codes "trojan"
    || type == codes "tuic"
    || type == codes "anytls"
    || type == codes "hysteria"
    || type == codes "hysteria2"

-- node.Security, `none` for a type that the switch has not, whose parameters are nil
unfoldable pub security_of : Str → CommonNode → Option ℤ
security_of type cm =
    if from_reply type
    then some cm.tls
    else if without_tls type
    then some (pos 0)
    else if with_tls type
    then some (pos 1)
    else none

module _ (atoi : Str → ℤ) where
  -- func intervalToTime(i)
  unfoldable pub interval_to_time : Interval → Option ℤ
  interval_to_time (interval_text s) = some (wrap64 (atoi s *ℤ pos 1000000000))
  interval_to_time (interval_number n) = some (wrap64 (n *ℤ pos 1000000000))
  interval_to_time interval_other = none

  -- the part of GetNodeInfo after json.Unmarshal
  unfoldable pub parse_node : Client → CommonNode → Option (NodeInfo × RawDns)
  unfolding parse_routes interval_to_time security_of
  parse_node c cm = elim (security_of c.node_type cm) [
    | none ↦ none
    | some security ↦ elim (parse_routes 0 cm.routes nothing_parsed) [
      | none ↦ none
      | some p ↦ elim cm.base_config [
        | none ↦ none
        | some base ↦ elim (interval_to_time base.push_interval) [
          | none ↦ none
          | some push ↦ elim (interval_to_time base.pull_interval) [
            | none ↦ none
            | some pull ↦ some (
              record {
                id = c.node_id;
                type = c.node_type;
                security = security;
                push_interval = push;
                pull_interval = pull;
                rules = p.rules;
              },
              p.dns,
            )
          ]
        ]
      ]
    ]
  ]

  module _ (sha256_hex : Str → Str) (join : Str → Str)
      (decode : Str → Str → Result CommonNode) where
    -- GetNodeInfo after the hash and the ETag have been stored
    pub read_node : Reply → Client → Option (Result (Option (NodeInfo × RawDns)))
    unfolding parse_node
    read_node r c =
        elim (check_response join c.api_host r (codes "/api/v1/server/UniProxy/config")) [
          | err e ↦ some (err e)
          | ok u ↦ elim (decode c.node_type r.body) [
            | err e ↦ some (err e)
            | ok cm ↦ elim (parse_node c cm) [ none ↦ none | some n ↦ some (ok (some n)) ]
          ]
        ]

    -- func (c *Client) GetNodeInfo(), with the reply and its ETag: no node for one that has not changed
    unfoldable pub get_node_info :
        Reply → Str → Client → Option (Result (Option (NodeInfo × RawDns)) × Client)
    unfolding read_node
    get_node_info r etag c =
        if nat_beq r.status 304
        then some (ok none, c)
        else if c.response_body_hash == sha256_hex r.body
        then some (ok none, c)
        else let c' = record c { response_body_hash = sha256_hex r.body; node_etag = etag } in
          elim (read_node r c') [ none ↦ none | some result ↦ some (result, c') ]

-- the types that New accepts
unfoldable pub is_node_type : Str → Bool
is_node_type type = from_reply type || without_tls type || with_tls type

-- c.NodeType in lower case, with the other name of "vmess"
abbrev pub node_type_of : (Str → Str) → Str → Str
node_type_of to_lower type = if to_lower type == codes "v2ray" then codes "vmess" else to_lower type

-- func New(c) of api/panel/panel.go, without the settings of the HTTP client
unfoldable pub new_client : (Str → Str) → Str → Str → ℤ → Result Client
unfolding is_node_type
new_client to_lower api_host node_type node_id =
    let type = node_type_of to_lower node_type in
    if is_node_type type
    then ok (record {
      api_host = api_host;
      node_id = node_id;
      node_type = type;
      node_etag = [];
      response_body_hash = [];
      user_etag = [];
    })
    else err (codes "unsupported Node type: " ++ type)
