-- ===== src/Panel/Client.antt =====
-- api/panel/utils.go and the reports of api/panel/user.go. A reply of the HTTP library is an argument;
-- `join` is path.Join, and `decode` is json.Unmarshal into AliveMap, `none` on an error.
use bxtest.Prelude.{
  Str, codes, ℤ, ℕ, leb, Bool, if◌then◌else◌, Option, none, some, [], ◌++◌, Map, Result, ok, err,
}

pub record Reply : Type 0 where
  -- the error of the request
  pub failure : Option Str
  -- r.RawResponse is there
  pub raw : Bool
  pub status : ℕ
  pub body : Str

-- "request %s failed: %s"
abbrev request_failed : Str → Str → Str
request_failed url why = codes "request " ++ (url ++ (codes " failed: " ++ why))

module _ (join : Str → Str) (api_host : Str) where
  -- func (c *Client) assembleURL(path)
  unfoldable pub assemble_url : Str → Str
  assemble_url path = join (api_host ++ path)

  -- func (c *Client) checkResponse(res, path, err)
  unfoldable pub check_response : Reply → Str → Result (Unit {0})
  unfolding assemble_url
  check_response res path = elim res.failure [
    | some e ↦ err (request_failed (assemble_url path) e)
    | none ↦ if leb 400 res.status then err (request_failed (assemble_url path) res.body) else ok tt
  ]

  -- func (c *Client) ReportUserTraffic(userTraffic), with the reply to the data that it posts
  unfoldable pub report_user_traffic : Reply → Result (Unit {0})
  unfolding check_response
  report_user_traffic res = check_response res (codes "/api/v1/server/UniProxy/push")

  -- func (c *Client) ReportNodeOnlineUsers(data): the error is dropped
  unfoldable pub report_node_online_users : Reply → Result (Unit {0})
  unfolding check_response
  report_node_online_users res = elim (check_response res (codes "/api/v1/server/UniProxy/alive")) [
    | err e ↦ ok tt
    | ok u ↦ ok tt
  ]

-- func (c *Client) GetUserAlive(): the alive list, `none` for the nil map of a body without one
unfoldable pub get_user_alive :
    (Str → Option (Option (Map ℤ ℤ))) → Reply → Result (Option (Map ℤ ℤ))
get_user_alive decode r = elim r.failure [
  | some e ↦ ok (some [])
  | none ↦
      if leb 399 r.status
      then ok (some [])
      else if r.raw
      then elim (decode r.body) [ none ↦ ok (some []) | some m ↦ ok m ]
      else ok (some [])
]
