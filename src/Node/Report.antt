-- ===== src/Node/Report.antt =====
-- reportUserTrafficTask of node/user.go, with the body that ReportUserTraffic of api/panel/user.go
-- builds. The answers of the panel and of GetUserTrafficSlice are arguments.
pub mod Filter
pub mod Round
use bxtest.Prelude.{
  Str, ℤ, pos, int_eq, ltb_ℤ, Bool, true, false, if◌then◌else◌, Option, none, some, List, [], ◌∷◌,
  ◌++◌, Map, lookup, insert, get_or_default, is_some, Result, ok, err, ◌==◌, ◌+ℤ◌, ◌*ℤ◌, wrap64,
}
use bxtest.Panel.{OnlineUser, UserTraffic}
use bxtest.Core.{Core}
use bxtest.Limiter.Online.{get_online_device}
use bxtest.Node.Controller.{Controller, World, own_limiter, put_limiter}

-- the loop that fills `nocountUID`; `min` is DeviceOnlineMinTraffic
no_count : ℤ → List UserTraffic → Map ℤ (Unit {0}) → Map ℤ (Unit {0})
no_count min [] m = m
no_count min (t ∷ ts) m = no_count min ts (
    if ltb_ℤ (wrap64 (t.upload +ℤ t.download)) (wrap64 (min *ℤ pos 1000))
    then insert t.uid tt m
    else m)

-- the loop that fills `result`
keep_counted : Map ℤ (Unit {0}) → List OnlineUser → List OnlineUser
keep_counted m [] = []
keep_counted m (u ∷ us) =
    let rest = keep_counted m us in if is_some (lookup u.uid m) then rest else u ∷ rest

-- the users online that are reported
unfoldable pub online_result : ℤ → List UserTraffic → List OnlineUser → List OnlineUser
unfolding no_count keep_counted
online_result min traffic online = keep_counted (no_count min traffic []) online

-- the loop that fills `data`
group_ips : List OnlineUser → Map ℤ (List Str) → Map ℤ (List Str)
group_ips [] m = m
group_ips (u ∷ us) m =
    group_ips us (insert u.uid (get_or_default [] (lookup u.uid m) ++ (u.ip ∷ [])) m)

unfoldable pub online_data : List OnlineUser → Map ℤ (List Str)
unfolding group_ips
online_data us = group_ips us []

-- the body of ReportUserTraffic: uid to upload and download
unfoldable pub traffic_data : List UserTraffic → Map ℤ (ℤ × ℤ) → Map ℤ (ℤ × ℤ)
traffic_data [] m = m
traffic_data (t ∷ ts) m = traffic_data ts (insert t.uid (t.upload, t.download) m)

-- what the task sends: the traffic, if there is any, and the users online, if any are
pub record Sent : Type 0 where
  pub traffic : Option (Map ℤ (ℤ × ℤ))
  pub online : Option (Map ℤ (List Str))

-- userTraffic, _ := c.server.GetUserTrafficSlice(c.tag, true): a failed call gives nil
abbrev pub slice_of : Result (List UserTraffic) → List UserTraffic
slice_of (ok ts) = ts
slice_of (err e) = []

abbrev pub unless_empty : {A D : Type 0} → List A → D → Option D
unless_empty [] d = none
unless_empty (x ∷ xs) d = some d

-- func (c *Controller) reportUserTrafficTask(): what is sent, and the world after it. Errors of the
-- two reports are logged only.
unfoldable pub report_user_traffic_task :
    {S B R : Type 0} → Core S → World S B R → Sent × World S B R
report_user_traffic_task core w =
    let (r, server) = core.get_user_traffic_slice w.controller.tag true w.server in
    let traffic = slice_of r in
    let (online, l) = get_online_device (own_limiter w) in
    let counted = online_result w.controller.options.device_online_min_traffic traffic online in
    (
      record {
        traffic = unless_empty traffic (traffic_data traffic []);
        online = unless_empty online (online_data counted);
      },
      put_limiter l (record w { server = server }),
    )
