-- ===== src/Counter/Slice.antt =====
-- GetUserTrafficSlice, the loop that core/hy2/user.go, core/sing/user.go and core/xray/user.go share
-- word for word: Range over the counters of a node, with `min` the node's ReportMinTrafficBytes.
pub mod Accounting
use bxtest.Prelude.{
  Str, ℤ, pos, text_eq, int_eq, ltb_ℤ, Bool, if◌then◌else◌, List, [], ◌∷◌, ◌++◌, Map, lookup,
  get_or_default, Addr, ◌+ℤ◌, wrap64, ◌==◌,
}
use bxtest.Panel.{UserTraffic}
use bxtest.Counter.Traffic.{TrafficStorage, TrafficCounter, no_traffic, storage, put, delete}

-- uidMap[uuid], 0 if there is none
abbrev pub uid_of : Map Str ℤ → Str → ℤ
uid_of uids uuid = get_or_default (pos 0) (lookup uuid uids)

-- up+down > min
abbrev pub over : ℤ → TrafficStorage → Bool
over min s = ltb_ℤ min (wrap64 (s.up_counter +ℤ s.down_counter))

abbrev pub traffic_of : ℤ → TrafficStorage → UserTraffic
traffic_of uid s = record { uid = uid; upload = s.up_counter; download = s.down_counter }

-- one round of the Range
range_step :
    ℤ
    → Bool
    → Map Str ℤ
    → Str × Addr
    → TrafficCounter × List UserTraffic
    → TrafficCounter × List UserTraffic
unfolding delete
range_step min reset uids (uuid, a) (c, slice) =
    let s = storage c a in
    let c' = if reset then put a no_traffic c else c in
    if over min s
    then (if uid_of uids uuid == pos 0
        then (delete uuid c', slice)
        else (c', slice ++ (traffic_of (uid_of uids uuid) s ∷ [])))
    else (c, slice)

range_counters :
    ℤ
    → Bool
    → Map Str ℤ
    → Map Str Addr
    → TrafficCounter × List UserTraffic
    → TrafficCounter × List UserTraffic
unfolding range_step
range_counters min reset uids [] acc = acc
range_counters min reset uids (e ∷ es) acc =
    range_counters min reset uids es (range_step min reset uids e acc)

-- the slice and the counter after the call
unfoldable pub take_traffic :
    ℤ → Bool → Map Str ℤ → TrafficCounter → TrafficCounter × List UserTraffic
unfolding range_counters
take_traffic min reset uids c = range_counters min reset uids c.counters (c, [])
