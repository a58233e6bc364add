-- ===== src/Limiter/Online.antt =====
-- GetOnlineDevice of limiter/limiter.go, with the two nested loops over the online maps.
pub mod Report
use bxtest.Prelude.{Str, ℤ, List, [], ◌∷◌, ◌++◌, Map, insert, text_eq}
use bxtest.Panel.{OnlineUser}
use bxtest.Limiter.State.{Limiter, IpMap}

-- the inner Range: every address of one user
range_ips : IpMap → IpMap × List OnlineUser → IpMap × List OnlineUser
range_ips [] acc = acc
range_ips ((ip, uid) ∷ m) (old, users) =
    range_ips m (insert ip uid old, users ++ (record { uid = uid; ip = ip } ∷ []))

-- the outer Range; `l.UserOnlineIP.Delete(taguuid)` at the end of each round empties the map
range_users : Map Str IpMap → IpMap × List OnlineUser → IpMap × List OnlineUser
unfolding range_ips
range_users [] acc = acc
range_users ((tu, ips) ∷ m) acc = range_users m (range_ips ips acc)

module _ {Bucket Regexp : Type 0} where
  -- func (l *Limiter) GetOnlineDevice(): the users online, and the limiter after it
  unfoldable pub get_online_device : Limiter Bucket Regexp → List OnlineUser × Limiter Bucket Regexp
  unfolding range_users
  get_online_device l =
      let (old, users) = range_users l.user_online_ip ([], []) in
      (users, record l { old_user_online = old; user_online_ip = [] })
