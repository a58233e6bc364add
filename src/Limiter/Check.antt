-- ===== src/Limiter/Check.antt =====
-- CheckLimit of limiter/limiter.go. `now` is time.Now().Unix(), and `new_bucket` is the call of
-- ratelimit.NewBucketWithQuantum, whose result is a new object each time.
pub mod Refusal
pub mod Devices
pub mod Buckets
pub mod Expiry
use bxtest.Prelude.{
  Str, codes, trim_prefix, ℤ, pos, int_eq, ltb_ℤ, leb_ℤ, text_eq, Bool, true, false, not, ◌&&◌,
  if◌then◌else◌, Option, none, some, [], ◌==◌, lookup, insert, erase, get_or_default, is_some,
}
use bxtest.Limiter.State.{Limiter, UserLimitInfo, IpMap}
use bxtest.Limiter.Speed.{determine_speed_limit, byte_rate}

-- the limit in force for a user, as CheckLimit reads it, and the limiter it leaves behind
pub record Limits (Bucket Regexp : Type 0) : Type 0 where
  pub user_limit : ℤ
  pub device_limit : ℤ
  pub uid : ℤ
  pub after : Limiter Bucket Regexp

pub record Verdict (Bucket Regexp : Type 0) : Type 0 where
  pub bucket : Option Bucket
  pub reject : Bool
  pub after : Limiter Bucket Regexp

-- u.ExpireTime < now && u.ExpireTime != 0
abbrev pub expired : ℤ → UserLimitInfo → Bool
expired now u = ltb_ℤ u.expire_time now && not (u.expire_time == pos 0)

-- strings.TrimPrefix(ip, "::ffff:")
abbrev pub plain_ip : Str → Str
plain_ip ip = trim_prefix ip (codes "::ffff:")

abbrev pub second : ℤ
second = pos 1000000000

module _ {Bucket Regexp : Type 0} where
  abbrev pub ips_of : Limiter Bucket Regexp → Str → IpMap
  ips_of l tu = get_or_default [] (lookup tu l.user_online_ip)

  unfoldable pub user_limits :
      ℤ → Str → Limiter Bucket Regexp → UserLimitInfo → Limits Bucket Regexp
  user_limits now tu l u =
      if expired now u
      then (if not (u.speed_limit == pos 0)
          then record {
            user_limit = u.speed_limit;
            device_limit = u.device_limit;
            uid = u.uid;
            after = record l {
              user_limit_info =
                  insert tu (record u { dynamic_speed_limit = pos 0; expire_time = pos 0 })
                    l.user_limit_info;
            };
          }
          else record {
            user_limit = pos 0;
            device_limit = u.device_limit;
            uid = u.uid;
            after = record l { user_limit_info = erase tu l.user_limit_info };
          })
      else record {
        user_limit = determine_speed_limit u.speed_limit u.dynamic_speed_limit;
        device_limit = u.device_limit;
        uid = u.uid;
        after = l;
      }

  -- deviceLimit > 0 && deviceLimit <= aliveIp
  abbrev pub over_devices : Limiter Bucket Regexp → ℤ → ℤ → Bool
  over_devices l uid device_limit =
      ltb_ℤ (pos 0) device_limit
      && leb_ℤ device_limit (get_or_default (pos 0) (lookup uid l.alive_list))

  -- if v.(int) == uid { l.OldUserOnline.Delete(ip) }
  abbrev forget_old : Str → ℤ → ℤ → Limiter Bucket Regexp → Limiter Bucket Regexp
  forget_old ip uid v l =
      if v == uid then record l { old_user_online = erase ip l.old_user_online } else l

  -- the user has an online map: `ips`
  more_ips : Str → Str → ℤ → ℤ → Limiter Bucket Regexp → IpMap → Bool × Limiter Bucket Regexp
  more_ips tu ip uid device_limit l ips =
      let stored = record l { user_online_ip = insert tu (insert ip uid ips) l.user_online_ip } in
      elim (lookup ip ips) [
        | some w ↦ (false, l)
        | none ↦ elim (lookup ip l.old_user_online) [
          | some v ↦ (false, forget_old ip uid v stored)
          | none ↦
              if over_devices l uid device_limit
              then (
                true,
                record l {
                  user_online_ip = insert tu (erase ip (insert ip uid ips)) l.user_online_ip;
                },
              )
              else (false, stored)
        ]
      ]

  -- the user has none: a new map with this ip has just been stored
  first_ip : Str → Str → ℤ → ℤ → Limiter Bucket Regexp → Bool × Limiter Bucket Regexp
  first_ip tu ip uid device_limit l =
      let stored = record l { user_online_ip = insert tu (insert ip uid []) l.user_online_ip } in
      elim (lookup ip l.old_user_online) [
        | some v ↦ (false, forget_old ip uid v stored)
        | none ↦
            if over_devices l uid device_limit
            then (true, record stored { user_online_ip = erase tu stored.user_online_ip })
            else (false, stored)
      ]

  -- the block under `if noSSUDP`: whether the connection is refused, and the limiter after it
  unfoldable pub count_device :
      Bool → Str → Str → ℤ → ℤ → Limiter Bucket Regexp → Bool × Limiter Bucket Regexp
  unfolding more_ips first_ip
  count_device false tu ip uid device_limit l = (false, l)
  count_device true tu ip uid device_limit l = elim (lookup tu l.user_online_ip) [
    | some ips ↦ more_ips tu ip uid device_limit l ips
    | none ↦ first_ip tu ip uid device_limit l
  ]

  -- from `limit := …` to the end
  unfoldable pub give_bucket :
      (ℤ → ℤ → ℤ → Bucket) → Str → ℤ → Limiter Bucket Regexp → Verdict Bucket Regexp
  give_bucket new_bucket tu user_limit l =
      let limit = byte_rate (determine_speed_limit l.speed_limit user_limit) in
      if ltb_ℤ (pos 0) limit
      then elim (lookup tu l.speed_limiter) [
        | some b ↦ record { bucket = some b; reject = false; after = l }
        | none ↦
            let b = new_bucket second limit limit in
            record {
              bucket = some b;
              reject = false;
              after = record l { speed_limiter = insert tu b l.speed_limiter };
            }
      ]
      else record { bucket = none; reject = false; after = l }

  abbrev conclude :
      (ℤ → ℤ → ℤ → Bucket) → Str → ℤ → Bool × Limiter Bucket Regexp → Verdict Bucket Regexp
  conclude new_bucket tu user_limit (refused, l) =
      if refused
      then record { bucket = none; reject = true; after = l }
      else give_bucket new_bucket tu user_limit l

  -- func (l *Limiter) CheckLimit(taguuid, ip, isTcp, noSSUDP); isTcp is not read
  unfoldable pub check_limit :
      (ℤ → ℤ → ℤ → Bucket)
      → ℤ
      → Limiter Bucket Regexp
      → Str
      → Str
      → Bool
      → Bool
      → Verdict Bucket Regexp
  unfolding user_limits
  check_limit new_bucket now l tu ip is_tcp no_ssudp = elim (lookup tu l.user_limit_info) [
    | none ↦ record { bucket = none; reject = true; after = l }
    | some u ↦
        let r = user_limits now tu l u in
        conclude new_bucket tu r.user_limit
          (count_device no_ssudp tu (plain_ip ip) r.uid r.device_limit r.after)
  ]
