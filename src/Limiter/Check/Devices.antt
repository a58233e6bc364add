-- ===== src/Limiter/Check/Devices.antt =====
-- What CheckLimit does to the addresses that are online.
use bxtest.Prelude.{
  Str, ℤ, Bool, true, false, not, ◌&&◌, none, some, [], lookup, insert, erase, ◌≡◌, refl, inl, inr,
  arith, Option-cases, ◌==◌, text_eq, int_eq, if◌then◌else◌, lookup-insert, lookup-erase,
  str_eq_iff,
}
use bxtest.Limiter.State.{Limiter, UserLimitInfo, IpMap}
use bxtest.Limiter.Check.{
  plain_ip, count_device, user_limits, give_bucket, check_limit, more_ips, first_ip,
}
use bxtest.Limiter.Check.Refusal.{is_online, give_bucket_accepts}

module _ {Bucket Regexp : Type 0} where
  -- one more address online, if `counted`
  abbrev pub with_ip : Bool → Limiter Bucket Regexp → Str → Str → Str → Str → Bool
  with_ip counted l tu ip t j = if counted && (tu == t) && (ip == j) then true else is_online l t j

  module _ (tu ip : Str) (uid dl : ℤ) (l : Limiter Bucket Regexp) (t j : Str) where
    more_ips-online :
        (ips : IpMap)
        → lookup tu l.user_online_ip ≡ some ips
        → let r = more_ips tu ip uid dl l ips in is_online r.1 t j ≡ with_ip (not r.0) l tu ip t j
    unfolding more_ips
    more_ips-online ips known = ground (
      arith,
      known,
      lookup-insert t tu (insert ip uid ips) l.user_online_ip,
      lookup-insert t tu (erase ip (insert ip uid ips)) l.user_online_ip,
      lookup-insert j ip uid ips,
      lookup-erase j ip (insert ip uid ips),
      str_eq_iff tu t,
      str_eq_iff ip j,
    )

    first_ip-online :
        lookup tu l.user_online_ip ≡ none
        → let r = first_ip tu ip uid dl l in is_online r.1 t j ≡ with_ip (not r.0) l tu ip t j
    unfolding first_ip
    first_ip-online new = ground (
      arith,
      new,
      lookup-insert t tu (insert ip uid []) l.user_online_ip,
      lookup-erase t tu (insert tu (insert ip uid []) l.user_online_ip),
      lookup-insert j ip uid [],
      str_eq_iff tu t,
      str_eq_iff ip j,
    )

    pub count_device-online :
        (no_ssudp : Bool)
        → let r = count_device no_ssudp tu ip uid dl l in
          is_online r.1 t j ≡ with_ip (no_ssudp && not r.0) l tu ip t j
    unfolding count_device
    count_device-online false = refl
    count_device-online true = elim (Option-cases (lookup tu l.user_online_ip)) [
      | inl e ↦ rw (e, count_device) (first_ip-online e)
      | inr (ips, e) ↦ rw (e, count_device) (more_ips-online ips e)
    ]

  give_bucket-online :
      (nb : ℤ → ℤ → ℤ → Bucket) (tu : Str) (user_limit : ℤ) (l : Limiter Bucket Regexp) (t j : Str)
      → is_online (give_bucket nb tu user_limit l).after t j ≡ is_online l t j
  unfolding give_bucket
  give_bucket-online nb tu user_limit l t j = ground arith

  user_limits-with_ip :
      (now : ℤ) (l : Limiter Bucket Regexp) (u : UserLimitInfo) (counted : Bool) (tu ip t j : Str)
      → with_ip counted (user_limits now tu l u).after tu ip t j ≡ with_ip counted l tu ip t j
  unfolding user_limits
  user_limits-with_ip now l u counted tu ip t j = ground arith

  -- After CheckLimit exactly the addresses that were online are online, and with them the address
  -- of this connection (an IPv4-mapped prefix taken off) if it is counted (noSSUDP) and accepted. So
  -- a refused connection leaves no trace, and nobody else's addresses change.
  pub check_limit-online :
      (nb : ℤ → ℤ → ℤ → Bucket) (now : ℤ) (l : Limiter Bucket Regexp) (tu ip : Str)
      (is_tcp no_ssudp : Bool) (t j : Str)
      → let r = check_limit nb now l tu ip is_tcp no_ssudp in
        is_online r.after t j ≡ with_ip (no_ssudp && not r.reject) l tu (plain_ip ip) t j
  unfolding check_limit
  check_limit-online nb now l tu ip is_tcp no_ssudp t j =
      elim (Option-cases (lookup tu l.user_limit_info)) [
        | inl e ↦ rw (e, check_limit) (ground arith)
        | inr (u, e) ↦
            let r = user_limits now tu l u in
            let c = count_device no_ssudp tu (plain_ip ip) r.uid r.device_limit r.after in
            rw (e, check_limit)
              (ground (
                arith,
                count_device-online tu (plain_ip ip) r.uid r.device_limit r.after t j no_ssudp,
                give_bucket-online nb tu r.user_limit c.1 t j,
                give_bucket_accepts nb tu r.user_limit c.1,
                user_limits-with_ip now l u (no_ssudp && not c.0) tu (plain_ip ip) t j,
              ))
      ]
