-- ===== src/Limiter/Check/Refusal.antt =====
-- When CheckLimit refuses a connection.
use bxtest.Prelude.{
  Str, ℤ, pos, ◌<ℤ◌, ◌≤ℤ◌, Bool, true, false, not, ◌&&◌, none, some, lookup, is_some,
  get_or_default, ◌≡◌, refl, sym, ◌∙◌, ◌⊎◌, inl, inr, ◌↔◌, arith, Option-cases, text_eq, int_eq,
}
use bxtest.Limiter.State.{Limiter, UserLimitInfo}
use bxtest.Limiter.Check.{
  plain_ip, ips_of, over_devices, count_device, user_limits, give_bucket, check_limit,
}

module _ {Bucket Regexp : Type 0} where
  -- the ip stands in the user's online map
  abbrev pub is_online : Limiter Bucket Regexp → Str → Str → Bool
  is_online l tu ip = is_some (lookup ip (ips_of l tu))

  -- the test that the branches of `noSSUDP` come to
  abbrev pub refuses : Bool → Limiter Bucket Regexp → Str → Str → ℤ → ℤ → Bool
  refuses no_ssudp l tu ip uid device_limit =
      no_ssudp
      && not (is_online l tu ip)
      && not (is_some (lookup ip l.old_user_online))
      && over_devices l uid device_limit

  -- What makes CheckLimit refuse a user that it knows: the panel already counts as many addresses
  -- for the user as the device limit allows, and this address is new on the node.
  pub record IsOverLimit (l : Limiter Bucket Regexp) (tu ip : Str) (no_ssudp : Bool)
      (u : UserLimitInfo) : Type 0 where
    pub known : lookup tu l.user_limit_info ≡ some u
    pub counted : no_ssudp ≡ true
    pub offline : is_online l tu (plain_ip ip) ≡ false
    pub not_before : lookup (plain_ip ip) l.old_user_online ≡ none
    pub limited : pos 0 <ℤ u.device_limit
    pub used_up : u.device_limit ≤ℤ get_or_default (pos 0) (lookup u.uid l.alive_list)

  pub count_device-refuses :
      (no_ssudp : Bool) (tu ip : Str) (uid device_limit : ℤ) (l : Limiter Bucket Regexp)
      → (count_device no_ssudp tu ip uid device_limit l).0
        ≡ refuses no_ssudp l tu ip uid device_limit
  unfolding count_device lookup
  count_device-refuses false tu ip uid device_limit l = refl
  count_device-refuses true tu ip uid device_limit l = ground arith

  pub give_bucket_accepts :
      (nb : ℤ → ℤ → ℤ → Bucket) (tu : Str) (user_limit : ℤ) (l : Limiter Bucket Regexp)
      → (give_bucket nb tu user_limit l).reject ≡ false
  unfolding give_bucket
  give_bucket_accepts nb tu user_limit l = ground arith

  -- the lookup of the user's limits leaves alone what the device test reads
  pub user_limits-refuses :
      (no_ssudp : Bool) (now : ℤ) (tu ip : Str) (l : Limiter Bucket Regexp) (u : UserLimitInfo)
      → let r = user_limits now tu l u in
        refuses no_ssudp r.after tu ip r.uid r.device_limit
        ≡ refuses no_ssudp l tu ip u.uid u.device_limit
  unfolding user_limits
  user_limits-refuses no_ssudp now tu ip l u = ground arith

  module _ (nb : ℤ → ℤ → ℤ → Bucket) (now : ℤ) (l : Limiter Bucket Regexp) (tu ip : Str) where
    pub check_limit-known :
        (is_tcp no_ssudp : Bool) (u : UserLimitInfo)
        → lookup tu l.user_limit_info ≡ some u
        → (check_limit nb now l tu ip is_tcp no_ssudp).reject
          ≡ refuses no_ssudp l tu (plain_ip ip) u.uid u.device_limit
    unfolding check_limit
    check_limit-known is_tcp no_ssudp u known =
        let r = user_limits now tu l u in
        rw (known, check_limit)
          (ground (
            arith,
            count_device-refuses no_ssudp tu (plain_ip ip) r.uid r.device_limit r.after,
            user_limits-refuses no_ssudp now tu (plain_ip ip) l u,
            give_bucket_accepts nb tu r.user_limit
                (count_device no_ssudp tu (plain_ip ip) r.uid r.device_limit r.after).1,
          ))

    refuses-IsOverLimit :
        (no_ssudp : Bool) (u : UserLimitInfo)
        → lookup tu l.user_limit_info ≡ some u
        → refuses no_ssudp l tu (plain_ip ip) u.uid u.device_limit ≡ true
        → IsOverLimit l tu ip no_ssudp u
    refuses-IsOverLimit no_ssudp u known h = ground arith

    IsOverLimit-refuses :
        (no_ssudp : Bool) (u : UserLimitInfo)
        → IsOverLimit l tu ip no_ssudp u
        → refuses no_ssudp l tu (plain_ip ip) u.uid u.device_limit ≡ true
    IsOverLimit-refuses no_ssudp u h = ground arith

    unknown_rejected :
        (is_tcp no_ssudp : Bool)
        → lookup tu l.user_limit_info ≡ none
        → (check_limit nb now l tu ip is_tcp no_ssudp).reject ≡ true
    unfolding check_limit
    unknown_rejected is_tcp no_ssudp e = rw (e, check_limit)

    -- CheckLimit refuses a connection exactly when the user is unknown to the limiter, or when the
    -- connection is counted (noSSUDP), its address is neither online for this user nor left over
    -- from the last report, and the user has a device limit that the panel's count has reached.
    pub check_limit_reject_iff :
        (is_tcp no_ssudp : Bool)
        → ((check_limit nb now l tu ip is_tcp no_ssudp).reject ≡ true) ↔ (
            (lookup tu l.user_limit_info ≡ none)
            ⊎ ((u : UserLimitInfo) × IsOverLimit l tu ip no_ssudp u))
    check_limit_reject_iff is_tcp no_ssudp = (
      λ h. elim (Option-cases (lookup tu l.user_limit_info)) [
        | inl e ↦ inl e
        | inr (u, known) ↦ inr (
          u,
          refuses-IsOverLimit no_ssudp u known
              (sym (check_limit-known is_tcp no_ssudp u known) ∙ h),
        )
      ],
      λ h. elim h [
        | inl e ↦ unknown_rejected is_tcp no_ssudp e
        | inr (u, over) ↦
            check_limit-known is_tcp no_ssudp u over.known ∙ IsOverLimit-refuses no_ssudp u over
      ],
    )
