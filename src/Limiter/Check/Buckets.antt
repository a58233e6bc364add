-- ===== src/Limiter/Check/Buckets.antt =====
-- The token bucket that CheckLimit hands out, and the limits that run out.
use bxtest.Prelude.{
  Str, ℤ, Bool, true, false, Option, some, lookup, ◌≡◌, inl, inr, arith, Option-cases, text_eq,
  int_eq, lookup-insert, beq_refl,
}
use bxtest.Limiter.State.{Limiter, UserLimitInfo}
use bxtest.Limiter.Speed.{determine_speed_limit, byte_rate}
use bxtest.Limiter.Check.{second, plain_ip, count_device, user_limits, give_bucket, check_limit}

module _ {Bucket Regexp : Type 0} where
  -- the bucket that a user holds for the rest of the session
  abbrev pub bucket_of : Limiter Bucket Regexp → Str → Option Bucket
  bucket_of l tu = lookup tu l.speed_limiter

  -- count_device leaves the limits and the buckets alone
  pub record SameRest (l l' : Limiter Bucket Regexp) : Type 0 where
    pub same_speed : l'.speed_limit ≡ l.speed_limit
    pub same_buckets : l'.speed_limiter ≡ l.speed_limiter
    pub same_info : l'.user_limit_info ≡ l.user_limit_info

  pub count_device-SameRest :
      (no_ssudp : Bool) (tu ip : Str) (uid dl : ℤ) (l : Limiter Bucket Regexp)
      → SameRest l (count_device no_ssudp tu ip uid dl l).1
  unfolding count_device
  count_device-SameRest false tu ip uid dl l = ground arith
  count_device-SameRest true tu ip uid dl l = ground arith

  user_limits_same :
      (now : ℤ) (tu : Str) (l : Limiter Bucket Regexp) (u : UserLimitInfo)
      → ((user_limits now tu l u).after.speed_limiter ≡ l.speed_limiter)
        × ((user_limits now tu l u).after.speed_limit ≡ l.speed_limit)
  unfolding user_limits
  user_limits_same now tu l u = ground arith

  -- what give_bucket hands out is what it leaves in the table
  give_bucket-keeps :
      (nb : ℤ → ℤ → ℤ → Bucket) (tu : Str) (user_limit : ℤ) (l : Limiter Bucket Regexp) (b : Bucket)
      → (give_bucket nb tu user_limit l).bucket ≡ some b
      → bucket_of (give_bucket nb tu user_limit l).after tu ≡ some b
  unfolding give_bucket
  give_bucket-keeps nb tu user_limit l b h = ground (
    arith,
    lookup-insert tu tu
        (nb second (byte_rate (determine_speed_limit l.speed_limit user_limit))
          (byte_rate (determine_speed_limit l.speed_limit user_limit)))
        l.speed_limiter,
    beq_refl tu,
  )

  give_bucket-uses :
      (nb : ℤ → ℤ → ℤ → Bucket) (tu : Str) (user_limit : ℤ) (l : Limiter Bucket Regexp)
      (a b : Bucket)
      → bucket_of l tu ≡ some a
      → (give_bucket nb tu user_limit l).bucket ≡ some b
      → a ≡ b
  unfolding give_bucket
  give_bucket-uses nb tu user_limit l a b held h = ground arith

  -- A bucket that CheckLimit hands out is the one that it leaves in the table for the user.
  check_limit-keeps :
      (nb : ℤ → ℤ → ℤ → Bucket) (now : ℤ) (l : Limiter Bucket Regexp) (tu ip : Str)
      (is_tcp no_ssudp : Bool) (b : Bucket)
      → (check_limit nb now l tu ip is_tcp no_ssudp).bucket ≡ some b
      → bucket_of (check_limit nb now l tu ip is_tcp no_ssudp).after tu ≡ some b
  unfolding check_limit
  check_limit-keeps nb now l tu ip is_tcp no_ssudp b =
      elim (Option-cases (lookup tu l.user_limit_info)) [
        | inl e ↦ rw (e, check_limit) (λ h. cc)
        | inr (u, e) ↦
            let r = user_limits now tu l u in
            let c = count_device no_ssudp tu (plain_ip ip) r.uid r.device_limit r.after in
            rw (e, check_limit) (λ h. ground (arith, give_bucket-keeps nb tu r.user_limit c.1 b))
      ]

  -- A bucket in the table is the only one that CheckLimit hands out to that user.
  check_limit-uses :
      (nb : ℤ → ℤ → ℤ → Bucket) (now : ℤ) (l : Limiter Bucket Regexp) (tu ip : Str)
      (is_tcp no_ssudp : Bool) (a b : Bucket)
      → bucket_of l tu ≡ some a
      → (check_limit nb now l tu ip is_tcp no_ssudp).bucket ≡ some b
      → a ≡ b
  unfolding check_limit
  check_limit-uses nb now l tu ip is_tcp no_ssudp a b held =
      elim (Option-cases (lookup tu l.user_limit_info)) [
        | inl e ↦ rw (e, check_limit) (λ h. cc)
        | inr (u, e) ↦
            let r = user_limits now tu l u in
            let c = count_device no_ssudp tu (plain_ip ip) r.uid r.device_limit r.after in
            rw (e, check_limit)
              (λ h. ground (
                arith,
                give_bucket-uses nb tu r.user_limit c.1 a b,
                count_device-SameRest no_ssudp tu (plain_ip ip) r.uid r.device_limit r.after,
                user_limits_same now tu l u,
              ))
      ]

  -- All limited connections of a user share one bucket: when CheckLimit hands out a bucket and hands
  -- out one again at the next connection, from any address and at any time, it is the same one.
  pub check_limit_shares_bucket :
      (nb nb' : ℤ → ℤ → ℤ → Bucket) (now now' : ℤ) (l : Limiter Bucket Regexp) (tu ip ip' : Str)
      (is_tcp is_tcp' no_ssudp no_ssudp' : Bool) (a b : Bucket)
      → (check_limit nb now l tu ip is_tcp no_ssudp).bucket ≡ some a
      → (check_limit nb' now'
          (check_limit nb now l tu ip is_tcp no_ssudp).after
          tu
          ip'
          is_tcp'
          no_ssudp').bucket
        ≡ some b
      → a ≡ b
  check_limit_shares_bucket nb nb' now now' l tu ip ip' is_tcp is_tcp' no_ssudp no_ssudp' a b h h' =
      check_limit-uses nb' now' _ tu ip' is_tcp' no_ssudp' a b
        (check_limit-keeps nb now l tu ip is_tcp no_ssudp a h) h'
