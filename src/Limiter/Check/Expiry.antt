-- ===== src/Limiter/Check/Expiry.antt =====
-- What becomes of a user whose dynamic speed limit has run out.
use bxtest.Prelude.{
  List, [], ◌∷◌, Option-cases, Bool-cases, inl, inr, ap, ◌==◌, ◌∙◌, Str, ℤ, pos, Bool, true, none,
  some, lookup, ◌≡◌, ◌≢◌, arith, text_eq, int_eq, lookup-erase, lookup-insert, beq_refl,
}
use bxtest.Limiter.State.{Limiter, UserLimitInfo}
use bxtest.Limiter.Check.{expired, plain_ip, count_device, user_limits, give_bucket, check_limit}
use bxtest.Limiter.Online.{get_online_device}
use bxtest.Limiter.Online.Report.{get_online_device-IsReport}
use bxtest.Limiter.Check.Buckets.{count_device-SameRest}

-- what happens to a limiter between two changes of its users: connections are checked, and the users
-- online are reported
pub data Use (Bucket : Type 0) : Type 0 where
  checks : (ℤ → ℤ → ℤ → Bucket) → ℤ → Str → Str → Bool → Bool → Use Bucket
  reports : Use Bucket

module _ {Bucket Regexp : Type 0} where
  give_bucket-info :
      (nb : ℤ → ℤ → ℤ → Bucket) (tu : Str) (user_limit : ℤ) (l : Limiter Bucket Regexp)
      → (give_bucket nb tu user_limit l).after.user_limit_info ≡ l.user_limit_info
  unfolding give_bucket
  give_bucket-info nb tu user_limit l = ground arith

  -- CheckLimit changes the limits of the user at most as its reading of the limits does.
  pub check_limit-info :
      (nb : ℤ → ℤ → ℤ → Bucket) (now : ℤ) (l : Limiter Bucket Regexp) (tu ip : Str)
      (is_tcp no_ssudp : Bool) (u : UserLimitInfo)
      → lookup tu l.user_limit_info ≡ some u
      → (check_limit nb now l tu ip is_tcp no_ssudp).after.user_limit_info
        ≡ (user_limits now tu l u).after.user_limit_info
  unfolding check_limit
  check_limit-info nb now l tu ip is_tcp no_ssudp u e =
      let r = user_limits now tu l u in
      let c = count_device no_ssudp tu (plain_ip ip) r.uid r.device_limit r.after in
      rw (e, check_limit)
        (ground (
          arith,
          give_bucket-info nb tu r.user_limit c.1,
          count_device-SameRest no_ssudp tu (plain_ip ip) r.uid r.device_limit r.after,
        ))

  unknown_rejected :
      (nb : ℤ → ℤ → ℤ → Bucket) (now : ℤ) (l : Limiter Bucket Regexp) (tu ip : Str)
      (is_tcp no_ssudp : Bool)
      → lookup tu l.user_limit_info ≡ none
      → (check_limit nb now l tu ip is_tcp no_ssudp).reject ≡ true
  unfolding check_limit
  unknown_rejected nb now l tu ip is_tcp no_ssudp e = rw (e, check_limit)

  expired_erased :
      (now : ℤ) (tu : Str) (l : Limiter Bucket Regexp) (u : UserLimitInfo)
      → expired now u ≡ true
      → u.speed_limit ≡ pos 0
      → lookup tu (user_limits now tu l u).after.user_limit_info ≡ none
  unfolding user_limits
  expired_erased now tu l u e z = ground (arith, lookup-erase tu tu l.user_limit_info, beq_refl tu)

  user_limits-unknown :
      (now : ℤ) (tu j : Str) (l : Limiter Bucket Regexp) (u : UserLimitInfo)
      → lookup tu l.user_limit_info ≡ some u
      → lookup j l.user_limit_info ≡ none
      → lookup j (user_limits now tu l u).after.user_limit_info ≡ none
  unfolding user_limits
  user_limits-unknown now tu j l u e f =
      let kept : UserLimitInfo = record u { dynamic_speed_limit = pos 0; expire_time = pos 0 } in
      elim (Bool-cases (tu == j)) [
        | inl same ↦
            let known = ap (λ k. lookup k l.user_limit_info) ((text_eq.beq_iff tu j).0 same) in cc
        | inr apart ↦ elim (Bool-cases (expired now u)) [
          | inr a ↦ rw (user_limits, a) f
          | inl a ↦ elim (Bool-cases (u.speed_limit == pos 0)) [
            | inl z ↦ rw (user_limits, a, z) (lookup-erase j tu l.user_limit_info ∙ rw apart f)
            | inr z ↦
                rw (user_limits, a, z) (lookup-insert j tu kept l.user_limit_info ∙ rw apart f)
          ]
        ]
      ]

  -- no CheckLimit, of this user or of another one, makes a user known
  check_limit-unknown :
      (nb : ℤ → ℤ → ℤ → Bucket) (now : ℤ) (l : Limiter Bucket Regexp) (tu ip j : Str)
      (is_tcp no_ssudp : Bool)
      → lookup j l.user_limit_info ≡ none
      → lookup j (check_limit nb now l tu ip is_tcp no_ssudp).after.user_limit_info ≡ none
  unfolding check_limit
  check_limit-unknown nb now l tu ip j is_tcp no_ssudp f =
      elim (Option-cases (lookup tu l.user_limit_info)) [
        | inl e ↦ rw (check_limit, e) f
        | inr (u, e) ↦
            rw (check_limit-info nb now l tu ip is_tcp no_ssudp u e)
              (user_limits-unknown now tu j l u e f)
      ]

  abbrev pub after_use : Use Bucket → Limiter Bucket Regexp → Limiter Bucket Regexp
  after_use (checks nb now tu ip is_tcp no_ssudp) l =
      (check_limit nb now l tu ip is_tcp no_ssudp).after
  after_use reports l = (get_online_device l).1

  abbrev pub after_uses : List (Use Bucket) → Limiter Bucket Regexp → Limiter Bucket Regexp
  after_uses [] l = l
  after_uses (e ∷ es) l = after_uses es (after_use e l)

  after_uses-unknown :
      (es : List (Use Bucket)) (l : Limiter Bucket Regexp) (j : Str)
      → lookup j l.user_limit_info ≡ none
      → lookup j (after_uses es l).user_limit_info ≡ none
  after_uses-unknown [] l j f = f
  after_uses-unknown (checks nb now tu ip is_tcp no_ssudp ∷ es) l j f =
      after_uses-unknown es (check_limit nb now l tu ip is_tcp no_ssudp).after j
        (check_limit-unknown nb now l tu ip j is_tcp no_ssudp f)
  after_uses-unknown (reports ∷ es) l j f =
      after_uses-unknown es (get_online_device l).1 j
        (rw (get_online_device-IsReport l).same_users f)

  -- A user without a speed limit of its own is forgotten by the first CheckLimit after its dynamic limit
  -- has run out. From then on each connection of the user is refused, from any address and at any time,
  -- however many connections, of this user and of others, are checked and however often the users online
  -- are reported before it.
  pub check_limit-expired_locks_out :
      (nb nb' : ℤ → ℤ → ℤ → Bucket) (now now' : ℤ) (l : Limiter Bucket Regexp) (tu ip ip' : Str)
      (is_tcp is_tcp' no_ssudp no_ssudp' : Bool) (u : UserLimitInfo) (es : List (Use Bucket))
      → lookup tu l.user_limit_info ≡ some u
      → expired now u ≡ true
      → u.speed_limit ≡ pos 0
      → (check_limit nb' now'
          (after_uses es (check_limit nb now l tu ip is_tcp no_ssudp).after)
          tu
          ip'
          is_tcp'
          no_ssudp').reject
        ≡ true
  check_limit-expired_locks_out nb nb' now now' l tu ip ip' is_tcp is_tcp' no_ssudp no_ssudp' u es
        known old free =
      unknown_rejected nb' now' _ tu ip' is_tcp' no_ssudp' (
        after_uses-unknown es _ tu (
          rw (check_limit-info nb now l tu ip is_tcp no_ssudp u known)
            (expired_erased now tu l u old free)))

  kept_known :
      (now : ℤ) (tu : Str) (l : Limiter Bucket Regexp) (u : UserLimitInfo)
      → lookup tu l.user_limit_info ≡ some u
      → expired now u ≡ true
      → u.speed_limit ≢ pos 0
      → lookup tu (user_limits now tu l u).after.user_limit_info
        ≡ some (record u { dynamic_speed_limit = pos 0; expire_time = pos 0 })
  unfolding user_limits
  kept_known now tu l u known e z = ground (
    arith,
    lookup-insert tu tu (record u { dynamic_speed_limit = pos 0; expire_time = pos 0 })
        l.user_limit_info,
    beq_refl tu,
  )

  -- A user with a speed limit of its own falls back to that limit alone: after the first CheckLimit
  -- past the expiry the entry is the old one with no dynamic limit and no expiry.
  pub check_limit-expired_falls_back :
      (nb : ℤ → ℤ → ℤ → Bucket) (now : ℤ) (l : Limiter Bucket Regexp) (tu ip : Str)
      (is_tcp no_ssudp : Bool) (u : UserLimitInfo)
      → lookup tu l.user_limit_info ≡ some u
      → expired now u ≡ true
      → u.speed_limit ≢ pos 0
      → lookup tu (check_limit nb now l tu ip is_tcp no_ssudp).after.user_limit_info
        ≡ some (record u { dynamic_speed_limit = pos 0; expire_time = pos 0 })
  check_limit-expired_falls_back nb now l tu ip is_tcp no_ssudp u known old own =
      rw (check_limit-info nb now l tu ip is_tcp no_ssudp u known)
        (kept_known now tu l u known old own)
