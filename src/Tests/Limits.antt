-- ===== src/Tests/Limits.antt =====
-- Runs of the limiter.
use bxtest.Prelude.{
  List, Str, codes, ℤ, pos, text_eq, int_eq, str_eq, quot_ℤ, wrap64, ◌*ℤ◌, true, false, not, ◌&&◌,
  Option, none, some, [], ◌∷◌, lookup, insert, ◌≡◌, refl, ◌↔◌, ◌⊎◌, arith,
}
use bxtest.Panel.{Rules}
use bxtest.Limiter.State.{Limiter, UserLimitInfo}
use bxtest.Limiter.Check.{check_limit, plain_ip, count_device, give_bucket}
use bxtest.Limiter.Check.Refusal.{IsOverLimit, check_limit_reject_iff, is_online}
use bxtest.Limiter.Check.Devices.{check_limit-online, with_ip}
use bxtest.Limiter.Check.Buckets.{check_limit_shares_bucket}
use bxtest.Limiter.Check.Expiry.{Use, checks, reports, after_uses, check_limit-expired_locks_out}
use bxtest.Limiter.Online.{get_online_device}
use bxtest.Limiter.Online.Report.{IsReport, get_online_device-IsReport}
use bxtest.Limiter.Users.{Registry}
use bxtest.Limiter.Users.Table.{IsValid}
use bxtest.Limiter.Speed.{byte_rate, determine_speed_limit}
use bxtest.Tests.Data.{tag, tag_a, tag_b, home, away, entry_a, entry_b, limiter, new_bucket}

check_limit_reject_iff_example :
    ((check_limit new_bucket (pos 50) limiter tag_a away true true).reject ≡ true) ↔ (
      (lookup tag_a limiter.user_limit_info ≡ none)
      ⊎ ((u : UserLimitInfo) × IsOverLimit limiter tag_a away true u))
check_limit_reject_iff_example =
    check_limit_reject_iff new_bucket (pos 50) limiter tag_a away true true

check_limit-online_example :
    is_online (check_limit new_bucket (pos 50) limiter tag_b away true true).after tag_b away
    ≡ with_ip
        (true && not (check_limit new_bucket (pos 50) limiter tag_b away true true).reject)
        limiter
        tag_b
        (plain_ip away)
        tag_b
        away
check_limit-online_example =
    check_limit-online new_bucket (pos 50) limiter tag_b away true true tag_b away

check_limit_shares_bucket_example : pos 1250000 ≡ pos 1250000
unfolding check_limit lookup str_eq count_device give_bucket byte_rate quot_ℤ wrap64 ◌*ℤ◌
    determine_speed_limit insert
check_limit_shares_bucket_example =
    check_limit_shares_bucket new_bucket new_bucket (pos 200) (pos 201) limiter tag_b away home true
      true false false (pos 1250000) (pos 1250000) refl refl

known_a : lookup tag_a limiter.user_limit_info ≡ some entry_a
unfolding lookup str_eq
known_a = refl

known_b : lookup tag_b limiter.user_limit_info ≡ some entry_b
unfolding lookup str_eq
known_b = refl

-- another user connects, the users online are reported, and the user is refused once more
abbrev between_checks : List (Use ℤ)
between_checks =
    checks new_bucket (pos 201) tag_b home true true
    ∷ reports
    ∷ checks new_bucket (pos 201) tag_a home true true
    ∷ []

check_limit-expired_locks_out_example :
    (check_limit new_bucket
      (pos 202)
      (after_uses between_checks
        (check_limit new_bucket (pos 200) limiter tag_a home true true).after)
      tag_a
      away
      true
      true).reject
    ≡ true
check_limit-expired_locks_out_example =
    check_limit-expired_locks_out new_bucket new_bucket (pos 200) (pos 202) limiter tag_a home away
      true true true true entry_a between_checks known_a refl refl

get_online_device-IsReport_example :
    IsReport limiter (get_online_device limiter).0 (get_online_device limiter).1
get_online_device-IsReport_example = get_online_device-IsReport limiter

abbrev registry : Registry ℤ Str
registry = record { table = (tag, 0) ∷ []; objects = record { cell = λ p. limiter; next = 1 } }

registry-IsValid : IsValid registry
unfolding lookup
registry-IsValid = record { allocated = λ t p h. ground arith }

-- a pattern is a literal host
abbrev compile : Str → Option Str
compile s = some s

abbrev audit : Rules
audit = record { regexp = codes "bad.com" ∷ []; protocol = codes "bittorrent" ∷ [] }

abbrev audited : Limiter ℤ Str
audited = record limiter {
  domain_rules = codes "bad.com" ∷ [];
  protocol_rules = codes "bittorrent" ∷ [];
}
