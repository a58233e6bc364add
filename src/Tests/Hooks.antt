-- ===== src/Tests/Hooks.antt =====
-- Runs of the hook of a sing-box core.
use bxtest.Prelude.{
  Str, codes, ℤ, pos, text_eq, str_eq, quot_ℤ, wrap64, ◌*ℤ◌, true, false, none, some, [], ◌∷◌,
  lookup, ◌≡◌, ◌↔◌, ◌⊎◌, refl,
}
use bxtest.Format.{user_tag}
use bxtest.Limiter.State.{UserLimitInfo}
use bxtest.Limiter.Check.{check_limit, count_device, give_bucket}
use bxtest.Limiter.Check.Refusal.{IsOverLimit}
use bxtest.Limiter.Speed.{byte_rate, determine_speed_limit}
use bxtest.Limiter.Rule.{check_domain_rule, check_protocol_rule}
use bxtest.Limiter.Users.{get_limiter}
use bxtest.Sing.{Inbound, closed, Hook, breaks_rule, routed_connection}
use bxtest.Sing.Admission.{routed_connection-closed_iff}
use bxtest.Tests.Data.{tag, entry_a, limiter, new_bucket, away}

abbrev request : Inbound
request = record {
  inbound = tag;
  user = codes "a";
  source = away;
  destination = codes "good.com";
  protocol = [];
  network = codes "udp";
}

abbrev hook : Hook ℤ Str
hook = record {
  counter = [];
  registry = record { table = (tag, 0) ∷ []; objects = record { cell = λ p. limiter; next = 1 } };
}

found : get_limiter tag hook.registry ≡ some 0
unfolding get_limiter lookup str_eq
found = refl

known : lookup (user_tag tag (codes "a")) limiter.user_limit_info ≡ some entry_a
unfolding user_tag lookup str_eq
known = refl

allowed :
    breaks_rule new_bucket str_eq
      (check_limit new_bucket (pos 50) limiter (user_tag tag (codes "a")) away false false).after
      (codes "good.com")
      (codes "udp")
    ≡ false
unfolding breaks_rule check_domain_rule check_limit lookup str_eq user_tag count_device give_bucket
    byte_rate quot_ℤ wrap64 ◌*ℤ◌ determine_speed_limit check_protocol_rule
allowed = refl

routed_connection-closed_iff_example :
    let key = user_tag tag (codes "a") in
    let r = check_limit new_bucket (pos 50) limiter key away true true in
    let (fate, h) = routed_connection new_bucket str_eq (pos 50) request hook in
    ((fate ≡ closed) ↔ (
      ((lookup key limiter.user_limit_info ≡ none)
        ⊎ ((u : UserLimitInfo) × IsOverLimit limiter key away true u))
      ⊎ (breaks_rule new_bucket str_eq r.after (codes "good.com") [] ≡ true)))
    × (fate ≡ closed → h.counter ≡ hook.counter)
routed_connection-closed_iff_example =
    routed_connection-closed_iff new_bucket str_eq (pos 50) request hook 0 found
