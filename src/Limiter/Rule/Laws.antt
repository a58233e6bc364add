-- ===== src/Limiter/Rule/Laws.antt =====
-- The audit rules that are in force after UpdateRule.
use bxtest.Prelude.{
  Str, text_eq, Bool, true, false, if◌then◌else◌, Option, none, some, List, [], ◌∷◌, ◌==◌, ◌≡◌,
  refl, ◌||◌, inl, inr, arith, Option-cases,
}
use bxtest.Panel.{Rules}
use bxtest.Limiter.State.{Limiter}
use bxtest.Limiter.Rule.{
  match_any, check_domain_rule, is_rule, check_protocol_rule, compile_all, update_rule,
}

-- the protocol stands in the list
pub listed : Str → List Str → Bool
listed d [] = false
listed d (p ∷ ps) = p == d || listed d ps

is_rule-listed : (ps : List Str) (d : Str) → is_rule ps d ≡ listed d ps
unfolding is_rule listed
is_rule-listed [] d = refl
is_rule-listed (p ∷ ps) d = ground (arith, is_rule-listed ps d)

-- Some pattern of the list compiles to one that matches the destination.
module _ {Regexp : Type 0} (must_compile : Str → Option Regexp)
    (match_string : Regexp → Str → Bool) where
  pub any_pattern : List Str → Str → Bool
  any_pattern [] d = false
  any_pattern (r ∷ rs) d = elim (must_compile r) [
    | none ↦ any_pattern rs d
    | some x ↦ if match_string x d then true else any_pattern rs d
  ]

  match_any-compile :
      (rs : List Str) (xs : List Regexp) (d : Str)
      → compile_all must_compile rs ≡ some xs
      → match_any match_string xs d ≡ any_pattern rs d
  unfolding compile_all match_any any_pattern
  match_any-compile [] xs d h = ground arith
  match_any-compile (r ∷ rs) xs d h = elim (Option-cases (must_compile r)) [
    | inl e ↦ ground arith
    | inr (x, e) ↦ elim (Option-cases (compile_all must_compile rs)) [
      | inl f ↦ ground arith
      | inr (ys, f) ↦ ground (arith, match_any-compile rs ys d)
    ]
  ]

  -- After UpdateRule, if no pattern makes it panic, CheckDomainRule rejects a destination exactly
  -- when some pattern of the rule matches it, and CheckProtocolRule goes by the rule's protocols.
  -- Rules of before have no effect, and no other part of the limiter changes.
  pub check_domain_rule-update_rule :
      {Bucket : Type 0} (rule : Rules) (l l' : Limiter Bucket Regexp) (d : Str)
      → update_rule must_compile rule l ≡ some l'
      → (check_domain_rule match_string l' d ≡ any_pattern rule.regexp d)
        × (check_protocol_rule l' d ≡ listed d rule.protocol)
        × (record l' { domain_rules = l.domain_rules; protocol_rules = l.protocol_rules } ≡ l)
  unfolding update_rule check_domain_rule check_protocol_rule
  check_domain_rule-update_rule rule l l' d h =
      elim (Option-cases (compile_all must_compile rule.regexp)) [
        | inl e ↦ ground arith
        | inr (xs, e) ↦
            ground (arith, match_any-compile rule.regexp xs d, is_rule-listed rule.protocol d)
      ]

-- UpdateRule leaves the users alone.
pub update_rule_users :
    {Regexp Bucket : Type 0} (must_compile : Str → Option Regexp) (rule : Rules)
    (l l' : Limiter Bucket Regexp)
    → update_rule must_compile rule l ≡ some l'
    → l'.user_limit_info ≡ l.user_limit_info
unfolding update_rule
update_rule_users must_compile rule l l' h = ground arith
