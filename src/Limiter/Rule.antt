-- ===== src/Limiter/Rule.antt =====
-- limiter/rule.go. `must_compile` and `match_string` are those of Go's regexp package; a pattern that
-- does not compile makes regexp.MustCompile panic, which is `none`.
pub mod Laws
use bxtest.Prelude.{
  Str, text_eq, Bool, true, false, if◌then◌else◌, Option, none, some, List, [], ◌∷◌, ◌==◌,
}
use bxtest.Panel.{Rules}
use bxtest.Limiter.State.{Limiter}

module _ {Regexp : Type 0} (match_string : Regexp → Str → Bool) where
  match_any : List Regexp → Str → Bool
  match_any [] destination = false
  match_any (r ∷ rs) destination =
      if match_string r destination then true else match_any rs destination

  -- func (l *Limiter) CheckDomainRule(destination)
  unfoldable pub check_domain_rule : {Bucket : Type 0} → Limiter Bucket Regexp → Str → Bool
  unfolding match_any
  check_domain_rule l destination = match_any l.domain_rules destination

is_rule : List Str → Str → Bool
is_rule [] protocol = false
is_rule (p ∷ ps) protocol = if p == protocol then true else is_rule ps protocol

-- func (l *Limiter) CheckProtocolRule(protocol)
unfoldable pub check_protocol_rule : {Bucket Regexp : Type 0} → Limiter Bucket Regexp → Str → Bool
unfolding is_rule
check_protocol_rule l protocol = is_rule l.protocol_rules protocol

module _ {Regexp : Type 0} (must_compile : Str → Option Regexp) where
  compile_all : List Str → Option (List Regexp)
  compile_all [] = some []
  compile_all (r ∷ rs) = elim (must_compile r) [
    | none ↦ none
    | some x ↦ elim (compile_all rs) [ none ↦ none | some xs ↦ some (x ∷ xs) ]
  ]

  -- func (l *Limiter) UpdateRule(rule)
  unfoldable pub update_rule :
      {Bucket : Type 0} → Rules → Limiter Bucket Regexp → Option (Limiter Bucket Regexp)
  unfolding compile_all
  update_rule rule l = elim (compile_all rule.regexp) [
    | none ↦ none
    | some rs ↦ some (record l { domain_rules = rs; protocol_rules = rule.protocol })
  ]
