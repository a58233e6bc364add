-- ===== src/Hy2/Events/Marks.antt =====
-- An event of core/hy2/logger.go and the LogTraffic of core/hy2/hook.go that follows it.
use bxtest.Prelude.{
  Str, codes, ℤ, ℕ, text_eq, Bool, true, not, none, some, lookup, ◌==◌, ◌≡◌, refl, ap, sym, ◌∙◌,
  arith, Bool-cases, some_inj, Heap, write, inl, inr, lookup-insert, beq_refl,
}
use bxtest.Format.{user_tag}
use bxtest.Limiter.State.{Limiter, UserLimitInfo}
use bxtest.Limiter.Check.{check_limit, Verdict}
use bxtest.Limiter.Users.{Registry, get_limiter}
use bxtest.Hy2.{HookServer, Logger, log_traffic}
use bxtest.Hy2.Events.{NetAddr, network, extract_ip, mark_over_limit, check_user, udp_request}

module _ {Bucket Regexp : Type 0} where
  mark_over_limit-some :
      (key : Str) (over : Bool) (l : Limiter Bucket Regexp) (u : UserLimitInfo)
      → lookup key l.user_limit_info ≡ some u
      → lookup key (mark_over_limit key over l).user_limit_info
        ≡ some (record u { over_limit = over })
  unfolding mark_over_limit
  mark_over_limit-some key over l u e =
      rw (e, mark_over_limit)
        (lookup-insert key key (record u { over_limit = over }) l.user_limit_info
          ∙ rw (beq_refl key) refl)

  mark_over_limit-none :
      (key : Str) (over : Bool) (l : Limiter Bucket Regexp)
      → lookup key l.user_limit_info ≡ none
      → mark_over_limit key over l ≡ l
  unfolding mark_over_limit
  mark_over_limit-none key over l e = rw (e, mark_over_limit) refl

  log_traffic-some :
      (id : Str) (sent received p : ℕ) (g : Logger Bucket Regexp) (u : UserLimitInfo)
      → get_limiter g.hook.tag g.registry ≡ some p
      → lookup (user_tag g.hook.tag id) (g.registry.objects.cell p).user_limit_info ≡ some u
      → (log_traffic id sent received g).0 ≡ not u.over_limit
  unfolding log_traffic
  log_traffic-some id sent received p g u e f = elim (Bool-cases u.over_limit) [
    | inl m ↦ rw (e, f, m, log_traffic) refl
    | inr m ↦ rw (e, f, m, log_traffic) refl
  ]

  log_traffic-none :
      (id : Str) (sent received p : ℕ) (g : Logger Bucket Regexp)
      → get_limiter g.hook.tag g.registry ≡ some p
      → lookup (user_tag g.hook.tag id) (g.registry.objects.cell p).user_limit_info ≡ none
      → (log_traffic id sent received g).0 ≡ true
  unfolding log_traffic
  log_traffic-none id sent received p g e f = rw (e, f, log_traffic) refl

  cell-write :
      (p : ℕ) (l : Limiter Bucket Regexp) (h : Heap (Limiter Bucket Regexp))
      → (write p l h).cell p ≡ l
  cell-write p l h = ground arith

module _ {Bucket Regexp : Type 0} (new_bucket : ℤ → ℤ → ℤ → Bucket) (now : ℤ) (hook : HookServer)
    (addr : NetAddr) (uuid : Str) (r : Registry Bucket Regexp) (p : ℕ) where
  -- the answer of the limiter to the event
  abbrev pub answer : Verdict Bucket Regexp
  answer =
      check_limit new_bucket now (r.objects.cell p) (user_tag hook.tag uuid) (extract_ip addr)
        (network addr == codes "tcp") true

  -- LogTraffic right after the event
  abbrev pub after_event : Registry Bucket Regexp → ℕ → ℕ → Bool × Logger Bucket Regexp
  after_event r' sent received =
      log_traffic uuid sent received (record { hook = hook; registry = r' })

  -- the limiters after the event
  abbrev marked : Registry Bucket Regexp
  marked = record r {
    objects =
        write p (mark_over_limit (user_tag hook.tag uuid) answer.reject answer.after) r.objects;
  }

  check_user-marked :
      get_limiter hook.tag r ≡ some p → check_user new_bucket now hook.tag addr uuid r ≡ some marked
  unfolding check_user
  check_user-marked e = rw (e, check_user) refl

  get_limiter-marked : get_limiter hook.tag r ≡ some p → get_limiter hook.tag marked ≡ some p
  unfolding get_limiter
  get_limiter-marked e = e

  check_limit-none :
      lookup (user_tag hook.tag uuid) (r.objects.cell p).user_limit_info ≡ none
      → (answer.reject ≡ true) × (answer.after ≡ r.objects.cell p)
  unfolding check_limit
  check_limit-none e = (rw (e, check_limit) refl, rw (e, check_limit) refl)

  -- A user that the limiter still knows after a request: the next report of traffic drops the
  -- connection exactly when the limiter has refused the request.
  pub log_traffic-udp_request :
      (r' : Registry Bucket Regexp) (u : UserLimitInfo) (sent received : ℕ)
      → get_limiter hook.tag r ≡ some p
      → lookup (user_tag hook.tag uuid) answer.after.user_limit_info ≡ some u
      → udp_request new_bucket now hook.tag addr uuid r ≡ some r'
      → (after_event r' sent received).0 ≡ not answer.reject
  unfolding udp_request
  log_traffic-udp_request r' u sent received e f h =
      let s = some_inj (sym (check_user-marked e) ∙ h) in
      let known =
        ap (λ (l : Limiter Bucket Regexp). lookup (user_tag hook.tag uuid) l.user_limit_info)
          (cell-write p _ r.objects)
        ∙ mark_over_limit-some (user_tag hook.tag uuid) answer.reject answer.after u f in
      ap (λ r'. (after_event r' sent received).0) (sym s)
      ∙ log_traffic-some uuid sent received p (record { hook = hook; registry = marked })
          (record u { over_limit = answer.reject }) (get_limiter-marked e) known

  -- A user that the limiter does not know is refused by CheckLimit and keeps its connection all the
  -- same: there is no entry in which the refusal could be marked.
  pub log_traffic-unknown :
      (r' : Registry Bucket Regexp) (sent received : ℕ)
      → get_limiter hook.tag r ≡ some p
      → lookup (user_tag hook.tag uuid) (r.objects.cell p).user_limit_info ≡ none
      → udp_request new_bucket now hook.tag addr uuid r ≡ some r'
      → (answer.reject ≡ true) × ((after_event r' sent received).0 ≡ true)
  unfolding udp_request
  log_traffic-unknown r' sent received e f h =
      let s = some_inj (sym (check_user-marked e) ∙ h) in
      let (refused, same) = check_limit-none f in
      let gone =
        ap (λ (l : Limiter Bucket Regexp). lookup (user_tag hook.tag uuid) l.user_limit_info) same
        ∙ f in
      let unknown =
        ap (λ (l : Limiter Bucket Regexp). lookup (user_tag hook.tag uuid) l.user_limit_info)
          (cell-write p _ r.objects
            ∙ mark_over_limit-none (user_tag hook.tag uuid) answer.reject answer.after gone)
        ∙ gone in
      (
        refused,
        ap (λ r'. (after_event r' sent received).0) (sym s)
            ∙ log_traffic-none uuid sent received p (record { hook = hook; registry = marked })
                (get_limiter-marked e) unknown,
      )
