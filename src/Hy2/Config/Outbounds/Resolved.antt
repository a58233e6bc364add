-- ===== src/Hy2/Config/Outbounds/Resolved.antt =====
-- getOutboundConfig of core/hy2/config.go: where the resolver stands.
use bxtest.Prelude.{
  Str, text_eq, Bool, true, not, ◌||◌, List, ◌∙◌, ok, bind-ok, Bool-cases, inl, inr, sym, ok_inj,
  err_absurd, subst, ◌≡◌, ap,
}
use bxtest.Hy2.Config.{OutboundEntry, AclSettings, ResolverSettings}
use bxtest.Hy2.Config.Outbounds.{
  is_blank, no_lines, Extras, ResolverKind, by_default, over_tcp, over_udp, over_tls, over_https,
  join_lines, resolver_kind, with_addr, resolve_by, apply_resolver, apply_acl, get_entries,
  get_outbound_config, IsResolved, by_ipv4, by_system, by_tcp, by_udp, by_tls, by_https,
}

module _ {Out Ip : Type 0} (x : Extras Out Ip) where
  with_addr-ok : (addr : Str) (out out' : Out) → with_addr x addr out ≡ ok out' → out ≡ out'
  unfolding with_addr
  with_addr-ok addr out out' h = elim (Bool-cases (is_blank addr)) [
    | inl e ↦ err_absurd (rw e at h)
    | inr e ↦ ok_inj (rw e at h)
  ]

  resolve_by-IsResolved :
      (kind : ResolverKind) (c : ResolverSettings) (inner out : Out)
      → resolve_by x kind c inner true ≡ ok out
      → IsResolved x inner out
  unfolding resolve_by
  resolve_by-IsResolved by_default c inner out h = elim (Bool-cases c.ipv4_only) [
    | inl e ↦ subst (IsResolved x inner) (ok_inj (rw e at h)) by_ipv4
    | inr e ↦ subst (IsResolved x inner) (ok_inj (rw e at h)) by_system
  ]
  resolve_by-IsResolved over_tcp c inner out h =
      subst (IsResolved x inner) (with_addr-ok _ _ out h) (by_tcp _ _)
  resolve_by-IsResolved over_udp c inner out h =
      subst (IsResolved x inner) (with_addr-ok _ _ out h) (by_udp _ _)
  resolve_by-IsResolved over_tls c inner out h =
      subst (IsResolved x inner) (with_addr-ok _ _ out h) (by_tls _ _ _ _)
  resolve_by-IsResolved over_https c inner out h =
      subst (IsResolved x inner) (with_addr-ok _ _ out h) (by_https _ _ _ _)

  apply_resolver-IsResolved :
      (c : ResolverSettings) (inner out : Out)
      → apply_resolver x c inner true ≡ ok out
      → IsResolved x inner out
  unfolding apply_resolver
  apply_resolver-IsResolved c inner out h =
      let (kind, _, k) = bind-ok (resolver_kind (x.to_lower c.type)) _ out h in
      resolve_by-IsResolved kind c inner out k

  -- an engine is built when there is an ACL
  apply_acl-true :
      (c : AclSettings) (obs : List (Str × Out)) (both : Out × Bool)
      → (not (is_blank c.file) || not (no_lines c.lines)) ≡ true
      → apply_acl x c obs ≡ ok both
      → both.1 ≡ true
  unfolding apply_acl
  apply_acl-true c obs both g h = elim (Bool-cases (is_blank c.file)) [
    | inl e ↦ elim (Bool-cases (no_lines c.lines)) [
      | inl f ↦ cc (g, e, f)
      | inr f ↦
          let (acl, _, k) =
            bind-ok (x.acl_from_string (join_lines c.lines) obs c) _ both (rw (e, f) at h) in
          sym (ap (λ (b : Out × Bool). b.1) (ok_inj k))
    ]
    | inr e ↦ elim (Bool-cases (no_lines c.lines)) [
      | inl f ↦
          let (acl, _, k) = bind-ok (x.acl_from_file c.file obs c) _ both (rw (e, f) at h) in
          sym (ap (λ (b : Out × Bool). b.1) (ok_inj k))
      | inr f ↦ err_absurd (rw (e, f) at h)
    ]
  ]

  -- With an ACL, in a file or in the configuration, the chain that is built has a resolver right in front
  -- of the ACL engine, so that its rules on addresses work on requests for domains.
  pub get_outbound_config-IsResolved :
      (entries : List OutboundEntry) (acl : AclSettings) (resolver : ResolverSettings) (out : Out)
      → (not (is_blank acl.file) || not (no_lines acl.lines)) ≡ true
      → get_outbound_config x entries acl resolver ≡ ok out
      → (obs : List (Str × Out)) × (engine : Out) × (get_entries x entries ≡ ok obs)
        × (apply_acl x acl obs ≡ ok (engine, true))
        × IsResolved x engine out
  unfolding get_outbound_config
  get_outbound_config-IsResolved entries acl resolver out g h =
      let (obs, a, h') = bind-ok (get_entries x entries) _ out h in
      let ((engine, flag), b, h'') = bind-ok (apply_acl x acl obs) _ out h' in
      let e = apply_acl-true acl obs (engine, flag) g b in
      (
        obs,
        engine,
        a,
        b ∙ ap (λ f. ok (engine, f)) e,
        apply_resolver-IsResolved resolver engine out
            (subst (λ f. apply_resolver x resolver engine f ≡ ok out) e h''),
      )
