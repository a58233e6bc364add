-- ===== src/Sing/Admission.antt =====
-- Which connections a sing-box core serves.
use bxtest.Prelude.{
  Str, ℤ, text_eq, Bool, true, false, Option, none, some, lookup, Addr, ◌≡◌, ◌↔◌, refl, ◌⊎◌, inl,
  inr, arith, Bool-cases,
}
use bxtest.Format.{user_tag}
use bxtest.Limiter.State.{UserLimitInfo}
use bxtest.Limiter.Check.{check_limit}
use bxtest.Limiter.Check.Refusal.{IsOverLimit, is_online, check_limit_reject_iff, check_limit-known}
use bxtest.Limiter.Check.Devices.{check_limit-online}
use bxtest.Limiter.Users.{get_limiter}
use bxtest.Sing.{
  Inbound, closed, tracked, Hook, track, breaks_rule, routed_connection, routed_packet_connection,
}

not_closed : {Bucket : Type 0} {b : Option Bucket} {a : Addr} → tracked b a ≡ closed → ⊥
not_closed h = cc

module _ {Bucket Regexp : Type 0} (nb : ℤ → ℤ → ℤ → Bucket) (ms : Regexp → Str → Bool) where
  -- UDP goes past the limit of devices: a packet connection of a user that the node's limiter knows is
  -- served, without a bucket, whenever no rule forbids its destination, however many devices the user
  -- has; and it puts no address online.
  pub routed_packet_connection-served :
      (now : ℤ) (m : Inbound) (h : Hook Bucket Regexp) (p : Addr) (u : UserLimitInfo)
      → get_limiter m.inbound h.registry ≡ some p
      → let l = h.registry.objects.cell p in
        let key = user_tag m.inbound m.user in
        let r = check_limit nb now l key m.source false false in
        lookup key l.user_limit_info ≡ some u
        → breaks_rule nb ms r.after m.destination m.network ≡ false
        → ((a : Addr) × ((routed_packet_connection nb ms now m h).0 ≡ tracked none a))
          × ((t j : Str)
              → is_online ((routed_packet_connection nb ms now m h).1.registry.objects.cell p) t j
                ≡ is_online l t j)
  unfolding routed_packet_connection track
  routed_packet_connection-served now m h p u e known fine =
      let l = h.registry.objects.cell p in
      let key = user_tag m.inbound m.user in
      let accepted : (check_limit nb now l key m.source false false).reject ≡ false =
        check_limit-known nb now l key m.source false false u known in
      rw (e, accepted, fine, routed_packet_connection)
        ((_, refl), λ t j. ground (arith, check_limit-online nb now l key m.source false false t j))

  -- A TCP connection to a node with a limiter is closed exactly when the user is unknown to the
  -- limiter, or over its limit of devices, or when a rule forbids the destination or the protocol; and
  -- a connection that is closed has no counter made for it.
  pub routed_connection-closed_iff :
      (now : ℤ) (m : Inbound) (h : Hook Bucket Regexp) (p : Addr)
      → get_limiter m.inbound h.registry ≡ some p
      → let l = h.registry.objects.cell p in
        let key = user_tag m.inbound m.user in
        let r = check_limit nb now l key m.source true true in
        let (fate, h') = routed_connection nb ms now m h in
        ((fate ≡ closed) ↔ (
          ((lookup key l.user_limit_info ≡ none)
            ⊎ ((u : UserLimitInfo) × IsOverLimit l key m.source true u))
          ⊎ (breaks_rule nb ms r.after m.destination m.protocol ≡ true)))
        × (fate ≡ closed → h'.counter ≡ h.counter)
  unfolding routed_connection track
  routed_connection-closed_iff now m h p e =
      let l = h.registry.objects.cell p in
      let key = user_tag m.inbound m.user in
      let r = check_limit nb now l key m.source true true in
      let refused = check_limit_reject_iff nb now l key m.source true true in
      elim (Bool-cases r.reject) [
        | inl refusal ↦
            rw (e, refusal, routed_connection)
              ((λ c. inl (refused.0 refusal), λ c. refl), λ c. refl)
        | inr accepted ↦ elim (Bool-cases (breaks_rule nb ms r.after m.destination m.protocol)) [
          | inl broken ↦
              rw (e, accepted, broken, routed_connection) ((λ c. inr refl, λ c. refl), λ c. refl)
          | inr fine ↦
              rw (e, accepted, fine, routed_connection)
                (
                  (
                    λ c. absurd (not_closed c),
                    λ c. elim c [
                      | inl x ↦ ground (arith, refused.1 x, accepted)
                      | inr x ↦ ground (arith, x)
                    ],
                  ),
                  λ c. absurd (not_closed c),
                )
        ]
      ]
