-- ===== src/Tests/Events.antt =====
-- Runs of the events of a Hysteria2 server.
use bxtest.Prelude.{
  Str, trim_prefix, codes, ℤ, pos, text_eq, str_eq, true, not, Option, none, some, [], ◌∷◌, lookup,
  ◌≡◌, refl,
}
use bxtest.Format.{user_tag}
use bxtest.Limiter.Check.{check_limit, count_device}
use bxtest.Limiter.Users.{Registry, get_limiter}
use bxtest.Hy2.{HookServer}
use bxtest.Hy2.Events.{NetAddr, udp_addr, udp_request}
use bxtest.Hy2.Events.Marks.{answer, after_event, log_traffic-udp_request, log_traffic-unknown}
use bxtest.Tests.Data.{tag, entry_a, limiter, new_bucket, away}

abbrev hook : HookServer
hook = record { tag = tag; counter = []; report_min_traffic_bytes = pos 0 }

abbrev registry : Registry ℤ Str
registry = record { table = (tag, 0) ∷ []; objects = record { cell = λ p. limiter; next = 1 } }

abbrev guest : NetAddr
guest = udp_addr away

abbrev or_else : Option (Registry ℤ Str) → Registry ℤ Str
or_else none = registry
or_else (some r) = r

-- user a, from a second device
log_traffic-udp_request_example :
    (after_event new_bucket
      (pos 50)
      hook
      guest
      (codes "a")
      registry
      0
      (or_else (udp_request new_bucket (pos 50) tag guest (codes "a") registry))
      10
      20).0
    ≡ not (answer new_bucket (pos 50) hook guest (codes "a") registry 0).reject
unfolding udp_request get_limiter lookup str_eq check_limit user_tag count_device trim_prefix
log_traffic-udp_request_example =
    log_traffic-udp_request new_bucket (pos 50) hook guest (codes "a") registry 0
      (or_else (udp_request new_bucket (pos 50) tag guest (codes "a") registry)) entry_a 10 20 refl
      refl refl

-- user z, whom the node has no longer
log_traffic-unknown_example :
    ((answer new_bucket (pos 50) hook guest (codes "z") registry 0).reject ≡ true)
    × ((after_event new_bucket
          (pos 50)
          hook
          guest
          (codes "z")
          registry
          0
          (or_else (udp_request new_bucket (pos 50) tag guest (codes "z") registry))
          10
          20).0
        ≡ true)
unfolding udp_request get_limiter lookup str_eq user_tag
log_traffic-unknown_example =
    log_traffic-unknown new_bucket (pos 50) hook guest (codes "z") registry 0
      (or_else (udp_request new_bucket (pos 50) tag guest (codes "z") registry)) 10 20 refl refl
      refl
