-- ===== src/Hy2/Events.antt =====
-- core/hy2/logger.go: the events of a Hysteria2 server at which a user's device limit is asked. A log
-- line has no effect in the model, and Disconnect, TCPError and UDPError only write one.
pub mod Marks
use bxtest.Prelude.{
  Str, codes, ℤ, text_eq, Bool, true, false, Option, none, some, [], lookup, insert, ◌==◌, Addr,
  write,
}
use bxtest.Format.{user_tag}
use bxtest.Limiter.State.{Limiter, UserLimitInfo}
use bxtest.Limiter.Check.{check_limit}
use bxtest.Limiter.Users.{Registry, get_limiter}

-- net.Addr: the types that extractIPFromAddr knows with the text of their IP, and any other with its
-- network
pub data NetAddr : Type 0 where
  tcp_addr : Str → NetAddr
  udp_addr : Str → NetAddr
  ip_addr : Str → NetAddr
  other_addr : Str → NetAddr

-- addr.Network()
abbrev pub network : NetAddr → Str
network (tcp_addr ip) = codes "tcp"
network (udp_addr ip) = codes "udp"
network (ip_addr ip) = codes "ip"
network (other_addr n) = n

-- func extractIPFromAddr(addr)
abbrev pub extract_ip : NetAddr → Str
extract_ip (tcp_addr ip) = ip
extract_ip (udp_addr ip) = ip
extract_ip (ip_addr ip) = ip
extract_ip (other_addr n) = []

module _ {Bucket Regexp : Type 0} where
  -- userLimit.OverLimit = over, for a user that is in UserLimitInfo
  mark_over_limit : Str → Bool → Limiter Bucket Regexp → Limiter Bucket Regexp
  mark_over_limit key over l = elim (lookup key l.user_limit_info) [
    | none ↦ l
    | some u ↦ record l {
      user_limit_info = insert key (record u { over_limit = over }) l.user_limit_info;
    }
  ]

module _ {Bucket Regexp : Type 0} (new_bucket : ℤ → ℤ → ℤ → Bucket) where
  -- what Connect, TCPRequest and UDPRequest have in common; `none` is the panic of l.logger.Panic
  check_user : ℤ → Str → NetAddr → Str → Registry Bucket Regexp → Option (Registry Bucket Regexp)
  unfolding mark_over_limit
  check_user now tag addr uuid r = elim (get_limiter tag r) [
    | none ↦ none
    | some p ↦
        let v =
          check_limit new_bucket now (r.objects.cell p) (user_tag tag uuid) (extract_ip addr)
            (network addr == codes "tcp") true in
        some (record r {
          objects = write p (mark_over_limit (user_tag tag uuid) v.reject v.after) r.objects;
        })
  ]

  -- func (l *serverLogger) Connect(addr, uuid, tx)
  unfoldable pub connect :
      ℤ → Str → NetAddr → Str → Registry Bucket Regexp → Option (Registry Bucket Regexp)
  unfolding check_user
  connect = check_user

  -- func (l *serverLogger) TCPRequest(addr, uuid, reqAddr)
  unfoldable pub tcp_request :
      ℤ → Str → NetAddr → Str → Registry Bucket Regexp → Option (Registry Bucket Regexp)
  unfolding check_user
  tcp_request = check_user

  -- func (l *serverLogger) UDPRequest(addr, uuid, sessionId, reqAddr)
  unfoldable pub udp_request :
      ℤ → Str → NetAddr → Str → Registry Bucket Regexp → Option (Registry Bucket Regexp)
  unfolding check_user
  udp_request = check_user
