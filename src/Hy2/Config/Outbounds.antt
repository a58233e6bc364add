-- ===== src/Hy2/Config/Outbounds.antt =====
-- The request hook and the chain of outbounds of a Hysteria2 node: getRequestHook and
-- getOutboundConfig of core/hy2/config.go, and the outbounds of core/hy2/serverConfig.go.
pub mod Resolved
use bxtest.Prelude.{
  Str, codes, text_eq, ℤ, Bool, true, false, not, if◌then◌else◌, ◌&&◌, ◌||◌, Option, none, some,
  is_some, List, [], ◌∷◌, ◌++◌, map, Result, ok, err, ◌>>=◌, bind-ok, Bool-cases, inl, inr, sym,
  ok_inj, err_absurd, subst, ◌==◌, ◌≡◌, ◌≢◌, refl, ap, arith,
}
use bxtest.Hy2.Config.{
  DirectSettings, Socks5Settings, HttpSettings, OutboundEntry, AclSettings, ResolverSettings,
  SniffSettings,
}

-- a text that is not there is its default, ""
abbrev pub is_blank : Str → Bool
is_blank s = s == []

abbrev pub no_lines : List Str → Bool
no_lines [] = true
no_lines (line ∷ lines) = false

-- sniff.Sniffer, with the ports that it looks at, or `none` for all
pub record Sniffer (Ports : Type 0) : Type 0 where
  pub timeout : ℤ
  pub rewrite_domain : Bool
  pub tcp_ports : Option Ports
  pub udp_ports : Option Ports

module _ {Ports : Type 0} (parse_port_union : Str → Option Ports) where
  -- s.TCPPorts and s.UDPPorts: a union that cannot be read is an error
  sniffed_ports : Str → Str → Result (Option Ports)
  sniffed_ports text message =
      if is_blank text
      then ok none
      else elim (parse_port_union text) [ none ↦ err message | some ports ↦ ok (some ports) ]

  -- the sniffer, when it is enabled
  get_sniffer : SniffSettings → Result (Sniffer Ports)
  unfolding sniffed_ports
  get_sniffer c = do
    tcp ← sniffed_ports c.tcp_ports (codes "sniff.tcpPorts: invalid port union")
    udp ← sniffed_ports c.udp_ports (codes "sniff.udpPorts: invalid port union")
    ok (record {
      timeout = c.timeout;
      rewrite_domain = c.rewrite_domain;
      tcp_ports = tcp;
      udp_ports = udp;
    })

  -- func (n *Hysteria2node) getRequestHook(c)
  unfoldable pub get_request_hook : SniffSettings → Result (Option (Sniffer Ports))
  unfolding get_sniffer
  get_request_hook c = if c.enable then get_sniffer c >>= (λ s. ok (some s)) else ok none

pub data DirectMode : Type 0 where
  mode_auto : DirectMode
  mode_64 : DirectMode
  mode_46 : DirectMode
  mode_6 : DirectMode
  mode_4 : DirectMode

-- the library github.com/apernet/hysteria/extras/v2/outbounds, net.ParseIP and strings.ToLower
pub record Extras (Out Ip : Type 0) : Type 0 where
  pub to_lower : Str → Str
  pub parse_ip : Str → Option Ip
  pub direct_simple : DirectMode → Out
  pub direct_to_ips : DirectMode → Option Ip → Option Ip → Result Out
  pub direct_to_device : DirectMode → Str → Result Out
  pub socks5 : Str → Str → Str → Out
  pub http : Str → Bool → Result Out
  pub acl_from_file : Str → List (Str × Out) → AclSettings → Result Out
  pub acl_from_string : Str → List (Str × Out) → AclSettings → Result Out
  pub system_resolver : Out → Out
  pub tcp_resolver : Str → ℤ → Out → Out
  pub udp_resolver : Str → ℤ → Out → Out
  pub tls_resolver : Str → ℤ → Str → Bool → Out → Out
  pub https_resolver : Str → ℤ → Str → Bool → Out → Out
  -- newIPv4OnlyResolver of core/hy2/resolver.go: the outbound behind lookups of IPv4 addresses
  pub ipv4_only_resolver : Out → Out

-- the switch on c.Mode, in lower case
direct_mode : Str → Result DirectMode
direct_mode mode =
    if is_blank mode || mode == codes "auto"
    then ok mode_auto
    else if mode == codes "64"
    then ok mode_64
    else if mode == codes "46"
    then ok mode_46
    else if mode == codes "6"
    then ok mode_6
    else if mode == codes "4"
    then ok mode_4
    else err (codes "outbounds.direct.mode unsupported mode")

-- strings.Join(lines, "\n")
pub join_lines : List Str → Str
join_lines [] = []
join_lines (line ∷ []) = line
join_lines (line ∷ next ∷ lines) = line ++ 10 ∷ join_lines (next ∷ lines)

pub data ResolverKind : Type 0 where
  by_default : ResolverKind
  over_tcp : ResolverKind
  over_udp : ResolverKind
  over_tls : ResolverKind
  over_https : ResolverKind

-- the labels of the switch on c.Resolver.Type
pub resolver_kind : Str → Result ResolverKind
resolver_kind type =
    if is_blank type || type == codes "system"
    then ok by_default
    else if type == codes "tcp"
    then ok over_tcp
    else if type == codes "udp"
    then ok over_udp
    else if type == codes "tls" || type == codes "tcp-tls"
    then ok over_tls
    else if type == codes "https" || type == codes "http"
    then ok over_https
    else err (codes "unsupported resolver type")

module _ {Out Ip : Type 0} (x : Extras Out Ip) where
  -- net.ParseIP of a text that is there has to succeed
  bad_ip : Str → Bool
  bad_ip s = not (is_blank s) && not (is_some (x.parse_ip s))

  -- the outbound of a mode: bound to addresses, to a device, or to nothing
  bind_direct : DirectSettings → DirectMode → Result Out
  unfolding bad_ip
  bind_direct c mode =
      let bind_ip = not (is_blank c.bind_ipv4) || not (is_blank c.bind_ipv6) in
      if bind_ip && not (is_blank c.bind_device)
      then err (codes "outbounds.direct cannot bind both IP and device")
      else if bind_ip
      then if bad_ip c.bind_ipv4
        then err (codes "outbounds.direct.bindIPv4 invalid IPv4 address")
        else if bad_ip c.bind_ipv6
        then err (codes "outbounds.direct.bindIPv6 invalid IPv6 address")
        else x.direct_to_ips mode (x.parse_ip c.bind_ipv4) (x.parse_ip c.bind_ipv6)
      else if not (is_blank c.bind_device)
      then x.direct_to_device mode c.bind_device
      else ok (x.direct_simple mode)

  -- func serverConfigOutboundDirectToOutbound(c)
  unfoldable pub direct_outbound : DirectSettings → Result Out
  unfolding direct_mode bind_direct
  direct_outbound c = direct_mode (x.to_lower c.mode) >>= bind_direct c

  -- func serverConfigOutboundSOCKS5ToOutbound(c)
  unfoldable pub socks5_outbound : Socks5Settings → Result Out
  socks5_outbound c =
      if is_blank c.addr
      then err (codes "outbounds.socks5.addr empty socks5 address")
      else ok (x.socks5 c.addr c.username c.password)

  -- func serverConfigOutboundHTTPToOutbound(c)
  unfoldable pub http_outbound : HttpSettings → Result Out
  http_outbound c =
      if is_blank c.url
      then err (codes "outbounds.http.url empty http address")
      else x.http c.url c.insecure

  -- the switch on entry.Type
  outbound_of : OutboundEntry → Result Out
  unfolding direct_outbound socks5_outbound http_outbound
  outbound_of entry =
      let type = x.to_lower entry.type in
      if type == codes "direct"
      then direct_outbound entry.direct
      else if type == codes "socks5"
      then socks5_outbound entry.socks5
      else if type == codes "http"
      then http_outbound entry.http
      else err (codes "outbounds.type unsupported outbound type")

  -- the loop over c.Outbounds
  build_entries : List OutboundEntry → Result (List (Str × Out))
  unfolding outbound_of
  build_entries [] = ok []
  build_entries (entry ∷ entries) =
      if is_blank entry.name
      then err (codes "empty outbound name")
      else outbound_of entry
        >>= (λ out. build_entries entries >>= (λ rest. ok ((entry.name, out) ∷ rest)))

  -- the outbounds, at least one
  pub get_entries : List OutboundEntry → Result (List (Str × Out))
  unfolding build_entries
  get_entries [] = ok ((codes "default", x.direct_simple mode_auto) ∷ [])
  get_entries (entry ∷ entries) = build_entries (entry ∷ entries)

  -- obs[0].Outbound
  pub first_outbound : List (Str × Out) → Result Out
  first_outbound [] = err (codes "index out of range")
  first_outbound ((name, out) ∷ obs) = ok out

  -- the unified outbound, and whether an ACL is in it
  pub apply_acl : AclSettings → List (Str × Out) → Result (Out × Bool)
  unfolding join_lines first_outbound
  apply_acl c obs =
      if not (is_blank c.file) && not (no_lines c.lines)
      then err (codes "cannot set both acl.file and acl.inline")
      else if not (is_blank c.file)
      then x.acl_from_file c.file obs c >>= (λ acl. ok (acl, true))
      else if not (no_lines c.lines)
      then x.acl_from_string (join_lines c.lines) obs c >>= (λ acl. ok (acl, true))
      else first_outbound obs >>= (λ out. ok (out, false))

  -- an address is needed
  pub with_addr : Str → Out → Result Out
  with_addr addr out = if is_blank addr then err (codes "empty resolver address") else ok out

  -- the cases of the switch on c.Resolver.Type
  pub resolve_by : ResolverKind → ResolverSettings → Out → Bool → Result Out
  unfolding with_addr
  resolve_by by_default c out has_acl =
      if c.ipv4_only
      then ok (x.ipv4_only_resolver out)
      else if has_acl
      then ok (x.system_resolver out)
      else ok out
  resolve_by over_tcp c out has_acl =
      with_addr c.tcp.addr (x.tcp_resolver c.tcp.addr c.tcp.timeout out)
  resolve_by over_udp c out has_acl =
      with_addr c.udp.addr (x.udp_resolver c.udp.addr c.udp.timeout out)
  resolve_by over_tls c out has_acl =
      with_addr c.tls.addr (x.tls_resolver c.tls.addr c.tls.timeout c.tls.sni c.tls.insecure out)
  resolve_by over_https c out has_acl =
      with_addr c.https.addr
        (x.https_resolver c.https.addr c.https.timeout c.https.sni c.https.insecure out)

  pub apply_resolver : ResolverSettings → Out → Bool → Result Out
  unfolding resolver_kind resolve_by
  apply_resolver c out has_acl =
      resolver_kind (x.to_lower c.type) >>= (λ kind. resolve_by kind c out has_acl)

  -- func (n *Hysteria2node) getOutboundConfig(c)
  unfoldable pub get_outbound_config :
      List OutboundEntry → AclSettings → ResolverSettings → Result Out
  unfolding get_entries apply_acl apply_resolver
  get_outbound_config entries acl resolver = do
    obs ← get_entries entries
    both ← apply_acl acl obs
    apply_resolver resolver both.0 both.1

  -- an outbound behind a resolver
  pub data IsResolved (inner : Out) : Out → Type 0 where
    by_ipv4 : IsResolved inner (x.ipv4_only_resolver inner)
    by_system : IsResolved inner (x.system_resolver inner)
    by_tcp : (addr : Str) (timeout : ℤ) → IsResolved inner (x.tcp_resolver addr timeout inner)
    by_udp : (addr : Str) (timeout : ℤ) → IsResolved inner (x.udp_resolver addr timeout inner)
    by_tls :
        (addr : Str) (timeout : ℤ) (sni : Str) (insecure : Bool)
        → IsResolved inner (x.tls_resolver addr timeout sni insecure inner)
    by_https :
        (addr : Str) (timeout : ℤ) (sni : Str) (insecure : Bool)
        → IsResolved inner (x.https_resolver addr timeout sni insecure inner)
