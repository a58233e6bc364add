-- ===== src/Hy2/Config/Build/Sockets.antt =====
-- getHyConfig of core/hy2/config.go: what becomes of the socket.
use bxtest.Prelude.{
  Str, Result, ok, ok_inj, err_absurd, bind-ok, Result-cases, inl, inr, List, ◌∷◌, Option, ◌≡◌,
  refl, sym, ap, ◌∙◌, ◌>>=◌, Option-cases, arith,
}
use bxtest.Hy2.Config.{ServerConfig}
use bxtest.Hy2.Config.Quic.{QuicConfig, get_quic_config}
use bxtest.Hy2.Config.Certificate.{Loader}
use bxtest.Hy2.Config.Masquerade.{format_address, get_masq_handler}
use bxtest.Hy2.Config.Redundancy.{get_multipliers, get_exclude_port}
use bxtest.Hy2.Config.Outbounds.{get_request_hook, get_outbound_config}
use bxtest.Hy2.Config.Build.{
  Hysteria2Info, HyOptions, System, HyConfig, Conn, socket_of, obfuscate, get_conn, get_tls_config,
  finish_config, get_hy_config,
}

module _ {Out Ip Ports Url Cert Socket Addr Mimic : Type 0}
    (x : System Out Ip Ports Url Cert Socket Addr Mimic) where
  get_conn-listen_udp :
      (info : Hysteria2Info) (o : HyOptions) (sockets : List Socket) (addr : Addr) (socket : Socket)
      → x.resolve_udp (format_address o.listen_ip info.server_port) ≡ ok addr
      → x.listen_udp addr sockets ≡ ok socket
      → get_conn x info o sockets ≡ (obfuscate x info socket, socket ∷ sockets)
  unfolding get_conn
  get_conn-listen_udp info o sockets addr socket d e = rw (get_conn, d, e) refl

  get_hy_config-get_conn :
      (info : Hysteria2Info) (o : HyOptions) (c : ServerConfig) (key : Result (Option Str))
      (sockets : List Socket) (tls : Loader Cert) (quic : QuicConfig)
      → get_tls_config x o ≡ ok tls
      → get_quic_config c.mimic.enabled c.quic ≡ ok quic
      → get_hy_config x info o c key sockets ≡ (
        (get_conn x info o sockets).0 >>= finish_config x info c key tls quic,
        (get_conn x info o sockets).1,
      )
  unfolding get_hy_config
  get_hy_config-get_conn info o c key sockets tls quic a b = rw (get_hy_config, a, b) refl

  obfuscate-socket_of :
      (info : Hysteria2Info) (socket : Socket) (conn : Conn Socket)
      → obfuscate x info socket ≡ ok conn
      → socket_of conn ≡ socket
  unfolding obfuscate
  obfuscate-socket_of info socket conn h =
      elim (Option-cases (x.check_password info.obfs_password)) [
        | inl e ↦ ground arith
        | inr (m, e) ↦ ground arith
      ]

  get_conn-socket_of :
      (info : Hysteria2Info) (o : HyOptions) (sockets : List Socket) (conn : Conn Socket)
      → (get_conn x info o sockets).0 ≡ ok conn
      → (get_conn x info o sockets).1 ≡ socket_of conn ∷ sockets
  unfolding get_conn
  get_conn-socket_of info o sockets conn h =
      elim (Result-cases (x.resolve_udp (format_address o.listen_ip info.server_port))) [
        | inr (m, d) ↦ err_absurd (rw (get_conn, d) at h)
        | inl (addr, d) ↦ elim (Result-cases (x.listen_udp addr sockets)) [
          | inr (m, e) ↦ err_absurd (rw (get_conn, d, e) at h)
          | inl (socket, e) ↦
              let k = get_conn-listen_udp info o sockets addr socket d e in
              ap (λ (r : Result (Conn Socket) × List Socket). r.1) k
              ∙ ap (λ s. s ∷ sockets) (sym (obfuscate-socket_of info socket conn (rw k at h)))
        ]
      ]

  finish_config-conn :
      (info : Hysteria2Info) (c : ServerConfig) (key : Result (Option Str)) (tls : Loader Cert)
      (quic : QuicConfig) (conn : Conn Socket) (hc : HyConfig Out Ports Url Cert Socket)
      → finish_config x info c key tls quic conn ≡ ok hc
      → conn ≡ hc.conn
  unfolding finish_config
  finish_config-conn info c key tls quic conn hc h =
      let (_, _, h1) = bind-ok (get_request_hook x.parse_port_union c.sniff) _ hc h in
      let (_, _, h2) =
        bind-ok (get_outbound_config x.extras c.outbounds c.acl c.resolver) _ hc h1 in
      let (_, _, h3) =
        bind-ok (get_masq_handler x.net_text (x.local_addr conn) c.masquerade) _ hc h2 in
      let (_, _, h4) = bind-ok (get_multipliers c.udp_forwarding_redundancy) _ hc h3 in
      let (_, _, h5) =
        bind-ok (get_exclude_port x.parse_port_union c.udp_forwarding_redundancy) _ hc h4 in
      ap (λ (hc : HyConfig Out Ports Url Cert Socket). hc.conn) (ok_inj h5)

  -- The socket is opened before the sniffer, the outbounds, the masquerade and the redundancy are
  -- looked at, and stays open whatever they say: also when getHyConfig returns an error.
  pub get_hy_config-listen_udp :
      (info : Hysteria2Info) (o : HyOptions) (c : ServerConfig) (key : Result (Option Str))
      (sockets : List Socket) (tls : Loader Cert) (quic : QuicConfig) (addr : Addr)
      (socket : Socket)
      → get_tls_config x o ≡ ok tls
      → get_quic_config c.mimic.enabled c.quic ≡ ok quic
      → x.resolve_udp (format_address o.listen_ip info.server_port) ≡ ok addr
      → x.listen_udp addr sockets ≡ ok socket
      → (get_hy_config x info o c key sockets).1 ≡ socket ∷ sockets
  get_hy_config-listen_udp info o c key sockets tls quic addr socket a b d e =
      rw
        (
          get_hy_config-get_conn info o c key sockets tls quic a b,
          get_conn-listen_udp info o sockets addr socket d e,
        )
        refl

  -- A configuration that is built is bound to the one socket that was opened for it, and a node whose
  -- socket cannot be opened leaves none open.
  pub get_hy_config-ok :
      (info : Hysteria2Info) (o : HyOptions) (c : ServerConfig) (key : Result (Option Str))
      (sockets : List Socket) (hc : HyConfig Out Ports Url Cert Socket)
      → (get_hy_config x info o c key sockets).0 ≡ ok hc
      → (get_hy_config x info o c key sockets).1 ≡ socket_of hc.conn ∷ sockets
  unfolding get_hy_config
  get_hy_config-ok info o c key sockets hc h = elim (Result-cases (get_tls_config x o)) [
    | inr (m, a) ↦ err_absurd (rw (get_hy_config, a) at h)
    | inl (tls, a) ↦ elim (Result-cases (get_quic_config c.mimic.enabled c.quic)) [
      | inr (m, b) ↦ err_absurd (rw (get_hy_config, a, b) at h)
      | inl (quic, b) ↦
          let k = get_hy_config-get_conn info o c key sockets tls quic a b in
          let (conn, d, e) =
            bind-ok (get_conn x info o sockets).0 (finish_config x info c key tls quic) hc
              (rw k at h) in
          ap (λ (r : Result (HyConfig Out Ports Url Cert Socket) × List Socket). r.1) k
          ∙ get_conn-socket_of info o sockets conn d
          ∙ ap (λ c. socket_of c ∷ sockets) (finish_config-conn info c key tls quic conn hc e)
    ]
  ]
