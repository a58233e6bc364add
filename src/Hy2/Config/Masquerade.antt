-- ===== src/Hy2/Config/Masquerade.antt =====
-- getMasqHandler, extractPortFromAddr and formatAddress of core/hy2/config.go. The proxy and the file
-- server are net/http's: a handler is what it was made from.
use bxtest.Prelude.{
  Str, codes, text_eq, ℤ, pos, int_eq, ltb_ℤ, ◌≤ℤ◌, itoa, nat_beq, Bool, false, not, if◌then◌else◌,
  ◌&&◌, ◌||◌, Option, none, some, [], ◌∷◌, ◌++◌, Result, ok, err, ok_inj, ◌>>=◌, bind-ok, ◌==◌, ◌≡◌,
  ◌≢◌, ap, ◌∙◌, Result-cases, inl, inr, arith,
}
use bxtest.Hy2.Config.{MasqueradeSettings}
use bxtest.Hy2.Config.Outbounds.{is_blank}

-- the handler of requests that are not Hysteria's
pub data Handler (Url : Type 0) : Type 0 where
  not_found : Handler Url
  file_server : Str → Handler Url
  reverse_proxy : Url → Bool → Handler Url
  fixed_response : Str → ℤ → Handler Url

-- masq.MasqTCPServer, with the addresses that runMasqTCPServer listens on
pub record TcpServer (Url : Type 0) : Type 0 where
  pub quic_port : ℤ
  pub https_port : ℤ
  pub handler : Handler Url
  pub force_https : Bool
  pub listen_http : Str
  pub listen_https : Str

-- net/url, net.SplitHostPort (with the port only), strconv.Atoi and strings.ToLower
pub record NetText (Url : Type 0) : Type 0 where
  pub to_lower : Str → Str
  pub parse_url : Str → Result Url
  pub split_port : Str → Option Str
  pub atoi : Str → Option ℤ

-- strings.Contains(s, ":")
has_colon : Str → Bool
has_colon [] = false
has_colon (c ∷ s) = nat_beq c b':' || has_colon s

-- func formatAddress(ip, port)
unfoldable pub format_address : Str → ℤ → Str
unfolding has_colon
format_address ip port =
    if has_colon ip
    then codes "[" ++ ip ++ codes "]:" ++ itoa port
    else ip ++ codes ":" ++ itoa port

-- a status that is neither 0 nor from 200 to 599, or that is 233
bad_status : ℤ → Bool
bad_status n = not (n == pos 0) && (ltb_ℤ n (pos 200) || ltb_ℤ (pos 599) n || n == pos 233)

-- the status that the handler of a fixed response writes
abbrev pub written_status : ℤ → ℤ
written_status code = if not (code == pos 0) then code else pos 200

written_status-bounds :
    (code : ℤ)
    → bad_status code ≡ false
    → (pos 200 ≤ℤ written_status code)
      × (written_status code ≤ℤ pos 599)
      × (written_status code ≢ pos 233)
unfolding bad_status
written_status-bounds code h = ground arith

module _ {Url : Type 0} (x : NetText Url) where
  -- func extractPortFromAddr(addr)
  unfoldable pub extract_port : Str → ℤ
  extract_port addr = elim (x.split_port addr) [
    | none ↦ pos 0
    | some text ↦ elim (x.atoi text) [ none ↦ pos 0 | some port ↦ port ]
  ]

  -- the switch on c.Masquerade.Type
  get_handler : MasqueradeSettings → Result (Handler Url)
  unfolding bad_status
  get_handler c =
      let type = x.to_lower c.type in
      if is_blank type || type == codes "404"
      then ok not_found
      else if type == codes "file"
      then if is_blank c.file_dir
        then err (codes "masquerade.file.dir empty file directory")
        else ok (file_server c.file_dir)
      else if type == codes "proxy"
      then if is_blank c.proxy_url
        then err (codes "masquerade.proxy.url empty proxy url")
        else elim (x.parse_url c.proxy_url) [
          | err e ↦ err (codes "masquerade.proxy.url " ++ e)
          | ok u ↦ ok (reverse_proxy u c.proxy_rewrite_host)
        ]
      else if type == codes "string"
      then if is_blank c.string_content
        then err (codes "masquerade.string.content empty string content")
        else if bad_status c.string_status_code
        then err
            (codes "masquerade.string.statusCode invalid status code (must be 200-599, except 233)")
        else ok (fixed_response c.string_content c.string_status_code)
      else err (codes "masquerade.type unsupported masquerade type")

  -- the TCP server, if it is asked for; `local` is conn.LocalAddr().String()
  get_tcp_server : Str → MasqueradeSettings → Handler Url → Result (Option (TcpServer Url))
  unfolding extract_port
  get_tcp_server local c handler =
      if not (is_blank c.listen_http) || not (is_blank c.listen_https)
      then if not (is_blank c.listen_http) && is_blank c.listen_https
        then err
            (codes "masquerade.listenHTTPS having only HTTP server without HTTPS is not supported")
        else ok (
            some record {
              quic_port = extract_port local;
              https_port = extract_port c.listen_https;
              handler = handler;
              force_https = c.force_https;
              listen_http = c.listen_http;
              listen_https = c.listen_https;
            })
      else ok none

  -- func (n *Hysteria2node) getMasqHandler(tlsconfig, conn, c): the handler, and the server that is
  -- started
  unfoldable pub get_masq_handler :
      Str → MasqueradeSettings → Result (Handler Url × Option (TcpServer Url))
  unfolding get_handler get_tcp_server
  get_masq_handler local c = do
    handler ← get_handler c
    server ← get_tcp_server local c handler
    ok (handler, server)

  get_handler-fixed_response :
      (c : MasqueradeSettings) (content : Str) (code : ℤ)
      → get_handler c ≡ ok (fixed_response content code)
      → bad_status code ≡ false
  unfolding get_handler
  get_handler-fixed_response c content code h = elim (Result-cases (x.parse_url c.proxy_url)) [
    | inl (u, e) ↦ ground arith
    | inr (m, e) ↦ ground arith
  ]

  get_tcp_server-https :
      (local : Str) (c : MasqueradeSettings) (handler : Handler Url) (s : TcpServer Url)
      → get_tcp_server local c handler ≡ ok (some s)
      → (s.listen_https ≢ []) × (s.handler ≡ handler)
  unfolding get_tcp_server
  get_tcp_server-https local c handler s h = ground (arith, text_eq.beq_iff c.listen_https [])

  -- A node that masquerades by a fixed response never answers with the status 233, by which Hysteria
  -- authenticates, and its status lies from 200 to 599.
  pub get_masq_handler-status :
      (local : Str) (c : MasqueradeSettings) (content : Str) (code : ℤ)
      (server : Option (TcpServer Url))
      → get_masq_handler local c ≡ ok (fixed_response content code, server)
      → (pos 200 ≤ℤ written_status code)
        × (written_status code ≤ℤ pos 599)
        × (written_status code ≢ pos 233)
  unfolding get_masq_handler
  get_masq_handler-status local c content code server h =
      let (handler, a, h') = bind-ok (get_handler c) _ (fixed_response content code, server) h in
      let (s, _, k) =
        bind-ok (get_tcp_server local c handler) _ (fixed_response content code, server) h' in
      written_status-bounds code (
        get_handler-fixed_response c content code
          (rw (ap (λ (p : Handler Url × Option (TcpServer Url)). p.0) (ok_inj k)) at a))

  -- The server for browsers is started only with an address for HTTPS.
  pub get_masq_handler-https :
      (local : Str) (c : MasqueradeSettings) (handler : Handler Url) (s : TcpServer Url)
      → get_masq_handler local c ≡ ok (handler, some s)
      → (s.listen_https ≢ []) × (s.handler ≡ handler)
  unfolding get_masq_handler
  get_masq_handler-https local c handler s h =
      let (handler', a, h') = bind-ok (get_handler c) _ (handler, some s) h in
      let (s', b, k) = bind-ok (get_tcp_server local c handler') _ (handler, some s) h' in
      let e = ok_inj k in
      let (n, m) =
        get_tcp_server-https local c handler' s
          (b ∙ ap (λ (p : Handler Url × Option (TcpServer Url)). ok p.1) e) in
      (n, m ∙ ap (λ (p : Handler Url × Option (TcpServer Url)). p.0) e)
