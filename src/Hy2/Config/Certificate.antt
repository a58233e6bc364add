-- ===== src/Hy2/Config/Certificate.antt =====
-- core/hy2/dynamic_cert.go: the certificate of a Hysteria2 node, read again at each handshake. What
-- tls.LoadX509KeyPair answers each time is an argument.
use bxtest.Prelude.{
  Str, Option, none, some, List, [], ◌∷◌, map, Result, ok, err, ok_inj, ◌≡◌, refl, subst,
}

-- dynamicCertificateLoader, without the two paths
pub record Loader (Cert : Type 0) : Type 0 where
  pub cert : Option Cert

module _ {Cert : Type 0} where
  -- func (l *dynamicCertificateLoader) reload(), with its error
  reload : Result Cert → Loader Cert → Option Str × Loader Cert
  reload (err e) l = (some e, l)
  reload (ok c) l = (none, record l { cert = some c })

  -- func newDynamicCertificateLoader(certFile, keyFile, logger)
  unfoldable pub new_loader : Result Cert → Result (Loader Cert)
  unfolding reload
  new_loader loaded =
      let (failed, l) = reload loaded (record { cert = none }) in
      elim failed [ some e ↦ err e | none ↦ ok l ]

  -- func (l *dynamicCertificateLoader) GetCertificate(_)
  unfoldable pub get_certificate : Result Cert → Loader Cert → Result (Option Cert) × Loader Cert
  unfolding reload
  get_certificate loaded l =
      let (failed, l') = reload loaded l in
      elim failed [
        | none ↦ (ok l'.cert, l')
        | some e ↦ elim l'.cert [ none ↦ (err e, l') | some c ↦ (ok (some c), l') ]
      ]

  -- the answers to handshakes one after the other
  unfoldable pub handshakes : List (Result Cert) → Loader Cert → List (Result (Option Cert))
  unfolding get_certificate
  handshakes [] l = []
  handshakes (loaded ∷ rest) l =
      let (answer, l') = get_certificate loaded l in answer ∷ handshakes rest l'

  -- the last certificate that was read, at each handshake
  abbrev pub last_good : Cert → List (Result Cert) → List Cert
  last_good c [] = []
  last_good c (ok d ∷ rest) = d ∷ last_good d rest
  last_good c (err e ∷ rest) = c ∷ last_good c rest

  handshakes-cached :
      (c : Cert) (reads : List (Result Cert))
      → handshakes reads (record { cert = some c }) ≡ map (λ d. ok (some d)) (last_good c reads)
  unfolding handshakes
  handshakes-cached c [] = refl
  handshakes-cached c (ok d ∷ rest) = rw (handshakes-cached d rest) refl
  handshakes-cached c (err e ∷ rest) = rw (handshakes-cached c rest) refl

  -- Once a loader has been made, no handshake fails: each is answered by the certificate that was read
  -- last without an error, however many later reads fail.
  pub handshakes-last_good :
      (c : Cert) (l : Loader Cert) (reads : List (Result Cert))
      → new_loader (ok c) ≡ ok l
      → handshakes reads l ≡ map (λ d. ok (some d)) (last_good c reads)
  unfolding new_loader
  handshakes-last_good c l reads h =
      subst (λ l. handshakes reads l ≡ map (λ d. ok (some d)) (last_good c reads)) (ok_inj h)
        (handshakes-cached c reads)
