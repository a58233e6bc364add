-- ===== src/Xray/Dispatch/Override.antt =====
-- shouldOverride, Dispatch and DispatchLink of core/xray/app/dispatcher/default.go: a connection from
-- its admission to the handler. Patterns, fake addresses and ParseAddress are the libraries'.
pub mod Excluded
use bxtest.Prelude.{
  Str, codes, ℤ, ℕ, text_eq, drop, has_prefix, Bool, true, false, ◌==◌, ◌&&◌, ◌||◌, not,
  if◌then◌else◌, Option, none, some, List, [], ◌∷◌, Result, ok, err, Addr,
}
use bxtest.Limiter.Users.{Registry}
use bxtest.Xray.Dispatch.{Network, Session, Dispatcher, Link, get_link, admit_link}
use bxtest.Xray.Dispatch.Route.{Routing, Ending, routed_dispatch}
use bxtest.Xray.Dispatch.Sniff.{SniffResult, ProtocolSniffer, Round, sniffer}

-- net.Destination, as far as the code looks at it; `text` is the domain or the text of the IP
pub record Destination : Type 0 where
  pub is_ip : Bool
  pub text : Str

-- session.SniffingRequest
pub record SniffingRequest : Type 0 where
  pub enabled : Bool
  pub metadata_only : Bool
  pub route_only : Bool
  pub exclude_for_domain : List Str
  pub override_destination_for_protocol : List Str

-- regexp.Compile and MatchString, strings.ToLower, net.ParseAddress and the fake DNS, if it can tell
-- its own addresses
pub record SniffLibrary (Pattern : Type 0) : Type 0 where
  pub compile : Str → Option Pattern
  pub match_string : Pattern → Str → Bool
  pub to_lower : Str → Str
  pub parse_address : Str → Destination
  pub is_fake_ip : Option (Destination → Bool)

-- ob.Target and ob.RouteTarget
pub record Target : Type 0 where
  pub target : Destination
  pub route_target : Option Destination

-- the protocol that the result names for its domain
abbrev pub domain_protocol : SniffResult → Str
domain_protocol r = elim r.protocol_for_domain_result [ none ↦ r.protocol | some p ↦ p ]

module _ {Pattern : Type 0} (x : SniffLibrary Pattern) where
  -- an entry of ExcludeForDomain: a pattern after "regexp:", or a domain in lower case
  unfoldable pub excludes : Str → Str → Bool
  excludes domain entry =
      if has_prefix entry (codes "regexp:")
      then elim (x.compile (drop 7 entry)) [
        | none ↦ false
        | some pattern ↦ x.match_string pattern domain
      ]
      else x.to_lower domain == entry

  is_excluded : Str → List Str → Bool
  unfolding excludes
  is_excluded domain [] = false
  is_excluded domain (entry ∷ entries) =
      let rest = is_excluded domain entries in if excludes domain entry then true else rest

  -- fkr0.IsIPInIPPool(address), where the fake DNS has it
  abbrev pub is_fake : Destination → Bool
  is_fake destination = elim x.is_fake_ip [ none ↦ false | some test ↦ test destination ]

  -- an entry of OverrideDestinationForProtocol
  accepts : SniffResult → Destination → Str → Bool
  accepts r destination p =
      let protocol = domain_protocol r in
      if has_prefix protocol p || has_prefix p protocol
      then true
      else if not (protocol == codes "bittorrent")
          && p == codes "fakedns"
          && destination.is_ip
          && is_fake destination
      then true
      else elim r.is_proto_subset_of [ none ↦ false | some test ↦ test p ]

  is_accepted : SniffResult → Destination → List Str → Bool
  unfolding accepts
  is_accepted r destination [] = false
  is_accepted r destination (p ∷ ps) =
      let rest = is_accepted r destination ps in if accepts r destination p then true else rest

  -- func (d *DefaultDispatcher) shouldOverride(ctx, result, request, destination)
  unfoldable pub should_override : SniffResult → SniffingRequest → Destination → Bool
  unfolding is_excluded is_accepted
  should_override r request destination =
      if r.domain == []
      then false
      else if is_excluded r.domain request.exclude_for_domain
      then false
      else is_accepted r destination request.override_destination_for_protocol

  -- ob.RouteTarget or ob.Target is set to the sniffed domain; Dispatch looks for a fake address among
  -- IPs only, `ips_only`, and DispatchLink among all
  unfoldable pub retarget : Bool → SniffResult → SniffingRequest → Target → Target
  retarget ips_only r request t =
      let protocol = domain_protocol r in
      let fake = (not ips_only || t.target.is_ip) && is_fake t.target in
      if request.route_only
        && not (protocol == codes "fakedns")
        && not (protocol == codes "fakedns+others")
        && not fake
      then record t { route_target = some (x.parse_address r.domain) }
      else record t { target = x.parse_address r.domain }

-- what the goroutine of a connection has when it calls routedDispatch
pub record Sniffed : Type 0 where
  pub destination : Destination
  pub protocol : Str
  pub target : Target

module _ {Pattern : Type 0} (x : SniffLibrary Pattern) where
  -- from the result of sniffer; `content` is content.Protocol before
  unfoldable pub after_sniffing :
      Bool → SniffingRequest → Str → Destination → Target → Result SniffResult → Sniffed
  unfolding should_override retarget
  after_sniffing ips_only request content destination t (err e) = record {
    destination = destination;
    protocol = content;
    target = t;
  }
  after_sniffing ips_only request content destination t (ok r) =
      if should_override x r request destination
      then record {
        destination = x.parse_address r.domain;
        protocol = r.protocol;
        target = retarget x ips_only r request t;
      }
      else record { destination = destination; protocol = r.protocol; target = t }

  -- the sniffing, if the request asks for it; `none` while it goes on
  unfoldable pub sniff_destination :
      Bool
      → SniffingRequest
      → Network
      → List Round
      → List ProtocolSniffer
      → Str
      → Destination
      → Option Sniffed
  unfolding after_sniffing sniffer
  sniff_destination ips_only request network rounds sniffers content destination =
      let start : Target = record { target = destination; route_target = none } in
      if request.enabled
      then elim (sniffer request.metadata_only network rounds sniffers) [
        | none ↦ none
        | some result ↦ some (after_sniffing ips_only request content destination start result)
      ]
      else some (record { destination = destination; protocol = []; target = start })

module _ {Bucket Regexp M Pattern Handler : Type 0} (new_bucket : ℤ → ℤ → ℤ → Bucket)
    (match_string : Regexp → Str → Bool) (x : SniffLibrary Pattern)
    (routing : Routing Handler) where
  -- func (d *DefaultDispatcher) Dispatch(ctx, destination) and its goroutine, for a valid destination:
  -- the error of getLink, or the ending of the connection, `none` while it is sniffed
  unfoldable pub dispatch :
      ℤ
      → Option Session
      → Network
      → SniffingRequest
      → List Round
      → List ProtocolSniffer
      → Str
      → Destination
      → Dispatcher Bucket Regexp M
      → Result (Option (Ending Handler)) × Dispatcher Bucket Regexp M
  unfolding sniff_destination
  dispatch now inbound network request rounds sniffers content destination d =
      let (links, d') = get_link new_bucket now inbound network d in
      elim links [
        | err e ↦ (err e, d')
        | ok (inward, outward, l) ↦
            elim (sniff_destination x true request network rounds sniffers content destination) [
              | none ↦ (ok none, d')
              | some s ↦ (
                ok (
                    some (
                      routed_dispatch match_string inbound l d'.registry routing s.destination.text
                        s.protocol)),
                d',
              )
            ]
      ]

  -- func (d *DefaultDispatcher) DispatchLink(ctx, destination, outbound), for a valid destination and
  -- the link with the writer `w` and the reader `r`
  unfoldable pub dispatch_link :
      ℤ
      → Option Session
      → Network
      → ℕ
      → ℕ
      → SniffingRequest
      → List Round
      → List ProtocolSniffer
      → Str
      → Destination
      → Dispatcher Bucket Regexp M
      → Result (Option (Ending Handler)) × Dispatcher Bucket Regexp M
  unfolding sniff_destination
  dispatch_link now inbound network w r request rounds sniffers content destination d =
      let (link, d') = admit_link new_bucket now inbound network w r d in
      elim link [
        | err e ↦ (err e, d')
        | ok (wrapped, l) ↦
            elim (sniff_destination x false request network rounds sniffers content destination) [
              | none ↦ (ok none, d')
              | some s ↦ (
                ok (
                    some (
                      routed_dispatch match_string inbound l d'.registry routing s.destination.text
                        s.protocol)),
                d',
              )
            ]
      ]
