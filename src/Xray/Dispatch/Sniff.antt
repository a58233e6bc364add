-- ===== src/Xray/Dispatch/Sniff.antt =====
-- core/xray/app/dispatcher/sniffer.go and sniffer of default.go: how the protocol of a connection is
-- found. The sniffers of one protocol are the library's: `run` is their answer to a payload.
pub mod Laws
use bxtest.Prelude.{
  Str, codes, ℕ, ◌-◌, ◌+◌, leb, nat_beq, Bool, true, false, ◌||◌, ◌&&◌, not, if◌then◌else◌, Option,
  none, some, List, [], ◌∷◌, ◌++◌, Result, ok, err,
}
use bxtest.Xray.Dispatch.{Network, network_tcp, network_udp, network_other}

-- SniffResult, with the two interfaces that some results have besides
pub record SniffResult : Type 0 where
  pub protocol : Str
  pub domain : Str
  pub protocol_for_domain_result : Option Str
  pub is_proto_subset_of : Option (Str → Bool)

-- what a sniffer of one protocol answers; `no_result` is any other error, or no result
pub data Answer : Type 0 where
  found : SniffResult → Answer
  no_clue : Answer
  need_more : Answer
  no_result : Answer

-- protocolSnifferWithMetadata
pub record ProtocolSniffer : Type 0 where
  pub run : Str → Answer
  pub metadata_sniffer : Bool
  pub network : Network

-- func NewSniffer(ctx), without the context: the answers of the libraries for HTTP, TLS, BitTorrent, QUIC
-- and uTP, what newFakeDNSSniffer gives, `none` on an error, and newFakeDNSThenOthers for it
unfoldable pub new_sniffer :
    (http tls bittorrent quic utp : Str → Answer)
    → Option ProtocolSniffer
    → (ProtocolSniffer → List ProtocolSniffer → Option ProtocolSniffer)
    → List ProtocolSniffer
new_sniffer http tls bittorrent quic utp fake then_others =
    let others : List ProtocolSniffer =
      record { run = http; metadata_sniffer = false; network = network_tcp }
      ∷ record { run = tls; metadata_sniffer = false; network = network_tcp }
      ∷ record { run = bittorrent; metadata_sniffer = false; network = network_tcp }
      ∷ record { run = quic; metadata_sniffer = false; network = network_udp }
      ∷ record { run = utp; metadata_sniffer = false; network = network_udp }
      ∷ [] in
    elim fake [
      | none ↦ others
      | some f ↦ elim (then_others f others) [
        | none ↦ others ++ (f ∷ [])
        | some g ↦ g ∷ (others ++ (f ∷ []))
      ]
    ]

abbrev pub same_network : Network → Network → Bool
same_network network_tcp network_tcp = true
same_network network_udp network_udp = true
same_network network_other network_other = true
same_network _ _ = false

-- the answer to those who asked for it, and the sniffers that are left
abbrev finish : List ProtocolSniffer → List ProtocolSniffer → Answer × List ProtocolSniffer
finish sniffers [] = (no_result, sniffers)
finish sniffers (p ∷ pending) = (no_clue, p ∷ pending)

-- the loop of Sniff; `sniffers` are those of the Sniffer, and `pending` those without a clue so far
scan :
    Str
    → Network
    → List ProtocolSniffer
    → List ProtocolSniffer
    → List ProtocolSniffer
    → Answer × List ProtocolSniffer
scan payload network sniffers [] pending = finish sniffers pending
scan payload network sniffers (s ∷ rest) pending =
    if s.metadata_sniffer || not (same_network s.network network)
    then scan payload network sniffers rest pending
    else elim (s.run payload) [
      | found r ↦ (found r, sniffers)
      | no_clue ↦ scan payload network sniffers rest (pending ++ (s ∷ []))
      | need_more ↦ scan payload network sniffers rest pending
      | no_result ↦ scan payload network sniffers rest pending
    ]

-- func (s *Sniffer) Sniff(c, payload, network); `no_result` is errUnknownContent
unfoldable pub sniff : Str → Network → List ProtocolSniffer → Answer × List ProtocolSniffer
unfolding scan
sniff payload network sniffers = scan payload network sniffers sniffers []

-- the loop of SniffMetadata
scan_metadata :
    List ProtocolSniffer
    → List ProtocolSniffer
    → List ProtocolSniffer
    → Answer × List ProtocolSniffer
scan_metadata sniffers [] pending = finish sniffers pending
scan_metadata sniffers (s ∷ rest) pending =
    if not s.metadata_sniffer
    then scan_metadata sniffers rest (pending ++ (s ∷ []))
    else elim (s.run []) [
      | found r ↦ (found r, sniffers)
      | no_clue ↦ scan_metadata sniffers rest (pending ++ (s ∷ []))
      | need_more ↦ scan_metadata sniffers rest pending
      | no_result ↦ scan_metadata sniffers rest pending
    ]

-- func (s *Sniffer) SniffMetadata(c)
unfoldable pub sniff_metadata : List ProtocolSniffer → Answer × List ProtocolSniffer
unfolding scan_metadata
sniff_metadata sniffers = scan_metadata sniffers sniffers []

-- func CompositeResult(domainResult, protocolResult)
unfoldable pub composite_result : SniffResult → SniffResult → SniffResult
composite_result d p = record {
  protocol = p.protocol;
  domain = d.domain;
  protocol_for_domain_result = some d.protocol;
  is_proto_subset_of = none;
}

-- One round of the loop of sniffer: whether the context is done, what cReader.Cache brings, with the
-- payload after it, and the nanoseconds that it takes.
pub record Round : Type 0 where
  pub done : Bool
  pub cached : Result Str
  pub elapsed : ℕ

abbrev pub sniffing_timeout : Result SniffResult
sniffing_timeout = err (codes "timeout on sniffing")

abbrev pub unknown_content : Result SniffResult
unknown_content = err (codes "unknown content")

-- how a round ends: the loop returns, or goes on with the attempts and the sniffers
pub data Step : Type 0 where
  stop : Result SniffResult → Step
  go_on : ℕ → List ProtocolSniffer → Step

-- totalAttempt >= 2 || cacheDeadline <= 0
again : ℕ → ℕ → List ProtocolSniffer → Step
again left attempts sniffers =
    if leb 2 attempts || nat_beq left 0 then stop sniffing_timeout else go_on attempts sniffers

-- the answer of Sniff
after_sniff : ℕ → ℕ → Answer → List ProtocolSniffer → Step
unfolding again
after_sniff left attempts (found result) sniffers = stop (ok result)
after_sniff left attempts no_clue sniffers = again left (attempts + 1) sniffers
after_sniff left attempts need_more sniffers = again left attempts sniffers
after_sniff left attempts no_result sniffers = stop unknown_content

-- a round, with what is left of the deadline after it
one_round : Network → Round → ℕ → ℕ → List ProtocolSniffer → Step
unfolding after_sniff sniff
one_round network r left attempts sniffers =
    if r.done then stop (err (codes "context canceled")) else elim r.cached [
      | err e ↦ stop (err e)
      | ok [] ↦ again left (attempts + 1) sniffers
      | ok (c ∷ payload) ↦
          let (answer, sniffers') = sniff (c ∷ payload) network sniffers in
          after_sniff left attempts answer sniffers'
    ]

-- The loop of sniffer over the rounds that there are; `none` while it goes on. The deadline is positive
-- at the start of each round, and a difference below 0 ends the loop as 0 does.
unfoldable pub sniff_content :
    Network → List Round → ℕ → ℕ → List ProtocolSniffer → Option (Result SniffResult)
unfolding one_round
sniff_content network [] deadline attempts sniffers = none
sniff_content network (r ∷ rounds) deadline attempts sniffers =
    elim (one_round network r (deadline - r.elapsed) attempts sniffers) [
      | stop result ↦ some result
      | go_on attempts' sniffers' ↦
          sniff_content network rounds (deadline - r.elapsed) attempts' sniffers'
    ]

-- cacheDeadline := 200 * time.Millisecond
abbrev pub cache_deadline : ℕ
cache_deadline = 200000000

-- what the metadata sniffers have found, as a result of sniffer
metadata_result : Answer → Result SniffResult
metadata_result (found r) = ok r
metadata_result no_clue = err (codes "not enough information for making a decision")
metadata_result need_more = unknown_content
metadata_result no_result = unknown_content

-- the result of both
combine : Result SniffResult → Result SniffResult → Result SniffResult
combine (ok m) (ok c) = ok (composite_result m c)
combine (ok m) (err e) = ok m
combine (err n) c = c

-- func sniffer(ctx, cReader, metadataOnly, network), while the loop goes on `none`
unfoldable pub sniffer :
    Bool → Network → List Round → List ProtocolSniffer → Option (Result SniffResult)
unfolding sniff_metadata sniff_content metadata_result combine composite_result
sniffer metadata_only network rounds sniffers =
    let (m, sniffers') = sniff_metadata sniffers in
    if metadata_only
    then some (metadata_result m)
    else elim (sniff_content network rounds cache_deadline 0 sniffers') [
      | none ↦ none
      | some c ↦ some (combine (metadata_result m) c)
    ]
