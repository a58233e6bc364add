-- ===== src/Tests/Dispatch.antt =====
-- Runs of the dispatcher of an xray core.
use bxtest.Prelude.{
  inl, inr, List, Str, has_prefix, codes, ℤ, pos, ℕ, text_eq, str_eq, quot_ℤ, wrap64, ◌*ℤ◌, true,
  false, if◌then◌else◌, none, some, [], ◌∷◌, lookup, ok, ◌≡◌, ◌≢◌, refl, arith,
}
use mathlib.Core.List.{mem-cons_of_mem, mem-cons_self, Mem}
use bxtest.Limiter.Check.{check_limit, count_device, give_bucket}
use bxtest.Limiter.Speed.{byte_rate, determine_speed_limit}
use bxtest.Limiter.Rule.{check_domain_rule}
use bxtest.Limiter.Users.{get_limiter}
use bxtest.Xray.{forget_user}
use bxtest.Xray.Dispatch.{network_tcp, Session, Dispatcher, get_link, admit_link}
use bxtest.Xray.Dispatch.Links.{get_link-forget_user}
use bxtest.Xray.Dispatch.Route.{Routing, dropped, is_refused, routed_dispatch}
use bxtest.Xray.Dispatch.Route.Picked.{chosen, handler_of, routed_dispatch-chosen}
use bxtest.Xray.Dispatch.Sniff.{
  new_sniffer, SniffResult, Answer, found, no_clue, need_more, no_result, ProtocolSniffer, sniff,
  Round, unknown_content, sniff_content,
}
use bxtest.Xray.Dispatch.Sniff.Laws.{
  first_found, without_clue, sniff-answer_of, sniff_content-need_more, sniff_content-ends,
}
use bxtest.Xray.Dispatch.Override.{
  Destination, SniffingRequest, SniffLibrary, dispatch_link, sniff_destination,
}
use bxtest.Xray.Dispatch.Override.Excluded.{dispatch_link-check_domain_rule}
use bxtest.Tests.Data.{tag, tag_b, limiter, new_bucket, away}

-- b, who has no device limit, and a rule against bad.com
abbrev session : Session
session = record { tag = tag; email = some tag_b; source_ip = away; source_network = network_tcp }

abbrev dispatcher : Dispatcher ℤ Str ℕ
dispatcher = record {
  xray = record {
    uid_map = (tag_b, pos 8) ∷ [];
    counter = [];
    link_managers = [];
    node_report_min_traffic_bytes = [];
    handlers = 0;
    cut = record { writers = []; readers = [] };
  };
  registry = record {
    table = (tag, 0) ∷ [];
    objects = record {
      cell = λ p. record limiter { domain_rules = codes "bad.com" ∷ [] };
      next = 1;
    };
  };
  pipes = 4;
}

get_link-forget_user_example :
    let x = (get_link new_bucket (pos 50) (some session) network_tcp dispatcher).1.xray in
    Mem 4 (forget_user tag tag_b x).cut.writers × Mem 4 (forget_user tag tag_b x).cut.readers
unfolding get_limiter lookup str_eq check_limit count_device give_bucket byte_rate quot_ℤ wrap64
    ◌*ℤ◌ determine_speed_limit
get_link-forget_user_example =
    get_link-forget_user new_bucket (pos 50) (some session) network_tcp dispatcher session tag_b 0
      refl refl refl

-- the router picks an outbound that nobody has
abbrev routing : Routing ℕ
routing = record {
  forced_outbound_tag = [];
  router = some (ok (codes "reverse"));
  get_handler = λ t. none;
  default_handler = some 1;
  tag_of = λ h. codes "direct";
  inbound_tag = tag;
}

routed_dispatch-chosen_example :
    handler_of (
      routed_dispatch str_eq
        (some session)
        (some 0)
        dispatcher.registry
        routing
        (codes "good.com")
        (codes "tls"))
    ≡ (if is_refused str_eq session (some 0) dispatcher.registry (codes "good.com") (codes "tls")
        then none
        else chosen routing)
routed_dispatch-chosen_example =
    routed_dispatch-chosen str_eq session (some 0) dispatcher.registry routing (codes "good.com")
      (codes "tls")

abbrev bad_result : SniffResult
bad_result = record {
  protocol = codes "tls";
  domain = codes "bad.com";
  protocol_for_domain_result = none;
  is_proto_subset_of = none;
}

-- a sniffer that needs two bytes
abbrev answer_two : Str → Answer
answer_two [] = need_more
answer_two (c ∷ []) = need_more
answer_two (c ∷ d ∷ s) = found bad_result

abbrev tls_sniffer : ProtocolSniffer
tls_sniffer = record { run = answer_two; metadata_sniffer = false; network = network_tcp }

abbrev http_sniffer : ProtocolSniffer
http_sniffer = record tls_sniffer { run = λ s. no_clue }

sniff-answer_of_example :
    sniff (codes "x") network_tcp (tls_sniffer ∷ http_sniffer ∷ [])
    ≡ elim (first_found (codes "x") network_tcp (tls_sniffer ∷ http_sniffer ∷ [])) [
      | some r ↦ (found r, tls_sniffer ∷ http_sniffer ∷ [])
      | none ↦ elim (without_clue (codes "x") network_tcp (tls_sniffer ∷ http_sniffer ∷ [])) [
        | [] ↦ (no_result, tls_sniffer ∷ http_sniffer ∷ [])
        | p ∷ pending ↦ (no_clue, p ∷ pending)
      ]
    ]
sniff-answer_of_example = sniff-answer_of (codes "x") network_tcp (tls_sniffer ∷ http_sniffer ∷ [])

abbrev first_round : Round
first_round = record { done = false; cached = ok (codes "x"); elapsed = 5 }

abbrev second_round : Round
second_round = record { done = false; cached = ok (codes "xy"); elapsed = 300000000 }

-- the sniffers without fake DNS for the first part of a TLS greeting: HTTP and BitTorrent see another
-- protocol
abbrev content_sniffers : List ProtocolSniffer
content_sniffers =
    new_sniffer (λ s. no_result) answer_two (λ s. no_result) (λ s. no_clue) (λ s. no_result) none
      (λ f others. none)

sniff_content-need_more_example :
    sniff_content network_tcp (first_round ∷ second_round ∷ []) 200000000 0 content_sniffers
    ≡ some unknown_content
unfolding new_sniffer
sniff_content-need_more_example =
    sniff_content-need_more network_tcp first_round (second_round ∷ []) 200000000 0 b'x' []
      content_sniffers refl refl
      (record { run = answer_two; metadata_sniffer = false; network = network_tcp })
      (mem-cons_of_mem _ mem-cons_self) refl refl
      ((λ e. inr refl), ((λ e. inl refl), ((λ e. inr refl), ((λ e. cc), ((λ e. cc), tt)))))

sniff_content-ends_example :
    sniff_content network_tcp (first_round ∷ second_round ∷ []) 200000000 0 (http_sniffer ∷ [])
    ≢ none
sniff_content-ends_example =
    sniff_content-ends network_tcp (first_round ∷ second_round ∷ []) 200000000 0 (http_sniffer ∷ [])
      (ground arith) (ground arith)

abbrev sniffing : SniffingRequest
sniffing = record {
  enabled = true;
  metadata_only = false;
  route_only = false;
  exclude_for_domain = [];
  override_destination_for_protocol = codes "tls" ∷ [];
}

abbrev sniff_library : SniffLibrary Str
sniff_library = record {
  compile = λ s. some s;
  match_string = str_eq;
  to_lower = λ s. s;
  parse_address = λ s. record { is_ip = false; text = s };
  is_fake_ip = none;
}

abbrev target : Destination
target = record { is_ip = true; text = codes "9.9.9.9" }

-- an address at which the name bad.com is found
dispatch_link-check_domain_rule_example :
    (dispatch_link new_bucket str_eq sniff_library routing
      (pos 50)
      (some session)
      network_tcp
      8
      9
      sniffing
      (second_round ∷ [])
      (tls_sniffer ∷ [])
      []
      target
      dispatcher).0
    ≡ ok (some dropped)
unfolding get_limiter lookup str_eq check_limit sniff_destination admit_link check_domain_rule
    count_device give_bucket byte_rate quot_ℤ wrap64 ◌*ℤ◌ determine_speed_limit has_prefix
dispatch_link-check_domain_rule_example =
    dispatch_link-check_domain_rule new_bucket str_eq sniff_library routing (pos 50) session b'n'
      (codes "|b") network_tcp dispatcher 0 8 9 sniffing (second_round ∷ []) (tls_sniffer ∷ []) []
      target
      (record {
        destination = record { is_ip = false; text = codes "bad.com" };
        protocol = codes "tls";
        target = record {
          target = record { is_ip = false; text = codes "bad.com" };
          route_target = none;
        };
      })
      refl refl refl refl refl
