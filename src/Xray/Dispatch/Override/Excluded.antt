-- ===== src/Xray/Dispatch/Override/Excluded.antt =====
-- Domains that are not sniffed, and connections that the rules of a node refuse.
use bxtest.Prelude.{
  Str, lookup, get_or_default, ℤ, ℕ, text_eq, Bool, true, false, ◌==◌, some, List, [], ◌∷◌, ◌++◌,
  ok, Addr, ◌≡◌, refl, Bool-cases, inl, inr,
}
use bxtest.Limiter.Users.{Registry, get_limiter}
use bxtest.Limiter.Rule.{check_domain_rule}
use bxtest.Counter.Traffic.{get_counter, new_traffic_counter}
use bxtest.Xray.Dispatch.{
  Network, Session, Dispatcher, Link, counting_reader, counts_down, limit_writer, managed, user_of,
  check_session, count_for, wrap_link, admit_link,
}
use bxtest.Xray.Dispatch.Route.{Routing, dropped, is_refused, breaks_rules, routed_dispatch}
use bxtest.Xray.Dispatch.Sniff.{SniffResult, ProtocolSniffer, Round}
use bxtest.Xray.Dispatch.Override.{
  Destination, Sniffed, SniffingRequest, SniffLibrary, excludes, is_excluded, should_override,
  sniff_destination, dispatch_link,
}

is_excluded-append :
    {Pattern : Type 0} (x : SniffLibrary Pattern) (domain entry : Str) (before after : List Str)
    → excludes x domain entry ≡ true
    → is_excluded x domain (before ++ (entry ∷ after)) ≡ true
unfolding is_excluded
is_excluded-append x domain entry [] after h = rw (h, is_excluded) refl
is_excluded-append x domain entry (e ∷ before) after h = elim (Bool-cases (excludes x domain e)) [
  | inl f ↦ rw (f, is_excluded) refl
  | inr f ↦ rw (f, is_excluded) (is_excluded-append x domain entry before after h)
]

-- A sniffed domain that one of the entries excludes never replaces the destination, wherever the entry
-- stands and whatever the protocol is.
pub should_override-excludes :
    {Pattern : Type 0} (x : SniffLibrary Pattern) (r : SniffResult) (request : SniffingRequest)
    (destination : Destination) (entry : Str) (before after : List Str)
    → request.exclude_for_domain ≡ before ++ (entry ∷ after)
    → excludes x r.domain entry ≡ true
    → should_override x r request destination ≡ false
unfolding should_override
should_override-excludes x r request destination entry before after e h =
    elim (Bool-cases (r.domain == [])) [
      | inl f ↦ rw (f, should_override) refl
      | inr f ↦ rw (f, e, should_override, is_excluded-append x r.domain entry before after h) refl
    ]

module _ {Bucket Regexp M Pattern Handler : Type 0} (new_bucket : ℤ → ℤ → ℤ → Bucket)
    (match_string : Regexp → Str → Bool) (x : SniffLibrary Pattern) (routing : Routing Handler)
    (now : ℤ) (s : Session) (c : ℕ) (cs : Str) (network : Network) (d : Dispatcher Bucket Regexp M)
    (p : Addr) where
  -- the link that DispatchLink makes of its own
  abbrev wrapped_link : ℕ → ℕ → Link Bucket
  wrapped_link w r =
      let a =
        (get_counter (c ∷ cs)
          (get_or_default new_traffic_counter (lookup s.tag d.xray.counter))).0 in
      record {
        reader = counting_reader a r;
        writer = counts_down a (
            limit_writer
              (check_session new_bucket now s (c ∷ cs) network (d.registry.objects.cell p)).bucket
              (managed (c ∷ cs) w));
      }

  admit_link-ok :
      (w r : ℕ)
      → s.email ≡ some (c ∷ cs)
      → get_limiter s.tag d.registry ≡ some p
      → (check_session new_bucket now s (c ∷ cs) network (d.registry.objects.cell p)).reject ≡ false
      → (link : Link Bucket) × ((admit_link new_bucket now (some s) network w r d).0
          ≡ ok (link, some p))
  unfolding admit_link wrap_link count_for
  admit_link-ok w r a b h =
      (wrapped_link w r, rw (admit_link, user_of, a, b, h, wrap_link, count_for) refl)

  is_refused-check_domain_rule :
      (r : Registry Bucket Regexp) (destination protocol : Str)
      → s.email ≡ some (c ∷ cs)
      → check_domain_rule match_string (r.objects.cell p) destination ≡ true
      → is_refused match_string s (some p) r destination protocol ≡ true
  unfolding is_refused breaks_rules
  is_refused-check_domain_rule r destination protocol a h = rw (is_refused, a, breaks_rules, h) refl

  -- A connection of a user whose destination, the sniffed domain where it replaces the address, is
  -- matched by a domain rule of the node is closed and reaches no handler, whatever the routing says.
  pub dispatch_link-check_domain_rule :
      (w r : ℕ) (request : SniffingRequest) (rounds : List Round) (sniffers : List ProtocolSniffer)
      (content : Str) (destination : Destination) (found : Sniffed)
      → s.email ≡ some (c ∷ cs)
      → get_limiter s.tag d.registry ≡ some p
      → (check_session new_bucket now s (c ∷ cs) network (d.registry.objects.cell p)).reject ≡ false
      → sniff_destination x false request network rounds sniffers content destination ≡ some found
      → check_domain_rule match_string
          ((admit_link new_bucket now (some s) network w r d).1.registry.objects.cell p)
          found.destination.text
        ≡ true
      → (dispatch_link new_bucket match_string x routing now
          (some s)
          network
          w
          r
          request
          rounds
          sniffers
          content
          destination
          d).0
        ≡ ok (some dropped)
  unfolding dispatch_link routed_dispatch
  dispatch_link-check_domain_rule w r request rounds sniffers content destination found a b h e g =
      let (link, f) = admit_link-ok w r a b h in
      let refused =
        is_refused-check_domain_rule (admit_link new_bucket now (some s) network w r d).1.registry
          found.destination.text found.protocol a g in
      rw (dispatch_link, f, e, routed_dispatch, refused) refl
