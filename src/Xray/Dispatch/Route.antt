-- ===== src/Xray/Dispatch/Route.antt =====
-- routedDispatch of core/xray/app/dispatcher/default.go: the rules of the node, and the outbound
-- handler that takes a connection. The router and the outbounds are those of the library.
pub mod Picked
use bxtest.Prelude.{
  Str, codes, ℕ, text_eq, Bool, true, false, ◌==◌, ◌&&◌, not, if◌then◌else◌, Option, none, some, [],
  ◌∷◌, ◌++◌, Result, ok, err, Addr,
}
use bxtest.Limiter.State.{Limiter}
use bxtest.Limiter.Rule.{check_domain_rule, check_protocol_rule}
use bxtest.Limiter.Users.{Registry, get_limiter}
use bxtest.Xray.Dispatch.{Session}

-- what routedDispatch finds in its context and asks the library for
pub record Routing (Handler : Type 0) : Type 0 where
  -- the forced outbound tag of the context, or ""
  pub forced_outbound_tag : Str
  -- `none` for a router that is nil; PickRoute answers with the outbound's tag, or an error
  pub router : Option (Result Str)
  pub get_handler : Str → Option Handler
  pub default_handler : Option Handler
  pub tag_of : Handler → Str
  pub inbound_tag : Str

-- isPickRoute: 0, 1 and 2
pub data Choice : Type 0 where
  by_default : Choice
  by_force : Choice
  by_router : Choice

-- how routedDispatch ends: it panics; it closes the writer and interrupts the reader of the link, whose
-- effect on the pipe and on the link manager is left to the caller, `dropped`; or it hands the link to a
-- handler, with the Detour of the access message
pub data Ending (Handler : Type 0) : Type 0 where
  panics : Ending Handler
  dropped : Ending Handler
  handled : Handler → Str → Ending Handler

is_given : Str → Bool
is_given s = not (s == [])

module _ {Bucket Regexp : Type 0} (match_string : Regexp → Str → Bool) where
  -- CheckDomainRule, and CheckProtocolRule for a protocol that is known
  unfoldable pub breaks_rules : Limiter Bucket Regexp → Str → Str → Bool
  unfolding is_given
  breaks_rules l destination protocol =
      if check_domain_rule match_string l destination
      then true
      else is_given protocol && check_protocol_rule l protocol

  -- the limiter of getLink, or that of the inbound's tag
  abbrev pub limiter_for : Session → Option Addr → Registry Bucket Regexp → Option Addr
  limiter_for s (some p) r = some p
  limiter_for s none r = get_limiter s.tag r

  -- the rules for a session, of which none holds without a user or without a limiter
  unfoldable pub is_refused : Session → Option Addr → Registry Bucket Regexp → Str → Str → Bool
  unfolding breaks_rules
  is_refused s l r destination protocol = elim s.email [
    | none ↦ false
    | some email ↦ elim (limiter_for s l r) [
      | none ↦ false
      | some p ↦ breaks_rules (r.objects.cell p) destination protocol
    ]
  ]

-- the Detour of the access message, which stays as it is, "", for a handler without a tag
detour : Choice → Str → Str → Str
detour choice inbound_tag [] = []
detour choice [] (c ∷ tag) = c ∷ tag
detour by_force (i ∷ inbound_tag) (c ∷ tag) = i ∷ inbound_tag ++ codes " ==> " ++ c ∷ tag
detour by_router (i ∷ inbound_tag) (c ∷ tag) = i ∷ inbound_tag ++ codes " -> " ++ c ∷ tag
detour by_default (i ∷ inbound_tag) (c ∷ tag) = i ∷ inbound_tag ++ codes " >> " ++ c ∷ tag

module _ {Handler : Type 0} where
  -- handler.Dispatch(ctx, link)
  hand_over : Routing Handler → Choice → Handler → Ending Handler
  unfolding detour
  hand_over x choice h = handled h (detour choice x.inbound_tag (x.tag_of h))

  -- d.ohm.GetHandler(tag): a tag that nobody has closes the link
  take_tag : Routing Handler → Choice → Str → Ending Handler
  unfolding hand_over
  take_tag x choice tag = elim (x.get_handler tag) [
    | none ↦ dropped
    | some h ↦ hand_over x choice h
  ]

  take_default : Routing Handler → Ending Handler
  unfolding hand_over
  take_default x = elim x.default_handler [ none ↦ dropped | some h ↦ hand_over x by_default h ]

  -- the handler: forced, picked by the router, or the default one
  pick_handler : Routing Handler → Ending Handler
  unfolding take_tag take_default is_given
  pick_handler x =
      if is_given x.forced_outbound_tag
      then take_tag x by_force x.forced_outbound_tag
      else elim x.router [
        | none ↦ take_default x
        | some (ok tag) ↦ take_tag x by_router tag
        | some (err e) ↦ take_default x
      ]

module _ {Bucket Regexp Handler : Type 0} (match_string : Regexp → Str → Bool) where
  -- func (d *DefaultDispatcher) routedDispatch(ctx, link, destination, l, protocol); an inbound that is
  -- nil is dereferenced
  unfoldable pub routed_dispatch :
      Option Session
      → Option Addr
      → Registry Bucket Regexp
      → Routing Handler
      → Str
      → Str
      → Ending Handler
  unfolding is_refused pick_handler
  routed_dispatch inbound l r x destination protocol = elim inbound [
    | none ↦ panics
    | some s ↦
        if is_refused match_string s l r destination protocol then dropped else pick_handler x
  ]
