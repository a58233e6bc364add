-- ===== src/Xray/Dispatch/Route/Picked.antt =====
-- Which handler routedDispatch hands a connection to.
use bxtest.Prelude.{
  Str, text_eq, Bool, ◌==◌, not, if◌then◌else◌, Option, none, some, ok, err, Addr, ◌≡◌, refl,
  Bool-cases, Option-cases, Result-cases, inl, inr, [],
}
use bxtest.Limiter.Users.{Registry}
use bxtest.Xray.Dispatch.{Session}
use bxtest.Xray.Dispatch.Route.{
  Routing, Choice, by_force, by_router, Ending, panics, dropped, handled, is_given, is_refused,
  detour, hand_over, take_tag, take_default, pick_handler, routed_dispatch,
}

-- The tag that the connection was told to take: forced, or else by the router.
abbrev pub told_tag : {Handler : Type 0} → Routing Handler → Option Str
told_tag x =
    if not (x.forced_outbound_tag == [])
    then some x.forced_outbound_tag
    else elim x.router [ none ↦ none | some (ok tag) ↦ some tag | some (err e) ↦ none ]

-- the handler of that tag, and the default one only where there is no such tag
abbrev pub chosen : {Handler : Type 0} → Routing Handler → Option Handler
chosen x = elim (told_tag x) [ none ↦ x.default_handler | some tag ↦ x.get_handler tag ]

abbrev pub handler_of : {Handler : Type 0} → Ending Handler → Option Handler
handler_of panics = none
handler_of dropped = none
handler_of (handled h detour) = some h

module _ {Handler : Type 0} where
  take_tag-handler :
      (x : Routing Handler) (choice : Choice) (tag : Str)
      → handler_of (take_tag x choice tag) ≡ x.get_handler tag
  unfolding take_tag hand_over
  take_tag-handler x choice tag = elim (Option-cases (x.get_handler tag)) [
    | inl e ↦ rw (e, take_tag) refl
    | inr (h, e) ↦ rw (e, take_tag) refl
  ]

  take_default-handler : (x : Routing Handler) → handler_of (take_default x) ≡ x.default_handler
  unfolding take_default hand_over
  take_default-handler x = elim (Option-cases x.default_handler) [
    | inl e ↦ rw (e, take_default) refl
    | inr (h, e) ↦ rw (e, take_default) refl
  ]

  pick_handler-chosen : (x : Routing Handler) → handler_of (pick_handler x) ≡ chosen x
  unfolding pick_handler is_given
  pick_handler-chosen x = elim (Bool-cases (not (x.forced_outbound_tag == []))) [
    | inl e ↦
        rw (e, pick_handler, chosen, told_tag) (take_tag-handler x by_force x.forced_outbound_tag)
    | inr e ↦ elim (Option-cases x.router) [
      | inl f ↦ rw (e, f, pick_handler, chosen, told_tag) (take_default-handler x)
      | inr (answer, f) ↦ elim (Result-cases answer) [
        | inl (tag, g) ↦
            rw (e, f, g, pick_handler, chosen, told_tag) (take_tag-handler x by_router tag)
        | inr (m, g) ↦ rw (e, f, g, pick_handler, chosen, told_tag) (take_default-handler x)
      ]
    ]
  ]

-- A connection with an inbound reaches a handler exactly when no rule of the node refuses it and the
-- handler it was told to take exists: the one of the forced tag, else the one the router picks. The
-- default handler takes it only if there is no forced tag and the router picks none.
pub routed_dispatch-chosen :
    {Bucket Regexp Handler : Type 0} (match_string : Regexp → Str → Bool) (s : Session)
    (l : Option Addr) (r : Registry Bucket Regexp) (x : Routing Handler)
    (destination protocol : Str)
    → handler_of (routed_dispatch match_string (some s) l r x destination protocol)
      ≡ (if is_refused match_string s l r destination protocol then none else chosen x)
unfolding routed_dispatch
routed_dispatch-chosen match_string s l r x destination protocol =
    elim (Bool-cases (is_refused match_string s l r destination protocol)) [
      | inl e ↦ rw (e, routed_dispatch) refl
      | inr e ↦ rw (e, routed_dispatch) (pick_handler-chosen x)
    ]
