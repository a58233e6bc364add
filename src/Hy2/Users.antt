-- ===== src/Hy2/Users.antt =====
-- Who may log in to a Hysteria2 node.
use bxtest.Prelude.{
  beq_refl, Str, ℤ, text_eq, Bool, not, ◌&&◌, ◌||◌, some, List, [], ◌∷◌, Map, lookup, insert, erase,
  is_some, ◌≡◌, refl, ◌∙◌, arith, lookup-insert, lookup-erase,
}
use bxtest.Panel.{UserInfo}
use bxtest.Core.{AddUsersParams}
use bxtest.Limiter.Users.Sync.{has_uuid}
use bxtest.Hy2.{HookServer, Hysteria2, authenticate, add_all, add_users, del_users, forget}

-- the server lets this user in
abbrev pub lets_in : Hysteria2 → Str → Bool
lets_in h auth = (authenticate h auth).0

lookup-add_all :
    (w : Str) (us : List UserInfo) (m : Map Str ℤ)
    → is_some (lookup w (add_all us m)) ≡ (has_uuid w us || is_some (lookup w m))
unfolding add_all has_uuid
lookup-add_all w [] m = refl
lookup-add_all w (u ∷ us) m =
    ground (arith, lookup-add_all w us (insert u.uuid u.id m), lookup-insert w u.uuid u.id m)

lets_in_known : (h : Hysteria2) (w : Str) → lets_in h w ≡ is_some (lookup w h.users_map)
unfolding authenticate
lets_in_known h w = ground arith

-- After AddUsers exactly the users that could log in before and the added ones can log in, in
-- whichever order the goroutines run, and on every node of the core: the tag plays no part.
pub authenticate-add_users :
    (p : AddUsersParams) (h : Hysteria2) (w : Str)
    → lets_in (add_users p h).1 w ≡ (has_uuid w p.users || lets_in h w)
unfolding add_users
authenticate-add_users p h w =
    lets_in_known (add_users p h).1 w
    ∙ ground (arith, lookup-add_all w p.users h.users_map, lets_in_known h w)

-- On a node that the core has, DelUsers succeeds; none of the deleted users can log in afterwards on
-- any node of the core, also where the panel still lists it on another node, and everybody else can as
-- before.
pub authenticate-del_users :
    (us : List UserInfo) (tag : Str) (h : Hysteria2) (w : Str) (hook : HookServer)
    → lookup tag h.hy2nodes ≡ some hook
    → (h' : Hysteria2) × (del_users us tag h ≡ some h')
      × (lets_in h' w ≡ (not (has_uuid w us) && lets_in h w))
unfolding del_users
authenticate-del_users [] tag h w hook e = (h, refl, unfold has_uuid authenticate in ground arith)
authenticate-del_users (u ∷ us) tag h w hook e =
    let next : Hysteria2 = record {
      hy2nodes = insert tag (forget tag u.uuid hook) h.hy2nodes;
      users_map = erase u.uuid h.users_map;
    } in
    let there : lookup tag next.hy2nodes ≡ some (forget tag u.uuid hook) =
      ground (arith, lookup-insert tag tag (forget tag u.uuid hook) h.hy2nodes, beq_refl tag) in
    let (h', done, means) = authenticate-del_users us tag next w (forget tag u.uuid hook) there in
    (
      h',
      rw (e, del_users) done,
      means
          ∙ unfold has_uuid in
            ground
              (arith, lets_in_known next w, lets_in_known h w, lookup-erase w u.uuid h.users_map),
    )
