-- ===== src/Tests/Links.antt =====
-- Runs of the users of an xray core.
use bxtest.Prelude.{
  Str, codes, pos, ℕ, nat_eq, text_eq, if◌then◌else◌, none, [], ◌∷◌, lookup, Result, ok, ◌≡◌, refl,
}
use bxtest.Format.{user_tag}
use bxtest.Limiter.Users.Sync.{has_uuid}
use bxtest.Xray.{LinkManager, Cut, Xray, del_each, del_users}
use bxtest.Xray.Links.{del_users-forgets}
use bxtest.Tests.Data.{user_a, tag, tag_a, tag_b}

abbrev links : LinkManager
links = (1, 11) ∷ (2, 12) ∷ []

abbrev no_cut : Cut
no_cut = record { writers = []; readers = [] }

abbrev xray : Xray ℕ
xray = record {
  uid_map = (tag_a, pos 7) ∷ (tag_b, pos 8) ∷ [];
  counter = [];
  link_managers = (tag_a, links) ∷ [];
  node_report_min_traffic_bytes = [];
  handlers = 0;
  cut = no_cut;
}

abbrev manager : Str → ℕ → Result (Unit {0})
manager t n = ok tt

abbrev remove : Str → Str → ℕ → Result (Unit {0}) × ℕ
remove t user n = (ok tt, 1)

del_users-forgets_example :
    let x = (del_users manager remove (user_a ∷ []) tag xray).1 in
    (lookup (user_tag tag (codes "a")) x.uid_map ≡ (
      if has_uuid (codes "a") (user_a ∷ [])
      then none
      else lookup (user_tag tag (codes "a")) xray.uid_map))
    × (lookup (user_tag tag (codes "a")) x.link_managers ≡ (
        if has_uuid (codes "a") (user_a ∷ [])
        then none
        else lookup (user_tag tag (codes "a")) xray.link_managers))
unfolding del_users del_each
del_users-forgets_example = del_users-forgets manager remove (user_a ∷ []) tag (codes "a") xray refl
