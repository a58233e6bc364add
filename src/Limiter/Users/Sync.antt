-- ===== src/Limiter/Users/Sync.antt =====
-- What UpdateUser leaves for each user: a specification that goes by the two lists only.
use bxtest.Prelude.{
  Str, ℤ, text_eq, Bool, false, not, is_some, ◌&&◌, ◌||◌, if◌then◌else◌, Option, none, some, List,
  [], ◌∷◌, Map, lookup, ◌==◌, ◌≡◌, refl, arith, lookup-insert, lookup-erase, str_eq_iff, ◌∙◌, ap,
}
use bxtest.Format.{user_tag, user_tag_injective}
use bxtest.Panel.{UserInfo}
use bxtest.Limiter.State.{Limiter, UserLimitInfo}
use bxtest.Limiter.Users.{
  limit_info_of, add_user, add_users, del_user, del_users, update_user, new_limiter,
}
use bxtest.Conf.{LimitConfig}

-- the last user of a list with this uuid
unfoldable pub latest : Str → List UserInfo → Option UserInfo
latest w [] = none
latest w (u ∷ us) = elim (latest w us) [
  | some v ↦ some v
  | none ↦ if u.uuid == w then some u else none
]

unfoldable pub has_uuid : Str → List UserInfo → Bool
has_uuid w [] = false
has_uuid w (u ∷ us) = u.uuid == w || has_uuid w us

-- the entry of a user after `added`: that of its last occurrence, or the one from before
abbrev pub info_after : Option UserLimitInfo → Option UserInfo → Option UserLimitInfo
info_after old none = old
info_after old (some u) = some (limit_info_of u)

-- keys of one node are equal as the uuids are
pub tag_eq : (tag u v : Str) → (user_tag tag u == user_tag tag v) ≡ (u == v)
tag_eq tag u v = ground (
  arith,
  str_eq_iff (user_tag tag u) (user_tag tag v),
  str_eq_iff u v,
  user_tag_injective tag u v,
  λ (e : u ≡ v). ap (user_tag tag) e,
)

module _ {Bucket Regexp : Type 0} (tag w : Str) where
  -- What an update leaves for the user `w`: a deleted user loses its entry, its online addresses and
  -- its bucket; an added one gets a fresh entry; anybody else keeps what there was.
  pub record IsUpdated (added deleted : List UserInfo) (old new : Limiter Bucket Regexp)
      : Type 0 where
    pub info :
        lookup (user_tag tag w) new.user_limit_info
        ≡ info_after
            (if has_uuid w deleted then none else lookup (user_tag tag w) old.user_limit_info)
            (latest w added)
    pub bucket :
        lookup (user_tag tag w) new.speed_limiter
        ≡ (if has_uuid w deleted then none else lookup (user_tag tag w) old.speed_limiter)
    pub online :
        lookup (user_tag tag w) new.user_online_ip
        ≡ (if has_uuid w deleted then none else lookup (user_tag tag w) old.user_online_ip)

  add_users-info :
      (us : List UserInfo) (l : Limiter Bucket Regexp)
      → lookup (user_tag tag w) (add_users tag us l).user_limit_info
        ≡ info_after (lookup (user_tag tag w) l.user_limit_info) (latest w us)
  unfolding add_users latest
  add_users-info [] l = refl
  add_users-info (u ∷ us) l = ground (
    arith,
    add_users-info us (add_user tag u l),
    lookup-insert (user_tag tag w) (user_tag tag u.uuid) (limit_info_of u) l.user_limit_info,
    tag_eq tag u.uuid w,
  )

  add_users_rest :
      (us : List UserInfo) (l : Limiter Bucket Regexp)
      → ((add_users tag us l).speed_limiter ≡ l.speed_limiter)
        × ((add_users tag us l).user_online_ip ≡ l.user_online_ip)
  unfolding add_users
  add_users_rest [] l = (refl, refl)
  add_users_rest (u ∷ us) l = add_users_rest us (add_user tag u l)

  del_users-info :
      (us : List UserInfo) (l : Limiter Bucket Regexp)
      → lookup (user_tag tag w) (del_users tag us l).user_limit_info
        ≡ (if has_uuid w us then none else lookup (user_tag tag w) l.user_limit_info)
  unfolding del_users has_uuid
  del_users-info [] l = refl
  del_users-info (u ∷ us) l = ground (
    arith,
    del_users-info us (del_user tag u l),
    lookup-erase (user_tag tag w) (user_tag tag u.uuid) l.user_limit_info,
    tag_eq tag u.uuid w,
  )

  del_users-bucket :
      (us : List UserInfo) (l : Limiter Bucket Regexp)
      → lookup (user_tag tag w) (del_users tag us l).speed_limiter
        ≡ (if has_uuid w us then none else lookup (user_tag tag w) l.speed_limiter)
  unfolding del_users has_uuid
  del_users-bucket [] l = refl
  del_users-bucket (u ∷ us) l = ground (
    arith,
    del_users-bucket us (del_user tag u l),
    lookup-erase (user_tag tag w) (user_tag tag u.uuid) l.speed_limiter,
    tag_eq tag u.uuid w,
  )

  del_users-online :
      (us : List UserInfo) (l : Limiter Bucket Regexp)
      → lookup (user_tag tag w) (del_users tag us l).user_online_ip
        ≡ (if has_uuid w us then none else lookup (user_tag tag w) l.user_online_ip)
  unfolding del_users has_uuid
  del_users-online [] l = refl
  del_users-online (u ∷ us) l = ground (
    arith,
    del_users-online us (del_user tag u l),
    lookup-erase (user_tag tag w) (user_tag tag u.uuid) l.user_online_ip,
    tag_eq tag u.uuid w,
  )

  -- After UpdateUser a user of `deleted` has lost its entry, its online addresses and its bucket, a
  -- user of `added` has a fresh entry from its last occurrence there, also when it is in both lists,
  -- and every other user of the node keeps its entry, its addresses and its bucket.
  pub update_user-IsUpdated :
      (added deleted : List UserInfo) (l : Limiter Bucket Regexp)
      → IsUpdated added deleted l (update_user tag added deleted l)
  unfolding update_user
  update_user-IsUpdated added deleted l = record {
    info =
        add_users-info added (del_users tag deleted l)
        ∙ ap (λ o. info_after o (latest w added)) (del_users-info deleted l);
    bucket =
        ap (lookup (user_tag tag w)) (add_users_rest added (del_users tag deleted l)).0
        ∙ del_users-bucket deleted l;
    online =
        ap (lookup (user_tag tag w)) (add_users_rest added (del_users tag deleted l)).1
        ∙ del_users-online deleted l;
  }

pub update_user-nil : {B R : Type 0} (tag : Str) (l : Limiter B R) → update_user tag [] [] l ≡ l
unfolding update_user add_users del_users
update_user-nil tag l = refl

module _ {B R : Type 0} where
  -- The limiter knows exactly the users of the list.
  abbrev pub Synced : Str → List UserInfo → Limiter B R → Type 0
  Synced tag users l =
      (w : Str) → is_some (lookup (user_tag tag w) l.user_limit_info) ≡ has_uuid w users

is_some-latest : (w : Str) (us : List UserInfo) → is_some (latest w us) ≡ has_uuid w us
unfolding latest has_uuid
is_some-latest w [] = refl
is_some-latest w (u ∷ us) = ground (arith, is_some-latest w us)

-- A limiter that knew exactly the users of a list knows, after UpdateUser, exactly those of any list
-- that is the old one without `deleted` and with `added`.
pub update_user-Synced :
    {B R : Type 0} (tag : Str) (users users' added deleted : List UserInfo) (l : Limiter B R)
    → Synced tag users l
    → ((w : Str)
        → has_uuid w users' ≡ (has_uuid w users && not (has_uuid w deleted) || has_uuid w added))
    → Synced tag users' (update_user tag added deleted l)
update_user-Synced tag users users' added deleted l s step w =
    ground (
      arith,
      (update_user-IsUpdated tag w added deleted l).info,
      s w,
      step w,
      is_some-latest w added,
    )

empty_limiter : {B R : Type 0} → LimitConfig → Map ℤ ℤ → Limiter B R
empty_limiter conf alive = record {
  domain_rules = [];
  protocol_rules = [];
  speed_limit = conf.speed_limit;
  user_online_ip = [];
  old_user_online = [];
  uuid_to_uid = [];
  user_limit_info = [];
  speed_limiter = [];
  alive_list = alive;
}

-- A limiter made by AddLimiter knows exactly the users that it was made with.
pub new_limiter-Synced :
    (B R : Type 0) (tag : Str) (conf : LimitConfig) (users : List UserInfo) (alive : Map ℤ ℤ)
    → Synced tag users (new_limiter {Bucket = B} {Regexp = R} tag conf users alive)
unfolding new_limiter lookup empty_limiter
new_limiter-Synced B R tag conf users alive w =
    ap is_some (add_users-info tag w users (empty_limiter conf alive))
    ∙ ground (arith, is_some-latest w users)
