-- ===== src/Limiter/Users.antt =====
-- AddLimiter, GetLimiter, DeleteLimiter, UpdateUser and UpdateDynamicSpeedLimit of
-- limiter/limiter.go, and AddDynamicSpeedLimit of limiter/dynamic.go. A *Limiter is an address in
-- the registry's heap, because a node controller and the global table hold the same one.
pub mod Sync
pub mod Table
use bxtest.Prelude.{
  Str, ℤ, pos, int_eq, text_eq, Bool, false, not, if◌then◌else◌, Option, none, some, List, [], ◌∷◌,
  Map, lookup, insert, erase, ◌==◌, Heap, Addr, alloc, ◌+ℤ◌, ◌*ℤ◌, wrap64,
}
use bxtest.Format.{user_tag}
use bxtest.Panel.{UserInfo}
use bxtest.Conf.{LimitConfig}
use bxtest.Limiter.State.{Limiter, UserLimitInfo}

-- the entry that AddLimiter and UpdateUser build for a user
pub limit_info_of : UserInfo → UserLimitInfo
limit_info_of u = record {
  uid = u.id;
  speed_limit = if not (u.speed_limit == pos 0) then u.speed_limit else pos 0;
  device_limit = if not (u.device_limit == pos 0) then u.device_limit else pos 0;
  dynamic_speed_limit = pos 0;
  expire_time = pos 0;
  over_limit = false;
}

module _ {Bucket Regexp : Type 0} where
  -- one round of the loop over the users of AddLimiter, and of the one over `added` of UpdateUser
  add_user : Str → UserInfo → Limiter Bucket Regexp → Limiter Bucket Regexp
  add_user tag u l = record l {
    user_limit_info = insert (user_tag tag u.uuid) (limit_info_of u) l.user_limit_info;
    uuid_to_uid = insert u.uuid u.id l.uuid_to_uid;
  }

  pub add_users : Str → List UserInfo → Limiter Bucket Regexp → Limiter Bucket Regexp
  unfolding add_user
  add_users tag [] l = l
  add_users tag (u ∷ us) l = add_users tag us (add_user tag u l)

  -- one round of the loop over `deleted`
  del_user : Str → UserInfo → Limiter Bucket Regexp → Limiter Bucket Regexp
  del_user tag u l = record l {
    user_limit_info = erase (user_tag tag u.uuid) l.user_limit_info;
    user_online_ip = erase (user_tag tag u.uuid) l.user_online_ip;
    speed_limiter = erase (user_tag tag u.uuid) l.speed_limiter;
    uuid_to_uid = erase u.uuid l.uuid_to_uid;
    alive_list = erase u.id l.alive_list;
  }

  pub del_users : Str → List UserInfo → Limiter Bucket Regexp → Limiter Bucket Regexp
  unfolding del_user
  del_users tag [] l = l
  del_users tag (u ∷ us) l = del_users tag us (del_user tag u l)

  -- func (l *Limiter) UpdateUser(tag, added, deleted)
  unfoldable pub update_user :
      Str → List UserInfo → List UserInfo → Limiter Bucket Regexp → Limiter Bucket Regexp
  update_user tag added deleted l = add_users tag added (del_users tag deleted l)

  -- func (l *Limiter) UpdateDynamicSpeedLimit(tag, uuid, limit, expire); `none` is "not found"
  unfoldable pub update_dynamic_speed_limit :
      Str → Str → ℤ → ℤ → Limiter Bucket Regexp → Option (Limiter Bucket Regexp)
  update_dynamic_speed_limit tag uuid limit expire l =
      elim (lookup (user_tag tag uuid) l.user_limit_info) [
        | none ↦ none
        | some info ↦ some (record l {
          user_limit_info =
              insert (user_tag tag uuid)
                (record info { dynamic_speed_limit = limit; expire_time = expire })
                l.user_limit_info;
        })
      ]

  -- func (l *Limiter) AddDynamicSpeedLimit(tag, userInfo, limitNum, expire); `now` is time.Now(), and
  -- `expire` stays below the 292 years of a Duration
  unfoldable pub add_dynamic_speed_limit :
      ℤ → Str → UserInfo → ℤ → ℤ → Limiter Bucket Regexp → Limiter Bucket Regexp
  add_dynamic_speed_limit now tag user limit_num expire l = record l {
    user_limit_info =
        insert (user_tag tag user.uuid)
          (record {
            uid = pos 0;
            speed_limit = pos 0;
            device_limit = pos 0;
            dynamic_speed_limit = limit_num;
            expire_time = wrap64 (now +ℤ expire);
            over_limit = false;
          })
          l.user_limit_info;
  }

  -- the Limiter that AddLimiter builds
  pub new_limiter : Str → LimitConfig → List UserInfo → Map ℤ ℤ → Limiter Bucket Regexp
  new_limiter tag conf users alive = add_users tag users (record {
    domain_rules = [];
    protocol_rules = [];
    speed_limit = conf.speed_limit;
    user_online_ip = [];
    old_user_online = [];
    uuid_to_uid = [];
    user_limit_info = [];
    speed_limiter = [];
    alive_list = alive;
  })

-- the global `limiter map[string]*Limiter`
pub record Registry (Bucket Regexp : Type 0) : Type 0 where
  pub table : Map Str Addr
  pub objects : Heap (Limiter Bucket Regexp)

module _ {Bucket Regexp : Type 0} where
  -- func AddLimiter(tag, l, users, aliveList): the pointer, and the registry with it
  unfoldable pub add_limiter :
      Str
      → LimitConfig
      → List UserInfo
      → Map ℤ ℤ
      → Registry Bucket Regexp
      → Addr × Registry Bucket Regexp
  add_limiter tag conf users alive r = (
    r.objects.next,
    record {
      table = insert tag r.objects.next r.table;
      objects = alloc (new_limiter tag conf users alive) r.objects;
    },
  )

  -- func GetLimiter(tag); `none` is "not found"
  unfoldable pub get_limiter : Str → Registry Bucket Regexp → Option Addr
  get_limiter tag r = lookup tag r.table

  -- func DeleteLimiter(tag)
  unfoldable pub delete_limiter : Str → Registry Bucket Regexp → Registry Bucket Regexp
  delete_limiter tag r = record r { table = erase tag r.table }
