-- ===== src/Node/Users/Reconcile.antt =====
-- compareUserList and UpdateUser together keep a limiter in step with the panel's list.
use bxtest.Prelude.{
  Str, ℕ, true, false, not, ◌&&◌, ◌||◌, List, take, ◌≡◌, sym, ◌∙◌, arith, Bool-cases, inl, inr,
}
use bxtest.Panel.{UserInfo}
use bxtest.Limiter.State.{Limiter}
use bxtest.Limiter.Users.{update_user}
use bxtest.Limiter.Users.Sync.{has_uuid, Synced, update_user-Synced}
use bxtest.Node.Users.{compare_user_list}
use bxtest.Node.Users.Diff.{has_key, compare_user_list-deleted, compare_user_list-added}
use bxtest.Node.Users.Uuids.{
  AllOfLength, UniqueUuids, has_uuid_of_key, key_of_uuid, key_unique, UniqueUuids-DistinctKeys,
  AllOfLength-compare_user_list,
}

-- A list as the panel sends it: uuids of one length, each of them once.
pub record IsUserList (n : ℕ) (us : List UserInfo) : Type 0 where
  pub sized : AllOfLength n us
  pub unique : UniqueUuids us

module _ (n : ℕ) (old new : List UserInfo) (o : IsUserList n old) (v : IsUserList n new) where
  deleted_sized : AllOfLength n (compare_user_list old new).0
  deleted_sized = (AllOfLength-compare_user_list n old new o.sized v.sized).0

  added_sized : AllOfLength n (compare_user_list old new).1
  added_sized = (AllOfLength-compare_user_list n old new o.sized v.sized).1

  deleted_iff :
      (k : Str) → has_key k (compare_user_list old new).0 ≡ (has_key k old && not (has_key k new))
  deleted_iff = compare_user_list-deleted old new

  added_iff :
      (k : Str) → has_key k (compare_user_list old new).1 ≡ (has_key k new && not (has_key k old))
  added_iff k = compare_user_list-added old new k (UniqueUuids-DistinctKeys n new v.sized v.unique)

  -- a user that stays under its key is not deleted
  stays :
      (k w : Str)
      → take n k ≡ w
      → has_key k old ≡ true
      → has_key k new ≡ true
      → has_uuid w (compare_user_list old new).0 ≡ false
  stays k w e a b = elim (Bool-cases (has_uuid w (compare_user_list old new).0)) [
    | inr out ↦ out
    | inl h ↦
        let (j, inside, f) = key_of_uuid n w (compare_user_list old new).0 deleted_sized h in
        let gone = sym (deleted_iff j) ∙ inside in
        let same = key_unique n j k old o.sized o.unique (ground arith) a (f ∙ sym e) in
        ground arith
  ]

  present :
      (w : Str)
      → has_uuid w new ≡ true
      → (has_uuid w old && not (has_uuid w (compare_user_list old new).0)
          || has_uuid w (compare_user_list old new).1)
        ≡ true
  present w h =
      let (k, a, e) = key_of_uuid n w new v.sized h in
      elim (Bool-cases (has_key k old)) [
        | inl was ↦ ground (arith, stays k w e was a, has_uuid_of_key n k old o.sized was)
        | inr fresh ↦
            ground
              (arith, has_uuid_of_key n k (compare_user_list old new).1 added_sized, added_iff k)
      ]

  absent_added :
      (w : Str) → has_uuid w new ≡ false → has_uuid w (compare_user_list old new).1 ≡ false
  absent_added w h = elim (Bool-cases (has_uuid w (compare_user_list old new).1)) [
    | inr out ↦ out
    | inl b ↦
        let (k, a, e) = key_of_uuid n w (compare_user_list old new).1 added_sized b in
        ground (arith, added_iff k, has_uuid_of_key n k new v.sized)
  ]

  absent_deleted :
      (w : Str)
      → has_uuid w new ≡ false
      → has_uuid w old ≡ true
      → has_uuid w (compare_user_list old new).0 ≡ true
  absent_deleted w h b =
      let (k, a, e) = key_of_uuid n w old o.sized b in
      elim (Bool-cases (has_key k new)) [
        | inl c ↦ ground (arith, has_uuid_of_key n k new v.sized c)
        | inr c ↦
            ground (
              arith,
              has_uuid_of_key n k (compare_user_list old new).0 deleted_sized,
              deleted_iff k,
            )
      ]

  -- For two lists as the panel sends them, the users of the new list are exactly those of the old
  -- one that were not deleted, and the added ones: so a user whose speed limit changed, which is
  -- deleted and added, stays.
  pub compare_user_list-uuids :
      (w : Str)
      → has_uuid w new ≡ (
          has_uuid w old && not (has_uuid w (compare_user_list old new).0)
          || has_uuid w (compare_user_list old new).1)
  compare_user_list-uuids w = elim (Bool-cases (has_uuid w new)) [
    | inl h ↦ h ∙ sym (present w h)
    | inr h ↦ elim (Bool-cases (has_uuid w old)) [
      | inl b ↦ ground (arith, absent_added w h, absent_deleted w h b)
      | inr b ↦ ground (arith, absent_added w h)
    ]
  ]

  -- A limiter that knows exactly the users of the old list knows exactly those of the new one after
  -- UpdateUser with what compareUserList found, for two lists as the panel sends them.
  pub update_user-follows_panel :
      {B R : Type 0} (tag : Str) (l : Limiter B R)
      → Synced tag old l
      → let (deleted, added) = compare_user_list old new in
        Synced tag new (update_user tag added deleted l)
  update_user-follows_panel tag l s =
      update_user-Synced tag old new (compare_user_list old new).1 (compare_user_list old new).0 l s
        compare_user_list-uuids
