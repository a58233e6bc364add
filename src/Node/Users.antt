-- ===== src/Node/Users.antt =====
-- compareUserList of node/user.go.
pub mod Diff
pub mod Uuids
pub mod Reconcile
use bxtest.Prelude.{
  Str, text_eq, ℕ, ◌+◌, Option, none, some, List, [], ◌∷◌, ◌++◌, Map, lookup, insert, erase, itoa,
  get_elem?, ◌≡◌,
}
use bxtest.Panel.{UserInfo}

-- user.Uuid + strconv.Itoa(user.SpeedLimit)
unfoldable pub key : UserInfo → Str
key u = u.uuid ++ itoa u.speed_limit

-- for i, user := range old { oldMap[key] = i }
old_keys : ℕ → List UserInfo → Map Str ℕ → Map Str ℕ
old_keys i [] m = m
old_keys i (u ∷ us) m = old_keys (i + 1) us (insert (key u) i m)

-- the loop over `new`: oldMap without the keys that are met, and `added`
scan_new : List UserInfo → Map Str ℕ × List UserInfo → Map Str ℕ × List UserInfo
scan_new [] acc = acc
scan_new (u ∷ us) (m, added) = elim (lookup (key u) m) [
  | none ↦ scan_new us (m, added ++ (u ∷ []))
  | some i ↦ scan_new us (erase (key u) m, added)
]

-- for _, index := range oldMap { deleted = append(deleted, old[index]) }; an index is always in range
pick : List UserInfo → Map Str ℕ → List UserInfo
pick old [] = []
pick old ((k, i) ∷ m) = elim (get_elem? old i) [ none ↦ pick old m | some u ↦ u ∷ pick old m ]

-- func compareUserList(old, new) (deleted, added)
unfoldable pub compare_user_list : List UserInfo → List UserInfo → List UserInfo × List UserInfo
unfolding old_keys scan_new pick
compare_user_list old new =
    let (m, added) = scan_new new (old_keys 0 old [], []) in (pick old m, added)
