-- ===== src/Node/Users/Diff.antt =====
-- What compareUserList finds, by the keys of the users.
use bxtest.Prelude.{
  Str, text_eq, ℕ, suc, ◌+◌, Bool, false, not, ◌&&◌, ◌||◌, is_some, none, some, List, [], ◌∷◌, ◌++◌,
  Map, lookup, insert, erase, get_elem?, ◌≡◌, ◌==◌, refl, sym, ◌∙◌, ap, arith, lookup-insert,
  lookup-erase, str_eq_iff, Option-cases, Bool-cases, inl, inr,
}
use bxtest.Panel.{UserInfo}
use bxtest.Node.Users.{key, old_keys, scan_new, pick, compare_user_list}

unfoldable pub has_key : Str → List UserInfo → Bool
has_key k [] = false
has_key k (u ∷ us) = key u == k || has_key k us

-- no two users of the list have the same key
abbrev pub DistinctKeys : List UserInfo → Type 0
DistinctKeys [] = Unit {0}
DistinctKeys (u ∷ us) = (has_key (key u) us ≡ false) × DistinctKeys us

has_key-append :
    (k : Str) (us vs : List UserInfo) → has_key k (us ++ vs) ≡ (has_key k us || has_key k vs)
unfolding has_key
has_key-append k [] vs = refl
has_key-append k (u ∷ us) vs = ground (arith, has_key-append k us vs)

lookup-nil : (k : Str) → lookup {V = ℕ} k [] ≡ none
unfolding lookup
lookup-nil k = refl

-- the keys of `old` are those of oldMap
lookup-old_keys :
    (k : Str) (i : ℕ) (us : List UserInfo) (m : Map Str ℕ)
    → is_some (lookup k (old_keys i us m)) ≡ (has_key k us || is_some (lookup k m))
unfolding old_keys has_key
lookup-old_keys k i [] m = refl
lookup-old_keys k i (u ∷ us) m =
    ground (arith, lookup-old_keys k (i + 1) us (insert (key u) i m), lookup-insert k (key u) i m)

-- what is left of oldMap: the keys that `new` does not have
scan_new-left :
    (k : Str) (us : List UserInfo) (m : Map Str ℕ) (added : List UserInfo)
    → is_some (lookup k (scan_new us (m, added)).0) ≡ (is_some (lookup k m) && not (has_key k us))
unfolding scan_new has_key
scan_new-left k [] m added = ground arith
scan_new-left k (u ∷ us) m added = elim (Option-cases (lookup (key u) m)) [
  | inl e ↦
      rw (e, scan_new)
        (ground (arith, scan_new-left k us m (added ++ (u ∷ [])), str_eq_iff (key u) k))
  | inr (i, e) ↦
      rw (e, scan_new)
        (ground (arith, scan_new-left k us (erase (key u) m) added, lookup-erase k (key u) m))
]

-- what is added: the users of `new` whose key oldMap does not have, if no key comes twice
scan_new-added :
    (k : Str) (us : List UserInfo) (m : Map Str ℕ) (added : List UserInfo)
    → DistinctKeys us
    → has_key k (scan_new us (m, added)).1
      ≡ (has_key k added || (has_key k us && not (is_some (lookup k m))))
unfolding scan_new
scan_new-added k [] m added d = unfold has_key in ground arith
scan_new-added k (u ∷ us) m added d = elim (Option-cases (lookup (key u) m)) [
  | inl e ↦
      rw (e, scan_new)
        (scan_new-added k us m (added ++ (u ∷ [])) d.1
          ∙ unfold has_key in ground (arith, has_key-append k added (u ∷ []), str_eq_iff (key u) k))
  | inr (i, e) ↦
      rw (e, scan_new)
        (scan_new-added k us (erase (key u) m) added d.1
          ∙ unfold has_key in ground (arith, lookup-erase k (key u) m, str_eq_iff (key u) k, d.0))
]

-- every index of the map leads to a user with that key
abbrev Indexed : List UserInfo → Map Str ℕ → Type 0
Indexed old [] = Unit {0}
Indexed old ((k, i) ∷ m) =
    ((u : UserInfo) × (get_elem? old i ≡ some u) × (key u ≡ k)) × Indexed old m

Indexed-insert :
    (old : List UserInfo) (i : ℕ) (u : UserInfo) (m : Map Str ℕ)
    → get_elem? old i ≡ some u
    → Indexed old m
    → Indexed old (insert (key u) i m)
unfolding insert
Indexed-insert old i u [] e h = ((u, e, refl), tt)
Indexed-insert old i u ((k, j) ∷ m) e h = elim (Bool-cases (k == key u)) [
  | inl same ↦ rw same ((u, e, refl), h.1)
  | inr other ↦ rw other (h.0, Indexed-insert old i u m e h.1)
]

Indexed-erase :
    (old : List UserInfo) (k : Str) (m : Map Str ℕ) → Indexed old m → Indexed old (erase k m)
unfolding erase
Indexed-erase old k [] h = tt
Indexed-erase old k ((j, i) ∷ m) h = elim (Bool-cases (j == k)) [
  | inl same ↦ rw same (Indexed-erase old k m h.1)
  | inr other ↦ rw other (h.0, Indexed-erase old k m h.1)
]

Indexed-old_keys :
    (old : List UserInfo) (i : ℕ) (us : List UserInfo) (m : Map Str ℕ)
    → ((j : ℕ) → get_elem? us j ≡ get_elem? old (i + j))
    → Indexed old m
    → Indexed old (old_keys i us m)
unfolding old_keys
Indexed-old_keys old i [] m fits h = h
Indexed-old_keys old i (u ∷ us) m fits h =
    Indexed-old_keys old (i + 1) us (insert (key u) i m)
      (λ j. fits (suc j) ∙ ap (get_elem? old) (omega arith))
      (Indexed-insert old i u m (ap (get_elem? old) (omega arith) ∙ sym (fits 0)) h)

Indexed-scan_new :
    (old us : List UserInfo) (m : Map Str ℕ) (added : List UserInfo)
    → Indexed old m
    → Indexed old (scan_new us (m, added)).0
unfolding scan_new
Indexed-scan_new old [] m added h = h
Indexed-scan_new old (u ∷ us) m added h = elim (Option-cases (lookup (key u) m)) [
  | inl e ↦ rw (e, scan_new) (Indexed-scan_new old us m (added ++ (u ∷ [])) h)
  | inr (i, e) ↦
      rw (e, scan_new)
        (Indexed-scan_new old us (erase (key u) m) added (Indexed-erase old (key u) m h))
]

has_key-pick :
    (old : List UserInfo) (k : Str) (m : Map Str ℕ)
    → Indexed old m
    → has_key k (pick old m) ≡ is_some (lookup k m)
unfolding pick has_key lookup
has_key-pick old k [] h = refl
has_key-pick old k ((j, i) ∷ m) ((u, e, f), h) =
    rw (e, pick) (ground (arith, has_key-pick old k m h, ap (λ s. s == k) f))

-- The deleted users are those of the old list whose key the new list does not have: in terms of keys,
-- for whatever lists.
pub compare_user_list-deleted :
    (old new : List UserInfo) (k : Str)
    → has_key k (compare_user_list old new).0 ≡ (has_key k old && not (has_key k new))
unfolding compare_user_list
compare_user_list-deleted old new k =
    let m = old_keys 0 old [] in
    has_key-pick old k (scan_new new (m, [])).0 (
      Indexed-scan_new old new m []
        (Indexed-old_keys old 0 old [] (λ j. ap (get_elem? old) (omega arith)) tt))
    ∙ ground (arith, scan_new-left k new m [], lookup-old_keys k 0 old [], lookup-nil k)

-- The added users are those of the new list whose key the old list does not have, provided that no
-- key comes twice in the new list.
pub compare_user_list-added :
    (old new : List UserInfo) (k : Str)
    → DistinctKeys new
    → has_key k (compare_user_list old new).1 ≡ (has_key k new && not (has_key k old))
unfolding compare_user_list
compare_user_list-added old new k d =
    scan_new-added k new (old_keys 0 old []) [] d
    ∙ unfold has_key in ground (arith, lookup-old_keys k 0 old [], lookup-nil k)

-- Taking the deleted users out of the old list and the added ones in gives exactly the keys of the
-- new list, provided that no key comes twice in the new list.
pub compare_user_list-reconciles :
    (old new : List UserInfo) (k : Str)
    → DistinctKeys new
    → let (deleted, added) = compare_user_list old new in
      (has_key k old && not (has_key k deleted) || has_key k added) ≡ has_key k new
compare_user_list-reconciles old new k d =
    ground (arith, compare_user_list-deleted old new k, compare_user_list-added old new k d)
