-- ===== src/Node/Users/Uuids.antt =====
-- compareUserList by uuids, for lists whose uuids are of one length and all different: a key is then
-- a uuid and a speed limit in one way only.
use bxtest.Prelude.{
  Str, text_eq, ℕ, zero, suc, true, false, some, List, [], ◌∷◌, ◌++◌, Map, lookup, erase, itoa,
  get_elem?, length, take, ◌≡◌, ◌==◌, refl, ◌∙◌, ap, arith, str_eq_iff, Option-cases, Bool-cases,
  inl, inr, beq_refl,
}
use bxtest.Panel.{UserInfo}
use bxtest.Limiter.Users.Sync.{has_uuid}
use bxtest.Node.Users.{key, old_keys, scan_new, pick, compare_user_list}
use bxtest.Node.Users.Diff.{has_key, DistinctKeys}

module _ (n : ℕ) where
  abbrev pub AllOfLength : List UserInfo → Type 0
  AllOfLength [] = Unit {0}
  AllOfLength (u ∷ us) = (length u.uuid ≡ n) × AllOfLength us

abbrev pub UniqueUuids : List UserInfo → Type 0
UniqueUuids [] = Unit {0}
UniqueUuids (u ∷ us) = (has_uuid u.uuid us ≡ false) × UniqueUuids us

take-append : (s t : Str) → take (length s) (s ++ t) ≡ s
take-append [] t = refl
take-append (a ∷ s) t = ap (◌∷◌ a) (take-append s t)

take-key : (n : ℕ) (u : UserInfo) → length u.uuid ≡ n → take n (key u) ≡ u.uuid
unfolding key
take-key n u e = rw (← e) (take-append u.uuid (itoa u.speed_limit))

module _ (n : ℕ) where
  pub has_uuid_of_key :
      (k : Str) (us : List UserInfo)
      → AllOfLength n us
      → has_key k us ≡ true
      → has_uuid (take n k) us ≡ true
  unfolding has_key has_uuid
  has_uuid_of_key k [] p h = cc
  has_uuid_of_key k (u ∷ us) p h = elim (Bool-cases (key u == k)) [
    | inl same ↦
        ground
          (arith, take-key n u p.0, (str_eq_iff (key u) k).0 same, str_eq_iff u.uuid (take n k))
    | inr other ↦ ground (arith, has_uuid_of_key k us p.1)
  ]

  pub key_of_uuid :
      (w : Str) (us : List UserInfo)
      → AllOfLength n us
      → has_uuid w us ≡ true
      → (k : Str) × (has_key k us ≡ true) × (take n k ≡ w)
  unfolding has_key has_uuid
  key_of_uuid w [] p h = cc
  key_of_uuid w (u ∷ us) p h = elim (Bool-cases (u.uuid == w)) [
    | inl same ↦
        (key u, ground (arith, beq_refl (key u)), take-key n u p.0 ∙ (str_eq_iff u.uuid w).0 same)
    | inr other ↦ let (k, a, b) = key_of_uuid w us p.1 (ground arith) in (k, ground arith, b)
  ]

  -- a uuid stands under one key only
  pub key_unique :
      (j k : Str) (us : List UserInfo)
      → AllOfLength n us
      → UniqueUuids us
      → has_key j us ≡ true
      → has_key k us ≡ true
      → take n j ≡ take n k
      → j ≡ k
  unfolding has_key
  key_unique j k [] p q g h e = cc
  key_unique j k (u ∷ us) p q g h e = ground (
    arith,
    key_unique j k us p.1 q.1,
    has_uuid_of_key j us p.1,
    has_uuid_of_key k us p.1,
    take-key n u p.0,
    str_eq_iff (key u) j,
    str_eq_iff (key u) k,
    q.0,
  )

  pub UniqueUuids-DistinctKeys :
      (us : List UserInfo) → AllOfLength n us → UniqueUuids us → DistinctKeys us
  UniqueUuids-DistinctKeys [] p q = tt
  UniqueUuids-DistinctKeys (u ∷ us) p q = (
    elim (Bool-cases (has_key (key u) us)) [
      | inl twice ↦ ground (arith, has_uuid_of_key (key u) us p.1, take-key n u p.0, q.0, twice)
      | inr once ↦ once
    ],
    UniqueUuids-DistinctKeys us p.1 q.1,
  )

  AllOfLength-get :
      (us : List UserInfo) (i : ℕ) (u : UserInfo)
      → AllOfLength n us
      → get_elem? us i ≡ some u
      → length u.uuid ≡ n
  AllOfLength-get [] i u p e = cc
  AllOfLength-get (v ∷ us) zero u p e = ground arith
  AllOfLength-get (v ∷ us) (suc i) u p e = AllOfLength-get us i u p.1 e

  AllOfLength-pick :
      (old : List UserInfo) (m : Map Str ℕ) → AllOfLength n old → AllOfLength n (pick old m)
  unfolding pick
  AllOfLength-pick old [] p = tt
  AllOfLength-pick old ((k, i) ∷ m) p = elim (Option-cases (get_elem? old i)) [
    | inl e ↦ rw (e, pick) (AllOfLength-pick old m p)
    | inr (u, e) ↦ rw (e, pick) (AllOfLength-get old i u p e, AllOfLength-pick old m p)
  ]

  AllOfLength-append :
      (us : List UserInfo) (u : UserInfo)
      → AllOfLength n us
      → length u.uuid ≡ n
      → AllOfLength n (us ++ (u ∷ []))
  AllOfLength-append [] u p e = (e, tt)
  AllOfLength-append (v ∷ us) u p e = (p.0, AllOfLength-append us u p.1 e)

  AllOfLength-scan_new :
      (us : List UserInfo) (m : Map Str ℕ) (added : List UserInfo)
      → AllOfLength n us
      → AllOfLength n added
      → AllOfLength n (scan_new us (m, added)).1
  unfolding scan_new
  AllOfLength-scan_new [] m added p q = q
  AllOfLength-scan_new (u ∷ us) m added p q = elim (Option-cases (lookup (key u) m)) [
    | inl e ↦
        rw (e, scan_new)
          (AllOfLength-scan_new us m (added ++ (u ∷ [])) p.1 (AllOfLength-append added u q p.0))
    | inr (i, e) ↦ rw (e, scan_new) (AllOfLength-scan_new us (erase (key u) m) added p.1 q)
  ]

  -- both lists that compareUserList returns consist of users with uuids of that length
  pub AllOfLength-compare_user_list :
      (old new : List UserInfo)
      → AllOfLength n old
      → AllOfLength n new
      → AllOfLength n (compare_user_list old new).0 × AllOfLength n (compare_user_list old new).1
  unfolding compare_user_list
  AllOfLength-compare_user_list old new p q = (
    AllOfLength-pick old (scan_new new (old_keys 0 old [], [])).0 p,
    AllOfLength-scan_new new (old_keys 0 old []) [] q tt,
  )
