-- ===== src/Node/Report/Filter.antt =====
-- Which users online are reported to the panel.
use bxtest.Prelude.{
  sym, Str, ℤ, pos, int_eq, ltb_ℤ, Bool, false, ◌||◌, ◌&&◌, if◌then◌else◌, none, List, [], ◌∷◌,
  ◌++◌, Map, lookup, insert, get_or_default, is_some, ◌==◌, ◌+ℤ◌, ◌*ℤ◌, wrap64, ◌≡◌, refl, ◌∙◌, ap,
  arith, lookup-insert, text_eq, Bool-cases, inl, inr,
}
use mathlib.Core.List.{append-nil, append_assoc}
use bxtest.Panel.{OnlineUser, UserTraffic}
use bxtest.Node.Report.{online_result, no_count, keep_counted, group_ips, online_data}

-- some entry of the slice has this uid and less than the minimum
pub is_idle : ℤ → List UserTraffic → ℤ → Bool
is_idle min [] uid = false
is_idle min (t ∷ ts) uid =
    (t.uid == uid && ltb_ℤ (wrap64 (t.upload +ℤ t.download)) (wrap64 (min *ℤ pos 1000)))
    || is_idle min ts uid

-- some entry of the slice has this uid
pub has_entry : List UserTraffic → ℤ → Bool
has_entry [] uid = false
has_entry (t ∷ ts) uid = t.uid == uid || has_entry ts uid

pub is_idle-has_entry :
    (min uid : ℤ) (ts : List UserTraffic) → has_entry ts uid ≡ false → is_idle min ts uid ≡ false
unfolding is_idle has_entry
is_idle-has_entry min uid [] h = refl
is_idle-has_entry min uid (t ∷ ts) h = ground (arith, is_idle-has_entry min uid ts)

no_count-is_idle :
    (min uid : ℤ) (ts : List UserTraffic) (m : Map ℤ (Unit {0}))
    → is_some (lookup uid (no_count min ts m)) ≡ (is_idle min ts uid || is_some (lookup uid m))
unfolding no_count is_idle
no_count-is_idle min uid [] m = refl
no_count-is_idle min uid (t ∷ ts) m =
    elim (Bool-cases (ltb_ℤ (wrap64 (t.upload +ℤ t.download)) (wrap64 (min *ℤ pos 1000)))) [
      | inl small ↦ ground (
        arith,
        small,
        no_count-is_idle min uid ts (insert t.uid tt m),
        lookup-insert uid t.uid tt m,
      )
      | inr large ↦ ground (arith, large, no_count-is_idle min uid ts m)
    ]

-- the users of the list without those that are idle
pub without_idle : ℤ → List UserTraffic → List OnlineUser → List OnlineUser
without_idle min ts [] = []
without_idle min ts (u ∷ us) =
    let rest = without_idle min ts us in if is_idle min ts u.uid then rest else u ∷ rest

nobody_small : (uid : ℤ) → lookup {V = Unit {0}} uid [] ≡ none
unfolding lookup
nobody_small uid = refl

keep_counted-without_idle :
    (min : ℤ) (ts : List UserTraffic) (us : List OnlineUser)
    → keep_counted (no_count min ts []) us ≡ without_idle min ts us
unfolding keep_counted without_idle
keep_counted-without_idle min ts [] = refl
keep_counted-without_idle min ts (u ∷ us) = ground (
  arith,
  keep_counted-without_idle min ts us,
  no_count-is_idle min u.uid ts [],
  nobody_small u.uid,
)

-- the addresses of a uid, in their order
pub ips_with : ℤ → List OnlineUser → List Str
ips_with uid [] = []
ips_with uid (u ∷ us) = let rest = ips_with uid us in if u.uid == uid then u.ip ∷ rest else rest

group_ips-ips_with :
    (uid : ℤ) (us : List OnlineUser) (m : Map ℤ (List Str))
    → get_or_default [] (lookup uid (group_ips us m))
      ≡ get_or_default [] (lookup uid m) ++ ips_with uid us
unfolding group_ips ips_with
group_ips-ips_with uid [] m = sym (append-nil (get_or_default [] (lookup uid m)))
group_ips-ips_with uid (u ∷ us) m =
    let old = get_or_default [] (lookup u.uid m) in
    group_ips-ips_with uid us (insert u.uid (old ++ (u.ip ∷ [])) m)
    ∙ ground (
      arith,
      lookup-insert uid u.uid (old ++ (u.ip ∷ [])) m,
      append_assoc old (u.ip ∷ []) (ips_with uid us),
      int_eq.beq_iff u.uid uid,
    )

ips_with-without_idle :
    (min uid : ℤ) (ts : List UserTraffic) (us : List OnlineUser)
    → ips_with uid (without_idle min ts us) ≡ (if is_idle min ts uid then [] else ips_with uid us)
unfolding ips_with without_idle
ips_with-without_idle min uid ts [] = ground arith
ips_with-without_idle min uid ts (u ∷ us) =
    ground (arith, ips_with-without_idle min uid ts us, int_eq.beq_iff u.uid uid)

-- The addresses that are reported for a uid are all those of its users online, in their order, unless
-- some entry of the traffic slice has this uid and stays below the minimum: then there are none. A uid
-- without any entry in the slice is reported.
pub online_data-ips :
    (min uid : ℤ) (ts : List UserTraffic) (us : List OnlineUser)
    → get_or_default [] (lookup uid (online_data (online_result min ts us)))
      ≡ (if is_idle min ts uid then [] else ips_with uid us)
unfolding online_data online_result lookup
online_data-ips min uid ts us =
    group_ips-ips_with uid (keep_counted (no_count min ts []) us) []
    ∙ ap (ips_with uid) (keep_counted-without_idle min ts us)
    ∙ ips_with-without_idle min uid ts us
