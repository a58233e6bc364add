-- ===== src/Limiter/Online/Report.antt =====
-- What GetOnlineDevice reports, and what the next connections are allowed for it.
use bxtest.Prelude.{
  Str, ℤ, Bool, true, false, ◌||◌, some, List, [], ◌∷◌, ◌++◌, Map, lookup, insert, is_some, ◌==◌,
  text_eq, int_eq, ◌≡◌, refl, ◌∙◌, ap, arith, lookup-insert,
}
use mathlib.Core.List.{append-nil, append_assoc}
use bxtest.Panel.{OnlineUser}
use bxtest.Limiter.State.{Limiter, UserLimitInfo, IpMap}
use bxtest.Limiter.Online.{range_ips, range_users, get_online_device}
use bxtest.Limiter.Check.{check_limit, plain_ip}
use bxtest.Limiter.Check.Refusal.{check_limit-known, is_online}

-- the pairs that stand in the online maps, in the order of iteration
pairs_of : IpMap → List OnlineUser
pairs_of [] = []
pairs_of ((ip, uid) ∷ m) = record { uid = uid; ip = ip } ∷ pairs_of m

unfoldable pub all_pairs : Map Str IpMap → List OnlineUser
unfolding pairs_of
all_pairs [] = []
all_pairs ((tu, ips) ∷ m) = pairs_of ips ++ all_pairs m

-- some reported user has this address
unfoldable pub reported : Str → List OnlineUser → Bool
reported j [] = false
reported j (u ∷ us) = u.ip == j || reported j us

insert_all : List OnlineUser → IpMap → IpMap
insert_all [] old = old
insert_all (u ∷ us) old = insert_all us (insert u.ip u.uid old)

insert_all-append :
    (us vs : List OnlineUser) (old : IpMap)
    → insert_all (us ++ vs) old ≡ insert_all vs (insert_all us old)
unfolding insert_all
insert_all-append [] vs old = refl
insert_all-append (u ∷ us) vs old = insert_all-append us vs (insert u.ip u.uid old)

range_ips_lem :
    (m : IpMap) (old : IpMap) (us : List OnlineUser)
    → range_ips m (old, us) ≡ (insert_all (pairs_of m) old, us ++ pairs_of m)
unfolding range_ips insert_all pairs_of
range_ips_lem [] old us = rw append-nil
range_ips_lem ((ip, uid) ∷ m) old us =
    rw (range_ips_lem m (insert ip uid old) (us ++ (record { uid = uid; ip = ip } ∷ [])))
      (rw append_assoc)

range_users_lem :
    (m : Map Str IpMap) (old : IpMap) (us : List OnlineUser)
    → range_users m (old, us) ≡ (insert_all (all_pairs m) old, us ++ all_pairs m)
unfolding range_users all_pairs insert_all
range_users_lem [] old us = rw append-nil
range_users_lem ((tu, ips) ∷ m) old us = rw (range_ips_lem ips old us) (
    rw (range_users_lem m (insert_all (pairs_of ips) old) (us ++ pairs_of ips))
      (rw (insert_all-append (pairs_of ips) (all_pairs m) old, append_assoc)))

lookup-insert_all :
    (j : Str) (us : List OnlineUser) (old : IpMap)
    → is_some (lookup j (insert_all us old)) ≡ (reported j us || is_some (lookup j old))
unfolding insert_all reported
lookup-insert_all j [] old = refl
lookup-insert_all j (u ∷ us) old =
    ground (arith, lookup-insert_all j us (insert u.ip u.uid old), lookup-insert j u.ip u.uid old)

module _ {Bucket Regexp : Type 0} where
  -- What GetOnlineDevice does, in terms of the online maps only.
  pub record IsReport (l : Limiter Bucket Regexp) (us : List OnlineUser)
      (l' : Limiter Bucket Regexp) : Type 0 where
    pub all : us ≡ all_pairs l.user_online_ip
    pub nobody : (t j : Str) → is_online l' t j ≡ false
    pub remembered : (j : Str) → is_some (lookup j l'.old_user_online) ≡ reported j us
    pub same_users : l'.user_limit_info ≡ l.user_limit_info
    pub same_alive : l'.alive_list ≡ l.alive_list

  -- GetOnlineDevice reports every address that stands in an online map with its user, once for each
  -- map, and nothing else; afterwards nobody is online, and the addresses that the limiter remembers
  -- from before are exactly the reported ones. Users and alive counts do not change.
  pub get_online_device-IsReport :
      (l : Limiter Bucket Regexp) → IsReport l (get_online_device l).0 (get_online_device l).1
  unfolding get_online_device lookup
  get_online_device-IsReport l = record {
    all = ap (λ p. p.1) (range_users_lem l.user_online_ip [] []);
    nobody = λ t j. refl;
    remembered = λ j.
        rw (range_users_lem l.user_online_ip [] [])
          (ground (arith, lookup-insert_all j (all_pairs l.user_online_ip) []));
    same_users = refl;
    same_alive = refl;
  }

  -- The addresses of a report are let through once more: after GetOnlineDevice CheckLimit accepts
  -- every user that it knows from every reported address, whatever the device limit and whoever was
  -- reported with that address.
  pub check_limit-reported_accepted :
      (nb : ℤ → ℤ → ℤ → Bucket) (now : ℤ) (l : Limiter Bucket Regexp) (tu ip : Str)
      (is_tcp no_ssudp : Bool) (u : UserLimitInfo)
      → lookup tu l.user_limit_info ≡ some u
      → reported (plain_ip ip) (get_online_device l).0 ≡ true
      → (check_limit nb now (get_online_device l).1 tu ip is_tcp no_ssudp).reject ≡ false
  check_limit-reported_accepted nb now l tu ip is_tcp no_ssudp u known was =
      let r = get_online_device-IsReport l in
      check_limit-known nb now (get_online_device l).1 tu ip is_tcp no_ssudp u
        (ap (lookup tu) r.same_users ∙ known)
      ∙ ground (arith, r.remembered (plain_ip ip), was)
