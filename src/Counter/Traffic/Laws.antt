-- ===== src/Counter/Traffic/Laws.antt =====
-- The counters of the users stay apart, and what Tx and Rx add is what is read back.
use bxtest.Prelude.{
  Str, ℤ, text_eq, suc, some, lookup, erase, Addr, if◌then◌else◌, ◌==◌, ◌+ℤ◌, wrap64, ◌≡◌, ◌≢◌,
  arith, Option-cases, inl, inr, lookup-insert, lookup-erase, str_eq_iff, beq_refl,
}
use bxtest.Counter.Traffic.{
  TrafficStorage, TrafficCounter, put, new_traffic_counter, get_counter, get_up_count,
  get_down_count, reset, delete, rx, tx,
}
use bxtest.Counter.Traffic.Distinct.{
  Distinct, Below, Distinct-lookup, Below-lookup, Below-suc, Below-NotAt, Below-insert,
  Distinct-insert, Below-erase, Distinct-erase, NotAt-erase_self, NotAt-lookup,
}

-- Every user has a storage of its own, and every storage exists.
pub record IsValid (c : TrafficCounter) : Type 0 where
  pub apart : Distinct c.counters
  pub allocated : Below c.storages.next c.counters

pub new_traffic_counter-IsValid : IsValid new_traffic_counter
unfolding new_traffic_counter
new_traffic_counter-IsValid = record { apart = tt; allocated = tt }

pub get_counter-IsValid : (k : Str) (c : TrafficCounter) → IsValid c → IsValid (get_counter k c).1
unfolding get_counter
get_counter-IsValid k c v = elim (Option-cases (lookup k c.counters)) [
  | inr (a, e) ↦ rw (e, get_counter) v
  | inl e ↦
      rw (e, get_counter)
        (record {
          apart =
              Distinct-insert c.storages.next k c.counters v.apart
                (Below-NotAt c.storages.next c.counters v.allocated);
          allocated =
              Below-insert (suc c.storages.next) c.storages.next k c.counters (omega arith)
                (Below-suc c.storages.next c.counters v.allocated);
        })
]

pub delete-IsValid : (k : Str) (c : TrafficCounter) → IsValid c → IsValid (delete k c)
unfolding delete
delete-IsValid k c v = record {
  apart = Distinct-erase k c.counters v.apart;
  allocated = Below-erase c.storages.next k c.counters v.allocated;
}

pub reset-IsValid : (k : Str) (c : TrafficCounter) → IsValid c → IsValid (reset k c)
unfolding reset
reset-IsValid k c v = ground arith

pub rx-IsValid : (k : Str) (n : ℤ) (c : TrafficCounter) → IsValid c → IsValid (rx k n c)
unfolding rx
rx-IsValid k n c v =
    let w = get_counter-IsValid k c v in record { apart = w.apart; allocated = w.allocated }

pub tx-IsValid : (k : Str) (n : ℤ) (c : TrafficCounter) → IsValid c → IsValid (tx k n c)
unfolding tx
tx-IsValid k n c v =
    let w = get_counter-IsValid k c v in record { apart = w.apart; allocated = w.allocated }

-- Rx adds to the down count of its user, with the wrap-around of an int64, and changes no other
-- count, its user's up count included; a user that is new starts from 0.
pub get_down_count-rx :
    (j k : Str) (n : ℤ) (c : TrafficCounter)
    → IsValid c
    → (get_down_count j (rx k n c)
        ≡ (if k == j then wrap64 (get_down_count k c +ℤ n) else get_down_count j c))
      × (get_up_count j (rx k n c) ≡ get_up_count j c)
unfolding rx get_down_count get_up_count
get_down_count-rx j k n c v = elim (Option-cases (lookup k c.counters)) [
  | inr (a, e) ↦ elim (Option-cases (lookup j c.counters)) [
    | inr (b, f) ↦ ground (arith, str_eq_iff k j, Distinct-lookup a j k c.counters v.apart)
    | inl f ↦ ground (arith, str_eq_iff k j)
  ]
  | inl e ↦ elim (Option-cases (lookup j c.counters)) [
    | inr (b, f) ↦ ground (
      arith,
      str_eq_iff k j,
      lookup-insert j k c.storages.next c.counters,
      Below-lookup c.storages.next b j c.counters v.allocated,
    )
    | inl f ↦ ground (arith, str_eq_iff k j, lookup-insert j k c.storages.next c.counters)
  ]
]

-- Tx adds to the up count of its user in the same way, and changes no other count.
pub get_up_count-tx :
    (j k : Str) (n : ℤ) (c : TrafficCounter)
    → IsValid c
    → (get_up_count j (tx k n c)
        ≡ (if k == j then wrap64 (get_up_count k c +ℤ n) else get_up_count j c))
      × (get_down_count j (tx k n c) ≡ get_down_count j c)
unfolding tx get_down_count get_up_count
get_up_count-tx j k n c v = elim (Option-cases (lookup k c.counters)) [
  | inr (a, e) ↦ elim (Option-cases (lookup j c.counters)) [
    | inr (b, f) ↦ ground (arith, str_eq_iff k j, Distinct-lookup a j k c.counters v.apart)
    | inl f ↦ ground (arith, str_eq_iff k j)
  ]
  | inl e ↦ elim (Option-cases (lookup j c.counters)) [
    | inr (b, f) ↦ ground (
      arith,
      str_eq_iff k j,
      lookup-insert j k c.storages.next c.counters,
      Below-lookup c.storages.next b j c.counters v.allocated,
    )
    | inl f ↦ ground (arith, str_eq_iff k j, lookup-insert j k c.storages.next c.counters)
  ]
]

-- What a connection adds to the storage of a user that has been deleted meanwhile is counted for
-- nobody: it changes no count that can be read, not even after the user's next GetCounter.
pub delete_detaches :
    (j k : Str) (a : Addr) (s : TrafficStorage) (c : TrafficCounter)
    → IsValid c
    → lookup k c.counters ≡ some a
    → (get_up_count j (put a s (delete k c)) ≡ get_up_count j (delete k c))
      × (get_down_count j (put a s (delete k c)) ≡ get_down_count j (delete k c))
      × ((get_counter k (put a s (delete k c))).0 ≢ a)
unfolding delete get_up_count get_down_count get_counter
delete_detaches j k a s c v e =
    let gone = NotAt-erase_self a k c.counters v.apart e in
    elim (Option-cases (lookup j (erase k c.counters))) [
      | inl f ↦ (
        rw (f, get_up_count),
        rw (f, get_down_count),
        ground (
          arith,
          lookup-erase k k c.counters,
          beq_refl k,
          Below-lookup c.storages.next a k c.counters v.allocated,
        ),
      )
      | inr (b, f) ↦
          let other = NotAt-lookup a b j (erase k c.counters) gone f in
          (
            ground arith,
            ground arith,
            ground (
              arith,
              lookup-erase k k c.counters,
              beq_refl k,
              Below-lookup c.storages.next a k c.counters v.allocated,
            ),
          )
    ]
