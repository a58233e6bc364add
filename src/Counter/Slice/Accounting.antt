-- ===== src/Counter/Slice/Accounting.antt =====
-- What GetUserTrafficSlice reports, and what it leaves behind.
use bxtest.Prelude.{
  Str, ℤ, pos, text_eq, int_eq, Bool, if◌then◌else◌, List, [], ◌∷◌, ◌++◌, Map, lookup, Addr, ◌==◌,
  ◌≡◌, ◌≢◌, refl, arith, sym, ap, ◌∙◌, ◌&&◌, some, Bool-cases, inl, inr,
}
use mathlib.Core.List.{append-nil, append_assoc}
use bxtest.Panel.{UserTraffic}
use bxtest.Counter.Traffic.{TrafficStorage, TrafficCounter, no_traffic, storage}
use bxtest.Counter.Traffic.Distinct.{NotAt, Distinct, NotAt-lookup}
use bxtest.Counter.Traffic.Laws.{IsValid}
use bxtest.Counter.Slice.{uid_of, over, traffic_of, range_step, range_counters, take_traffic}

-- What a table of counters has to report: one entry for each user that is above the minimum and that
-- has a uid, with both counts.
due_of : ℤ → Map Str ℤ → TrafficCounter → Str × Addr → List UserTraffic
due_of min uids c (uuid, a) =
    if over min (storage c a)
    then (if uid_of uids uuid == pos 0
        then []
        else traffic_of (uid_of uids uuid) (storage c a) ∷ [])
    else []

unfoldable pub due : ℤ → Map Str ℤ → TrafficCounter → Map Str Addr → List UserTraffic
unfolding due_of
due min uids c [] = []
due min uids c (e ∷ es) = due_of min uids c e ++ due min uids c es

-- The loop changes a storage only when it comes to its entry.
module _ (min : ℤ) (reset : Bool) (uids : Map Str ℤ) where
  step-storage :
      (k : Str) (a b : Addr) (c : TrafficCounter) (slice : List UserTraffic)
      → a ≢ b
      → storage (range_step min reset uids (k, a) (c, slice)).0 b ≡ storage c b
  unfolding range_step
  step-storage k a b c slice ne = ground arith

  due-step :
      (k : Str) (a : Addr) (es : Map Str Addr) (c : TrafficCounter) (slice : List UserTraffic)
      → NotAt a es
      → due min uids (range_step min reset uids (k, a) (c, slice)).0 es ≡ due min uids c es
  unfolding due
  due-step k a [] c slice n = refl
  due-step k a ((j, b) ∷ es) c slice n =
      rw (step-storage k a b c slice n.0, due-step k a es c slice n.1)

  step-slice :
      (k : Str) (a : Addr) (c : TrafficCounter) (slice : List UserTraffic)
      → (range_step min reset uids (k, a) (c, slice)).1 ≡ slice ++ due_of min uids c (k, a)
  unfolding range_step due_of
  step-slice k a c slice = ground (arith, append-nil slice)

  range-slice :
      (es : Map Str Addr) (c : TrafficCounter) (slice : List UserTraffic)
      → Distinct es
      → (range_counters min reset uids es (c, slice)).1 ≡ slice ++ due min uids c es
  unfolding range_counters due
  range-slice [] c slice d = sym (append-nil slice)
  range-slice ((k, a) ∷ es) c slice d =
      let s = range_step min reset uids (k, a) (c, slice) in
      range-slice es s.0 s.1 d.1
      ∙ rw (due-step k a es c slice d.0, step-slice k a c slice, append_assoc)

  -- the entry whose turn has passed keeps its storage
  range-storage :
      (es : Map Str Addr) (a : Addr) (c : TrafficCounter) (slice : List UserTraffic)
      → NotAt a es
      → storage (range_counters min reset uids es (c, slice)).0 a ≡ storage c a
  unfolding range_counters
  range-storage [] a c slice n = refl
  range-storage ((k, b) ∷ es) a c slice n =
      let s = range_step min reset uids (k, b) (c, slice) in
      range-storage es a s.0 s.1 n.1 ∙ step-storage k b a c slice (λ e. n.0 (sym e))

  -- what the loop leaves in the storage of an entry
  abbrev left : TrafficStorage → TrafficStorage
  left s = if over min s && reset then no_traffic else s

  step-left :
      (k : Str) (a : Addr) (c : TrafficCounter) (slice : List UserTraffic)
      → storage (range_step min reset uids (k, a) (c, slice)).0 a ≡ left (storage c a)
  unfolding range_step
  step-left k a c slice = ground arith

  range-left :
      (es : Map Str Addr) (k : Str) (a : Addr) (c : TrafficCounter) (slice : List UserTraffic)
      → Distinct es
      → lookup k es ≡ some a
      → storage (range_counters min reset uids es (c, slice)).0 a ≡ left (storage c a)
  unfolding range_counters lookup
  range-left [] k a c slice d e = cc
  range-left ((j, b) ∷ es) k a c slice d e =
      let s = range_step min reset uids (j, b) (c, slice) in
      elim (Bool-cases (j == k)) [
        | inl hit ↦
            let here : b ≡ a = ground arith in
            range-storage es a s.0 s.1 (rw (← here) d.0) ∙ rw here (step-left j a c slice)
        | inr miss ↦
            let there : lookup k es ≡ some a = ground arith in
            range-left es k a s.0 s.1 d.1 there
            ∙ ap left (step-storage j b a c slice (NotAt-lookup b a k es d.0 there))
      ]

-- GetUserTrafficSlice reports one entry, with both counts, for each user whose counts together pass
-- the minimum and whose uid is not 0, in the order of the table and nothing else; and it leaves each
-- user's storage as it was, unless the reset was asked for and the counts pass the minimum: then both
-- are 0.
pub take_traffic-accounts :
    (min : ℤ) (reset : Bool) (uids : Map Str ℤ) (k : Str) (a : Addr) (c : TrafficCounter)
    → IsValid c
    → lookup k c.counters ≡ some a
    → let (c', slice) = take_traffic min reset uids c in
      (slice ≡ due min uids c c.counters)
      × (storage c' a ≡ (if over min (storage c a) && reset then no_traffic else storage c a))
unfolding take_traffic
take_traffic-accounts min reset uids k a c v e = (
  range-slice min reset uids c.counters c [] v.apart,
  range-left min reset uids c.counters k a c [] v.apart e,
)
