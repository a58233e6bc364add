-- ===== src/Counter/Traffic.antt =====
-- common/counter/traffic.go and xraytraffic.go. A *TrafficStorage is an address in the heap of its
-- TrafficCounter, since connections keep the pointer that GetCounter gave them.
pub mod Distinct
pub mod Laws
use bxtest.Prelude.{
  Str, ℤ, pos, text_eq, ℕ, suc, Option, none, some, List, [], ◌∷◌, Map, lookup, insert, erase, Heap,
  Addr, alloc, write, ◌+ℤ◌, wrap64, length,
}

pub record TrafficStorage : Type 0 where
  pub up_counter : ℤ
  pub down_counter : ℤ

pub record TrafficCounter : Type 0 where
  pub counters : Map Str Addr
  pub storages : Heap TrafficStorage

-- &TrafficStorage{}
abbrev pub no_traffic : TrafficStorage
no_traffic = record { up_counter = pos 0; down_counter = pos 0 }

abbrev pub storage : TrafficCounter → Addr → TrafficStorage
storage c a = c.storages.cell a

abbrev pub put : Addr → TrafficStorage → TrafficCounter → TrafficCounter
put a s c = record c { storages = write a s c.storages }

-- atomic.Int64.Add on a counter of the storage at `a`
abbrev pub add_up : Addr → ℤ → TrafficCounter → TrafficCounter
add_up a n c =
    put a (record (storage c a) { up_counter = wrap64 ((storage c a).up_counter +ℤ n) }) c

abbrev pub add_down : Addr → ℤ → TrafficCounter → TrafficCounter
add_down a n c =
    put a (record (storage c a) { down_counter = wrap64 ((storage c a).down_counter +ℤ n) }) c

-- func NewTrafficCounter()
unfoldable pub new_traffic_counter : TrafficCounter
new_traffic_counter = record {
  counters = [];
  storages = record { cell = λ a. no_traffic; next = 0 };
}

-- func (c *TrafficCounter) GetCounter(uuid): the pointer, and the counter after the call
unfoldable pub get_counter : Str → TrafficCounter → Addr × TrafficCounter
get_counter uuid c = elim (lookup uuid c.counters) [
  | some a ↦ (a, c)
  | none ↦ (
    c.storages.next,
    record {
      counters = insert uuid c.storages.next c.counters;
      storages = alloc no_traffic c.storages;
    },
  )
]

-- func (c *TrafficCounter) GetUpCount(uuid)
unfoldable pub get_up_count : Str → TrafficCounter → ℤ
get_up_count uuid c = elim (lookup uuid c.counters) [
  | some a ↦ (storage c a).up_counter
  | none ↦ pos 0
]

-- func (c *TrafficCounter) GetDownCount(uuid)
unfoldable pub get_down_count : Str → TrafficCounter → ℤ
get_down_count uuid c = elim (lookup uuid c.counters) [
  | some a ↦ (storage c a).down_counter
  | none ↦ pos 0
]

-- func (c *TrafficCounter) Len()
unfoldable pub len : TrafficCounter → ℕ
len c = length c.counters

-- func (c *TrafficCounter) Reset(uuid)
unfoldable pub reset : Str → TrafficCounter → TrafficCounter
reset uuid c = elim (lookup uuid c.counters) [ some a ↦ put a no_traffic c | none ↦ c ]

-- func (c *TrafficCounter) Delete(uuid)
unfoldable pub delete : Str → TrafficCounter → TrafficCounter
delete uuid c = record c { counters = erase uuid c.counters }

-- func (c *TrafficCounter) Rx(uuid, n)
unfoldable pub rx : Str → ℤ → TrafficCounter → TrafficCounter
unfolding get_counter
rx uuid n c = let (a, c') = get_counter uuid c in add_down a n c'

-- func (c *TrafficCounter) Tx(uuid, n)
unfoldable pub tx : Str → ℤ → TrafficCounter → TrafficCounter
unfolding get_counter
tx uuid n c = let (a, c') = get_counter uuid c in add_up a n c'
