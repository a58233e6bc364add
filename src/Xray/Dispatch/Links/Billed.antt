-- ===== src/Xray/Dispatch/Links/Billed.antt =====
-- For whom the bytes of a link of getLink are counted.
use bxtest.Prelude.{
  Str, ℤ, text_eq, ◌==◌, if◌then◌else◌, Option, none, some, Result, ok, Addr, lookup,
  get_or_default, ◌+ℤ◌, wrap64, ◌≡◌,
}
use bxtest.Counter.Traffic.{
  TrafficCounter, new_traffic_counter, get_up_count, get_down_count, add_up, add_down,
}
use bxtest.Xray.Dispatch.{Writer, counts_up, counts_down, Link, Dispatcher}

-- the storage whose up or down counter a writer adds to
abbrev pub up_storage : {Bucket : Type 0} → Writer Bucket → Option Addr
up_storage (counts_up a w) = some a
up_storage _ = none

abbrev pub down_storage : {Bucket : Type 0} → Writer Bucket → Option Addr
down_storage (counts_down a w) = some a
down_storage _ = none

-- the counter of a node, a new one if the node has none yet
abbrev pub node_counter :
    {Bucket Regexp M : Type 0} → Str → Dispatcher Bucket Regexp M → TrafficCounter
node_counter tag d = get_or_default new_traffic_counter (lookup tag d.xray.counter)

module _ {Bucket Regexp M : Type 0} where
  -- Both links of a connection count for the user `email` of the node `tag` and for nobody else: `old` is
  -- the counter of the node before.
  pub record IsBilled (tag email : Str) (old : TrafficCounter)
      (result : Result (Link Bucket × Link Bucket × Option Addr) × Dispatcher Bucket Regexp M)
      : Type 0 where
    pub inbound_link : Link Bucket
    pub outbound_link : Link Bucket
    pub limiter : Option Addr
    pub at : Addr
    pub links : result.0 ≡ ok (inbound_link, outbound_link, limiter)
    pub goes_up : up_storage inbound_link.writer ≡ some at
    pub goes_down : down_storage outbound_link.writer ≡ some at
    -- `n` bytes that pass the writer of the inbound link
    pub up :
        (j : Str) (n : ℤ)
        → get_up_count j (add_up at n (node_counter tag result.1))
          ≡ (if email == j then wrap64 (get_up_count email old +ℤ n) else get_up_count j old)
    -- `n` bytes that pass the writer of the outbound link
    pub down :
        (j : Str) (n : ℤ)
        → get_down_count j (add_down at n (node_counter tag result.1))
          ≡ (if email == j then wrap64 (get_down_count email old +ℤ n) else get_down_count j old)
