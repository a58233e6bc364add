-- ===== src/Tests/Traffic.antt =====
-- Runs of the traffic counter, of connections and of the Hysteria2 core.
use bxtest.Prelude.{
  List, false, Str, codes, ℤ, pos, zero, suc, text_eq, int_eq, str_eq, true, if◌then◌else◌, ◌&&◌,
  some, [], ◌∷◌, Map, lookup, ◌≡◌, refl, arith,
}
use bxtest.Counter.Traffic.{TrafficCounter, storage, no_traffic}
use bxtest.Counter.Traffic.Laws.{IsValid}
use bxtest.Counter.Slice.{over, take_traffic}
use bxtest.Counter.Slice.Accounting.{due, take_traffic-accounts}
use bxtest.Counter.Conn.{Call, reads_packet, reads_buffer, counts_read, writes}
use bxtest.Counter.Conn.Counting.{calls, up_at, calls-up}
use bxtest.Hy2.{HookServer, Hysteria2, Logger, log_traffic, counter_of}
use bxtest.Hy2.Traffic.{Outcome, log_traffic-Outcome}
use bxtest.Tests.Data.{tag, limiter}

-- a has brought up 5 bytes and got 90, b nothing yet
abbrev counter : TrafficCounter
counter = record {
  counters = (codes "a", 0) ∷ (codes "b", 1) ∷ [];
  storages = record {
    cell = λ a. elim a [
      | zero ↦ record { up_counter = pos 5; down_counter = pos 90 }
      | suc n ↦ no_traffic
    ];
    next = 2;
  };
}

counter-IsValid : IsValid counter
counter-IsValid = record {
  apart = ((λ e. cc, tt), (tt, tt));
  allocated = (omega arith, (omega arith, tt));
}

found_a : lookup (codes "a") counter.counters ≡ some 0
unfolding lookup str_eq
found_a = refl

abbrev uids : Map Str ℤ
uids = (codes "a", pos 7) ∷ (codes "b", pos 8) ∷ []

take_traffic-accounts_example :
    let (c, slice) = take_traffic (pos 10) true uids counter in
    (slice ≡ due (pos 10) uids counter counter.counters)
    × (storage c 0
        ≡ (if over (pos 10) (storage counter 0) && true then no_traffic else storage counter 0))
take_traffic-accounts_example =
    take_traffic-accounts (pos 10) true uids (codes "a") 0 counter counter-IsValid found_a

abbrev hook : HookServer
hook = record { tag = tag; counter = (tag, counter) ∷ []; report_min_traffic_bytes = pos 1024 }

abbrev hysteria : Hysteria2
hysteria = record { hy2nodes = (tag, hook) ∷ []; users_map = uids }

found_hook : lookup tag hysteria.hy2nodes ≡ some hook
unfolding lookup str_eq
found_hook = refl

abbrev logger : Logger ℤ Str
logger = record {
  hook = hook;
  registry = record { table = (tag, 0) ∷ []; objects = record { cell = λ p. limiter; next = 1 } };
}

counted_validly : IsValid (counter_of tag hook)
unfolding lookup str_eq
counted_validly = counter-IsValid

log_traffic-Outcome_example :
    Outcome (codes "b") 10 20 logger (log_traffic (codes "b") 10 20 logger)
log_traffic-Outcome_example = log_traffic-Outcome (codes "b") 10 20 logger counted_validly

-- a packet of 7 bytes, a buffer that fails, and 3 bytes by a counting function; then 9 bytes go down
abbrev four_calls : List Call
four_calls =
    reads_packet false (pos 7)
    ∷ reads_buffer true (pos 4)
    ∷ counts_read (pos 3)
    ∷ writes (pos 9)
    ∷ []

calls-up_example : up_at 0 (calls 0 four_calls counter) ≡ pos 15
unfolding up_at
calls-up_example = calls-up 0 four_calls counter 5 (tt, (tt, (tt, (tt, tt)))) refl (omega arith)
