-- ===== src/Counter/Conn/Counting.antt =====
-- What a connection's calls add up to.
use bxtest.Prelude.{
  ℤ, pos, negsuc, true, false, Addr, List, [], ◌∷◌, ◌+ℤ◌, wrap64, ℕ, ◌+◌, ◌<◌, ◌^◌, ◌≡◌, ◌∙◌, ap,
  arith,
}
use bxtest.Counter.Traffic.{TrafficCounter, storage}
use bxtest.Counter.Conn.{
  Call, reads, writes, reads_buffer, writes_buffer, reads_packet, writes_packet, counts_read,
  counts_write, call,
}

unfoldable pub calls : Addr → List Call → TrafficCounter → TrafficCounter
calls a [] c = c
calls a (k ∷ ks) c = calls a ks (call a k c)

-- the bytes that a call brought up and down, by what the wrapped connection did
abbrev pub moved_up : Call → ℕ
moved_up (reads (pos n)) = n
moved_up (reads_buffer false (pos n)) = n
moved_up (reads_packet false (pos n)) = n
moved_up (counts_read (pos n)) = n
moved_up _ = 0

abbrev pub total_up : List Call → ℕ
total_up [] = 0
total_up (k ∷ ks) = moved_up k + total_up ks

-- a call whose length is no negative number, and that is not the plain Read
abbrev pub IsCounted : Call → Type 0
IsCounted (reads n) = ⊥
IsCounted (reads_buffer failed (negsuc n)) = ⊥
IsCounted (reads_packet failed (negsuc n)) = ⊥
IsCounted (counts_read (negsuc n)) = ⊥
IsCounted _ = Unit {0}

abbrev pub AllCounted : List Call → Type 0
AllCounted [] = Unit {0}
AllCounted (k ∷ ks) = IsCounted k × AllCounted ks

sum_fits : (u n : ℕ) → u + n < 2 ^ 63 → wrap64 (pos u +ℤ pos n) ≡ pos (u + n)
unfolding ◌+ℤ◌ wrap64
sum_fits u n h = ground arith

-- what the storage of the connection shows after a call
unfoldable pub up_at : Addr → TrafficCounter → ℤ
up_at a c = (storage c a).up_counter

call-up :
    (a : Addr) (k : Call) (c : TrafficCounter) (u : ℕ)
    → IsCounted k
    → up_at a c ≡ pos u
    → u + moved_up k < 2 ^ 63
    → up_at a (call a k c) ≡ pos (u + moved_up k)
unfolding call up_at
call-up a (reads n) c u h e lt = absurd h
call-up a (writes n) c u h e lt = ground arith
call-up a (reads_buffer failed (negsuc n)) c u h e lt = absurd h
call-up a (reads_buffer true (pos n)) c u h e lt = ground arith
call-up a (reads_buffer false (pos n)) c u h e lt = ground (arith, sum_fits u n)
call-up a (writes_buffer failed n) c u h e lt = ground arith
call-up a (reads_packet failed (negsuc n)) c u h e lt = absurd h
call-up a (reads_packet true (pos n)) c u h e lt = ground arith
call-up a (reads_packet false (pos n)) c u h e lt = ground (arith, sum_fits u n)
call-up a (writes_packet failed n) c u h e lt = ground arith
call-up a (counts_read (negsuc n)) c u h e lt = absurd h
call-up a (counts_read (pos n)) c u h e lt = ground (arith, sum_fits u n)
call-up a (counts_write n) c u h e lt = ground arith

-- Calls that go by ReadBuffer, ReadPacket or the counting functions add up: after any run of calls
-- without a plain Read the up count is the one of before and every byte that came in, as long as the
-- sum fits in an int64. Failed calls and writes add nothing to it.
pub calls-up :
    (a : Addr) (ks : List Call) (c : TrafficCounter) (u : ℕ)
    → AllCounted ks
    → up_at a c ≡ pos u
    → u + total_up ks < 2 ^ 63
    → up_at a (calls a ks c) ≡ pos (u + total_up ks)
unfolding calls
calls-up a [] c u h e lt = ground arith
calls-up a (k ∷ ks) c u h e lt =
    calls-up a ks (call a k c) (u + moved_up k) h.1 (call-up a k c u h.0 e (omega arith))
      (omega arith)
    ∙ ap pos (omega arith)
