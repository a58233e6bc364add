-- ===== src/Xray/Dispatch/Cached/Counted.antt =====
-- CounterReader of countreader.go under the cachedReader of default.go: what the up counter shows.
use bxtest.Prelude.{
  Str, ℤ, pos, ◌+ℤ◌, wrap64, ℕ, ◌+◌, ◌<◌, ◌^◌, zero, suc, ltb, length, length-append, if◌then◌else◌,
  List, [], ◌∷◌, ◌++◌, Result, ok, err, ◌≡◌, sym, ap, ◌∙◌, arith,
}
use bxtest.Xray.Dispatch.Cached.{
  TimeoutReader, CachedReader, count_read, counter_reader, read_internal, cached_reader, show_cache,
  cache_into, Op, caches, reads, reads_timeout, got, use_reader, use_all, one_second,
}
use bxtest.Xray.Dispatch.Cached.Kept.{IsReader, use_all-sent}

-- What holds of a reader and is kept by its reads is kept by any calls on the cachedReader around it.
module _ {S : Type 0} (t : TimeoutReader S) (P : S → Type 0)
    (on_read : (s : S) → P s → P (t.read_multi_buffer s).1)
    (on_read_timeout : (n : ℕ) (s : S) → P s → P (t.read_multi_buffer_timeout n s).1) where
  show_cache-keeps :
      (room : ℕ) (cache : Str) (x : Result Str × S) → P x.1 → P (show_cache room cache x).1.reader
  show_cache-keeps room cache (err e, s) h = h
  show_cache-keeps room cache (ok mb, s) h = h

  read_internal-keeps :
      (next : S → Result Str × S) (s : S) (cache : Str)
      → P (next s).1
      → P s
      → P (read_internal next (record { reader = s; cache = cache })).1.reader
  read_internal-keeps next s [] k h = k
  read_internal-keeps next s (c ∷ cs) k h = h

  use_reader-keeps : (o : Op) (r : CachedReader S) → P r.reader → P (use_reader t o r).1.reader
  unfolding use_reader cache_into cached_reader
  use_reader-keeps (caches room n) r h =
      show_cache-keeps room r.cache (t.read_multi_buffer_timeout n r.reader)
        (on_read_timeout n r.reader h)
  use_reader-keeps reads r h =
      read_internal-keeps t.read_multi_buffer r.reader r.cache (on_read r.reader h) h
  use_reader-keeps (reads_timeout n) r h =
      read_internal-keeps (t.read_multi_buffer_timeout n) r.reader r.cache
        (on_read_timeout n r.reader h) h

  use_all-keeps : (os : List Op) (r : CachedReader S) → P r.reader → P (use_all t os r).1.reader
  unfolding use_all
  use_all-keeps [] r h = h
  use_all-keeps (o ∷ os) r h = use_all-keeps os (use_reader t o r).1 (use_reader-keeps o r h)

add_pos :
    (m k : ℕ) → m + k < 2 ^ 63 → (if ltb 0 k then wrap64 (pos m +ℤ pos k) else pos m) ≡ pos (m + k)
unfolding wrap64 ◌+ℤ◌
add_pos m zero lt = ap pos (omega arith)
add_pos m (suc k) lt = ground arith

module _ {S : Type 0} (t : TimeoutReader S) (sent : S → Str) (is_reader : IsReader t sent) where
  count_read-sent :
      (n : ℤ) (s : S) (x : Result Str × S)
      → sent x.1 ≡ sent s ++ got x.0
      → sent (count_read n x).1.0 ≡ sent s ++ got (count_read n x).0
  count_read-sent n s (err e, s') h = h
  count_read-sent n s (ok mb, s') h = h

  -- A CounterReader hands out what the reader in it does.
  counter_reader-IsReader : IsReader (counter_reader t) (λ s. sent s.0)
  unfolding counter_reader
  counter_reader-IsReader = record {
    reads_on = λ s. count_read-sent s.1 s.0 (t.read_multi_buffer s.0) (is_reader.reads_on s.0);
    reads_on_timeout = λ n s.
        count_read-sent s.1 s.0 (t.read_multi_buffer_timeout one_second s.0)
          (is_reader.reads_on_timeout one_second s.0);
  }

  -- the counter has started at `u` and shows what was handed out, as long as that fits in an int64
  abbrev Shown : ℕ → S × ℤ → Type 0
  Shown u s = u + length (sent s.0) < 2 ^ 63 → s.1 ≡ pos (u + length (sent s.0))

  count_read-Shown :
      (u : ℕ) (n : ℤ) (s : S) (x : Result Str × S)
      → sent x.1 ≡ sent s ++ got x.0
      → Shown u (s, n)
      → Shown u (count_read n x).1
  count_read-Shown u n s (err e, s') h shown lt =
      let same = ap length h ∙ length-append (sent s) [] in
      shown (omega arith) ∙ ap pos (omega arith)
  count_read-Shown u n s (ok mb, s') h shown lt =
      let grown = ap length h ∙ length-append (sent s) mb in
      rw (shown (omega arith), add_pos (u + length (sent s)) (length mb) (omega arith))
        (ap pos (omega arith))

  use_all-Shown :
      (u : ℕ) (os : List Op) (r : CachedReader (S × ℤ))
      → Shown u r.reader
      → Shown u (use_all (counter_reader t) os r).1.reader
  unfolding counter_reader
  use_all-Shown u =
      use_all-keeps (counter_reader t) (Shown u)
        (λ s. count_read-Shown u s.1 s.0 (t.read_multi_buffer s.0) (is_reader.reads_on s.0))
        (λ n s.
          count_read-Shown u s.1 s.0 (t.read_multi_buffer_timeout one_second s.0)
            (is_reader.reads_on_timeout one_second s.0))

  -- The up counter of a user counts each byte once: after any calls on a new cachedReader around a
  -- CounterReader whose reader has handed out nothing yet, the counter, which was `u`, is `u` and the
  -- bytes that the outbound got and those in the cache, as long as the sum fits in an int64.
  pub use_all-counter :
      (u : ℕ) (os : List Op) (s : S) (out : Str) (r : CachedReader (S × ℤ))
      → sent s ≡ []
      → use_all (counter_reader t) os (record { reader = (s, pos u); cache = [] }) ≡ (out, r)
      → u + length (out ++ r.cache) < 2 ^ 63
      → r.reader.1 ≡ pos (u + length (out ++ r.cache))
  use_all-counter u os s out r fresh run fits =
      let flows : sent r.reader.0 ≡ out ++ r.cache =
        rw (run, fresh) at
          (use_all-sent (counter_reader t) (λ x. sent x.0) counter_reader-IsReader os (s, pos u)) in
      let start : Shown u (s, pos u) = λ lt. rw fresh (ap pos (omega arith)) in
      let shown : Shown u r.reader =
        rw run at (use_all-Shown u os (record { reader = (s, pos u); cache = [] }) start) in
      rw (sym flows) (shown (rw flows fits))
