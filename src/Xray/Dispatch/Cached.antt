-- ===== src/Xray/Dispatch/Cached.antt =====
-- core/xray/app/dispatcher: the readers that stand around the reader of a link, CounterReader of
-- countreader.go and cachedReader of default.go. A MultiBuffer is its bytes; an empty one and nil are the same.
pub mod Kept
pub mod Counted
use bxtest.Prelude.{
  Str, ℤ, pos, ◌+ℤ◌, wrap64, ℕ, ltb, length, take, if◌then◌else◌, Option, none, some, List, [], ◌∷◌,
  ◌++◌, Result, ok, err,
}

-- buf.TimeoutReader with the state S. `interrupt` is there for a *pipe.Reader only.
pub record TimeoutReader (S : Type 0) : Type 0 where
  pub read_multi_buffer : S → Result Str × S
  pub read_multi_buffer_timeout : ℕ → S → Result Str × S
  pub interrupt : Option (S → S)

-- cachedReader
pub record CachedReader (S : Type 0) : Type 0 where
  pub reader : S
  pub cache : Str

-- time.Second
abbrev pub one_second : ℕ
one_second = 1000000000

module _ {S : Type 0} where
  -- what both methods of CounterReader do with the answer of the reader in it
  abbrev pub count_read : ℤ → Result Str × S → Result Str × (S × ℤ)
  count_read n (err e, s) = (err e, (s, n))
  count_read n (ok mb, s) =
      (ok mb, (s, if ltb 0 (length mb) then wrap64 (n +ℤ pos (length mb)) else n))

  -- CounterReader: its state is that of the reader in it, and the counter. The time-out is not passed on.
  unfoldable pub counter_reader : TimeoutReader S → TimeoutReader (S × ℤ)
  counter_reader t = record {
    read_multi_buffer = λ s. count_read s.1 (t.read_multi_buffer s.0);
    read_multi_buffer_timeout =
        λ timeout s. count_read s.1 (t.read_multi_buffer_timeout one_second s.0);
    interrupt = none;
  }

  -- if the cache holds something it is the answer, and else `next` answers
  abbrev pub read_internal : (S → Result Str × S) → CachedReader S → Result Str × CachedReader S
  read_internal next r = elim r.cache [
    | [] ↦ let (x, s) = next r.reader in (x, record r { reader = s })
    | c ∷ cs ↦ (ok (c ∷ cs), record r { cache = [] })
  ]

  -- func (r *cachedReader) ReadMultiBuffer(), ReadMultiBufferTimeout(timeout)
  unfoldable pub cached_reader : TimeoutReader S → TimeoutReader (CachedReader S)
  cached_reader t = record {
    read_multi_buffer = read_internal t.read_multi_buffer;
    read_multi_buffer_timeout = λ timeout. read_internal (t.read_multi_buffer_timeout timeout);
    interrupt = none;
  }

  -- the answer of the reader joins the cache, and what fits into a buffer of `room` bytes is shown
  abbrev pub show_cache : ℕ → Str → Result Str × S → Result Str × CachedReader S
  show_cache room cache (err e, s) = (err e, record { reader = s; cache = cache })
  show_cache room cache (ok mb, s) =
      (ok (take room (cache ++ mb)), record { reader = s; cache = cache ++ mb })

  -- func (r *cachedReader) Cache(b, deadline): what b holds after it, or the error
  unfoldable pub cache_into : TimeoutReader S → ℕ → ℕ → CachedReader S → Result Str × CachedReader S
  cache_into t room deadline r =
      show_cache room r.cache (t.read_multi_buffer_timeout deadline r.reader)

  -- func (r *cachedReader) Interrupt()
  unfoldable pub interrupt_cached : TimeoutReader S → CachedReader S → CachedReader S
  interrupt_cached t r = elim t.interrupt [
    | none ↦ record r { cache = [] }
    | some f ↦ record { reader = f r.reader; cache = [] }
  ]

-- a call of the sniffing or of the outbound
pub data Op : Type 0 where
  caches : ℕ → ℕ → Op
  reads : Op
  reads_timeout : ℕ → Op

abbrev pub got : Result Str → Str
got (ok mb) = mb
got (err e) = []

module _ {S : Type 0} (t : TimeoutReader S) where
  -- what a call gives the outbound, and the reader after it
  unfoldable pub use_reader : Op → CachedReader S → Str × CachedReader S
  unfolding cache_into cached_reader
  use_reader (caches room deadline) r = ([], (cache_into t room deadline r).1)
  use_reader reads r = let (x, r') = (cached_reader t).read_multi_buffer r in (got x, r')
  use_reader (reads_timeout timeout) r =
      let (x, r') = (cached_reader t).read_multi_buffer_timeout timeout r in (got x, r')

  -- calls one after the other, with all that they gave
  unfoldable pub use_all : List Op → CachedReader S → Str × CachedReader S
  unfolding use_reader
  use_all [] r = ([], r)
  use_all (o ∷ os) r = let (a, r') = use_reader o r in let (b, r'') = use_all os r' in (a ++ b, r'')
