-- ===== src/Tests/Readers.antt =====
-- Runs of the readers around the reader of a link.
use bxtest.Prelude.{
  Str, codes, ℤ, pos, ◌+ℤ◌, wrap64, ◌+◌, none, List, [], ◌∷◌, ◌++◌, Result, ok, err, ◌≡◌, refl,
  arith, sym,
}
use mathlib.Core.List.{append-nil}
use bxtest.Xray.Dispatch.Cached.{
  TimeoutReader, CachedReader, counter_reader, cached_reader, cache_into, Op, caches, reads,
  reads_timeout, got, use_all,
}
use bxtest.Xray.Dispatch.Cached.Kept.{IsReader, use_all-sent, read_multi_buffer-cache_into}
use bxtest.Xray.Dispatch.Cached.Counted.{use_all-counter}

-- the chunks that are still to come, and what was handed out
abbrev Chunks : Type 0
Chunks = List Str × Str

abbrev next_chunk : Chunks → Result Str × Chunks
next_chunk ([], out) = (err (codes "EOF"), ([], out))
next_chunk (c ∷ cs, out) = (ok c, (cs, out ++ c))

abbrev chunk_reader : TimeoutReader Chunks
chunk_reader = record {
  read_multi_buffer = next_chunk;
  read_multi_buffer_timeout = λ n. next_chunk;
  interrupt = none;
}

abbrev sent_of : Chunks → Str
sent_of s = s.1

next_chunk-sent : (s : Chunks) → sent_of (next_chunk s).1 ≡ sent_of s ++ got (next_chunk s).0
next_chunk-sent ([], out) = sym (append-nil out)
next_chunk-sent (c ∷ cs, out) = refl

chunk_reader-IsReader : IsReader chunk_reader sent_of
chunk_reader-IsReader = record {
  reads_on = next_chunk-sent;
  reads_on_timeout = λ n. next_chunk-sent;
}

abbrev hello : Chunks
hello = (codes "GET" ∷ codes " /" ∷ codes "x" ∷ [], [])

-- the sniffing looks twice, and the outbound reads
abbrev sniffed : List Op
sniffed = caches 4 200 ∷ caches 4 200 ∷ reads ∷ reads_timeout 5 ∷ reads ∷ []

use_all-sent_example :
    sent_of (use_all chunk_reader sniffed (record { reader = hello; cache = [] })).1.reader
    ≡ ([] ++ (use_all chunk_reader sniffed (record { reader = hello; cache = [] })).0)
      ++ (use_all chunk_reader sniffed (record { reader = hello; cache = [] })).1.cache
use_all-sent_example = use_all-sent chunk_reader sent_of chunk_reader-IsReader sniffed hello

sniffed-out :
    (use_all chunk_reader sniffed (record { reader = hello; cache = [] })).0 ≡ codes "GET /x"
unfolding use_all
sniffed-out = refl

abbrev after_get : CachedReader (Chunks × ℤ)
after_get = record { reader = ((codes " /" ∷ codes "x" ∷ [], codes "GET"), pos 10); cache = [] }

-- one call of Cache and one read: "GET" is out, and " /" is not asked for yet
use_all-counter_example : after_get.reader.1 ≡ pos (7 + 3)
unfolding use_all counter_reader wrap64 ◌+ℤ◌
use_all-counter_example =
    use_all-counter chunk_reader sent_of chunk_reader-IsReader 7 (caches 2 200 ∷ reads ∷ []) hello
      (codes "GET") after_get refl refl (omega arith)

read_multi_buffer-cache_into_example :
    (rest : Str) × (((cached_reader chunk_reader).read_multi_buffer
        (cache_into chunk_reader 2 200 (record { reader = hello; cache = [] })).1).0
      ≡ ok (codes "GE" ++ rest))
unfolding cache_into
read_multi_buffer-cache_into_example =
    read_multi_buffer-cache_into chunk_reader 2 200 (record { reader = hello; cache = [] })
      (codes "GE") refl (λ e. cc)
