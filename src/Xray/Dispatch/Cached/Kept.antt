-- ===== src/Xray/Dispatch/Cached/Kept.antt =====
-- The bytes of a link pass the readers of default.go and countreader.go once and in order.
use bxtest.Prelude.{
  Str, ℕ, take, drop, take-append-drop, List, [], ◌∷◌, ◌++◌, Result, ok, err, err_absurd, ok_inj,
  zero, suc, ◌≡◌, ◌≢◌, refl, sym, ap, ◌∙◌,
}
use mathlib.Core.List.{append-nil, append_assoc}
use bxtest.Xray.Dispatch.Cached.{
  TimeoutReader, CachedReader, read_internal, cached_reader, show_cache, cache_into, Op, caches,
  reads, reads_timeout, got, use_reader, use_all,
}

-- What a reader hands out, `sent`, only grows, by what each call answers.
pub record IsReader {S : Type 0} (t : TimeoutReader S) (sent : S → Str) : Type 0 where
  pub reads_on : (s : S) → sent (t.read_multi_buffer s).1 ≡ sent s ++ got (t.read_multi_buffer s).0
  pub reads_on_timeout :
      (n : ℕ) (s : S)
      → sent (t.read_multi_buffer_timeout n s).1 ≡ sent s ++ got (t.read_multi_buffer_timeout n s).0

module _ {S : Type 0} (sent : S → Str) where
  -- all that was handed out has been given on or stands in the cache
  abbrev Kept : Str → CachedReader S → Type 0
  Kept before r = sent r.reader ≡ before ++ r.cache

  show_cache-Kept :
      (room : ℕ) (cache before : Str) (s : S) (x : Result Str × S)
      → sent s ≡ before ++ cache
      → sent x.1 ≡ sent s ++ got x.0
      → Kept before (show_cache room cache x).1
  show_cache-Kept room cache before s (err e, s') h k = k ∙ append-nil (sent s) ∙ h
  show_cache-Kept room cache before s (ok mb, s') h k = rw (k, h, append_assoc before cache mb) refl

  read_internal-Kept :
      (next : S → Result Str × S) (before : Str) (s : S) (cache : Str)
      → (sent (next s).1 ≡ sent s ++ got (next s).0)
      → sent s ≡ before ++ cache
      → Kept
          (before ++ got (read_internal next (record { reader = s; cache = cache })).0)
          (read_internal next (record { reader = s; cache = cache })).1
  read_internal-Kept next before s [] k h =
      rw (k, h, append-nil before, append-nil (before ++ got (next s).0)) refl
  read_internal-Kept next before s (c ∷ cs) k h = h ∙ sym (append-nil (before ++ c ∷ cs))

module _ {S : Type 0} (t : TimeoutReader S) (sent : S → Str) (is_reader : IsReader t sent) where
  use_reader-Kept :
      (o : Op) (before : Str) (s : S) (cache : Str)
      → sent s ≡ before ++ cache
      → Kept sent
          (before ++ (use_reader t o (record { reader = s; cache = cache })).0)
          (use_reader t o (record { reader = s; cache = cache })).1
  unfolding use_reader cache_into cached_reader
  use_reader-Kept (caches room deadline) before s cache h = rw (append-nil before) (
      show_cache-Kept sent room cache before s (t.read_multi_buffer_timeout deadline s) h
        (is_reader.reads_on_timeout deadline s))
  use_reader-Kept reads before s cache h =
      read_internal-Kept sent t.read_multi_buffer before s cache (is_reader.reads_on s) h
  use_reader-Kept (reads_timeout n) before s cache h =
      read_internal-Kept sent (t.read_multi_buffer_timeout n) before s cache
        (is_reader.reads_on_timeout n s) h

  use_all-from :
      (os : List Op) (before : Str) (r : CachedReader S)
      → Kept sent before r
      → Kept sent (before ++ (use_all t os r).0) (use_all t os r).1
  unfolding use_all
  use_all-from [] before r h = rw (append-nil before) h
  use_all-from (o ∷ os) before r h =
      let step = use_reader-Kept o before r.reader r.cache h in
      let (a, r') = use_reader t o r in
      rw (sym (append_assoc before a (use_all t os r').0)) (use_all-from os (before ++ a) r' step)

  -- The sniffing loses nothing and changes no order: after any calls of Cache, ReadMultiBuffer and
  -- ReadMultiBufferTimeout on a new cachedReader, what the reader in it has handed out since is what the
  -- calls gave the outbound, and then what stands in the cache.
  pub use_all-sent :
      (os : List Op) (s : S)
      → sent (use_all t os (record { reader = s; cache = [] })).1.reader
        ≡ (sent s ++ (use_all t os (record { reader = s; cache = [] })).0)
          ++ (use_all t os (record { reader = s; cache = [] })).1.cache
  use_all-sent os s =
      use_all-from os (sent s) (record { reader = s; cache = [] }) (sym (append-nil (sent s)))

module _ {S : Type 0} (next : S → Result Str × S) where
  read_internal-take :
      (room : ℕ) (s : S) (all b : Str)
      → take room all ≡ b
      → b ≢ []
      → (rest : Str) × ((read_internal next (record { reader = s; cache = all })).0
          ≡ ok (b ++ rest))
  read_internal-take zero s [] b e filled = absurd (filled (sym e))
  read_internal-take (suc room) s [] b e filled = absurd (filled (sym e))
  read_internal-take room s (c ∷ cs) b e filled =
      (drop room (c ∷ cs), ap ok (rw (sym e, take-append-drop room (c ∷ cs)) refl))

  read_internal-show_cache :
      (room : ℕ) (cache : Str) (x : Result Str × S) (b : Str)
      → (show_cache room cache x).0 ≡ ok b
      → b ≢ []
      → (rest : Str) × ((read_internal next (show_cache room cache x).1).0 ≡ ok (b ++ rest))
  read_internal-show_cache room cache (err e, s) b h filled = err_absurd h
  read_internal-show_cache room cache (ok mb, s) b h filled =
      read_internal-take room s (cache ++ mb) b (ok_inj h) filled

-- What the sniffers looked at is what the outbound reads first: when Cache filled the buffer with `b`,
-- which is not empty, the next read succeeds and begins with `b`.
pub read_multi_buffer-cache_into :
    {S : Type 0} (t : TimeoutReader S) (room deadline : ℕ) (r : CachedReader S) (b : Str)
    → (cache_into t room deadline r).0 ≡ ok b
    → b ≢ []
    → (rest : Str) × (((cached_reader t).read_multi_buffer (cache_into t room deadline r).1).0
        ≡ ok (b ++ rest))
unfolding cached_reader cache_into
read_multi_buffer-cache_into t room deadline r b h filled =
    read_internal-show_cache t.read_multi_buffer room r.cache
      (t.read_multi_buffer_timeout deadline r.reader) b h filled
