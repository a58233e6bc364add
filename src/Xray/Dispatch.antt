-- ===== src/Xray/Dispatch.antt =====
-- core/xray/app/dispatcher/default.go: the links of a connection, getLink and the part of DispatchLink
-- before the sniffing. The n-th pipe.New gives the reader n and the writer n.
pub mod Links
pub mod Route
pub mod Override
pub mod Sniff
pub mod Cached
use bxtest.Prelude.{
  Str, codes, ℤ, ℕ, nat_beq, nat_eq, text_eq, Bool, true, false, ◌==◌, Option, none, some, [], ◌∷◌,
  ◌++◌, List, lookup, insert, get_or_default, Result, ok, err, Addr, write, ◌+◌, if◌then◌else◌,
}
use bxtest.Counter.Traffic.{TrafficCounter, new_traffic_counter, get_counter}
use bxtest.Limiter.State.{Limiter}
use bxtest.Limiter.Check.{check_limit, Verdict}
use bxtest.Limiter.Users.{Registry, get_limiter}
use bxtest.Xray.{LinkManager, add_link, Cut, Xray}

pub data Network : Type 0 where
  network_tcp : Network
  network_udp : Network
  network_other : Network

abbrev pub is_tcp : Network → Bool
is_tcp network_tcp = true
is_tcp network_udp = false
is_tcp network_other = false

-- session.Inbound: `email` is User.Email, or `none` for a User that is nil
pub record Session : Type 0 where
  pub tag : Str
  pub email : Option Str
  pub source_ip : Str
  pub source_network : Network

-- The writer of a link: the end of a pipe or of a connection, and what stands around it.
pub data Writer (Bucket : Type 0) : Type 0 where
  plain_writer : ℕ → Writer Bucket
  -- ManagedWriter, with the key of its manager
  managed : Str → ℕ → Writer Bucket
  -- rate.NewRateLimitWriter
  limited : Bucket → Writer Bucket → Writer Bucket
  -- SizeStatWriter with the up or the down counter of the storage at an address
  counts_up counts_down : Addr → Writer Bucket → Writer Bucket

pub data Reader : Type 0 where
  plain_reader : ℕ → Reader
  -- CounterReader of countreader.go, with the up counter of the storage at an address
  counting_reader : Addr → ℕ → Reader

-- transport.Link
pub record Link (Bucket : Type 0) : Type 0 where
  pub reader : Reader
  pub writer : Writer Bucket

-- DefaultDispatcher in its xray core, with the limiters that it goes through and the pipes so far
pub record Dispatcher (Bucket Regexp M : Type 0) : Type 0 where
  pub xray : Xray M
  pub registry : Registry Bucket Regexp
  pub pipes : ℕ

-- user != nil && len(user.Email) > 0
abbrev pub user_of : Option Session → Option (Session × Str)
user_of none = none
user_of (some s) = elim s.email [ none ↦ none | some [] ↦ none | some (c ∷ cs) ↦ some (s, c ∷ cs) ]

-- a writer behind the bucket, if there is one
abbrev pub limit_writer : {Bucket : Type 0} → Option Bucket → Writer Bucket → Writer Bucket
limit_writer none w = w
limit_writer (some b) w = limited b w

module _ {Bucket Regexp M : Type 0} where
  -- common.Close of the writers and common.Interrupt of the readers of both links
  abbrev pub cut_ends : List ℕ → List ℕ → Dispatcher Bucket Regexp M → Dispatcher Bucket Regexp M
  cut_ends writers readers d = record d {
    xray = record d.xray {
      cut = record {
        writers = d.xray.cut.writers ++ writers;
        readers = d.xray.cut.readers ++ readers;
      };
    };
  }

  -- d.LinkManagers: the link is added to the manager of the user, which is made if it is missing
  pub manage : Str → ℕ → ℕ → Dispatcher Bucket Regexp M → Dispatcher Bucket Regexp M
  manage email writer reader d = record d {
    xray = record d.xray {
      link_managers =
          insert email
            (add_link writer reader (get_or_default [] (lookup email d.xray.link_managers)))
            d.xray.link_managers;
    };
  }

  -- d.Counter: t.GetCounter(email) on the counter of the node, which is made if it is missing
  pub count_for : Str → Str → Dispatcher Bucket Regexp M → Addr × Dispatcher Bucket Regexp M
  count_for tag email d =
      let t = get_or_default new_traffic_counter (lookup tag d.xray.counter) in
      let (a, t') = get_counter email t in
      (a, record d { xray = record d.xray { counter = insert tag t' d.xray.counter } })

  abbrev pub put_after :
      Addr → Limiter Bucket Regexp → Dispatcher Bucket Regexp M → Dispatcher Bucket Regexp M
  put_after p l d = record d {
    registry = record d.registry { objects = write p l d.registry.objects };
  }

  -- getLink after CheckLimit has let the connection pass: `n` is the uplink and n + 1 the downlink
  open_link :
      Session
      → Str
      → Addr
      → Option Bucket
      → ℕ
      → Dispatcher Bucket Regexp M
      → (Link Bucket × Link Bucket × Option Addr) × Dispatcher Bucket Regexp M
  unfolding manage count_for
  open_link s email p bucket n d =
      let (a, d') = count_for s.tag email (manage email n n d) in
      (
        (
          record {
            reader = plain_reader (n + 1);
            writer = counts_up a (limit_writer bucket (managed email n));
          },
          record {
            reader = plain_reader n;
            writer = counts_down a (limit_writer bucket (plain_writer (n + 1)));
          },
          some p,
        ),
        d',
      )

  -- DispatchLink after CheckLimit has let the connection pass; `w` and `r` are the ends of the link that
  -- is given
  wrap_link :
      Session
      → Str
      → Addr
      → Option Bucket
      → ℕ
      → ℕ
      → Dispatcher Bucket Regexp M
      → (Link Bucket × Option Addr) × Dispatcher Bucket Regexp M
  unfolding manage count_for
  wrap_link s email p bucket w r d =
      let (a, d') = count_for s.tag email d in
      (
        (
          record {
            reader = counting_reader a r;
            writer = counts_down a (limit_writer bucket (managed email w));
          },
          some p,
        ),
        manage email w r d',
      )

module _ {Bucket Regexp : Type 0} (new_bucket : ℤ → ℤ → ℤ → Bucket) where
  -- limit.CheckLimit of a session's user
  abbrev pub check_session :
      ℤ → Session → Str → Network → Limiter Bucket Regexp → Verdict Bucket Regexp
  check_session now s email network l =
      check_limit new_bucket now l email s.source_ip (is_tcp network) (is_tcp s.source_network)

module _ {Bucket Regexp M : Type 0} (new_bucket : ℤ → ℤ → ℤ → Bucket) where
  -- func (d *DefaultDispatcher) getLink(ctx, network): the inbound link, the outbound link and the
  -- limiter
  unfoldable pub get_link :
      ℤ
      → Option Session
      → Network
      → Dispatcher Bucket Regexp M
      → Result (Link Bucket × Link Bucket × Option Addr) × Dispatcher Bucket Regexp M
  unfolding open_link
  get_link now inbound network d =
      let n = d.pipes in
      let opened = record d { pipes = n + 2 } in
      elim (user_of inbound) [
        | none ↦ (
          ok (
            record { reader = plain_reader (n + 1); writer = plain_writer n },
            record { reader = plain_reader n; writer = plain_writer (n + 1) },
            none,
          ),
          opened,
        )
        | some (s, email) ↦ elim (get_limiter s.tag opened.registry) [
          | none ↦ (
            err (codes "get limiter " ++ s.tag ++ codes " error: not found"),
            cut_ends ((n + 1) ∷ n ∷ []) (n ∷ (n + 1) ∷ []) opened,
          )
          | some p ↦
              let v =
                check_session new_bucket now s email network (opened.registry.objects.cell p) in
              let checked = put_after p v.after opened in
              if v.reject
              then (
                err (codes "Limited " ++ email ++ codes " by conn or ip"),
                cut_ends ((n + 1) ∷ n ∷ []) (n ∷ (n + 1) ∷ []) checked,
              )
              else let (links, d') = open_link s email p v.bucket n checked in (ok links, d')
        ]
      ]

  -- func (d *DefaultDispatcher) DispatchLink(ctx, destination, outbound), up to the sniffing
  unfoldable pub admit_link :
      ℤ
      → Option Session
      → Network
      → ℕ
      → ℕ
      → Dispatcher Bucket Regexp M
      → Result (Link Bucket × Option Addr) × Dispatcher Bucket Regexp M
  unfolding wrap_link
  admit_link now inbound network w r d = elim (user_of inbound) [
    | none ↦ (ok (record { reader = plain_reader r; writer = plain_writer w }, none), d)
    | some (s, email) ↦ elim (get_limiter s.tag d.registry) [
      | none ↦ (
        err (codes "get limiter " ++ s.tag ++ codes " error: not found"),
        cut_ends (w ∷ []) (r ∷ []) d,
      )
      | some p ↦
          let v = check_session new_bucket now s email network (d.registry.objects.cell p) in
          let checked = put_after p v.after d in
          if v.reject
          then (
            err (codes "Limited " ++ email ++ codes " by conn or ip"),
            cut_ends (w ∷ []) (r ∷ []) checked,
          )
          else let (link, d') = wrap_link s email p v.bucket w r checked in (ok link, d')
    ]
  ]
