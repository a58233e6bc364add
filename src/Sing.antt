-- ===== src/Sing.antt =====
-- core/sing: the hook that sees every connection of a sing-box core, and the traffic of its users. The
-- box itself is github.com/sagernet/sing-box and calls the hook.
pub mod Admission
use bxtest.Prelude.{
  Str, ℤ, pos, text_eq, Bool, true, false, not, ◌&&◌, ◌||◌, if◌then◌else◌, Option, none, some, List,
  [], ◌∷◌, Map, lookup, insert, erase, get_or_default, Result, ok, err, codes, ◌++◌, ◌==◌, Addr,
  write,
}
use bxtest.Format.{user_tag}
use bxtest.Panel.{UserTraffic, UserInfo, NodeInfo}
use bxtest.Counter.Traffic.{
  TrafficCounter, new_traffic_counter, get_counter, get_up_count, get_down_count, reset, delete,
}
use bxtest.Counter.Slice.{take_traffic}
use bxtest.Limiter.State.{Limiter}
use bxtest.Limiter.Check.{check_limit}
use bxtest.Limiter.Rule.{check_domain_rule, check_protocol_rule}
use bxtest.Limiter.Users.{Registry, get_limiter}

-- adapter.InboundContext: `source` is Source.Addr.String(), `destination` is
-- Destination.AddrString(), `network` is Destination.Network()
pub record Inbound : Type 0 where
  pub inbound : Str
  pub user : Str
  pub source : Str
  pub destination : Str
  pub protocol : Str
  pub network : Str

-- What a hook does with a connection: it gives it back as it came, it closes it, or it gives back one
-- that goes through a bucket, if there is one, and counts into the storage at an address.
pub data Fate (Bucket : Type 0) : Type 0 where
  untouched closed : Fate Bucket
  tracked : Option Bucket → Addr → Fate Bucket

-- HookServer of core/sing/hook.go, with the limiters that it goes through
pub record Hook (Bucket Regexp : Type 0) : Type 0 where
  pub counter : Map Str TrafficCounter
  pub registry : Registry Bucket Regexp

abbrev is_given : Str → Bool
is_given [] = false
is_given (c ∷ cs) = true

module _ {Bucket Regexp : Type 0} where
  -- t.GetCounter(m.User) on the counter of the inbound, which is made if it is missing
  unfoldable pub track :
      Option Bucket → Inbound → Hook Bucket Regexp → Fate Bucket × Hook Bucket Regexp
  track bucket m h =
      let t = get_or_default new_traffic_counter (lookup m.inbound h.counter) in
      let (a, t') = get_counter m.user t in
      (tracked bucket a, record h { counter = insert m.inbound t' h.counter })

  abbrev pub put_after : Addr → Limiter Bucket Regexp → Hook Bucket Regexp → Hook Bucket Regexp
  put_after p l h = record h {
    registry = record h.registry { objects = write p l h.registry.objects };
  }

module _ {Bucket Regexp : Type 0} (new_bucket : ℤ → ℤ → ℤ → Bucket)
    (match_string : Regexp → Str → Bool) where
  -- CheckDomainRule, and CheckProtocolRule for a protocol that is not empty
  unfoldable pub breaks_rule : Limiter Bucket Regexp → Str → Str → Bool
  breaks_rule l destination protocol =
      if check_domain_rule match_string l destination
      then true
      else is_given protocol && check_protocol_rule l protocol

  -- func (h *HookServer) RoutedConnection(_, conn, m, _, _)
  unfoldable pub routed_connection :
      ℤ → Inbound → Hook Bucket Regexp → Fate Bucket × Hook Bucket Regexp
  routed_connection now m h = elim (get_limiter m.inbound h.registry) [
    | none ↦ (untouched, h)
    | some p ↦
        let l = h.registry.objects.cell p in
        let r = check_limit new_bucket now l (user_tag m.inbound m.user) m.source true true in
        let h' = put_after p r.after h in
        if r.reject || breaks_rule r.after m.destination m.protocol
        then (closed, h')
        else track r.bucket m h'
  ]

  -- func (h *HookServer) RoutedPacketConnection(_, conn, m, _, _): the bucket is not used, and the
  -- protocol is the network of the destination
  unfoldable pub routed_packet_connection :
      ℤ → Inbound → Hook Bucket Regexp → Fate Bucket × Hook Bucket Regexp
  routed_packet_connection now m h = elim (get_limiter m.inbound h.registry) [
    | none ↦ (untouched, h)
    | some p ↦
        let l = h.registry.objects.cell p in
        let r = check_limit new_bucket now l (user_tag m.inbound m.user) m.source false false in
        let h' = put_after p r.after h in
        if r.reject || breaks_rule r.after m.destination m.network
        then (closed, h')
        else track none m h'
  ]

-- Sing of core/sing/sing.go, as far as the users and the traffic go; `X` is the state of the box
pub record Sing (X : Type 0) : Type 0 where
  pub counter : Map Str TrafficCounter
  pub uid_map : Map Str ℤ
  pub node_report_min_traffic_bytes : Map Str ℤ
  pub box : X

-- the cases of the switch over info.Type in DelUsers
pub inbound_types : List Str
inbound_types =
    codes "vmess"
    ∷ codes "vless"
    ∷ codes "shadowsocks"
    ∷ codes "trojan"
    ∷ codes "tuic"
    ∷ codes "hysteria"
    ∷ codes "hysteria2"
    ∷ codes "anytls"
    ∷ []

is_one_of : Str → List Str → Bool
is_one_of t [] = false
is_one_of t (x ∷ xs) = x == t || is_one_of t xs

-- the counters of the node without the user
abbrev pub drop_counter : Str → Str → Map Str TrafficCounter → Map Str TrafficCounter
drop_counter tag uuid counters = elim (lookup tag counters) [
  | none ↦ counters
  | some c ↦ insert tag (delete uuid c) counters
]

module _ {X : Type 0} where
  -- func (b *Sing) GetUserTraffic(tag, uuid, reset)
  unfoldable pub get_user_traffic : Str → Str → Bool → Sing X → (ℤ × ℤ) × Sing X
  get_user_traffic tag uuid reset_it b = elim (lookup tag b.counter) [
    | none ↦ ((pos 0, pos 0), b)
    | some c ↦ (
      (get_up_count uuid c, get_down_count uuid c),
      if reset_it then record b { counter = insert tag (reset uuid c) b.counter } else b,
    )
  ]

  -- func (b *Sing) GetUserTrafficSlice(tag, reset)
  unfoldable pub get_user_traffic_slice : Str → Bool → Sing X → Result (List UserTraffic) × Sing X
  get_user_traffic_slice tag reset_it b = elim (lookup tag b.counter) [
    | none ↦ (ok [], b)
    | some c ↦
        let min = get_or_default (pos 0) (lookup tag b.node_report_min_traffic_bytes) in
        let (c', slice) = take_traffic min reset_it b.uid_map c in
        (ok slice, record b { counter = insert tag c' b.counter })
  ]

  -- the loop of DelUsers: the uuids, and the core without the users
  forget_users : List UserInfo → Str → List Str × Sing X → List Str × Sing X
  forget_users [] tag acc = acc
  forget_users (u ∷ us) tag (uuids, b) = forget_users us tag (
    uuids ++ (u.uuid ∷ []),
    record b { counter = drop_counter tag u.uuid b.counter; uid_map = erase u.uuid b.uid_map },
  )

  -- func (b *Sing) DelUsers(users, tag, info). The box says whether it has the inbound, and deletes
  -- users from an inbound of a type; a type that the inbound does not have panics, `none`, as does
  -- calling the nil `del` of a type that the switch does not know.
  unfoldable pub del_users :
      (Str → X → Bool)
      → (Str → Str → List Str → X → Option (Result (Unit {0}) × X))
      → List UserInfo
      → Str
      → NodeInfo
      → Sing X
      → Option (Result (Unit {0}) × Sing X)
  unfolding forget_users is_one_of
  del_users has_inbound del users tag info b =
      let (uuids, b') = forget_users users tag ([], b) in
      let answer =
        if is_one_of info.type inbound_types then del info.type tag uuids b'.box else none in
      if has_inbound tag b.box
      then elim answer [ none ↦ none | some (r, box) ↦ some (r, record b' { box = box }) ]
      else some (err (codes "the inbound not found"), b)
