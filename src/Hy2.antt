-- ===== src/Hy2.antt =====
-- core/hy2/user.go and core/hy2/hook.go: the users, the traffic and the hook of a Hysteria2 node. The
-- QUIC server itself is github.com/apernet/hysteria and calls Authenticate and LogTraffic.
pub mod Users
pub mod Traffic
pub mod Config
pub mod Events
pub mod Nodes
use bxtest.Prelude.{
  Str, ℤ, pos, ℕ, ◌%◌, ◌^◌, text_eq, Bool, true, false, if◌then◌else◌, Option, none, some, List, [],
  ◌∷◌, Map, lookup, insert, erase, is_some, Result, ok, of_bits64, length, Addr, write,
}
use bxtest.Format.{user_tag}
use bxtest.Panel.{UserInfo, UserTraffic}
use bxtest.Core.{AddUsersParams}
use bxtest.Counter.Traffic.{TrafficCounter, new_traffic_counter, delete, rx, tx}
use bxtest.Counter.Slice.{take_traffic}
use bxtest.Limiter.State.{Limiter, UserLimitInfo}
use bxtest.Limiter.Users.{Registry, get_limiter}

-- HookServer of core/hy2/hook.go; `counter` is keyed by the tag
pub record HookServer : Type 0 where
  pub tag : Str
  pub counter : Map Str TrafficCounter
  pub report_min_traffic_bytes : ℤ

-- Hysteria2 of core/hy2/hy2.go, with the traffic logger of each node and the users of Auth
pub record Hysteria2 : Type 0 where
  pub hy2nodes : Map Str HookServer
  pub users_map : Map Str ℤ

-- func (v *V2bX) Authenticate(addr, auth, tx)
unfoldable pub authenticate : Hysteria2 → Str → Bool × Str
authenticate h auth = if is_some (lookup auth h.users_map) then (true, auth) else (false, [])

add_all : List UserInfo → Map Str ℤ → Map Str ℤ
add_all [] m = m
add_all (u ∷ us) m = add_all us (insert u.uuid u.id m)

-- func (h *Hysteria2) AddUsers(p): a goroutine for each user, one after the other under the lock. The
-- list is in the order in which they get it.
unfoldable pub add_users : AddUsersParams → Hysteria2 → Result ℤ × Hysteria2
unfolding add_all
add_users p h = (ok (pos (length p.users)), record h { users_map = add_all p.users h.users_map })

-- c.Delete(uuid) on the counter of the node, if it has one
abbrev pub forget : Str → Str → HookServer → HookServer
forget tag uuid hook = elim (lookup tag hook.counter) [
  | none ↦ hook
  | some c ↦ record hook { counter = insert tag (delete uuid c) hook.counter }
]

-- func (h *Hysteria2) DelUsers(users, tag, _); a node that is not there panics, `none`
unfoldable pub del_users : List UserInfo → Str → Hysteria2 → Option Hysteria2
del_users [] tag h = some h
del_users (u ∷ us) tag h = elim (lookup tag h.hy2nodes) [
  | none ↦ none
  | some hook ↦ del_users us tag (record {
    hy2nodes = insert tag (forget tag u.uuid hook) h.hy2nodes;
    users_map = erase u.uuid h.users_map;
  })
]

-- func (h *Hysteria2) GetUserTrafficSlice(tag, reset)
unfoldable pub get_user_traffic_slice :
    Str → Bool → Hysteria2 → Result (List UserTraffic) × Hysteria2
get_user_traffic_slice tag reset h = elim (lookup tag h.hy2nodes) [
  | none ↦ (ok [], h)
  | some hook ↦ elim (lookup tag hook.counter) [
    | none ↦ (ok [], h)
    | some c ↦
        let (c', slice) = take_traffic hook.report_min_traffic_bytes reset h.users_map c in
        (
          ok slice,
          record h {
            hy2nodes = insert tag (record hook { counter = insert tag c' hook.counter }) h.hy2nodes;
          },
        )
  ]
]

-- the hook with the limiters that it goes through
pub record Logger (Bucket Regexp : Type 0) : Type 0 where
  pub hook : HookServer
  pub registry : Registry Bucket Regexp

-- int(n) of a uint64
abbrev pub to_int : ℕ → ℤ
to_int n = of_bits64 (n % 2 ^ 64)

abbrev pub counter_of : Str → HookServer → TrafficCounter
counter_of tag hook = elim (lookup tag hook.counter) [ none ↦ new_traffic_counter | some c ↦ c ]

-- tc.Rx(id, int(rx)); tc.Tx(id, int(tx))
pub count_traffic : Str → ℕ → ℕ → HookServer → HookServer
count_traffic id sent received hook = record hook {
  counter =
      insert hook.tag (tx id (to_int sent) (rx id (to_int received) (counter_of hook.tag hook)))
        hook.counter;
}

module _ {Bucket Regexp : Type 0} where
  -- userlimitInfo.OverLimit = false, through the pointer in the limiter at `p`
  clear_over_limit : Str → UserLimitInfo → Addr → Registry Bucket Regexp → Registry Bucket Regexp
  clear_over_limit key u p r = record r {
    objects =
        write p
          (record (r.objects.cell p) {
            user_limit_info =
                insert key (record u { over_limit = false }) (r.objects.cell p).user_limit_info;
          })
          r.objects;
  }

  -- func (h *HookServer) LogTraffic(id, tx, rx)
  unfoldable pub log_traffic : Str → ℕ → ℕ → Logger Bucket Regexp → Bool × Logger Bucket Regexp
  unfolding count_traffic clear_over_limit
  log_traffic id sent received g = elim (get_limiter g.hook.tag g.registry) [
    | none ↦ (false, g)
    | some p ↦
        let key = user_tag g.hook.tag id in
        let counted = record g { hook = count_traffic id sent received g.hook } in
        elim (lookup key (g.registry.objects.cell p).user_limit_info) [
          | none ↦ (true, counted)
          | some u ↦
              if u.over_limit
              then (false, record g { registry = clear_over_limit key u p g.registry })
              else (true, counted)
        ]
  ]
