-- ===== src/Xray.antt =====
-- core/xray/user.go and core/xray/app/dispatcher/linkmanager.go: the users of an xray core, their
-- traffic, and the links that are cut when a user goes. The inbound handlers are those of
-- github.com/xtls/xray-core: `get_user_manager` says whether the inbound has a user manager, and
-- `remove_user` is its RemoveUser on the state `M` of the handlers.
pub mod Links
pub mod Dispatch
use bxtest.Prelude.{
  Str, codes, ℤ, pos, ℕ, nat_eq, text_eq, Bool, Option, none, some, List, [], ◌∷◌, ◌++◌, Map,
  lookup, insert, erase, get_or_default, Result, ok, err,
}
use bxtest.Format.{user_tag}
use bxtest.Panel.{UserInfo, UserTraffic}
use bxtest.Counter.Traffic.{TrafficCounter, delete}
use bxtest.Counter.Slice.{take_traffic}

-- LinkManager: the writers, each with its reader
abbrev pub LinkManager : Type 0
LinkManager = Map ℕ ℕ

-- what has been done to the two ends of links
pub record Cut : Type 0 where
  pub writers : List ℕ
  pub readers : List ℕ

-- func (m *LinkManager) AddLink(writer, reader)
unfoldable pub add_link : ℕ → ℕ → LinkManager → LinkManager
add_link writer reader m = insert writer reader m

-- func (m *LinkManager) RemoveWriter(writer)
unfoldable pub remove_writer : ℕ → LinkManager → LinkManager
remove_writer writer m = erase writer m

-- func (w *ManagedWriter) Close()
unfoldable pub close_writer : ℕ → LinkManager × Cut → LinkManager × Cut
unfolding remove_writer
close_writer w (m, cut) = (remove_writer w m, record cut { writers = cut.writers ++ (w ∷ []) })

-- common.Close(w); common.Interrupt(r), for each link
close_links : Map ℕ ℕ → LinkManager × Cut → LinkManager × Cut
unfolding close_writer
close_links [] s = s
close_links ((w, r) ∷ links) s =
    let (m, cut) = close_writer w s in
    close_links links (m, record cut { readers = cut.readers ++ (r ∷ []) })

-- func (m *LinkManager) CloseAll()
unfoldable pub close_all : LinkManager → Cut → LinkManager × Cut
unfolding close_links
close_all m cut = close_links m (m, cut)

-- Xray of core/xray/xray.go with its dispatcher, as far as the users go
pub record Xray (M : Type 0) : Type 0 where
  pub uid_map : Map Str ℤ
  pub counter : Map Str TrafficCounter
  pub link_managers : Map Str LinkManager
  pub node_report_min_traffic_bytes : Map Str ℤ
  pub handlers : M
  pub cut : Cut

-- func (x *Xray) GetUserTrafficSlice(tag, reset)
unfoldable pub get_user_traffic_slice :
    {M : Type 0} → Str → Bool → Xray M → Result (List UserTraffic) × Xray M
get_user_traffic_slice tag reset_it x = elim (lookup tag x.counter) [
  | none ↦ (ok [], x)
  | some c ↦
      let min = get_or_default (pos 0) (lookup tag x.node_report_min_traffic_bytes) in
      let (c', slice) = take_traffic min reset_it x.uid_map c in
      (ok slice, record x { counter = insert tag c' x.counter })
]

-- c.dispatcher.Counter: tc.Delete(user), if the node has a counter
abbrev pub forget_counter : Str → Str → Map Str TrafficCounter → Map Str TrafficCounter
forget_counter tag user counters = elim (lookup tag counters) [
  | none ↦ counters
  | some c ↦ insert tag (delete user c) counters
]

module _ {M : Type 0} where
  -- the part of a round of DelUsers after RemoveUser has succeeded
  unfoldable pub forget_user : Str → Str → Xray M → Xray M
  forget_user tag user x =
      let x' = record x {
        uid_map = erase user x.uid_map;
        counter = forget_counter tag user x.counter;
      } in
      elim (lookup user x.link_managers) [
        | none ↦ x'
        | some lm ↦ record x' {
          link_managers = erase user x.link_managers;
          cut = (close_all lm x.cut).1;
        }
      ]

module _ {M : Type 0} (get_user_manager : Str → M → Result (Unit {0}))
    (remove_user : Str → Str → M → Result (Unit {0}) × M) where
  -- the loop of DelUsers
  unfoldable pub del_each : List UserInfo → Str → Xray M → Result (Unit {0}) × Xray M
  del_each [] tag x = (ok tt, x)
  del_each (u ∷ us) tag x =
      let user = user_tag tag u.uuid in
      let (r, state) = remove_user tag user x.handlers in
      elim r [
        | err e ↦ (err e, record x { handlers = state })
        | ok w ↦ del_each us tag (forget_user tag user (record x { handlers = state }))
      ]

  -- func (c *Xray) DelUsers(users, tag, _)
  unfoldable pub del_users : List UserInfo → Str → Xray M → Result (Unit {0}) × Xray M
  del_users users tag x = elim (get_user_manager tag x.handlers) [
    | err e ↦ (err (codes "get user manager error: " ++ e), x)
    | ok w ↦ del_each users tag x
  ]
