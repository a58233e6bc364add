-- ===== src/Core/Selector.antt =====
-- core/selector.go, with UnmarshalJSON of conf/node.go: several cores behind one interface. A Core is a
-- pointer: its methods are `impl`, its state a cell of `states`. `decode` and `decode_core` are the
-- calls of json.Unmarshal on the options and on the options of the chosen core.
pub mod Routing
pub mod Build
use bxtest.Prelude.{
  Str, codes, ℤ, text_eq, Bool, true, false, if◌then◌else◌, ◌||◌, Option, none, some, List, [], ◌∷◌,
  ◌++◌, Map, lookup, insert, erase, Result, ok, err, Heap, Addr, write, ◌==◌,
}
use bxtest.Panel.{UserInfo, UserTraffic, NodeInfo}
use bxtest.Conf.{Options}
use bxtest.Core.{Core, AddUsersParams}

pub record Selector (S : Type 0) : Type 0 where
  pub cores : Map Str Addr
  pub nodes : Map Str Addr
  pub impl : Addr → Core S
  pub states : Heap S

abbrev pub not_have : Str
not_have = codes "the node is not have"

abbrev is_unset : Str → Bool
is_unset [] = true
is_unset (c ∷ cs) = false

-- func isSupported(protocol, protocols)
pub is_supported : Str → List Str → Bool
is_supported protocol [] = false
is_supported protocol (p ∷ ps) = if protocol == p then true else is_supported protocol ps

-- the message of errors.Join(errs...), which is nil for no errors
join_errors : List Str → Result (Unit {0})
join_errors [] = ok tt
join_errors (e ∷ es) = elim (join_errors es) [
  | ok u ↦ err e
  | err more ↦ err (e ++ (codes "\n" ++ more))
]

-- func (o *Options) UnmarshalJSON(data), with `o.RawOptions` for data
unfoldable pub unmarshal_json :
    (Str → Options → Result (Unit {0}) × Options)
    → (Str → Options → Result (Unit {0}))
    → Options
    → Result (Unit {0}) × Options
unmarshal_json decode decode_core o =
    let (r, o') = decode o.raw_options o in
    elim r [
      | err e ↦ (err e, o')
      | ok u ↦
          if o'.core == codes "xray" || o'.core == codes "sing"
          then (decode_core o.raw_options o', o')
          else if o'.core == codes "hysteria2"
          then (ok tt, record o' { raw_options = o.raw_options })
          else (ok tt, record o' { core = []; raw_options = o.raw_options })
    ]

module _ {S : Type 0} where
  -- a method call on the core at `a`
  unfoldable pub on :
      {A : Type 0} → Addr → (Core S → S → Result A × S) → Selector S → Result A × Selector S
  on a op s =
      let (r, state) = op (s.impl a) (s.states.cell a) in
      (r, record s { states = write a state s.states })

  start_cores : Map Str Addr → Selector S → Result (Unit {0}) × Selector S
  start_cores [] s = (ok tt, s)
  start_cores ((name, a) ∷ m) s =
      let (r, s') = on a (λ c. c.start) s in
      elim r [ ok u ↦ start_cores m s' | err e ↦ (err e, s') ]

  -- func (s *Selector) Start()
  pub start : Selector S → Result (Unit {0}) × Selector S
  start s = start_cores s.cores s

  close_cores : Map Str Addr → List Str → Selector S → List Str × Selector S
  close_cores [] errs s = (errs, s)
  close_cores ((name, a) ∷ m) errs s =
      let (r, s') = on a (λ c. c.close) s in
      close_cores m (elim r [ ok u ↦ errs | err e ↦ errs ++ (e ∷ []) ]) s'

  -- func (s *Selector) Close()
  pub close : Selector S → Result (Unit {0}) × Selector S
  close s = let (errs, s') = close_cores s.cores [] s in (join_errors errs, s')

  -- the test of the loop in AddNode
  unfoldable pub fits : NodeInfo → Options → Selector S → Addr → Bool
  fits info option s a =
      if is_unset option.core
      then is_supported info.type ((s.impl a).protocols (s.states.cell a))
      else option.core == (s.impl a).type (s.states.cell a)

  -- `for _, c := range s.cores`: the last one that fits
  last_fit : NodeInfo → Options → Selector S → Map Str Addr → Option Addr → Option Addr
  last_fit info option s [] core = core
  last_fit info option s ((name, a) ∷ m) core =
      last_fit info option s m (if fits info option s a then some a else core)

  unfoldable pub select_core : NodeInfo → Options → Selector S → Option Addr
  unfolding last_fit
  select_core info option s = elim option.core_name [
    | [] ↦ last_fit info option s s.cores none
    | c ∷ cs ↦ lookup (c ∷ cs) s.cores
  ]

  -- func (s *Selector) DelNode(tag)
  unfoldable pub del_node : Str → Selector S → Result (Unit {0}) × Selector S
  del_node tag s = elim (lookup tag s.nodes) [
    | none ↦ (err not_have, s)
    | some a ↦
        let (r, s') = on a (λ c. c.del_node tag) s in
        elim r [ err e ↦ (err e, s') | ok u ↦ (ok tt, record s' { nodes = erase tag s'.nodes }) ]
  ]

  -- a call that goes to the core of a node
  unfoldable pub forward :
      {A : Type 0} → Str → (Core S → S → Result A × S) → Selector S → Result A × Selector S
  forward tag op s = elim (lookup tag s.nodes) [ none ↦ (err not_have, s) | some a ↦ on a op s ]

  -- func (s *Selector) AddUsers(p)
  unfoldable pub add_users : AddUsersParams → Selector S → Result ℤ × Selector S
  add_users p s = forward p.tag (λ c. c.add_users p) s

  -- func (s *Selector) GetUserTrafficSlice(tag, reset)
  unfoldable pub get_user_traffic_slice :
      Str → Bool → Selector S → Result (List UserTraffic) × Selector S
  get_user_traffic_slice tag reset s = forward tag (λ c. c.get_user_traffic_slice tag reset) s

  -- func (s *Selector) DelUsers(users, tag, info)
  unfoldable pub del_users :
      List UserInfo → Str → NodeInfo → Selector S → Result (Unit {0}) × Selector S
  del_users users tag info s = forward tag (λ c. c.del_users users tag info) s

  protocols_of : Selector S → Map Str Addr → List Str
  protocols_of s [] = []
  protocols_of s ((name, a) ∷ m) = (s.impl a).protocols (s.states.cell a) ++ protocols_of s m

  -- func (s *Selector) Protocols()
  unfoldable pub protocols : Selector S → List Str
  unfolding protocols_of
  protocols s = protocols_of s s.cores

module _ {S : Type 0} (decode : Str → Options → Result (Unit {0}) × Options)
    (decode_core : Str → Options → Result (Unit {0})) where
  -- `if len(option.Core) == 0 { … }` of AddNode
  unfoldable pub fill_options : Addr → Options → Selector S → Result (Unit {0}) × Options
  unfolding unmarshal_json
  fill_options a option s =
      let typed = record option { core = (s.impl a).type (s.states.cell a) } in
      let (r, o) = unmarshal_json decode decode_core typed in
      if is_unset option.core
      then elim r [
        | err e ↦ (err (codes "unmarshal option error: " ++ e), o)
        | ok u ↦ (ok tt, record o { raw_options = [] })
      ]
      else (ok tt, option)

  -- func (s *Selector) AddNode(tag, info, option): the result, the option and the selector after it
  unfoldable pub add_node :
      Str → NodeInfo → Options → Selector S → Result (Unit {0}) × (Options × Selector S)
  add_node tag info option s = elim (select_core info option s) [
    | none ↦ (err (codes "the node type is not support"), (option, s))
    | some a ↦
        let (r, o) = fill_options a option s in
        elim r [
          | err e ↦ (err e, (o, s))
          | ok u ↦
              let (added, s') = on a (λ c. c.add_node tag info o) s in
              elim added [
                | err e ↦ (err e, (o, s'))
                | ok w ↦ (ok tt, (o, record s' { nodes = insert tag a s'.nodes }))
              ]
        ]
  ]
