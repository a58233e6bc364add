-- ===== src/Core/Selector/Build.antt =====
-- NewSelector of core/selector.go and NewCore of core/core.go. `registered` is the table that
-- RegisterCore fills: the constructor of a type of core. `to_lower` is strings.ToLower.
use bxtest.Prelude.{
  Str, codes, text_eq, Option, none, some, List, [], ◌∷◌, ◌++◌, insert, Result, ok, err, alloc,
  nat_beq, if◌then◌else◌,
}
use bxtest.Core.{Core}
use bxtest.Core.Selector.{Selector}

-- CoreConfig of conf/core.go, without the settings of each core
pub record CoreConfig : Type 0 where
  pub type : Str
  pub name : Str

-- what NewCore makes: one core, or a selector
pub data Built (S : Type 0) : Type 0 where
  single : Core S → S → Built S
  several : Selector S → Built S

-- the key of a core in the map: its name, or its type if it has none
abbrev core_key : CoreConfig → Str
core_key c = elim c.name [ [] ↦ c.type | x ∷ xs ↦ x ∷ xs ]

module _ {S : Type 0} (registered : Str → Option (CoreConfig → Result (Core S × S)))
    (to_lower : Str → Str) where
  -- cs[key] = core1
  abbrev put_core : Str → Core S → S → Selector S → Selector S
  put_core key c state s = record s {
    cores = insert key s.states.next s.cores;
    impl = λ a. if nat_beq a s.states.next then c else s.impl a;
    states = alloc state s.states;
  }

  -- the loop of NewSelector
  add_cores : List CoreConfig → Selector S → Result (Selector S)
  add_cores [] s = ok s
  add_cores (t ∷ ts) s = elim (registered (to_lower t.type)) [
    | none ↦ err (codes "unknown core type: " ++ t.type)
    | some f ↦ elim (f t) [
      | err e ↦ err e
      | ok (c, state) ↦ add_cores ts (put_core (core_key t) c state s)
    ]
  ]

  -- func NewSelector(c); `blank` has no cores, and its core and state for addresses that nobody has
  unfoldable pub new_selector : List CoreConfig → Selector S → Result (Selector S)
  unfolding add_cores
  new_selector c blank = add_cores c (record blank { cores = []; nodes = [] })

  -- func NewCore(c)
  unfoldable pub new_core : List CoreConfig → Selector S → Result (Built S)
  unfolding new_selector
  new_core [] blank = err (codes "no have vail core")
  new_core (c ∷ []) blank = elim (registered c.type) [
    | none ↦ err (codes "unknown core type")
    | some f ↦ elim (f c) [ err e ↦ err e | ok (core, state) ↦ ok (single core state) ]
  ]
  new_core (c ∷ d ∷ cs) blank = elim (new_selector (c ∷ d ∷ cs) blank) [
    | err e ↦ err e
    | ok s ↦ ok (several s)
  ]
