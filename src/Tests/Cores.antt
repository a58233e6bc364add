-- ===== src/Tests/Cores.antt =====
-- Runs of the selector.
use bxtest.Prelude.{Str, codes, ℕ, text_eq, str_eq, some, [], ◌∷◌, lookup, Result, ok, ◌≢◌}
use bxtest.Conf.{Options}
use bxtest.Core.{AddUsersParams}
use bxtest.Core.Selector.{Selector, add_node}
use bxtest.Core.Selector.Routing.{IsAdded, add_node-IsAdded}
use bxtest.Tests.Data.{user_a, node, options, tag, core}

-- two cores, the node `n` on the first
abbrev selector : Selector ℕ
selector = record {
  cores = (codes "sing", 0) ∷ (codes "other", 1) ∷ [];
  nodes = (tag, 0) ∷ [];
  impl = λ a. core;
  states = record { cell = λ a. a; next = 2 };
}

abbrev decode : Str → Options → Result (Unit {0}) × Options
decode raw o = (ok tt, o)

abbrev decode_core : Str → Options → Result (Unit {0})
decode_core raw o = ok tt

add_node-IsAdded_example :
    IsAdded decode decode_core
      (codes "m")
      node
      options
      selector
      (add_node decode decode_core (codes "m") node options selector)
add_node-IsAdded_example = add_node-IsAdded decode decode_core (codes "m") node options selector

abbrev params : AddUsersParams
params = record { tag = tag; users = user_a ∷ []; node_info = node }

elsewhere : lookup tag selector.nodes ≢ some 1
unfolding lookup str_eq
elsewhere e = cc
