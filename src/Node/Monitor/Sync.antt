-- ===== src/Node/Monitor/Sync.antt =====
-- nodeInfoMonitor as a whole, and what a configured name changes.
use bxtest.Prelude.{
  Str, ℕ, Option, none, some, List, Map, ℤ, Result, ok, err, Result-cases, refl, Option-cases, inl,
  inr,
}
use bxtest.Panel.{UserInfo, NodeInfo}
use bxtest.Core.{Core}
use bxtest.Node.Users.Reconcile.{IsUserList}
use bxtest.Node.Controller.{World}
use bxtest.Node.Lifecycle.{Answers, or_empty}
use bxtest.Node.Monitor.{reload, node_info_monitor}
use bxtest.Node.Monitor.InStep.{Holds}
use bxtest.Node.Monitor.Follows.{IsInStep, weaken, refresh-IsInStep, reload-InStep}

-- every list that the panel answers with is one as it sends them
abbrev pub ValidAnswer : ℕ → Result (Option (List UserInfo)) → Type 0
ValidAnswer n (ok users) = IsUserList n (or_empty users)
ValidAnswer n (err e) = Unit {0}

module _ {S B R : Type 0} (n : ℕ) (core : Core S) (mc : Str → Option R) where
  reload_listed :
      (node : NodeInfo) (users : Option (List UserInfo)) (alive : Option (Map ℤ ℤ))
      (cert : Result (Unit {0})) (w : World S B R)
      → IsInStep n w
      → IsUserList n (or_empty users)
      → Holds (IsInStep n) (reload core mc node users alive cert w)
  reload_listed node none alive cert w v l =
      weaken n w.controller.user_list (reload core mc node none alive cert w) (
        reload-InStep n core mc node w.controller.user_list none alive cert w v.nameless refl
          v.listed)
  reload_listed node (some us) alive cert w v l =
      weaken n us (reload core mc node (some us) alive cert w)
        (reload-InStep n core mc node us (some us) alive cert w v.nameless refl l)

  -- For a node without a configured name, and a panel whose lists have uuids of one length, each of
  -- them once: if the controller's limiter knows exactly the users of the controller's list and is
  -- the one in the table under its tag, then so it is after nodeInfoMonitor, whatever the panel
  -- answers, whether the node has changed or not, and whichever call of the core fails, unless the
  -- run panics.
  pub node_info_monitor-IsInStep :
      (a : Answers) (w : World S B R)
      → IsInStep n w
      → ValidAnswer n a.new_u
      → Holds (IsInStep n) (node_info_monitor core mc a w)
  unfolding node_info_monitor
  node_info_monitor-IsInStep a w v l = elim (Result-cases a.new_n) [
    | inr (m, e) ↦ rw (e, node_info_monitor) v
    | inl (node, e) ↦ elim (Result-cases a.new_u) [
      | inr (m, f) ↦ rw (e, f, node_info_monitor) v
      | inl (users, f) ↦
          let valid : IsUserList n (or_empty users) = rw f at l in
          elim (Result-cases a.new_a) [
            | inr (m, g) ↦ rw (e, f, g, node_info_monitor) v
            | inl (alive, g) ↦ elim (Option-cases node) [
              | inl h ↦
                  rw (e, f, g, h, node_info_monitor)
                    (refresh-IsInStep n core mc (or_empty users) alive w v valid)
              | inr (info, h) ↦
                  rw (e, f, g, h, node_info_monitor)
                    (reload_listed info users alive a.cert w v valid)
            ]
          ]
    ]
  ]
