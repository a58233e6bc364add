-- ===== src/Hy2/Config/Redundancy.antt =====
-- The redundancy of forwarded UDP packets in core/hy2/config.go. ParsePortUnion is a library's.
use bxtest.Prelude.{
  Str, codes, text_eq, ℤ, pos, ltb_ℤ, ◌≤ℤ◌, not, if◌then◌else◌, ◌||◌, ◌++◌, Option, none, some,
  Result, ok, err, ◌>>=◌, bind-ok, ◌==◌, ◌≡◌, ◌⊎◌, inl, inr, refl, arith, [],
}
use bxtest.Hy2.Config.{RedundancySettings}

-- udpForwardingRedundancyMultipliers
pub record Multipliers : Type 0 where
  pub write_to : ℤ
  pub send_message : ℤ

-- func validateUDPForwardingRedundancyMultiplier(field, multiplier)
validate_multiplier : Str → Option ℤ → Result (Unit {0})
validate_multiplier field none = ok tt
validate_multiplier field (some n) =
    if ltb_ℤ n (pos 1) || ltb_ℤ (pos 100) n
    then err (codes "udpForwardingRedundancy." ++ field ++ codes " must be between 1 and 100")
    else ok tt

value_or : Option ℤ → ℤ → ℤ
value_or none d = d
value_or (some n) d = n

-- the multipliers once they are valid
abbrev chosen_multipliers : RedundancySettings → Multipliers
chosen_multipliers r =
    if not r.enabled then record { write_to = pos 1; send_message = pos 1 } else record {
      write_to = value_or r.write_to_multiplier (value_or r.multiplier (pos 1));
      send_message = value_or r.send_message_multiplier (value_or r.multiplier (pos 1));
    }

-- func getUDPForwardingRedundancyMultipliers(c)
unfoldable pub get_multipliers : RedundancySettings → Result Multipliers
unfolding validate_multiplier value_or
get_multipliers r = do
  u ← validate_multiplier (codes "multiplier") r.multiplier
  v ← validate_multiplier (codes "writeToMultiplier") r.write_to_multiplier
  w ← validate_multiplier (codes "sendMessageMultiplier") r.send_message_multiplier
  ok (chosen_multipliers r)

-- func getUDPForwardingRedundancyExcludePort(c): the ports, or `none` for no function
unfoldable pub get_exclude_port :
    {Ports : Type 0} → (Str → Option Ports) → RedundancySettings → Result (Option Ports)
get_exclude_port parse_port_union r =
    if not r.enabled || r.exclude_ports == []
    then ok none
    else elim (parse_port_union r.exclude_ports) [
      | none ↦ err (codes "udpForwardingRedundancy.excludePorts: invalid port union")
      | some ports ↦ ok (some ports)
    ]

-- a multiplier that is not given, or a number of copies from 1 to 100
abbrev pub IsMultiplier : Option ℤ → Type 0
IsMultiplier m = (m ≡ none) ⊎ ((n : ℤ) × (m ≡ some n) × (pos 1 ≤ℤ n) × (n ≤ℤ pos 100))

abbrev pub IsCopies : ℤ → Type 0
IsCopies n = (pos 1 ≤ℤ n) × (n ≤ℤ pos 100)

validate_multiplier-IsMultiplier :
    (f : Str) (m : Option ℤ) → IsMultiplier m → validate_multiplier f m ≡ ok tt
unfolding validate_multiplier
validate_multiplier-IsMultiplier f m h = ground arith

validate_multiplier_lem :
    (f : Str) (m : Option ℤ) (u : Unit {0}) → validate_multiplier f m ≡ ok u → IsMultiplier m
unfolding validate_multiplier
validate_multiplier_lem f none u h = inl refl
validate_multiplier_lem f (some n) u h = inr (n, refl, ground arith, ground arith)

value_or-IsCopies : (m : Option ℤ) (d : ℤ) → IsMultiplier m → IsCopies d → IsCopies (value_or m d)
unfolding value_or
value_or-IsCopies m d h k = ground arith

chosen_multipliers-IsCopies :
    (r : RedundancySettings)
    → IsMultiplier r.multiplier
    → IsMultiplier r.write_to_multiplier
    → IsMultiplier r.send_message_multiplier
    → IsCopies (chosen_multipliers r).write_to × IsCopies (chosen_multipliers r).send_message
chosen_multipliers-IsCopies r a b c =
    let k : IsCopies (value_or r.multiplier (pos 1)) =
      value_or-IsCopies r.multiplier (pos 1) a (ground arith, ground arith) in
    let v = value_or-IsCopies r.write_to_multiplier _ b k in
    let w = value_or-IsCopies r.send_message_multiplier _ c k in ground arith

-- The settings are accepted when each multiplier that is given lies from 1 to 100, whether the
-- redundancy is enabled or not, and then each packet is sent from 1 to 100 times.
pub get_multipliers-IsCopies :
    (r : RedundancySettings)
    → IsMultiplier r.multiplier
    → IsMultiplier r.write_to_multiplier
    → IsMultiplier r.send_message_multiplier
    → (m : Multipliers) × (get_multipliers r ≡ ok m) × IsCopies m.write_to × IsCopies m.send_message
unfolding get_multipliers
get_multipliers-IsCopies r a b c = (
  chosen_multipliers r,
  rw
      (
        validate_multiplier-IsMultiplier (codes "multiplier") _ a,
        validate_multiplier-IsMultiplier (codes "writeToMultiplier") _ b,
        validate_multiplier-IsMultiplier (codes "sendMessageMultiplier") _ c,
      )
      refl,
  (chosen_multipliers-IsCopies r a b c).0,
  (chosen_multipliers-IsCopies r a b c).1,
)

-- Settings with a multiplier outside 1 to 100 are refused, also when the redundancy is off.
pub get_multipliers-IsMultiplier :
    (r : RedundancySettings) (m : Multipliers)
    → get_multipliers r ≡ ok m
    → IsMultiplier r.multiplier
      × IsMultiplier r.write_to_multiplier
      × IsMultiplier r.send_message_multiplier
unfolding get_multipliers
get_multipliers-IsMultiplier r m h =
    let (u, a, h') = bind-ok (validate_multiplier (codes "multiplier") r.multiplier) _ m h in
    let (v, b, h'') =
      bind-ok (validate_multiplier (codes "writeToMultiplier") r.write_to_multiplier) _ m h' in
    let (w, c, _) =
      bind-ok (validate_multiplier (codes "sendMessageMultiplier") r.send_message_multiplier) _ m
        h'' in
    (
      validate_multiplier_lem (codes "multiplier") _ u a,
      validate_multiplier_lem (codes "writeToMultiplier") _ v b,
      validate_multiplier_lem (codes "sendMessageMultiplier") _ w c,
    )
