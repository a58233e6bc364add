-- ===== src/Panel/Fetch/Blocked.antt =====
-- The rules of a node that GetNodeInfo of api/panel/node.go reads.
use bxtest.Prelude.{
  Str, codes, text_eq, ℤ, ℕ, suc, has_prefix, trim_prefix, ◌==◌, if◌then◌else◌, some, List, [], ◌∷◌,
  ◌++◌, get_or_default, ◌≡◌, refl, ap, sym, ◌∙◌, Bool-cases, Option-cases, some_inj, inl, inr,
}
use mathlib.Core.List.{append_assoc, append-nil}
use bxtest.Panel.{NodeInfo, Rules}
use bxtest.Panel.Fetch.{
  Route, CommonNode, RawDns, Parsed, Client, match_texts, block_one, block_all, dns_one,
  parse_route, parse_routes, nothing_parsed, security_of, interval_to_time, parse_node,
}

-- the texts of all routes that block, in their order
abbrev pub blocked : List Route → List Str
blocked [] = []
blocked (r ∷ rs) =
    let rest = blocked rs in
    if r.action == codes "block" then get_or_default [] (match_texts r.match) ++ rest else rest

-- the protocols among them: what stands after "protocol:"
abbrev pub protocols_of : List Str → List Str
protocols_of [] = []
protocols_of (v ∷ vs) =
    let rest = protocols_of vs in
    if has_prefix v (codes "protocol:") then trim_prefix v (codes "protocol:") ∷ rest else rest

-- and the patterns: all others, without "regexp:"
abbrev pub patterns_of : List Str → List Str
patterns_of [] = []
patterns_of (v ∷ vs) =
    let rest = patterns_of vs in
    if has_prefix v (codes "protocol:") then rest else trim_prefix v (codes "regexp:") ∷ rest

block_all_lem :
    (vs : List Str) (r : Rules)
    → ((block_all vs r).protocol ≡ r.protocol ++ protocols_of vs)
      × ((block_all vs r).regexp ≡ r.regexp ++ patterns_of vs)
unfolding block_all block_one
block_all_lem [] r = (sym (append-nil r.protocol), sym (append-nil r.regexp))
block_all_lem (v ∷ vs) r = elim (Bool-cases (has_prefix v (codes "protocol:"))) [
  | inl e ↦
      let (a, b) =
        block_all_lem vs
          (record r { protocol = r.protocol ++ (trim_prefix v (codes "protocol:") ∷ []) }) in
      (
        rw (block_all, block_one, e, protocols_of)
            (a
              ∙ append_assoc r.protocol (trim_prefix v (codes "protocol:") ∷ []) (protocols_of vs)),
        rw (block_all, block_one, e, patterns_of) b,
      )
  | inr e ↦
      let (a, b) =
        block_all_lem vs
          (record r { regexp = r.regexp ++ (trim_prefix v (codes "regexp:") ∷ []) }) in
      (
        rw (block_all, block_one, e, protocols_of) a,
        rw (block_all, block_one, e, patterns_of)
            (b ∙ append_assoc r.regexp (trim_prefix v (codes "regexp:") ∷ []) (patterns_of vs)),
      )
]

-- the texts of one route, if it blocks
abbrev texts_blocked : Route → List Str
texts_blocked r = if r.action == codes "block" then get_or_default [] (match_texts r.match) else []

block_all-append :
    (vs ws : List Str) (r : Rules) → block_all (vs ++ ws) r ≡ block_all ws (block_all vs r)
unfolding block_all
block_all-append [] ws r = refl
block_all-append (v ∷ vs) ws r = block_all-append vs ws (block_one v r)

rules_of : {p p' : Parsed} → some p ≡ some p' → p.rules ≡ p'.rules
rules_of h = ap (λ (p : Parsed). p.rules) (some_inj h)

parse_route-rules :
    (i : ℕ) (r : Route) (p p' : Parsed)
    → parse_route i r p ≡ some p'
    → p'.rules ≡ block_all (texts_blocked r) p.rules
unfolding parse_route block_all
parse_route-rules i r p p' h = elim (Option-cases (match_texts r.match)) [
  | inl e ↦ cc (rw (parse_route, e) at h)
  | inr (ms, e) ↦ elim (Bool-cases (r.action == codes "block")) [
    | inl a ↦ rw (texts_blocked, a, e) (sym (rules_of (rw (parse_route, e, a) at h)))
    | inr a ↦ elim (Bool-cases (r.action == codes "dns")) [
      | inr b ↦ rw (texts_blocked, a) (sym (rules_of (rw (parse_route, e, a, b) at h)))
      | inl b ↦ elim (Option-cases (dns_one i ms r.action_value p.dns)) [
        | inl d ↦ cc (rw (parse_route, e, a, b, d) at h)
        | inr (dns, d) ↦ rw (texts_blocked, a) (sym (rules_of (rw (parse_route, e, a, b, d) at h)))
      ]
    ]
  ]
]

blocked-texts_blocked :
    (r : Route) (rs : List Route) → blocked (r ∷ rs) ≡ texts_blocked r ++ blocked rs
blocked-texts_blocked r rs = elim (Bool-cases (r.action == codes "block")) [
  | inl a ↦ rw (a, blocked, texts_blocked) refl
  | inr a ↦ rw (a, blocked, texts_blocked) refl
]

parse_routes-rules :
    (i : ℕ) (rs : List Route) (p p' : Parsed)
    → parse_routes i rs p ≡ some p'
    → p'.rules ≡ block_all (blocked rs) p.rules
unfolding parse_routes block_all
parse_routes-rules i [] p p' h = sym (rules_of h)
parse_routes-rules i (r ∷ rs) p p' h = elim (Option-cases (parse_route i r p)) [
  | inl e ↦ cc (rw (parse_routes, e) at h)
  | inr (q, e) ↦
      parse_routes-rules (suc i) rs q p' (rw (parse_routes, e) at h)
      ∙ ap (block_all (blocked rs)) (parse_route-rules i r p q e)
      ∙ sym (block_all-append (texts_blocked r) (blocked rs) p.rules)
      ∙ ap (λ vs. block_all vs p.rules) (sym (blocked-texts_blocked r rs))
]

parse_node-parsed :
    (atoi : Str → ℤ) (c : Client) (cm : CommonNode) (n : NodeInfo) (dns : RawDns) (security : ℤ)
    (p : Parsed)
    → security_of c.node_type cm ≡ some security
    → parse_routes 0 cm.routes nothing_parsed ≡ some p
    → parse_node atoi c cm ≡ some (n, dns)
    → p.rules ≡ n.rules
unfolding parse_node
parse_node-parsed atoi c cm n dns security p a b h = elim (Option-cases cm.base_config) [
  | inl d ↦ cc (rw (parse_node, a, b, d) at h)
  | inr (base, d) ↦ elim (Option-cases (interval_to_time atoi base.push_interval)) [
    | inl e ↦ cc (rw (parse_node, a, b, d, e) at h)
    | inr (push, e) ↦ elim (Option-cases (interval_to_time atoi base.pull_interval)) [
      | inl f ↦ cc (rw (parse_node, a, b, d, e, f) at h)
      | inr (pull, f) ↦
          ap (λ (x : NodeInfo × RawDns). x.0.rules) (some_inj (rw (parse_node, a, b, d, e, f) at h))
    ]
  ]
]

-- A node that is read has as its protocol rules exactly the texts of its blocking routes that begin with
-- "protocol:", and as its domain rules exactly the others, both in the order of the routes and without
-- their prefixes.
pub parse_node-rules :
    (atoi : Str → ℤ) (c : Client) (cm : CommonNode) (n : NodeInfo) (dns : RawDns)
    → parse_node atoi c cm ≡ some (n, dns)
    → (n.rules.protocol ≡ protocols_of (blocked cm.routes))
      × (n.rules.regexp ≡ patterns_of (blocked cm.routes))
unfolding parse_node
parse_node-rules atoi c cm n dns h = elim (Option-cases (security_of c.node_type cm)) [
  | inl a ↦ cc (rw (parse_node, a) at h)
  | inr (security, a) ↦ elim (Option-cases (parse_routes 0 cm.routes nothing_parsed)) [
    | inl b ↦ cc (rw (parse_node, a, b) at h)
    | inr (p, b) ↦
        let same = parse_node-parsed atoi c cm n dns security p a b h in
        let rules = sym same ∙ parse_routes-rules 0 cm.routes nothing_parsed p b in
        let (e, f) = block_all_lem (blocked cm.routes) nothing_parsed.rules in
        (ap (λ (r : Rules). r.protocol) rules ∙ e, ap (λ (r : Rules). r.regexp) rules ∙ f)
  ]
]
