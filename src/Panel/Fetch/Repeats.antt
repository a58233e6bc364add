-- ===== src/Panel/Fetch/Repeats.antt =====
-- Replies that GetNodeInfo of api/panel/node.go gets twice, and the types of nodes.
use bxtest.Prelude.{
  Str, text_eq, ℤ, nat_beq, true, ◌==◌, Option, none, some, Result, ok, err, ok_inj, err_absurd,
  ◌≡◌, ◌≢◌, refl, ap, subst, Bool-cases, Option-cases, some_inj, inl, inr, beq_refl, arith,
}
use bxtest.Panel.{NodeInfo}
use bxtest.Panel.Client.{Reply}
use bxtest.Panel.Fetch.{
  CommonNode, RawDns, Client, security_of, is_node_type, node_type_of, read_node, get_node_info,
  new_client,
}

module _ (atoi : Str → ℤ) (sha256_hex : Str → Str) (join : Str → Str)
    (decode : Str → Str → Result CommonNode) where
  -- A reply that GetNodeInfo has refused once, by an error of the request or of its content, counts as
  -- not modified when it comes again: no node and no error.
  pub get_node_info-err :
      (r : Reply) (etag : Str) (c c' : Client) (e : Str)
      → get_node_info atoi sha256_hex join decode r etag c ≡ some (err e, c')
      → get_node_info atoi sha256_hex join decode r etag c' ≡ some (ok none, c')
  unfolding get_node_info
  get_node_info-err r etag c c' e h = elim (Bool-cases (nat_beq r.status 304)) [
    | inl a ↦ cc (rw (get_node_info, a) at h)
    | inr a ↦ elim (Bool-cases (c.response_body_hash == sha256_hex r.body)) [
      | inl b ↦ cc (rw (get_node_info, a, b) at h)
      | inr b ↦
          let stored : Client = record c {
            response_body_hash = sha256_hex r.body;
            node_etag = etag;
          } in
          elim (Option-cases (read_node atoi sha256_hex join decode r stored)) [
            | inl d ↦ cc (rw (get_node_info, a, b, d) at h)
            | inr (result, d) ↦
                let same : stored ≡ c' =
                  ap (λ (x : Result (Option (NodeInfo × RawDns)) × Client). x.1)
                    (some_inj (rw (get_node_info, a, b, d) at h)) in
                subst (λ x. get_node_info atoi sha256_hex join decode r etag x ≡ some (ok none, x))
                  same (rw (get_node_info, a, beq_refl (sha256_hex r.body)) refl)
          ]
    ]
  ]

is_node_type-security_of :
    (type : Str) (cm : CommonNode) → is_node_type type ≡ true → security_of type cm ≢ none
unfolding is_node_type security_of
is_node_type-security_of type cm h = ground arith

-- A client that New makes has a type for which GetNodeInfo knows the parameters and the security.
pub new_client-security_of :
    (to_lower : Str → Str) (api_host node_type : Str) (node_id : ℤ) (c : Client) (cm : CommonNode)
    → new_client to_lower api_host node_type node_id ≡ ok c
    → security_of c.node_type cm ≢ none
unfolding new_client
new_client-security_of to_lower api_host node_type node_id c cm h =
    let type = node_type_of to_lower node_type in
    elim (Bool-cases (is_node_type type)) [
      | inr a ↦ err_absurd (rw (new_client, a) at h)
      | inl a ↦
          subst (λ t. security_of t cm ≢ none)
            (ap (λ (c : Client). c.node_type) (ok_inj (rw (new_client, a) at h)))
            (is_node_type-security_of type cm a)
    ]
