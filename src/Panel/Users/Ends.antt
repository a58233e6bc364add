-- ===== src/Panel/Users/Ends.antt =====
-- The loops of GetUserList of api/panel/user.go end.
use bxtest.Prelude.{
  Str, nat_beq, nat_eq, ℕ, zero, suc, ◌<◌, Option, none, some, List, [], ◌∷◌, ◌++◌, ◌&&◌, ◌==◌,
  text_eq, codes, Result, ok, err, ok_inj, some_inj, Result-cases, Option-cases, Bool-cases, inl,
  inr, ◌≡◌, ◌≢◌, refl, sym, ap, ◌∙◌, arith,
}
use bxtest.Panel.{UserInfo}
use bxtest.Panel.Client.{check_response}
use bxtest.Panel.Fetch.{Client}
use bxtest.Panel.Users.{
  Token, Decoders, Download, skip_to_users, read_users, read_array, read_json, read_body, keep_etag,
  user_path, get_user_list,
}

-- A decoder moves on: each token and each value is taken from what is left of the body.
pub record MovesOn {D : Type 0} (lib : Decoders D) (left : D → ℕ) : Type 0 where
  pub by_token :
      (d : D) (t : Token) → (lib.read_token d).0 ≡ ok t → left (lib.read_token d).1 < left d
  pub by_value :
      (d : D) (v : Str) → (lib.read_value d).0 ≡ ok v → left (lib.read_value d).1 < left d

module _ {D : Type 0} (lib : Decoders D) where
  read_users-some :
      (left : D → ℕ) (moves : MovesOn lib left) (fuel : ℕ) (d : D) (us : List UserInfo)
      → left d < fuel
      → read_users lib fuel d us ≢ none
  unfolding read_users
  read_users-some left moves zero d us lt = absurd (omega arith)
  read_users-some left moves (suc fuel) d us lt =
      elim (Bool-cases (nat_beq (lib.peek_kind d) b']')) [
        | inl p ↦ rw p (λ e. cc)
        | inr p ↦ elim (Result-cases (lib.read_value d).0) [
          | inr (e, q) ↦ rw (p, q) (λ x. cc)
          | inl (v, q) ↦ elim (Result-cases (lib.unmarshal v)) [
            | inr (e, k) ↦ rw (p, q, k) (λ x. cc)
            | inl (u, k) ↦
                let less = moves.by_value d v q in
                rw (p, q, k)
                  (read_users-some left moves fuel (lib.read_value d).1 (us ++ (u ∷ []))
                    (omega arith))
          ]
        ]
      ]

  skip_to_users-some :
      (left : D → ℕ) (moves : MovesOn lib left) (fuel : ℕ) (d : D)
      → left d < fuel
      → skip_to_users lib fuel d ≢ none
  unfolding skip_to_users
  skip_to_users-some left moves zero d lt = absurd (omega arith)
  skip_to_users-some left moves (suc fuel) d lt = elim (Result-cases (lib.read_token d).0) [
    | inr (e, q) ↦ rw (skip_to_users, q) (λ x. cc)
    | inl (tok, q) ↦
        let less = moves.by_token d tok q in
        let next = skip_to_users-some left moves fuel (lib.read_token d).1 (omega arith) in
        elim (Bool-cases (nat_beq tok.kind b'"' && (tok.text == codes "users"))) [
          | inl named ↦ rw (skip_to_users, q, named) (λ x. cc)
          | inr named ↦ rw (skip_to_users, q, named) next
        ]
  ]

  skip_to_users-left :
      (left : D → ℕ) (moves : MovesOn lib left) (fuel : ℕ) (d d' : D)
      → skip_to_users lib fuel d ≡ some (ok d')
      → left d' < left d
  unfolding skip_to_users
  skip_to_users-left left moves zero d d' h = absurd (cc h)
  skip_to_users-left left moves (suc fuel) d d' h = elim (Result-cases (lib.read_token d).0) [
    | inr (e, q) ↦ cc (rw (skip_to_users, q) at h)
    | inl (tok, q) ↦
        let less = moves.by_token d tok q in
        elim (Bool-cases (nat_beq tok.kind b'"' && (tok.text == codes "users"))) [
          | inl named ↦
              let same = ok_inj (some_inj (rw (skip_to_users, q, named) at h)) in rw (sym same) less
          | inr named ↦
              let next =
                skip_to_users-left left moves fuel (lib.read_token d).1 d'
                  (rw (skip_to_users, q, named) at h) in
              omega arith
        ]
  ]

  read_array-some :
      (left : D → ℕ) (moves : MovesOn lib left) (fuel : ℕ) (d : D)
      → left d < fuel
      → read_array lib fuel d ≢ none
  unfolding read_array
  read_array-some left moves fuel d lt = elim (Result-cases (lib.read_token d).0) [
    | inr (e, q) ↦ rw (read_array, q) (λ x. cc)
    | inl (tok, q) ↦ elim (Bool-cases (nat_beq tok.kind b'[')) [
      | inr b ↦ rw (read_array, q, b) (λ x. cc)
      | inl b ↦
          let less = moves.by_token d tok q in
          elim (Option-cases (read_users lib fuel (lib.read_token d).1 [])) [
            | inl r ↦
                absurd (read_users-some left moves fuel (lib.read_token d).1 [] (omega arith) r)
            | inr (x, r) ↦ elim (Result-cases x) [
              | inl (us, k) ↦ rw (read_array, q, b, r, k) (λ y. cc)
              | inr (e, k) ↦ rw (read_array, q, b, r, k) (λ y. cc)
            ]
          ]
    ]
  ]

  read_json-some :
      (left : D → ℕ) (moves : MovesOn lib left) (fuel : ℕ) (stream : Str)
      → left (lib.new_decoder stream) < fuel
      → read_json lib fuel stream ≢ none
  unfolding read_json
  read_json-some left moves fuel stream lt =
      let start = lib.new_decoder stream in
      elim (Option-cases (skip_to_users lib fuel start)) [
        | inl r ↦ absurd (skip_to_users-some left moves fuel start lt r)
        | inr (x, r) ↦ elim (Result-cases x) [
          | inr (e, k) ↦ rw (read_json, r, k) (λ y. cc)
          | inl (d, k) ↦
              let less = skip_to_users-left left moves fuel start d (r ∙ ap some k) in
              rw (read_json, r, k) (read_array-some left moves fuel d (omega arith))
        ]
      ]

  read_body-some :
      (left : D → ℕ) (moves : MovesOn lib left) (fuel : ℕ) (r : Download)
      → left (lib.new_decoder r.stream) < fuel
      → read_body lib fuel r ≢ none
  unfolding read_body
  read_body-some left moves fuel r lt = elim (Bool-cases r.msgpack) [
    | inr a ↦ rw (read_body, a) (read_json-some left moves fuel r.stream lt)
    | inl a ↦ elim (Result-cases (lib.decode r.stream)) [
      | inl (us, k) ↦ rw (read_body, a, k) (λ x. cc)
      | inr (e, k) ↦ rw (read_body, a, k) (λ x. cc)
    ]
  ]

  keep_etag-some :
      (etag : Str) (c : Client) (x : Option (Result (Option (List UserInfo))))
      → x ≢ none
      → keep_etag etag c x ≢ none
  keep_etag-some etag c none h = absurd (h refl)
  keep_etag-some etag c (some (err e)) h = λ x. cc
  keep_etag-some etag c (some (ok us)) h = λ x. cc

  -- GetUserList ends: with more fuel than the body has tokens and values, as the decoder counts them by
  -- `left`, there is a result and a client after it for every reply.
  pub get_user_list-ends :
      (left : D → ℕ) (moves : MovesOn lib left) (join : Str → Str) (fuel : ℕ) (r : Download)
      (c : Client)
      → left (lib.new_decoder r.stream) < fuel
      → get_user_list lib join fuel r c ≢ none
  unfolding get_user_list
  get_user_list-ends left moves join fuel r c lt = elim (Bool-cases r.reply.raw) [
    | inr a ↦ rw (get_user_list, a) (λ x. cc)
    | inl a ↦ elim (Bool-cases (nat_beq r.reply.status 304)) [
      | inl b ↦ rw (get_user_list, a, b) (λ x. cc)
      | inr b ↦ elim (Result-cases (check_response join c.api_host r.reply user_path)) [
        | inr (e, k) ↦ rw (get_user_list, k, a, b) (λ x. cc)
        | inl (t, k) ↦
            rw (get_user_list, k, a, b)
              (keep_etag-some r.etag c (read_body lib fuel r) (read_body-some left moves fuel r lt))
      ]
    ]
  ]
