-- ===== src/Panel/Users/Errors.antt =====
-- What an error of GetUserList of api/panel/user.go leaves.
use bxtest.Prelude.{
  Str, nat_beq, nat_eq, ℕ, Option, none, some, List, text_eq, Result, ok, err, some_inj,
  Result-cases, Bool-cases, inl, inr, ◌≡◌, sym, ap, subst,
}
use bxtest.Panel.{UserInfo}
use bxtest.Panel.Client.{check_response}
use bxtest.Panel.Fetch.{Client}
use bxtest.Panel.Users.{Decoders, Download, read_body, keep_etag, user_path, get_user_list}

same_client :
    {x y : Result (Option (List UserInfo))} {c c' : Client}
    → ◌≡◌ {A = Option (Result (Option (List UserInfo)) × Client)} (some (x, c)) (some (y, c'))
    → c ≡ c'
same_client h = ap (λ (p : Result (Option (List UserInfo)) × Client). p.1) (some_inj h)

module _ {D : Type 0} (lib : Decoders D) where
  keep_etag-err :
      (etag : Str) (c c' : Client) (x : Option (Result (Option (List UserInfo)))) (e : Str)
      → keep_etag etag c x ≡ some (err e, c')
      → c ≡ c'
  keep_etag-err etag c c' none e h = absurd (cc h)
  keep_etag-err etag c c' (some (err d)) e h = same_client h
  keep_etag-err etag c c' (some (ok users)) e h = absurd (cc h)

  get_user_list-err_keeps :
      (join : Str → Str) (fuel : ℕ) (r : Download) (c c' : Client) (e : Str)
      → get_user_list lib join fuel r c ≡ some (err e, c')
      → c ≡ c'
  unfolding get_user_list
  get_user_list-err_keeps join fuel r c c' e h = elim (Bool-cases r.reply.raw) [
    | inr a ↦ same_client (rw (get_user_list, a) at h)
    | inl a ↦ elim (Bool-cases (nat_beq r.reply.status 304)) [
      | inl b ↦ absurd (cc (rw (get_user_list, a, b) at h))
      | inr b ↦ elim (Result-cases (check_response join c.api_host r.reply user_path)) [
        | inr (d, k) ↦ same_client (rw (get_user_list, k, a, b) at h)
        | inl (t, k) ↦
            keep_etag-err r.etag c c' (read_body lib fuel r) e (rw (get_user_list, k, a, b) at h)
      ]
    ]
  ]

  -- An error of GetUserList leaves the client as it was, its ETag above all, and is not hidden: the same
  -- reply gives the same error again.
  pub get_user_list-err :
      (join : Str → Str) (fuel : ℕ) (r : Download) (c c' : Client) (e : Str)
      → get_user_list lib join fuel r c ≡ some (err e, c')
      → (c' ≡ c) × (get_user_list lib join fuel r c' ≡ some (err e, c'))
  unfolding get_user_list
  get_user_list-err join fuel r c c' e h =
      let same = get_user_list-err_keeps join fuel r c c' e h in
      (sym same, subst (λ x. get_user_list lib join fuel r x ≡ some (err e, c')) same h)
