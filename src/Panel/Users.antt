-- ===== src/Panel/Users.antt =====
-- GetUserList of api/panel/user.go. The decoders of JSON and of msgpack are the libraries'; D is the
-- state of a jsontext.Decoder. The loops run on fuel, and `none` is fuel that has run out.
pub mod Listed
pub mod Enough
pub mod Errors
pub mod Ends
use bxtest.Prelude.{
  Str, codes, nat_beq, text_eq, ℕ, zero, suc, Bool, if◌then◌else◌, ◌&&◌, ◌==◌, Option, none, some,
  List, [], ◌∷◌, ◌++◌, Result, ok, err,
}
use bxtest.Panel.{UserInfo}
use bxtest.Panel.Client.{Reply, check_response}
use bxtest.Panel.Fetch.{Client}

-- jsontext.Token: its kind, and its text
pub record Token : Type 0 where
  pub kind : ℕ
  pub text : Str

pub record Decoders (D : Type 0) : Type 0 where
  -- jsontext.NewDecoder on the body, ReadToken, PeekKind and ReadValue
  pub new_decoder : Str → D
  pub read_token : D → Result Token × D
  pub peek_kind : D → ℕ
  pub read_value : D → Result Str × D
  -- json.Unmarshal into a UserInfo, and the Users of a body in msgpack: `none` is a nil slice
  pub unmarshal : Str → Result UserInfo
  pub decode : Str → Result (Option (List UserInfo))

-- a reply whose body has not been read
pub record Download : Type 0 where
  pub reply : Reply
  -- the header Content-Type contains "application/x-msgpack"
  pub msgpack : Bool
  pub stream : Str
  pub etag : Str

abbrev pub decode_error : Str → Str
decode_error why = codes "decode user list error: " ++ why

-- the elements of a slice that started as nil
abbrev pub users_slice : List UserInfo → Option (List UserInfo)
users_slice [] = none
users_slice (u ∷ us) = some (u ∷ us)

abbrev pub user_path : Str
user_path = codes "/api/v1/server/UniProxy/user"

-- the result of reading the body, and the client after it
abbrev pub keep_etag :
    Str
    → Client
    → Option (Result (Option (List UserInfo)))
    → Option (Result (Option (List UserInfo)) × Client)
keep_etag etag c none = none
keep_etag etag c (some (err e)) = some (err e, c)
keep_etag etag c (some (ok users)) = some (ok users, record c { user_etag = etag })

module _ {D : Type 0} (lib : Decoders D) where
  -- the loop up to the name "users"
  unfoldable pub skip_to_users : ℕ → D → Option (Result D)
  skip_to_users zero d = none
  skip_to_users (suc fuel) d =
      let (read, d') = lib.read_token d in
      elim read [
        | err e ↦ some (err (decode_error e))
        | ok tok ↦
            let rest = skip_to_users fuel d' in
            if nat_beq tok.kind b'"' && (tok.text == codes "users") then some (ok d') else rest
      ]

  -- the loop over the array; `users` are those before
  unfoldable pub read_users : ℕ → D → List UserInfo → Option (Result (List UserInfo))
  read_users zero d users = none
  read_users (suc fuel) d users =
      if nat_beq (lib.peek_kind d) b']'
      then some (ok users)
      else let (read, d') = lib.read_value d in
        elim read [
          | err e ↦ some (err (decode_error (codes "read user object: " ++ e)))
          | ok v ↦ elim (lib.unmarshal v) [
            | err e ↦ some (err (decode_error (codes "unmarshal user error: " ++ e)))
            | ok u ↦ read_users fuel d' (users ++ (u ∷ []))
          ]
        ]

  -- the array after its name
  unfoldable pub read_array : ℕ → D → Option (Result (Option (List UserInfo)))
  unfolding read_users
  read_array fuel d =
      let (read, d') = lib.read_token d in
      elim read [
        | err e ↦ some (err (decode_error e))
        | ok tok ↦
            if nat_beq tok.kind b'['
            then elim (read_users fuel d' []) [
              | none ↦ none
              | some (err e) ↦ some (err e)
              | some (ok users) ↦ some (ok (users_slice users))
            ]
            else some (err (decode_error (codes "expected \"users\" array")))
      ]

  -- a body in JSON
  unfoldable pub read_json : ℕ → Str → Option (Result (Option (List UserInfo)))
  unfolding skip_to_users read_array
  read_json fuel stream = elim (skip_to_users fuel (lib.new_decoder stream)) [
    | none ↦ none
    | some (err e) ↦ some (err e)
    | some (ok d) ↦ read_array fuel d
  ]

  -- the body of a reply that checkResponse has let pass
  unfoldable pub read_body : ℕ → Download → Option (Result (Option (List UserInfo)))
  unfolding read_json
  read_body fuel r =
      if r.msgpack
      then elim (lib.decode r.stream) [
        | err e ↦ some (err (decode_error e))
        | ok users ↦ some (ok users)
      ]
      else read_json fuel r.stream

  -- func (c *Client) GetUserList(), with the reply; the users are `none` for a nil slice
  unfoldable pub get_user_list :
      (Str → Str) → ℕ → Download → Client → Option (Result (Option (List UserInfo)) × Client)
  unfolding read_body
  get_user_list join fuel r c =
      if r.reply.raw
      then if nat_beq r.reply.status 304
        then some (ok none, c)
        else elim (check_response join c.api_host r.reply user_path) [
          | err e ↦ some (err e, c)
          | ok t ↦ keep_etag r.etag c (read_body fuel r)
        ]
      else some (err (codes "received nil response or raw response"), c)
