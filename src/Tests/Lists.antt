-- ===== src/Tests/Lists.antt =====
-- Replies with the users of a node.
use bxtest.Prelude.{
  ◌↔◌, Str, codes, pos, true, false, str_eq, text_eq, ℕ, nat_eq, ◌<◌, length, none, some, List, [],
  ◌∷◌, Result, ok, err, ◌≡◌, ◌≢◌, refl, arith,
}
use bxtest.Panel.{UserInfo}
use bxtest.Panel.Client.{check_response}
use bxtest.Panel.Users.{Token, Decoders, Download, read_json, get_user_list}
use bxtest.Panel.Users.Listed.{IsListed}
use bxtest.Panel.Users.Enough.{read_json-IsListed}
use bxtest.Panel.Users.Errors.{get_user_list-err}
use bxtest.Panel.Users.Ends.{MovesOn, get_user_list-ends}
use bxtest.Tests.Replies.{client}

abbrev token : Str → Str → Token
token kind text = record { kind = elim kind [ [] ↦ 0 | c ∷ cs ↦ c ]; text = text }

-- {"users":[u1,u2]}
abbrev two_users : List Token
two_users =
    token (codes "{") []
    ∷ token (codes "\"") (codes "users")
    ∷ token (codes "[") []
    ∷ token (codes "{") (codes "u1")
    ∷ token (codes "{") (codes "u2")
    ∷ token (codes "]") []
    ∷ []

abbrev next_token : List Token → Result Token × List Token
next_token [] = (err (codes "EOF"), [])
next_token (t ∷ ts) = (ok t, ts)

abbrev next_value : List Token → Result Str × List Token
next_value [] = (err (codes "EOF"), [])
next_value (t ∷ ts) = (ok t.text, ts)

abbrev head_kind : List Token → ℕ
head_kind [] = 0
head_kind (t ∷ ts) = t.kind

abbrev user : Str → UserInfo
user uuid = record { id = pos 1; uuid = uuid; speed_limit = pos 0; device_limit = pos 0 }

abbrev decoders : Decoders (List Token)
decoders = record {
  new_decoder = λ stream. elim stream [ [] ↦ [] | c ∷ cs ↦ two_users ];
  read_token = next_token;
  peek_kind = head_kind;
  read_value = next_value;
  unmarshal = λ v. ok (user v);
  decode = λ stream. ok none;
}

next_token-less :
    (d : List Token) (t : Token) → (next_token d).0 ≡ ok t → length (next_token d).1 < length d
next_token-less [] t h = absurd (cc h)
next_token-less (x ∷ d) t h = omega arith

next_value-less :
    (d : List Token) (v : Str) → (next_value d).0 ≡ ok v → length (next_value d).1 < length d
next_value-less [] v h = absurd (cc h)
next_value-less (x ∷ d) v h = omega arith

decoders-MovesOn : MovesOn decoders (λ ts. length ts)
decoders-MovesOn = record { by_token = next_token-less; by_value = next_value-less }

abbrev download : Str → Download
download stream = record {
  reply = record { failure = none; raw = true; status = 200; body = [] };
  msgpack = false;
  stream = stream;
  etag = codes "v2";
}

read_json-IsListed_example :
    ((fuel : ℕ) × (read_json decoders fuel (codes "b")
        ≡ some (ok (some (user (codes "u1") ∷ user (codes "u2") ∷ [])))))
    ↔ IsListed decoders (codes "b") (some (user (codes "u1") ∷ user (codes "u2") ∷ []))
read_json-IsListed_example =
    read_json-IsListed decoders (codes "b") (some (user (codes "u1") ∷ user (codes "u2") ∷ []))

-- the body lists both users
two_users-IsListed :
    IsListed decoders (codes "b") (some (user (codes "u1") ∷ user (codes "u2") ∷ []))
unfolding read_json str_eq
two_users-IsListed = read_json-IsListed_example.0 (9, refl)

get_user_list-ends_example : get_user_list decoders (λ s. s) 9 (download (codes "b")) client ≢ none
get_user_list-ends_example =
    get_user_list-ends decoders (λ ts. length ts) decoders-MovesOn (λ s. s) 9 (download (codes "b"))
      client (omega arith)

-- an empty body
get_user_list-err_example :
    (client ≡ client)
    × (get_user_list decoders (λ s. s) 9 (download []) client
        ≡ some (err (codes "decode user list error: EOF"), client))
unfolding get_user_list check_response
get_user_list-err_example =
    get_user_list-err decoders (λ s. s) 9 (download []) client client
      (codes "decode user list error: EOF") refl
