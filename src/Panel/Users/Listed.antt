-- ===== src/Panel/Users/Listed.antt =====
-- The users that GetUserList of api/panel/user.go reads from an array in JSON, and what an error leaves.
use bxtest.Prelude.{
  Str, codes, ◌==◌, ◌&&◌, Bool, nat_beq, nat_eq, ℕ, zero, suc, true, false, Option, some, List, [],
  ◌∷◌, ◌++◌, map, text_eq, ok, ok_inj, some_inj, Result-cases, Option-cases, Bool-cases, inl, inr,
  ◌≡◌, refl, sym, ap, subst, ◌∙◌,
}
use mathlib.Core.List.{append-nil, append_assoc}
use bxtest.Panel.{UserInfo}
use bxtest.Panel.Users.{
  Token, Decoders, users_slice, skip_to_users, read_users, read_array, read_json,
}

-- the array from here on has these elements, and then its end
pub data Holds {D : Type 0} (lib : Decoders D) : D → List Str → Type 0 where
  holds_end : (d : D) → nat_beq (lib.peek_kind d) b']' ≡ true → Holds lib d []
  holds_next :
      (d : D) (v : Str) (vs : List Str)
      → nat_beq (lib.peek_kind d) b']' ≡ false
      → (lib.read_value d).0 ≡ ok v
      → Holds lib (lib.read_value d).1 vs
      → Holds lib d (v ∷ vs)

-- a string "users", whether it is a name or a value
abbrev pub is_users : Token → Bool
is_users t = nat_beq t.kind b'"' && (t.text == codes "users")

-- the first string "users" from here on ends there
pub data Leads {D : Type 0} (lib : Decoders D) : D → D → Type 0 where
  leads_here :
      (d : D) (t : Token)
      → (lib.read_token d).0 ≡ ok t
      → is_users t ≡ true
      → Leads lib d (lib.read_token d).1
  leads_on :
      (d d' : D) (t : Token)
      → (lib.read_token d).0 ≡ ok t
      → is_users t ≡ false
      → Leads lib (lib.read_token d).1 d'
      → Leads lib d d'

-- a body that lists these users: the token after the first string "users" opens an array, and each of
-- its elements, in order and none left out, is one of the users; an empty array is a nil slice
pub record IsListed {D : Type 0} (lib : Decoders D) (stream : Str) (users : Option (List UserInfo))
    : Type 0 where
  pub at : D
  pub opening : Token
  pub elements : List Str
  pub read : List UserInfo
  pub leads : Leads lib (lib.new_decoder stream) at
  pub opens : (lib.read_token at).0 ≡ ok opening
  pub is_array : nat_beq opening.kind b'[' ≡ true
  pub holds : Holds lib (lib.read_token at).1 elements
  pub each : map lib.unmarshal elements ≡ map ok read
  pub all : users ≡ users_slice read

module _ {D : Type 0} (lib : Decoders D) where
  -- the users that the loop ends with are those it began with and one for each element, in order
  read_users-Holds :
      (fuel : ℕ) (d : D) (before us : List UserInfo)
      → read_users lib fuel d before ≡ some (ok us)
      → (vs : List Str) × (new : List UserInfo) × Holds lib d vs
        × (map lib.unmarshal vs ≡ map ok new)
        × (us ≡ before ++ new)
  unfolding read_users
  read_users-Holds zero d before us h = absurd (cc h)
  read_users-Holds (suc fuel) d before us h = elim (Bool-cases (nat_beq (lib.peek_kind d) b']')) [
    | inl p ↦ (
      [],
      [],
      holds_end d p,
      refl,
      sym (ok_inj (some_inj (rw (read_users, p) at h))) ∙ sym (append-nil before),
    )
    | inr p ↦ elim (Result-cases (lib.read_value d).0) [
      | inr (e, q) ↦ cc (rw (read_users, p, q) at h)
      | inl (v, q) ↦ elim (Result-cases (lib.unmarshal v)) [
        | inr (e, k) ↦ cc (rw (read_users, p, q, k) at h)
        | inl (u, k) ↦
            let (vs, new, holds, each, all) =
              read_users-Holds fuel (lib.read_value d).1 (before ++ (u ∷ [])) us
                (rw (read_users, p, q, k) at h) in
            (
              v ∷ vs,
              u ∷ new,
              holds_next d v vs p q holds,
              rw (k, each) refl,
              all ∙ append_assoc before (u ∷ []) new,
            )
      ]
    ]
  ]

  read_array-Holds :
      (fuel : ℕ) (d : D) (users : Option (List UserInfo))
      → read_array lib fuel d ≡ some (ok users)
      → (tok : Token) × (vs : List Str) × (us : List UserInfo) × ((lib.read_token d).0 ≡ ok tok)
        × (nat_beq tok.kind b'[' ≡ true)
        × Holds lib (lib.read_token d).1 vs
        × (map lib.unmarshal vs ≡ map ok us)
        × (users ≡ users_slice us)
  unfolding read_array
  read_array-Holds fuel d users h = elim (Result-cases (lib.read_token d).0) [
    | inr (e, q) ↦ cc (rw (read_array, q) at h)
    | inl (tok, q) ↦ elim (Bool-cases (nat_beq tok.kind b'[')) [
      | inr b ↦ cc (rw (read_array, q, b) at h)
      | inl b ↦ elim (Option-cases (read_users lib fuel (lib.read_token d).1 [])) [
        | inl r ↦ cc (rw (read_array, q, b, r) at h)
        | inr (x, r) ↦ elim (Result-cases x) [
          | inr (e, k) ↦ cc (rw (read_array, q, b, r, k) at h)
          | inl (us, k) ↦
              let (vs, new, holds, each, all) =
                read_users-Holds fuel (lib.read_token d).1 [] us (r ∙ ap some k) in
              (
                tok,
                vs,
                new,
                q,
                b,
                holds,
                each,
                sym (ok_inj (some_inj (rw (read_array, q, b, r, k) at h))) ∙ ap users_slice all,
              )
        ]
      ]
    ]
  ]

  skip_to_users-Leads :
      (fuel : ℕ) (d d' : D) → skip_to_users lib fuel d ≡ some (ok d') → Leads lib d d'
  unfolding skip_to_users
  skip_to_users-Leads zero d d' h = absurd (cc h)
  skip_to_users-Leads (suc fuel) d d' h = elim (Result-cases (lib.read_token d).0) [
    | inr (e, q) ↦ cc (rw (skip_to_users, q) at h)
    | inl (tok, q) ↦ elim (Bool-cases (is_users tok)) [
      | inl n ↦
          subst (Leads lib d) (ok_inj (some_inj (rw (skip_to_users, q, n) at h)))
            (leads_here d tok q n)
      | inr n ↦
          leads_on d d' tok q n
            (skip_to_users-Leads fuel (lib.read_token d).1 d' (rw (skip_to_users, q, n) at h))
    ]
  ]

  pub read_json-ok :
      (fuel : ℕ) (stream : Str) (users : Option (List UserInfo))
      → read_json lib fuel stream ≡ some (ok users)
      → IsListed lib stream users
  unfolding read_json
  read_json-ok fuel stream users h =
      elim (Option-cases (skip_to_users lib fuel (lib.new_decoder stream))) [
        | inl r ↦ cc (rw (read_json, r) at h)
        | inr (x, r) ↦ elim (Result-cases x) [
          | inr (e, k) ↦ cc (rw (read_json, r, k) at h)
          | inl (d, k) ↦
              let (tok, vs, us, q, b, holds, each, all) =
                read_array-Holds fuel d users (rw (read_json, r, k) at h) in
              record {
                at = d;
                opening = tok;
                elements = vs;
                read = us;
                leads = skip_to_users-Leads fuel (lib.new_decoder stream) d (r ∙ ap some k);
                opens = q;
                is_array = b;
                holds = holds;
                each = each;
                all = all;
              }
        ]
      ]
