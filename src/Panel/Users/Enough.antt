-- ===== src/Panel/Users/Enough.antt =====
-- How much fuel the loops of GetUserList of api/panel/user.go need for a body that lists users.
use bxtest.Prelude.{
  Str, ◌+◌, ◌<◌, arith, ◌↔◌, nat_beq, nat_eq, ℕ, zero, suc, true, false, Option, some, List, [],
  ◌∷◌, ◌++◌, map, text_eq, ok, ◌≡◌, refl, sym, ap, ◌∙◌,
}
use mathlib.Core.List.{append-nil, append_assoc}
use bxtest.Panel.{UserInfo}
use bxtest.Panel.Users.{Token, Decoders, skip_to_users, read_users, read_array, read_json}
use bxtest.Panel.Users.Listed.{
  Holds, holds_end, holds_next, is_users, Leads, leads_here, leads_on, IsListed, read_json-ok,
}

module _ {D : Type 0} (lib : Decoders D) where
  skip_to_users-here :
      (d : D) (t : Token)
      → (lib.read_token d).0 ≡ ok t
      → is_users t ≡ true
      → (fuel : ℕ) → 0 < fuel
      → skip_to_users lib fuel d ≡ some (ok (lib.read_token d).1)
  unfolding skip_to_users
  skip_to_users-here d t q n zero lt = absurd (omega arith)
  skip_to_users-here d t q n (suc fuel) lt = rw (skip_to_users, q, n) refl

  skip_to_users-on :
      (d d' : D) (t : Token) (m : ℕ)
      → (lib.read_token d).0 ≡ ok t
      → is_users t ≡ false
      → ((fuel : ℕ) → m < fuel → skip_to_users lib fuel (lib.read_token d).1 ≡ some (ok d'))
      → (fuel : ℕ) → suc m < fuel
      → skip_to_users lib fuel d ≡ some (ok d')
  unfolding skip_to_users
  skip_to_users-on d d' t m q n rest zero lt = absurd (omega arith)
  skip_to_users-on d d' t m q n rest (suc fuel) lt =
      rw (skip_to_users, q, n) (rest fuel (omega arith))

  -- the fuel that suffices to skip
  skip_to_users-enough :
      (d d' : D)
      → Leads lib d d'
      → (n : ℕ) × ((fuel : ℕ) → n < fuel → skip_to_users lib fuel d ≡ some (ok d'))
  skip_to_users-enough d d' (leads_here _ tok q n) = (0, skip_to_users-here d tok q n)
  skip_to_users-enough d d' (leads_on _ _ tok q n more) =
      let (m, rest) = skip_to_users-enough (lib.read_token d).1 d' more in
      (suc m, skip_to_users-on d d' tok m q n rest)

  abbrev Reads : ℕ → D → List UserInfo → Type 0
  Reads n d us =
      (fuel : ℕ) (before : List UserInfo)
      → n < fuel
      → read_users lib fuel d before ≡ some (ok (before ++ us))

  read_users-end : (d : D) → nat_beq (lib.peek_kind d) b']' ≡ true → Reads 0 d []
  unfolding read_users
  read_users-end d p zero before lt = absurd (omega arith)
  read_users-end d p (suc fuel) before lt =
      rw (read_users, p) (ap (λ l. some (ok l)) (sym (append-nil before)))

  read_users-next :
      (d : D) (v : Str) (u : UserInfo) (us : List UserInfo) (n : ℕ)
      → nat_beq (lib.peek_kind d) b']' ≡ false
      → (lib.read_value d).0 ≡ ok v
      → lib.unmarshal v ≡ ok u
      → Reads n (lib.read_value d).1 us
      → Reads (suc n) d (u ∷ us)
  unfolding read_users
  read_users-next d v u us n p q k rest zero before lt = absurd (omega arith)
  read_users-next d v u us n p q k rest (suc fuel) before lt =
      rw (read_users, p, q, k)
        (rest fuel (before ++ (u ∷ [])) (omega arith)
          ∙ ap (λ l. some (ok l)) (append_assoc before (u ∷ []) us))

  -- the fuel that suffices for the elements
  read_users-enough :
      (d : D) (vs : List Str) (us : List UserInfo)
      → Holds lib d vs
      → map lib.unmarshal vs ≡ map ok us
      → (n : ℕ) × Reads n d us
  read_users-enough d _ [] (holds_end _ p) each = (0, read_users-end d p)
  read_users-enough d _ (u ∷ us) (holds_end _ p) each = cc
  read_users-enough d _ [] (holds_next _ v vs p q more) each = cc
  read_users-enough d _ (u ∷ us) (holds_next _ v vs p q more) each =
      let (n, rest) = read_users-enough (lib.read_value d).1 vs us more cc in
      (suc n, read_users-next d v u us n p q (cc) rest)

  read_json-enough :
      (stream : Str) (users : Option (List UserInfo))
      → IsListed lib stream users
      → (fuel : ℕ) × (read_json lib fuel stream ≡ some (ok users))
  unfolding read_json read_array
  read_json-enough stream users l =
      let (n, skips) = skip_to_users-enough (lib.new_decoder stream) l.at l.leads in
      let (m, reads) = read_users-enough (lib.read_token l.at).1 l.elements l.read l.holds l.each in
      let fuel = suc (n + m) in
      (
        fuel,
        rw
            (
              read_json,
              skips fuel (omega arith),
              read_array,
              l.opens,
              l.is_array,
              reads fuel [] (omega arith),
              l.all,
            )
            refl,
      )

  -- A body in JSON is read without an error, with some fuel, exactly when it lists the users that are
  -- returned: the token after the first string "users", which may be a value as well as a name, opens an
  -- array, and the users are its elements, in order and none left out; for an empty array they are nil.
  pub read_json-IsListed :
      (stream : Str) (users : Option (List UserInfo))
      → ((fuel : ℕ) × (read_json lib fuel stream ≡ some (ok users))) ↔ IsListed lib stream users
  read_json-IsListed stream users =
      (λ p. read_json-ok lib p.0 stream users p.1, read_json-enough stream users)
