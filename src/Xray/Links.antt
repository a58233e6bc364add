-- ===== src/Xray/Links.antt =====
-- What is left of a user that DelUsers has taken out.
use bxtest.Prelude.{
  Str, ℕ, nat_eq, text_eq, if◌then◌else◌, none, List, [], ◌∷◌, ◌++◌, lookup, erase, Result, ok,
  Result-cases, Option-cases, Bool-cases, some, some_inj, nat_beq, subst, ◌≡◌, ◌==◌, refl, ◌∙◌, sym,
  inl, inr, arith, lookup-erase, beq_eq,
}
use mathlib.Core.List.{append_assoc, append-nil, Mem, mem-cons_self, mem-cons_of_mem}
use bxtest.Format.{user_tag}
use bxtest.Panel.{UserInfo}
use bxtest.Limiter.Users.Sync.{has_uuid, tag_eq}
use bxtest.Xray.{LinkManager, Cut, close_links, close_all, Xray, forget_user, del_each, del_users}

pub all_writers : LinkManager → List ℕ
all_writers [] = []
all_writers ((w, r) ∷ m) = w ∷ all_writers m

pub all_readers : LinkManager → List ℕ
all_readers [] = []
all_readers ((w, r) ∷ m) = r ∷ all_readers m

pub all_writers-lookup :
    (w r : ℕ) (m : LinkManager)
    → lookup w m ≡ some r
    → Mem w (all_writers m) × Mem r (all_readers m)
unfolding lookup all_writers all_readers
all_writers-lookup w r [] h = cc
all_writers-lookup w r ((v, q) ∷ m) h = elim (Bool-cases (nat_beq v w)) [
  | inl e ↦ (
    subst (λ a. Mem a (v ∷ all_writers m)) ((nat_eq.beq_iff v w).0 e) mem-cons_self,
    subst (λ a. Mem a (q ∷ all_readers m)) (some_inj (rw (e, lookup) at h)) mem-cons_self,
  )
  | inr e ↦
      let rest = all_writers-lookup w r m (rw (e, lookup) at h) in
      (mem-cons_of_mem v rest.0, mem-cons_of_mem q rest.1)
]

close_links-ends :
    (links m : LinkManager) (cut : Cut)
    → ((close_links links (m, cut)).1.writers ≡ cut.writers ++ all_writers links)
      × ((close_links links (m, cut)).1.readers ≡ cut.readers ++ all_readers links)
unfolding close_links all_writers all_readers
close_links-ends [] m cut = (sym (append-nil cut.writers), sym (append-nil cut.readers))
close_links-ends ((w, r) ∷ links) m cut =
    let next : Cut = record {
      writers = cut.writers ++ (w ∷ []);
      readers = cut.readers ++ (r ∷ []);
    } in
    let rest = close_links-ends links (erase w m) next in
    (
      rest.0 ∙ append_assoc cut.writers (w ∷ []) (all_writers links),
      rest.1 ∙ append_assoc cut.readers (r ∷ []) (all_readers links),
    )

close_links-erases :
    (links m : LinkManager) (cut : Cut) (v : ℕ)
    → (lookup v links ≡ none → lookup v m ≡ none)
    → lookup v (close_links links (m, cut)).0 ≡ none
unfolding close_links lookup
close_links-erases [] m cut v h = h refl
close_links-erases ((w, r) ∷ links) m cut v h =
    close_links-erases links (erase w m)
      (record { writers = cut.writers ++ (w ∷ []); readers = cut.readers ++ (r ∷ []) }) v
      (λ e. ground (arith, lookup-erase v w m, h, e))

-- CloseAll closes every writer and interrupts every reader of the manager, in the order of its links,
-- and leaves no link.
pub close_all-ends :
    (m : LinkManager) (cut : Cut) (v : ℕ)
    → ((close_all m cut).1.writers ≡ cut.writers ++ all_writers m)
      × ((close_all m cut).1.readers ≡ cut.readers ++ all_readers m)
      × (lookup v (close_all m cut).0 ≡ none)
unfolding close_all
close_all-ends m cut v = (
  (close_links-ends m m cut).0,
  (close_links-ends m m cut).1,
  close_links-erases m m cut v (λ e. e),
)

module _ {M : Type 0} where
  forget_user-links :
      (tag user key : Str) (x : Xray M)
      → lookup key (forget_user tag user x).link_managers
        ≡ (if user == key then none else lookup key x.link_managers)
  unfolding forget_user
  forget_user-links tag user key x = elim (Option-cases (lookup user x.link_managers)) [
    | inl e ↦ rw (e, forget_user) (ground (arith, e, beq_eq user key))
    | inr (lm, e) ↦ rw (e, forget_user) (lookup-erase key user x.link_managers)
  ]

  forget_user-uids :
      (tag user key : Str) (x : Xray M)
      → lookup key (forget_user tag user x).uid_map
        ≡ (if user == key then none else lookup key x.uid_map)
  unfolding forget_user
  forget_user-uids tag user key x = elim (Option-cases (lookup user x.link_managers)) [
    | inl e ↦ rw (e, forget_user) (lookup-erase key user x.uid_map)
    | inr (lm, e) ↦ rw (e, forget_user) (lookup-erase key user x.uid_map)
  ]

module _ {M : Type 0} (get_user_manager : Str → M → Result (Unit {0}))
    (remove_user : Str → Str → M → Result (Unit {0}) × M) where
  del_each-forgets :
      (users : List UserInfo) (tag w : Str) (x : Xray M)
      → (del_each get_user_manager remove_user users tag x).0 ≡ ok tt
      → let x' = (del_each get_user_manager remove_user users tag x).1 in
        (lookup (user_tag tag w) x'.uid_map
          ≡ (if has_uuid w users then none else lookup (user_tag tag w) x.uid_map))
        × (lookup (user_tag tag w) x'.link_managers
            ≡ (if has_uuid w users then none else lookup (user_tag tag w) x.link_managers))
  unfolding del_each has_uuid
  del_each-forgets [] tag w x h = (refl, refl)
  del_each-forgets (u ∷ us) tag w x h =
      let user = user_tag tag u.uuid in
      let state = (remove_user tag user x.handlers).1 in
      let here : Xray M = record x { handlers = state } in
      let next = forget_user tag user here in
      elim (Result-cases (remove_user tag user x.handlers).0) [
        | inr (m, e) ↦ absurd (ground (arith, e, h))
        | inl (v, e) ↦
            let rest = del_each-forgets us tag w next (rw (e, del_each) at h) in
            rw (e, del_each)
              (
                rest.0
                    ∙ ground (
                      arith,
                      forget_user-uids tag user (user_tag tag w) here,
                      tag_eq tag u.uuid w,
                    ),
                rest.1
                    ∙ ground (
                      arith,
                      forget_user-links tag user (user_tag tag w) here,
                      tag_eq tag u.uuid w,
                    ),
              )
      ]

  -- After a DelUsers that succeeds the deleted users have neither a uid nor links on the node, and
  -- every other user of the node has what it had.
  pub del_users-forgets :
      (users : List UserInfo) (tag w : Str) (x : Xray M)
      → (del_users get_user_manager remove_user users tag x).0 ≡ ok tt
      → let x' = (del_users get_user_manager remove_user users tag x).1 in
        (lookup (user_tag tag w) x'.uid_map
          ≡ (if has_uuid w users then none else lookup (user_tag tag w) x.uid_map))
        × (lookup (user_tag tag w) x'.link_managers
            ≡ (if has_uuid w users then none else lookup (user_tag tag w) x.link_managers))
  unfolding del_users
  del_users-forgets users tag w x h = elim (Result-cases (get_user_manager tag x.handlers)) [
    | inr (m, e) ↦ absurd (ground (arith, e, h))
    | inl (v, e) ↦ rw (e, del_users) (del_each-forgets users tag w x (rw (e, del_users) at h))
  ]
