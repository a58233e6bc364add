-- ===== src/Core/Selector/Routing.antt =====
-- Which core the calls for a node go to.
use bxtest.Prelude.{
  Str, text_eq, Bool, true, false, if◌then◌else◌, Option, none, some, List, [], ◌∷◌, Map, lookup,
  Result, ok, err, Result-cases, Addr, ◌==◌, ◌≡◌, ◌≢◌, refl, inl, inr, arith, Option-cases,
  Bool-cases, lookup-insert, lookup-erase,
}
use bxtest.Panel.{UserInfo, NodeInfo}
use bxtest.Conf.{Options}
use bxtest.Core.{Core, AddUsersParams}
use bxtest.Core.Selector.{
  Selector, on, fits, last_fit, select_core, del_node, forward, add_users, get_user_traffic_slice,
  del_users, fill_options, add_node,
}

module _ {S : Type 0} where
  -- some core of the map fits
  pub any_fits : NodeInfo → Options → Selector S → Map Str Addr → Bool
  any_fits info option s [] = false
  any_fits info option s ((name, a) ∷ m) =
      if fits info option s a then true else any_fits info option s m

  -- What the options ask for: the core of that name, or one that fits.
  pub record IsChoice (info : NodeInfo) (option : Options) (s : Selector S) (a : Addr)
      : Type 0 where
    pub by_name : option.core_name ≢ [] → lookup option.core_name s.cores ≡ some a
    pub by_type : option.core_name ≡ [] → fits info option s a ≡ true

  last_fit-fits :
      (info : NodeInfo) (option : Options) (s : Selector S) (m : Map Str Addr) (best : Option Addr)
      (a : Addr)
      → ((b : Addr) → best ≡ some b → fits info option s b ≡ true)
      → last_fit info option s m best ≡ some a
      → fits info option s a ≡ true
  unfolding last_fit
  last_fit-fits info option s [] best a was h = was a h
  last_fit-fits info option s ((name, b) ∷ m) best a was h =
      elim (Bool-cases (fits info option s b)) [
        | inl fit ↦
            last_fit-fits info option s m (some b) a (λ x e. ground (arith, fit)) (ground arith)
        | inr unfit ↦ last_fit-fits info option s m best a was (ground arith)
      ]

  last_fit-none :
      (info : NodeInfo) (option : Options) (s : Selector S) (m : Map Str Addr) (b : Addr)
      → last_fit info option s m (some b) ≢ none
  unfolding last_fit
  last_fit-none info option s [] b h = cc
  last_fit-none info option s ((name, c) ∷ m) b h = elim (Bool-cases (fits info option s c)) [
    | inl fit ↦ last_fit-none info option s m c (ground arith)
    | inr unfit ↦ last_fit-none info option s m b (ground arith)
  ]

  last_fit-any :
      (info : NodeInfo) (option : Options) (s : Selector S) (m : Map Str Addr)
      → any_fits info option s m ≡ true
      → last_fit info option s m none ≢ none
  unfolding last_fit any_fits
  last_fit-any info option s [] h e = cc
  last_fit-any info option s ((name, c) ∷ m) h e = elim (Bool-cases (fits info option s c)) [
    | inl fit ↦ last_fit-none info option s m c (ground arith)
    | inr unfit ↦ last_fit-any info option s m (ground arith) (ground arith)
  ]

  -- Without a core name in the options AddNode finds a core whenever some core fits, in whichever
  -- order the map of cores is met, and the one that it finds does fit; with a name it finds the core
  -- of that name.
  pub select_core-IsChoice :
      (info : NodeInfo) (option : Options) (s : Selector S)
      → (option.core_name ≡ []
          → any_fits info option s s.cores ≡ true
          → select_core info option s ≢ none)
        × ((a : Addr) → select_core info option s ≡ some a → IsChoice info option s a)
  unfolding select_core
  select_core-IsChoice info option s = (
    λ e any h. last_fit-any info option s s.cores any (ground (arith, e, h)),
    λ a h. record {
      by_name = λ ne. ground (arith, ne, h);
      by_type = λ e. last_fit-fits info option s s.cores none a (λ b x. cc) (ground (arith, e, h));
    },
  )

  -- a call on the core at `a` leaves the other cores and the routes alone
  pub on-rest :
      {A : Type 0} (a b : Addr) (op : Core S → S → Result A × S) (s : Selector S)
      → a ≢ b
      → ((on a op s).1.states.cell b ≡ s.states.cell b) × ((on a op s).1.nodes ≡ s.nodes)
  unfolding on
  on-rest a b op s ne = (ground (arith, ne), refl)

  forward-rest :
      {A : Type 0} (tag : Str) (b : Addr) (op : Core S → S → Result A × S) (s : Selector S)
      → lookup tag s.nodes ≢ some b
      → ((forward tag op s).1.states.cell b ≡ s.states.cell b)
        × ((forward tag op s).1.nodes ≡ s.nodes)
  unfolding forward
  forward-rest tag b op s ne = elim (Option-cases (lookup tag s.nodes)) [
    | inl e ↦ rw (e, forward) (refl, refl)
    | inr (a, e) ↦ rw (e, forward) (on-rest a b op s (λ f. ne (ground (arith, e, f))))
  ]

  -- AddUsers, DelUsers and GetUserTrafficSlice of a node leave every core but that node's as it was,
  -- and change no route.
  pub add_users-isolated :
      (p : AddUsersParams) (users : List UserInfo) (info : NodeInfo) (reset : Bool) (b : Addr)
      (s : Selector S)
      → lookup p.tag s.nodes ≢ some b
      → (((add_users p s).1.states.cell b ≡ s.states.cell b) × ((add_users p s).1.nodes ≡ s.nodes))
        × (((del_users users p.tag info s).1.states.cell b ≡ s.states.cell b)
            × ((del_users users p.tag info s).1.nodes ≡ s.nodes))
        × (((get_user_traffic_slice p.tag reset s).1.states.cell b ≡ s.states.cell b)
            × ((get_user_traffic_slice p.tag reset s).1.nodes ≡ s.nodes))
  unfolding add_users del_users get_user_traffic_slice
  add_users-isolated p users info reset b s ne = (
    forward-rest p.tag b (λ c. c.add_users p) s ne,
    forward-rest p.tag b (λ c. c.del_users users p.tag info) s ne,
    forward-rest p.tag b (λ c. c.get_user_traffic_slice p.tag reset) s ne,
  )

  -- After a DelNode that succeeds AddUsers fails for that tag with the core untouched, and every other
  -- tag keeps its route; after one that fails all routes are as before.
  pub del_node-routes :
      (tag t : Str) (s : Selector S)
      → let (r, s') = del_node tag s in
        lookup t s'.nodes
        ≡ elim r [ err e ↦ lookup t s.nodes | ok u ↦ if tag == t then none else lookup t s.nodes ]
  unfolding del_node on
  del_node-routes tag t s = elim (Option-cases (lookup tag s.nodes)) [
    | inl e ↦ rw (e, del_node) refl
    | inr (a, e) ↦ elim (Result-cases ((s.impl a).del_node tag (s.states.cell a)).0) [
      | inl (u, f) ↦ rw (e, f, del_node) (lookup-erase t tag s.nodes)
      | inr (m, f) ↦ rw (e, f, del_node) refl
    ]
  ]

module _ {S : Type 0} (decode : Str → Options → Result (Unit {0}) × Options)
    (decode_core : Str → Options → Result (Unit {0})) where
  -- What AddNode leaves: on success the tag leads to the core `a` that was chosen, other tags lead
  -- where they did, and the other cores are untouched; on failure no route changes.
  pub record IsAdded (tag : Str) (info : NodeInfo) (option : Options) (s : Selector S)
      (result : Result (Unit {0}) × (Options × Selector S)) : Type 0 where
    pub added :
        result.0 ≡ ok tt
        → (a : Addr) × IsChoice info option s a
          × ((t : Str)
              → lookup t result.1.1.nodes ≡ (if tag == t then some a else lookup t s.nodes))
          × ((b : Addr) → a ≢ b → result.1.1.states.cell b ≡ s.states.cell b)
    pub failed : (e : Str) → result.0 ≡ err e → result.1.1.nodes ≡ s.nodes

  -- An AddNode that succeeds routes the tag to a core that the options ask for, keeps every other route
  -- and leaves every other core's state as it was; one that fails changes no route.
  pub add_node-IsAdded :
      (tag : Str) (info : NodeInfo) (option : Options) (s : Selector S)
      → IsAdded tag info option s (add_node decode decode_core tag info option s)
  unfolding add_node on
  add_node-IsAdded tag info option s = elim (Option-cases (select_core info option s)) [
    | inl e ↦ rw (e, add_node) (record { added = λ h. cc; failed = λ m h. refl })
    | inr (a, e) ↦ elim (Result-cases (fill_options decode decode_core a option s).0) [
      | inr (m, f) ↦ rw (e, f, add_node) (record { added = λ h. cc; failed = λ k h. refl })
      | inl (u, f) ↦
          elim (Result-cases
            ((s.impl a).add_node tag info (fill_options decode decode_core a option s).1
              (s.states.cell a)).0) [
                | inr (m, g) ↦
                    rw (e, f, g, add_node) (record { added = λ h. cc; failed = λ k h. refl })
                | inl (w, g) ↦
                    rw (e, f, g, add_node)
                      (record {
                        added = λ h. (
                          a,
                          (select_core-IsChoice info option s).1 a e,
                          λ t. lookup-insert t tag a s.nodes,
                          λ b ne. ground (arith, ne),
                        );
                        failed = λ k h. cc;
                      })
              ]
    ]
  ]
