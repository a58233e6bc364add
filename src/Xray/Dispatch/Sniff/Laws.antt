-- ===== src/Xray/Dispatch/Sniff/Laws.antt =====
-- What the sniffers find, and when the search for it ends.
use bxtest.Prelude.{
  Str, ℕ, ◌-◌, ◌+◌, ◌≤◌, ◌<◌, Bool, true, false, ◌&&◌, not, if◌then◌else◌, Option, none, some, List,
  [], ◌∷◌, ◌++◌, Result, ok, ◌≡◌, ◌≢◌, refl, ap, sym, ◌∙◌, Bool-cases, Option-cases, Result-cases,
  inl, inr, ◌⊎◌, arith,
}
use mathlib.Core.List.{Mem, append_assoc, append-nil}
use bxtest.Xray.Dispatch.{Network}
use bxtest.Xray.Dispatch.Sniff.{
  SniffResult, Answer, found, no_clue, need_more, no_result, ProtocolSniffer, same_network, finish,
  scan, sniff, Round, unknown_content, sniff_content, Step, stop, go_on, again, after_sniff,
  one_round,
}

-- the sniffers that are asked
abbrev pub is_asked : Network → ProtocolSniffer → Bool
is_asked network s = not s.metadata_sniffer && same_network s.network network

-- the first result among those that are asked
abbrev pub first_found : Str → Network → List ProtocolSniffer → Option SniffResult
first_found payload network [] = none
first_found payload network (s ∷ rest) =
    let later = first_found payload network rest in
    if is_asked network s
    then elim (s.run payload) [
      | found r ↦ some r
      | no_clue ↦ later
      | need_more ↦ later
      | no_result ↦ later
    ]
    else later

-- those that are asked and have no clue, in their order
abbrev pub without_clue : Str → Network → List ProtocolSniffer → List ProtocolSniffer
without_clue payload network [] = []
without_clue payload network (s ∷ rest) =
    let later = without_clue payload network rest in
    if is_asked network s
    then elim (s.run payload) [
      | found r ↦ later
      | no_clue ↦ s ∷ later
      | need_more ↦ later
      | no_result ↦ later
    ]
    else later

-- no sniffer that is asked has a result or no clue: each needs more data or has seen another protocol
abbrev pub IsUndecided : Network → Str → List ProtocolSniffer → Type 0
IsUndecided network payload [] = Unit
IsUndecided network payload (s ∷ rest) =
    (is_asked network s ≡ true → (s.run payload ≡ need_more) ⊎ (s.run payload ≡ no_result))
    × IsUndecided network payload rest

abbrev answer_of :
    Option SniffResult → List ProtocolSniffer → List ProtocolSniffer → Answer × List ProtocolSniffer
answer_of (some r) sniffers pending = (found r, sniffers)
answer_of none sniffers pending = finish sniffers pending

Answer-cases :
    (a : Answer)
    → ((r : SniffResult) × (a ≡ found r)) ⊎ ((a ≡ no_clue) ⊎ ((a ≡ need_more) ⊎ (a ≡ no_result)))
Answer-cases (found r) = inl (r, refl)
Answer-cases no_clue = inr (inl refl)
Answer-cases need_more = inr (inr (inl refl))
Answer-cases no_result = inr (inr (inr refl))

scan_lem :
    (payload : Str) (network : Network) (sniffers rest pending : List ProtocolSniffer)
    → scan payload network sniffers rest pending
      ≡ answer_of
          (first_found payload network rest)
          sniffers
          (pending ++ without_clue payload network rest)
unfolding scan
scan_lem payload network sniffers [] pending = ap (finish sniffers) (sym (append-nil pending))
scan_lem payload network sniffers (s ∷ rest) pending =
    let later = scan_lem payload network sniffers rest pending in
    elim (Bool-cases s.metadata_sniffer) [
      | inl m ↦ rw (m, scan, first_found, without_clue) later
      | inr m ↦ elim (Bool-cases (same_network s.network network)) [
        | inr n ↦ rw (m, n, scan, first_found, without_clue) later
        | inl n ↦ elim (Answer-cases (s.run payload)) [
          | inl (r, a) ↦ rw (m, n, a, scan, first_found, without_clue) refl
          | inr (inl a) ↦
              rw (m, n, a, scan, first_found, without_clue)
                (scan_lem payload network sniffers rest (pending ++ (s ∷ []))
                  ∙ ap (answer_of (first_found payload network rest) sniffers)
                      (append_assoc pending (s ∷ []) (without_clue payload network rest)))
          | inr (inr (inl a)) ↦ rw (m, n, a, scan, first_found, without_clue) later
          | inr (inr (inr a)) ↦ rw (m, n, a, scan, first_found, without_clue) later
        ]
      ]
    ]

-- Sniff gives the first result that a content sniffer of the network has, and otherwise says that it
-- has no clue if one of them has none, keeping exactly those for the next payload.
pub sniff-answer_of :
    (payload : Str) (network : Network) (sniffers : List ProtocolSniffer)
    → sniff payload network sniffers ≡ elim (first_found payload network sniffers) [
      | some r ↦ (found r, sniffers)
      | none ↦ elim (without_clue payload network sniffers) [
        | [] ↦ (no_result, sniffers)
        | p ∷ pending ↦ (no_clue, p ∷ pending)
      ]
    ]
unfolding sniff
sniff-answer_of payload network sniffers =
    scan_lem payload network sniffers sniffers []
    ∙ elim (Option-cases (first_found payload network sniffers)) [
      | inl e ↦ rw e refl
      | inr (r, e) ↦ rw e refl
    ]

IsUndecided-nothing :
    (network : Network) (payload : Str) (sniffers : List ProtocolSniffer)
    → IsUndecided network payload sniffers
    → (first_found payload network sniffers ≡ none) × (without_clue payload network sniffers ≡ [])
IsUndecided-nothing network payload [] all = (refl, refl)
IsUndecided-nothing network payload (s ∷ rest) (here, all) =
    let (e, f) = IsUndecided-nothing network payload rest all in
    elim (Bool-cases (is_asked network s)) [
      | inr a ↦ (rw (first_found, a) e, rw (without_clue, a) f)
      | inl a ↦ elim (here a) [
        | inl b ↦ (rw (first_found, a, b) e, rw (without_clue, a, b) f)
        | inr b ↦ (rw (first_found, a, b) e, rw (without_clue, a, b) f)
      ]
    ]

sniff-IsUndecided :
    (network : Network) (payload : Str) (sniffers : List ProtocolSniffer)
    → IsUndecided network payload sniffers
    → sniff payload network sniffers ≡ (no_result, sniffers)
sniff-IsUndecided network payload sniffers all =
    let (e, f) = IsUndecided-nothing network payload sniffers all in
    sniff-answer_of payload network sniffers ∙ rw (e, f) refl

-- A sniffer that has seen its protocol and only needs more of the payload counts for nothing: if some
-- sniffer that is asked needs more, and the others that are asked need more as well or have seen another
-- protocol, the search ends at once as for unknown content, whatever the rounds after it bring.
pub sniff_content-need_more :
    (network : Network) (r : Round) (rounds : List Round) (deadline attempts c : ℕ) (payload : Str)
    (sniffers : List ProtocolSniffer)
    → r.done ≡ false
    → r.cached ≡ ok (c ∷ payload)
    → (s : ProtocolSniffer) → Mem s sniffers
    → is_asked network s ≡ true
    → s.run (c ∷ payload) ≡ need_more
    → IsUndecided network (c ∷ payload) sniffers
    → sniff_content network (r ∷ rounds) deadline attempts sniffers ≡ some unknown_content
unfolding sniff_content one_round after_sniff
sniff_content-need_more network r rounds deadline attempts c payload sniffers d e s among asked
      needs all =
    rw
      (
        sniff_content,
        one_round,
        d,
        e,
        ap (λ (x : Answer × List ProtocolSniffer). x.0)
            (sniff-IsUndecided network (c ∷ payload) sniffers all),
      )
      refl

-- the nanoseconds of the rounds
abbrev pub total : List Round → ℕ
total [] = 0
total (r ∷ rounds) = r.elapsed + total rounds

again-go_on :
    (left attempts a : ℕ) (sniffers s : List ProtocolSniffer)
    → again left attempts sniffers ≡ go_on a s
    → 0 < left
unfolding again
again-go_on left attempts a sniffers s h = ground arith

after_sniff-go_on :
    (left attempts a : ℕ) (answer : Answer) (sniffers s : List ProtocolSniffer)
    → after_sniff left attempts answer sniffers ≡ go_on a s
    → 0 < left
unfolding after_sniff
after_sniff-go_on left attempts a (found r) sniffers s h = cc
after_sniff-go_on left attempts a no_clue sniffers s h =
    again-go_on left (attempts + 1) a sniffers s h
after_sniff-go_on left attempts a need_more sniffers s h = again-go_on left attempts a sniffers s h
after_sniff-go_on left attempts a no_result sniffers s h = cc

one_round-go_on :
    (network : Network) (r : Round) (left attempts a : ℕ) (sniffers s : List ProtocolSniffer)
    → one_round network r left attempts sniffers ≡ go_on a s
    → 0 < left
unfolding one_round
one_round-go_on network r left attempts a sniffers s h = elim (Bool-cases r.done) [
  | inl d ↦ cc (rw (one_round, d) at h)
  | inr d ↦ elim (Result-cases r.cached) [
    | inr (m, e) ↦ cc (rw (one_round, d, e) at h)
    | inl ([], e) ↦ again-go_on left (attempts + 1) a sniffers s (rw (one_round, d, e) at h)
    | inl (c ∷ payload, e) ↦
        after_sniff-go_on left attempts a (sniff (c ∷ payload) network sniffers).0
          (sniff (c ∷ payload) network sniffers).1 s (rw (one_round, d, e) at h)
  ]
]

Step-cases :
    (x : Step)
    → ((r : Result SniffResult) × (x ≡ stop r))
      ⊎ ((a : ℕ) × (s : List ProtocolSniffer) × (x ≡ go_on a s))
Step-cases (stop r) = inl (r, refl)
Step-cases (go_on a s) = inr (a, s, refl)

-- The search ends when the rounds have taken as long as its deadline allows, whatever they bring.
pub sniff_content-ends :
    (network : Network) (rounds : List Round) (deadline attempts : ℕ)
    (sniffers : List ProtocolSniffer)
    → 0 < deadline
    → deadline ≤ total rounds
    → sniff_content network rounds deadline attempts sniffers ≢ none
unfolding sniff_content
sniff_content-ends network [] deadline attempts sniffers p h = ground arith
sniff_content-ends network (r ∷ rounds) deadline attempts sniffers p h =
    elim (Step-cases (one_round network r (deadline - r.elapsed) attempts sniffers)) [
      | inl (result, e) ↦ λ k. cc (rw (sniff_content, e) at k)
      | inr (a, s, e) ↦
          let left = one_round-go_on network r (deadline - r.elapsed) attempts a sniffers s e in
          λ k.
            sniff_content-ends network rounds (deadline - r.elapsed) a s left (ground arith)
              (rw (sniff_content, e) at k)
    ]
