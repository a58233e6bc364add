-- ===== src/Hy2/Traffic.antt =====
-- What LogTraffic counts, and when it tells the server to drop the connection.
use bxtest.Prelude.{
  Str, ℤ, ℕ, text_eq, Bool, true, false, if◌then◌else◌, none, some, lookup, ◌==◌, ◌+ℤ◌, wrap64, ◌≡◌,
  refl, ap, arith, Option-cases, inl, inr, lookup-insert, beq_refl, ◌∙◌,
}
use bxtest.Format.{user_tag}
use bxtest.Counter.Traffic.{get_up_count, get_down_count, rx, tx}
use bxtest.Counter.Traffic.Laws.{IsValid, rx-IsValid, get_down_count-rx, get_up_count-tx}
use bxtest.Limiter.State.{UserLimitInfo}
use bxtest.Limiter.Users.{get_limiter}
use bxtest.Hy2.{HookServer, Logger, to_int, counter_of, count_traffic, log_traffic}

-- the counts of user `j` on the hook's node
abbrev pub up_of : Str → HookServer → ℤ
up_of j hook = get_up_count j (counter_of hook.tag hook)

abbrev pub down_of : Str → HookServer → ℤ
down_of j hook = get_down_count j (counter_of hook.tag hook)

counter_of-count_traffic :
    (id : Str) (sent received : ℕ) (hook : HookServer)
    → counter_of hook.tag (count_traffic id sent received hook)
      ≡ tx id (to_int sent) (rx id (to_int received) (counter_of hook.tag hook))
unfolding count_traffic
counter_of-count_traffic id sent received hook = ground (
  arith,
  lookup-insert hook.tag hook.tag
      (tx id (to_int sent) (rx id (to_int received) (counter_of hook.tag hook))) hook.counter,
  beq_refl hook.tag,
)

counter_of-count_traffic' :
    (id : Str) (sent received : ℕ) (hook : HookServer)
    → counter_of (count_traffic id sent received hook).tag (count_traffic id sent received hook)
      ≡ tx id (to_int sent) (rx id (to_int received) (counter_of hook.tag hook))
unfolding count_traffic
counter_of-count_traffic' id sent received hook = counter_of-count_traffic id sent received hook

-- What a call that counts adds: `sent` to the up count and `received` to the down count of the user,
-- each as an int64 with wrap-around, and nothing to anybody else.
pub record IsCounted (id : Str) (sent received : ℕ) (old new : HookServer) : Type 0 where
  pub same_tag : new.tag ≡ old.tag
  pub up :
      (j : Str)
      → up_of j new ≡ (if id == j then wrap64 (up_of id old +ℤ to_int sent) else up_of j old)
  pub down :
      (j : Str)
      → down_of j new
        ≡ (if id == j then wrap64 (down_of id old +ℤ to_int received) else down_of j old)

count_traffic-IsCounted :
    (id : Str) (sent received : ℕ) (hook : HookServer)
    → IsValid (counter_of hook.tag hook)
    → IsCounted id sent received hook (count_traffic id sent received hook)
count_traffic-IsCounted id sent received hook v =
    let c = counter_of hook.tag hook in
    let valid = rx-IsValid id (to_int received) c v in
    record {
      same_tag = unfold count_traffic in refl;
      up = λ j.
          ap (get_up_count j) (counter_of-count_traffic' id sent received hook)
          ∙ ground (
            arith,
            get_up_count-tx j id (to_int sent) (rx id (to_int received) c) valid,
            get_down_count-rx j id (to_int received) c v,
            get_down_count-rx id id (to_int received) c v,
          );
      down = λ j.
          ap (get_down_count j) (counter_of-count_traffic' id sent received hook)
          ∙ ground (
            arith,
            get_up_count-tx j id (to_int sent) (rx id (to_int received) c) valid,
            get_down_count-rx j id (to_int received) c v,
          );
    }

-- The three ways in which LogTraffic ends.
pub record Outcome {B R : Type 0} (id : Str) (sent received : ℕ) (g : Logger B R)
    (result : Bool × Logger B R) : Type 0 where
  -- no limiter for the tag: the connection is dropped, and nothing changes
  pub no_limiter : get_limiter g.hook.tag g.registry ≡ none → result ≡ (false, g)
  -- the user is marked: dropped once, with no byte counted and the mark taken off
  pub marked :
      (p : ℕ) (u : UserLimitInfo)
      → get_limiter g.hook.tag g.registry ≡ some p
      → lookup (user_tag g.hook.tag id) (g.registry.objects.cell p).user_limit_info ≡ some u
      → u.over_limit ≡ true
      → (result.0 ≡ false)
        × (result.1.hook ≡ g.hook)
        × (lookup (user_tag g.hook.tag id) (result.1.registry.objects.cell p).user_limit_info
            ≡ some (record u { over_limit = false }))
  -- otherwise the traffic is counted and the connection stays
  pub counted :
      (p : ℕ)
      → get_limiter g.hook.tag g.registry ≡ some p
      → ((u : UserLimitInfo)
          → lookup (user_tag g.hook.tag id) (g.registry.objects.cell p).user_limit_info ≡ some u
          → u.over_limit ≡ false)
      → (result.0 ≡ true) × IsCounted id sent received g.hook result.1.hook

-- LogTraffic drops a connection and counts nothing if the node has no limiter or if the user is
-- marked as over its limit, in which case it takes the mark off, so that the next call counts again;
-- in every other case it keeps the connection and counts the bytes for this user only.
pub log_traffic-Outcome :
    {B R : Type 0} (id : Str) (sent received : ℕ) (g : Logger B R)
    → IsValid (counter_of g.hook.tag g.hook)
    → Outcome id sent received g (log_traffic id sent received g)
unfolding log_traffic
log_traffic-Outcome id sent received g v = record {
  no_limiter = λ e. rw (e, log_traffic) refl;
  marked = λ p u e f m.
      rw (e, f, m, log_traffic)
        (
          refl,
          refl,
          ground (
            arith,
            lookup-insert (user_tag g.hook.tag id) (user_tag g.hook.tag id)
                (record u { over_limit = false }) (g.registry.objects.cell p).user_limit_info,
            beq_refl (user_tag g.hook.tag id),
          ),
        );
  counted = λ p e free.
      elim (Option-cases
        (lookup (user_tag g.hook.tag id) (g.registry.objects.cell p).user_limit_info)) [
          | inl f ↦ rw (e, f, log_traffic) (refl, count_traffic-IsCounted id sent received g.hook v)
          | inr (u, f) ↦
              rw (e, f, free u f, log_traffic)
                (refl, count_traffic-IsCounted id sent received g.hook v)
        ];
}
