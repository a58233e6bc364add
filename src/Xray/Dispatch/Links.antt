-- ===== src/Xray/Dispatch/Links.antt =====
-- What getLink leaves behind, and what DelUsers of core/xray/user.go cuts of it.
pub mod Billed
use bxtest.Prelude.{
  Str, codes, ℤ, ℕ, nat_eq, text_eq, true, false, Option, some, [], ◌∷◌, ◌++◌, lookup,
  get_or_default, Result, ok, err, Addr, ◌+◌, ◌≡◌, refl, ap, sym, ◌∙◌, subst, lookup-insert,
  beq_refl,
}
use mathlib.Core.List.{Mem, mem-append_right}
use bxtest.Counter.Traffic.{get_counter, new_traffic_counter}
use bxtest.Limiter.Check.{Verdict}
use bxtest.Limiter.Users.{get_limiter}
use bxtest.Xray.{LinkManager, add_link, Cut, Xray, close_all, forget_user}
use bxtest.Xray.Links.{all_writers-lookup, close_all-ends}
use bxtest.Xray.Dispatch.{
  Network, Session, plain_writer, managed, counts_up, counts_down, plain_reader, Link, Dispatcher,
  user_of, limit_writer, manage, count_for, check_session, open_link, get_link,
}

module _ {Bucket Regexp M : Type 0} (new_bucket : ℤ → ℤ → ℤ → Bucket) (now : ℤ)
    (inbound : Option Session) (network : Network) (d : Dispatcher Bucket Regexp M) where
  -- The two ends of getLink for a user: `s` and `email` are the session's, `p` is the node's limiter.
  pub record Outcome (s : Session) (email : Str) (p : Addr) (v : Verdict Bucket Regexp)
      (result : Result (Link Bucket × Link Bucket × Option Addr) × Dispatcher Bucket Regexp M)
      : Type 0 where
    -- refused: both pipes are closed and interrupted, and nothing is kept of the connection
    pub refused :
        v.reject ≡ true
        → (result.0 ≡ err (codes "Limited " ++ email ++ codes " by conn or ip"))
          × (result.1.xray.link_managers ≡ d.xray.link_managers)
          × (result.1.xray.counter ≡ d.xray.counter)
          × (result.1.xray.cut.writers ≡ d.xray.cut.writers ++ ((d.pipes + 1) ∷ d.pipes ∷ []))
          × (result.1.xray.cut.readers ≡ d.xray.cut.readers ++ (d.pipes ∷ (d.pipes + 1) ∷ []))
    -- admitted: both directions go through one bucket and one storage, and the link is managed
    pub admitted :
        v.reject ≡ false
        → (a : Addr) × (result.0
            ≡ ok (
              record {
                reader = plain_reader (d.pipes + 1);
                writer = counts_up a (limit_writer v.bucket (managed email d.pipes));
              },
              record {
                reader = plain_reader d.pipes;
                writer = counts_down a (limit_writer v.bucket (plain_writer (d.pipes + 1)));
              },
              some p,
            ))
          × ((lm : LinkManager) × (lookup email result.1.xray.link_managers ≡ some lm)
              × (lookup d.pipes lm ≡ some d.pipes))
          × (result.1.xray.cut ≡ d.xray.cut)

  -- the storage and the manager that a link of the user gets
  abbrev storage_of : Str → Str → Addr
  storage_of tag email =
      (get_counter email (get_or_default new_traffic_counter (lookup tag d.xray.counter))).0

  abbrev manager_of : Str → LinkManager
  manager_of email =
      add_link d.pipes d.pipes (get_or_default [] (lookup email d.xray.link_managers))

  manager_of-pipes : (email : Str) → lookup d.pipes (manager_of email) ≡ some d.pipes
  unfolding add_link
  manager_of-pipes email =
      lookup-insert d.pipes d.pipes d.pipes (get_or_default [] (lookup email d.xray.link_managers))
      ∙ rw (beq_refl d.pipes) refl

  -- getLink for a connection of a user whose node has a limiter: what CheckLimit refuses gets an error
  -- and no open pipe, and changes neither counters nor managers; what it lets pass gets two links that
  -- share the user's bucket and storage, and is put under the user's manager.
  pub get_link-Outcome :
      (s : Session) (email : Str) (p : Addr)
      → user_of inbound ≡ some (s, email)
      → get_limiter s.tag d.registry ≡ some p
      → Outcome s email p
          (check_session new_bucket now s email network (d.registry.objects.cell p))
          (get_link new_bucket now inbound network d)
  unfolding get_link open_link manage count_for
  get_link-Outcome s email p e f = record {
    refused = λ h. rw (e, f, h, get_link) (refl, refl, refl, refl, refl);
    admitted = λ h.
        rw (e, f, h, get_link, open_link, manage, count_for)
          (
            storage_of s.tag email,
            refl,
            (
              manager_of email,
              lookup-insert email email (manager_of email) d.xray.link_managers
                  ∙ rw (beq_refl email) refl,
              manager_of-pipes email,
            ),
            refl,
          );
  }

forget_user-close_all :
    {M : Type 0} (tag user : Str) (x : Xray M) (lm : LinkManager)
    → lookup user x.link_managers ≡ some lm
    → (forget_user tag user x).cut ≡ (close_all lm x.cut).1
unfolding forget_user
forget_user-close_all tag user x lm e = rw (e, forget_user) refl

forget_user-cuts :
    {M : Type 0} (tag user : Str) (x : Xray M) (lm : LinkManager) (w r : ℕ)
    → lookup user x.link_managers ≡ some lm
    → lookup w lm ≡ some r
    → Mem w (forget_user tag user x).cut.writers × Mem r (forget_user tag user x).cut.readers
forget_user-cuts tag user x lm w r e f =
    let (in_writers, in_readers) = all_writers-lookup w r lm f in
    let (writers, readers, _) = close_all-ends lm x.cut w in
    let cut = forget_user-close_all tag user x lm e in
    (
      subst (Mem w) (sym (ap (λ (c : Cut). c.writers) cut ∙ writers))
          (mem-append_right x.cut.writers in_writers),
      subst (Mem r) (sym (ap (λ (c : Cut). c.readers) cut ∙ readers))
          (mem-append_right x.cut.readers in_readers),
    )

module _ {Bucket Regexp M : Type 0} (new_bucket : ℤ → ℤ → ℤ → Bucket) (now : ℤ)
    (inbound : Option Session) (network : Network) (d : Dispatcher Bucket Regexp M) where
  -- A connection that getLink has admitted is cut when its user is taken out of the node: the writer
  -- and the reader of its uplink are among the ends that are closed and interrupted.
  pub get_link-forget_user :
      (s : Session) (email : Str) (p : Addr)
      → user_of inbound ≡ some (s, email)
      → get_limiter s.tag d.registry ≡ some p
      → (check_session new_bucket now s email network (d.registry.objects.cell p)).reject ≡ false
      → let x = (get_link new_bucket now inbound network d).1.xray in
        Mem d.pipes (forget_user s.tag email x).cut.writers
        × Mem d.pipes (forget_user s.tag email x).cut.readers
  get_link-forget_user s email p e f h =
      let (a, _, (lm, kept, linked), _) =
        (get_link-Outcome new_bucket now inbound network d s email p e f).admitted h in
      forget_user-cuts s.tag email (get_link new_bucket now inbound network d).1.xray lm d.pipes
        d.pipes kept linked
