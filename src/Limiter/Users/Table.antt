-- ===== src/Limiter/Users/Table.antt =====
-- The global table of limiters: what GetLimiter finds after AddLimiter and DeleteLimiter.
use bxtest.Prelude.{
  Str, ℤ, text_eq, if◌then◌else◌, none, some, List, Map, lookup, ◌==◌, ◌≡◌, refl, arith,
  lookup-insert, lookup-erase, Addr, ◌<◌,
}
use bxtest.Panel.{UserInfo}
use bxtest.Conf.{LimitConfig}
use bxtest.Limiter.Users.{Registry, add_limiter, get_limiter, delete_limiter, new_limiter}

module _ {B R : Type 0} where
  -- every pointer in the table leads to an object that exists
  pub record IsValid (r : Registry B R) : Type 0 where
    pub allocated : (t : Str) (p : Addr) → lookup t r.table ≡ some p → p < r.objects.next

  pub add_limiter-IsValid :
      (tag : Str) (conf : LimitConfig) (users : List UserInfo) (alive : Map ℤ ℤ) (r : Registry B R)
      → IsValid r
      → IsValid (add_limiter tag conf users alive r).1
  unfolding add_limiter
  add_limiter-IsValid tag conf users alive r v = record {
    allocated =
        λ t p h. ground (arith, lookup-insert t tag r.objects.next r.table, v.allocated t p);
  }

  pub delete_limiter-IsValid :
      (tag : Str) (r : Registry B R) → IsValid r → IsValid (delete_limiter tag r)
  unfolding delete_limiter
  delete_limiter-IsValid tag r v = record {
    allocated = λ t p h. ground (arith, lookup-erase t tag r.table, v.allocated t p);
  }

  -- In a table whose pointers are valid, AddLimiter makes GetLimiter find the new limiter under its
  -- tag, built from the configuration, the users and the alive list, and under every other tag the
  -- pointer of before, to an object that has not changed.
  pub get_limiter-add_limiter :
      (tag t : Str) (conf : LimitConfig) (users : List UserInfo) (alive : Map ℤ ℤ) (p : Addr)
      (r : Registry B R)
      → IsValid r
      → let (new, r') = add_limiter tag conf users alive r in
        (get_limiter t r' ≡ (if tag == t then some new else get_limiter t r))
        × (r'.objects.cell new ≡ new_limiter tag conf users alive)
        × (get_limiter t r ≡ some p → r'.objects.cell p ≡ r.objects.cell p)
  unfolding add_limiter get_limiter
  get_limiter-add_limiter tag t conf users alive p r v = (
    lookup-insert t tag r.objects.next r.table,
    ground arith,
    λ h. ground (arith, v.allocated t p),
  )

  -- DeleteLimiter makes GetLimiter fail under its tag and changes no other tag; the object itself,
  -- to which others may still point, stays as it was.
  pub get_limiter-delete_limiter :
      (tag t : Str) (r : Registry B R)
      → (get_limiter t (delete_limiter tag r) ≡ (if tag == t then none else get_limiter t r))
        × ((delete_limiter tag r).objects ≡ r.objects)
  unfolding delete_limiter get_limiter
  get_limiter-delete_limiter tag t r = (lookup-erase t tag r.table, refl)
