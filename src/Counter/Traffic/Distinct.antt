-- ===== src/Counter/Traffic/Distinct.antt =====
-- Every user has a storage of its own: the tables of pointers that the counters build.
use bxtest.Prelude.{
  Str, text_eq, ℕ, suc, ◌<◌, some, [], ◌∷◌, Map, lookup, insert, erase, Addr, ◌≡◌, ◌≢◌, sym, arith,
  str_eq_iff,
}

abbrev pub NotAt : Addr → Map Str Addr → Type 0
NotAt a [] = Unit {0}
NotAt a ((k, b) ∷ m) = (a ≢ b) × NotAt a m

abbrev pub Distinct : Map Str Addr → Type 0
Distinct [] = Unit {0}
Distinct ((k, a) ∷ m) = NotAt a m × Distinct m

abbrev pub Below : ℕ → Map Str Addr → Type 0
Below n [] = Unit {0}
Below n ((k, a) ∷ m) = (a < n) × Below n m

pub NotAt-lookup :
    (a b : Addr) (k : Str) (m : Map Str Addr) → NotAt a m → lookup k m ≡ some b → a ≢ b
unfolding lookup
NotAt-lookup a b k [] n h = cc
NotAt-lookup a b k ((j, c) ∷ m) n h = ground (arith, NotAt-lookup a b k m n.1)

-- two users never share a storage
pub Distinct-lookup :
    (a : Addr) (j k : Str) (m : Map Str Addr)
    → Distinct m
    → lookup j m ≡ some a
    → lookup k m ≡ some a
    → j ≡ k
unfolding lookup
Distinct-lookup a j k [] d g h = cc
Distinct-lookup a j k ((i, c) ∷ m) d g h = ground (
  arith,
  Distinct-lookup a j k m d.1,
  NotAt-lookup c a j m d.0,
  NotAt-lookup c a k m d.0,
  str_eq_iff i j,
  str_eq_iff i k,
)

pub Below-lookup : (n a : ℕ) (k : Str) (m : Map Str Addr) → Below n m → lookup k m ≡ some a → a < n
unfolding lookup
Below-lookup n a k [] b h = cc
Below-lookup n a k ((j, c) ∷ m) b h = ground (arith, Below-lookup n a k m b.1)

pub Below-suc : (n : ℕ) (m : Map Str Addr) → Below n m → Below (suc n) m
Below-suc n [] b = tt
Below-suc n ((j, c) ∷ m) b = (omega arith, Below-suc n m b.1)

pub Below-NotAt : (n : ℕ) (m : Map Str Addr) → Below n m → NotAt n m
Below-NotAt n [] b = tt
Below-NotAt n ((j, c) ∷ m) b = (omega arith, Below-NotAt n m b.1)

pub NotAt-insert :
    (a b : Addr) (k : Str) (m : Map Str Addr) → a ≢ b → NotAt a m → NotAt a (insert k b m)
unfolding insert
NotAt-insert a b k [] ne n = (ne, tt)
NotAt-insert a b k ((j, c) ∷ m) ne n = ground (arith, NotAt-insert a b k m ne n.1)

pub Below-insert :
    (n a : ℕ) (k : Str) (m : Map Str Addr) → a < n → Below n m → Below n (insert k a m)
unfolding insert
Below-insert n a k [] h b = (h, tt)
Below-insert n a k ((j, c) ∷ m) h b = ground (arith, Below-insert n a k m h b.1)

-- a new storage at an address that is not in the table
pub Distinct-insert :
    (n : Addr) (k : Str) (m : Map Str Addr) → Distinct m → NotAt n m → Distinct (insert k n m)
unfolding insert
Distinct-insert n k [] d b = (tt, tt)
Distinct-insert n k ((j, c) ∷ m) d b =
    ground (arith, Distinct-insert n k m d.1 b.1, NotAt-insert c n k m (λ e. b.0 (sym e)) d.0)

pub NotAt-erase : (a : Addr) (k : Str) (m : Map Str Addr) → NotAt a m → NotAt a (erase k m)
unfolding erase
NotAt-erase a k [] n = tt
NotAt-erase a k ((j, c) ∷ m) n = ground (arith, NotAt-erase a k m n.1)

pub Below-erase : (n : ℕ) (k : Str) (m : Map Str Addr) → Below n m → Below n (erase k m)
unfolding erase
Below-erase n k [] b = tt
Below-erase n k ((j, c) ∷ m) b = ground (arith, Below-erase n k m b.1)

pub Distinct-erase : (k : Str) (m : Map Str Addr) → Distinct m → Distinct (erase k m)
unfolding erase
Distinct-erase k [] d = tt
Distinct-erase k ((j, c) ∷ m) d = ground (arith, Distinct-erase k m d.1, NotAt-erase c k m d.0)

-- an address that belonged to the user alone is gone from the table with the user
pub NotAt-erase_self :
    (a : Addr) (k : Str) (m : Map Str Addr) → Distinct m → lookup k m ≡ some a → NotAt a (erase k m)
unfolding lookup erase
NotAt-erase_self a k [] d h = tt
NotAt-erase_self a k ((j, c) ∷ m) d h =
    ground (arith, NotAt-erase_self a k m d.1, NotAt-erase c k m d.0, NotAt-lookup c a k m d.0)
