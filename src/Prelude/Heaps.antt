-- ===== src/Prelude/Heaps.antt =====
-- Objects that several parts of the program hold a pointer to: the cells, and the next free address.
use Prim.Native.Nat.{ℕ, suc}
use bxtest.Prelude.Tests.{if◌then◌else◌, nat_beq}

abbrev pub Addr : Type 0
Addr = ℕ

pub record Heap {ℓ} (A : Type ℓ) : Type ℓ where
  pub cell : ℕ → A
  pub next : ℕ

module _ {ℓ} {A : Type ℓ} where
  -- new(T): the object stands at `h.next`.
  abbrev pub alloc : A → Heap A → Heap A
  alloc a h = record { cell = λ p. if nat_beq p h.next then a else h.cell p; next = suc h.next }

  abbrev pub write : ℕ → A → Heap A → Heap A
  write q a h = record h { cell = λ p. if nat_beq p q then a else h.cell p }
