-- ===== src/Pools/TickPool.antt =====
-- feedhandler/src/common/tick_pool.cpp, whose methods are those of FlyweightTickPool in
-- feedhandler/include/common/flyweight_tick.hpp, over another tick. A pointer into the pool is the
-- index of its slot; the pool never grows behind its constructor, so the pointers stay good.
use scratch.Prelude.{
  ℕ, zero, suc, set, ◌+◌, leb, length, List, [], ◌∷◌, Option, none, some, Bool, if◌then◌else◌,
}

pub record Pool {ℓ} (A : Type ℓ) : Type ℓ where
  pub slots : List A
  pub next_index : ℕ

module _ {ℓ} {A : Type ℓ} where
  abbrev pub copies : A → ℕ → List A
  copies x zero = []
  copies x (suc n) = x ∷ copies x n

  -- `pool_.resize(capacity)`, with ticks as their constructor leaves them.
  unfoldable pub new_pool : A → ℕ → Pool A
  new_pool x capacity = record { slots = copies x capacity; next_index = 0 }

  unfoldable pub is_full : Pool A → Bool
  is_full p = leb (length p.slots) p.next_index

  -- A null pointer where the pool is exhausted.
  unfoldable pub acquire : Pool A → Pool A × Option ℕ
  unfolding is_full
  acquire p =
      if is_full p
      then (p, none)
      else (record p { next_index = p.next_index + 1 }, some p.next_index)

  unfoldable pub reset : Pool A → Pool A
  reset p = record p { next_index = 0 }

  -- A write through a pointer into the pool.
  unfoldable pub write_slot : ℕ → A → Pool A → Pool A
  write_slot i x p = record p { slots = set p.slots i x }
