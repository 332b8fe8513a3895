-- ===== src/LfQueue.antt =====
-- include/lfq-fifo.h: the linked list that holds the assembly queue of a thread.
-- The nodes live on a heap: an address is the number of an allocation, and a freed node is gone, so
-- that a use of it is a fault. A queue has one producer and one consumer at a time, by its lock and
-- its thread; the operations are modelled one after the other.
pub mod Chain
pub mod Operations
pub mod Fifo
use xitao.Prelude.{ℕ, zero, suc, Bool, true, false, List, [], ◌∷◌, ◌++◌, Option, none, some}
use xitao.Prelude.Family.{update}
use xitao.Prelude.Result.{Result, ok, exit, ◌>>=◌}

pub record LfqNode (T : Type 0) : Type 0 where
  pub value : T
  pub next : Option ℕ

pub record LfQueue (T : Type 0) : Type 0 where
  pub nodes : ℕ → Option (LfqNode T)
  pub allocated : ℕ  -- the next address
  pub first : ℕ
  pub last : ℕ

pub data Fault : Type 0 where
  use_after_free : Fault

module _ {T : Type 0} (nullptr : T) where
  -- `p->…`
  unfoldable pub deref : (ℕ → Option (LfqNode T)) → ℕ → Result Fault (LfqNode T)
  deref nodes p = elim (nodes p) [ none ↦ exit use_after_free | some n ↦ ok n ]

  -- `LFQueue::LFQueue`
  unfoldable pub new_queue : LfQueue T
  new_queue = record {
    nodes = update (λ _. none) 0 (some (record { value = nullptr; next = none }));
    allocated = 1;
    first = 0;
    last = 0;
  }

  unfoldable pub front : LfQueue T → Result Fault T
  front s = deref s.nodes s.first >>= λ n. elim n.next [
    | none ↦ ok n.value
    | some nxt ↦ deref s.nodes nxt >>= λ m. ok m.value
  ]

  unfoldable pub is_empty : LfQueue T → Result Fault Bool
  is_empty s = deref s.nodes s.first >>= λ n. elim n.next [ none ↦ ok true | some _ ↦ ok false ]

  unfoldable pub pop : LfQueue T → Result Fault (LfQueue T)
  pop s = deref s.nodes s.first >>= λ n. elim n.next [
    | none ↦ ok s
    | some nxt ↦ deref s.nodes nxt >>= λ m. ok (record s {
      nodes = update (update s.nodes nxt (some (record m { value = nullptr }))) s.first none;
      first = nxt;
    })
  ]

  -- The value taken out, if any.
  unfoldable pub pop_front : LfQueue T → Result Fault (LfQueue T × Option T)
  pop_front s = deref s.nodes s.first >>= λ n. elim n.next [
    | none ↦ ok (s, none)
    | some nxt ↦ deref s.nodes nxt >>= λ m. ok (
      record s {
        nodes = update (update s.nodes nxt (some (record m { value = nullptr }))) s.first none;
        first = nxt;
      },
      some m.value,
    )
  ]

  unfoldable pub push_back : T → LfQueue T → Result Fault (LfQueue T)
  push_back t s =
      let tmp = s.allocated in
      let nodes = update s.nodes tmp (some (record { value = t; next = none })) in
      deref nodes s.last >>= λ n. ok (record {
        nodes = update nodes s.last (some (record n { next = some tmp }));
        allocated = suc tmp;
        first = s.first;
        last = tmp;
      })

  -- `~LFQueue`, with a bound on the rounds of its loop.
  unfoldable pub destroy :
      ℕ → Option ℕ → (ℕ → Option (LfqNode T)) → Result Fault (ℕ → Option (LfqNode T))
  destroy rounds none nodes = ok nodes
  destroy zero (some p) nodes = ok nodes
  destroy (suc rounds) (some p) nodes =
      deref nodes p >>= λ n. destroy rounds n.next (update nodes p none)
