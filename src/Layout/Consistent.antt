-- ===== src/Layout/Consistent.antt =====
-- The two tables of a layout say the same.
use xitao.Prelude.{ℕ, ◌+◌, ◌≤◌, ◌<◌, ◌↔◌, List}
use xitao.Prelude.Int.{ℤ, pos}
use xitao.Prelude.Member.{In}
use xitao.Layout.{Place, Layout, max_threads}

-- Place `p` is one that the layout allows, and thread `t` is in it.
pub record Holds (layout : ℕ → List ℤ) (t : ℕ) (p : Place) : Type 0 where
  pub allowed : In (pos p.width) (layout p.leader)
  pub from : p.leader ≤ t
  pub below : t < p.leader + p.width

-- Thread `t` lists exactly the places that the layout allows and that `t` is in.
abbrev pub IsConsistent : Layout → Type 0
IsConsistent s = (t : ℕ) (p : Place) → In p (s.inclusive_partitions t) ↔ Holds s.ptt_layout t p

-- The tables agree, and no allowed place reaches past the last thread of the machine.
pub record IsWellFormed (s : Layout) : Type 0 where
  pub consistent : IsConsistent s
  pub bounded :
      (leader width : ℕ)
      → In (pos width) (s.ptt_layout leader)
      → 0 < width
      → leader + width ≤ max_threads
