-- ===== src/Barriers.antt =====
-- src/barriers.cpp and include/barriers.h: the spinning barrier at which the threads meet.
-- Each atomic access of `spin_barrier::wait` is a turn of a thread; threads take turns in any order
-- and call `wait` again and again. The counters, `unsigned int` and `int`, wrap around; a value stands
-- for its 32 bits.
pub mod Sums
pub mod Modes
pub mod Turns
pub mod Meeting
use xitao.Prelude.{
  ℕ, zero, suc, ◌+◌, ◌-◌, ◌%◌, Bool, true, false, List, [], ◌∷◌, ◌==◌, if◌then◌else◌,
}
use xitao.Prelude.Family.{update}

-- Where a thread stands in `wait`, with its `lstep`.
pub data WaitPoint : Type 0 where
  outside : WaitPoint
  loaded spinning resetting releasing : ℕ → WaitPoint

-- The fields of the barrier, the threads, and how often each has arrived at it and left it.
pub record SpinBarrier : Type 0 where
  pub nthreads : ℕ
  pub nwait_atmc : ℕ
  pub step_atmc : ℕ
  pub place : ℕ → WaitPoint
  pub arrived : ℕ → ℕ
  pub left : ℕ → ℕ

-- The values of an `int`.
abbrev pub int_range : ℕ
int_range = 4294967296

-- `fetch_add(1)`
abbrev pub fetch_add_1 : ℕ → ℕ
fetch_add_1 n = suc n % int_range

-- `spin_barrier::spin_barrier`
unfoldable pub new_barrier : ℕ → SpinBarrier
new_barrier threads = record {
  nthreads = threads;
  nwait_atmc = 0;
  step_atmc = 0;
  place = λ _. outside;
  arrived = λ _. 0;
  left = λ _. 0;
}

unfoldable pub leave : ℕ → SpinBarrier → SpinBarrier
leave t s = record s { place = update s.place t outside; left = update s.left t (suc (s.left t)) }

-- The next access of thread `t`, which stands at the given place.
unfoldable pub turn_at : WaitPoint → ℕ → SpinBarrier → SpinBarrier
turn_at outside t s = record s { place = update s.place t (loaded s.step_atmc) }
turn_at (loaded lstep) t s = record s {
  nwait_atmc = fetch_add_1 s.nwait_atmc;
  arrived = update s.arrived t (suc (s.arrived t));
  place =
      update s.place t (if s.nwait_atmc == s.nthreads - 1 then resetting lstep else spinning lstep);
}
turn_at (resetting lstep) t s = record s {
  nwait_atmc = 0;
  place = update s.place t (releasing lstep);
}
turn_at (releasing lstep) t s = leave t (record s { step_atmc = fetch_add_1 s.step_atmc })
turn_at (spinning lstep) t s = if s.step_atmc == lstep then s else leave t s

unfoldable pub turn : ℕ → SpinBarrier → SpinBarrier
turn t s = turn_at (s.place t) t s

unfoldable pub run_turns : List ℕ → SpinBarrier → SpinBarrier
run_turns [] s = s
run_turns (t ∷ ts) s = run_turns ts (turn t s)
