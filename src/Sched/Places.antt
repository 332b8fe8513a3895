-- ===== src/Sched/Places.antt =====
-- The places of a runtime that `xitao_init_hw` of src/tao_sched.cpp sets up by default.
use xitao.Prelude.{
  ℕ, zero, suc, ◌*◌, ◌/◌, ◌≤◌, ◌<◌, ◌≡◌, ◌⊎◌, ◌↔◌, refl, ◌∙◌, sym, ap, subst, Bool, true, false,
  Option, none, some, List, [], inl, inr, ltb, if◌then◌else◌, arith, fun_ext,
}
use xitao.Prelude.Family.{update}
use xitao.Prelude.Int.{ℤ, pos, pos_part, leb_ℤ, ltb_ℤ}
use xitao.Prelude.Member.{In}
use xitao.Prelude.Result.{ok, exit, Result, ◌>>=◌}
use xitao.Layout.{
  Layout, Place, max_threads, clear_layout_partitions, clear_rows, prepare_default_layout,
}
use xitao.Layout.Widths.{IsWidth}
use xitao.Layout.Default.{IsSized, default_layout, default_layout-places}
use xitao.Sched.{
  Scheduler, SchedExit, Environment, given_or, init_layout, too_many_threads, xitao_init_hw,
}

-- Tables in which nothing is listed.
abbrev pub IsEmpty : Layout → Type 0
IsEmpty l = (k : ℕ) → (l.ptt_layout k ≡ []) × (l.inclusive_partitions k ≡ [])

clear_rows-IsEmpty :
    {A : Type 0} (n : ℕ) (rows : ℕ → List A) → ((k : ℕ) → rows k ≡ []) → clear_rows n rows ≡ rows
unfolding clear_rows
clear_rows-IsEmpty zero rows empty = refl
clear_rows-IsEmpty {A} (suc n) rows empty =
    clear_rows-IsEmpty n (update rows n []) now ∙ fun_ext (λ k. now k ∙ sym (empty k))
  where
    now : (k : ℕ) → update rows n [] k ≡ []
    now k = let e = empty k in ground arith

clear-IsEmpty : (l : Layout) → IsEmpty l → clear_layout_partitions l ≡ l
unfolding clear_layout_partitions
clear-IsEmpty l empty =
    let widths = clear_rows-IsEmpty max_threads l.ptt_layout (λ k. (empty k).0) in
    let places = clear_rows-IsEmpty max_threads l.inclusive_partitions (λ k. (empty k).1) in
    λ i. record l { ptt_layout = widths i; inclusive_partitions = places i }

-- The tables that the default partitions are put into.
tables_cleared :
    (s : Scheduler)
    → (s.gotao_initialized ≡ true) ⊎ IsEmpty s.layout
    → (if s.gotao_initialized then clear_layout_partitions s.layout else s.layout)
      ≡ clear_layout_partitions s.layout
tables_cleared s (inl again) = rw again refl
tables_cleared s (inr empty) =
    let same = clear-IsEmpty s.layout empty in pick s.gotao_initialized same
  where
    pick :
        (b : Bool)
        → clear_layout_partitions s.layout ≡ s.layout
        → (if b then clear_layout_partitions s.layout else s.layout)
          ≡ clear_layout_partitions s.layout
    pick true same = refl
    pick false same = sym same

-- The layout before the partitions are put into it.
abbrev ready : ℕ → Layout → Layout
ready n l = record l {
  nthreads = n;
  static_resource_mapper = λ i. if ltb i max_threads then pos i else l.static_resource_mapper i;
}

default_layout-nthreads : (n : ℕ) (l : Layout) → (default_layout n l).nthreads ≡ l.nthreads
unfolding default_layout prepare_default_layout clear_layout_partitions
default_layout-nthreads n l = refl

ready-IsSized : (n : ℕ) (l : Layout) → IsSized l → IsSized (ready n l)
ready-IsSized n l sized = record { no_width = sized.no_width; no_place = sized.no_place }

module _ (atoi : List ℕ → ℤ) (stoi : List ℕ → Option ℤ) where
  given_or-pos :
      (n : ℕ) (text : Option (List ℕ)) (default : ℤ)
      → given_or atoi stoi (pos n) text default ≡ pos n
  unfolding given_or
  given_or-pos n none default =
      let some_threads : leb_ℤ (pos 0) (pos n) ≡ true = ground arith in rw some_threads refl
  given_or-pos n (some text) default =
      let some_threads : leb_ℤ (pos 0) (pos n) ≡ true = ground arith in rw some_threads refl

  xitao_init_hw-ready :
      (env : Environment) (n : ℕ) (thrb nhwc : ℤ) (s : Scheduler)
      → s.resources_runtime_controlled ≡ false
      → env.xitao_layout_path ≡ none
      → n ≤ max_threads
      → (s.gotao_initialized ≡ true) ⊎ IsEmpty s.layout
      → (s' : Scheduler) × (xitao_init_hw atoi stoi env (pos n) thrb nhwc s ≡ ok s')
        × (s'.resources_runtime_controlled ≡ false)
        × (s'.layout ≡ default_layout n (ready n s.layout))
  unfolding xitao_init_hw init_layout default_layout given_or clear_layout_partitions
  xitao_init_hw-ready env n thrb nhwc s free no_file few fresh =
      let set_up : Bool
          → Option (Option (List (List ℕ)))
          → ℤ
          → Layout
          → Result SchedExit Scheduler =
        λ controlled path wanted l.
          if ltb_ℤ (pos max_threads) wanted
          then exit too_many_threads
          else init_layout atoi stoi controlled path
              (record l { nthreads = if controlled then s.mapper_size else pos_part wanted })
            >>= λ l'. ok (done s l') in
      let same : xitao_init_hw atoi stoi env (pos n) thrb nhwc s
          ≡ set_up false none (pos n) (clear_layout_partitions s.layout) =
        λ i.
          set_up (free i) (no_file i) (given_or-pos n env.gotao_nthreads (pos max_threads) i)
            (tables_cleared s fresh i) in
      let small : ltb_ℤ (pos max_threads) (pos n) ≡ false = ground arith in
      (done s (default_layout n (ready n s.layout)), same ∙ rw small refl, free, refl)
    where
      done : Scheduler → Layout → Scheduler
      done s l' = record s {
        layout = l';
        gotao_ncontexts = given_or atoi stoi nhwc env.gotao_hw_contexts (pos 1);
        gotao_thread_base = given_or atoi stoi thrb env.gotao_thread_base (pos 0);
        suppress_init_warnings = true;
        gotao_initialized = true;
      }

  -- With no layout file and no mask, `xitao_init_hw` for n threads, n at most 64, succeeds, on
  -- tables that are empty or of an initialized runtime, with nothing behind thread 63; the
  -- runtime then has n threads, and each thread below n is in exactly the places whose width
  -- divides n and is not its square root, each led by the multiple of the width at or below the
  -- thread.
  pub xitao_init_hw-places :
      (env : Environment) (n : ℕ) (thrb nhwc : ℤ) (s : Scheduler)
      → s.resources_runtime_controlled ≡ false
      → env.xitao_layout_path ≡ none
      → n ≤ max_threads
      → (s.gotao_initialized ≡ true) ⊎ IsEmpty s.layout
      → IsSized s.layout
      → (s' : Scheduler) × (xitao_init_hw atoi stoi env (pos n) thrb nhwc s ≡ ok s')
        × (s'.resources_runtime_controlled ≡ false)
        × (s'.layout.nthreads ≡ n)
        × ((t : ℕ) (p : Place)
            → t < n
            → In p (s'.layout.inclusive_partitions t)
              ↔ (IsWidth n p.width × (p.leader ≡ t / p.width * p.width)))
  xitao_init_hw-places env n thrb nhwc s free no_file few fresh sized =
      let (s', runs, free', same) = xitao_init_hw-ready env n thrb nhwc s free no_file few fresh in
      (
        s',
        runs,
        free',
        ap Layout.nthreads same ∙ default_layout-nthreads n (ready n s.layout),
        λ t p below.
            subst
              (λ (l : Layout).
                In p (l.inclusive_partitions t)
                ↔ (IsWidth n p.width × (p.leader ≡ t / p.width * p.width)))
              (sym same)
              (default_layout-places n (ready n s.layout) t p (ready-IsSized n s.layout sized) few
                below),
      )
