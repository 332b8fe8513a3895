-- ===== src/Layout.antt =====
-- src/xitao_ptt.cpp, lines 97 to 220, with the tables of src/xitao_workspace.cpp: which places (a
-- leading thread and a width) the threads of the machine form.
-- `ptt_layout` holds what the file says, so any `int`; the entries of `inclusive_partitions` have
-- a leader that is a thread and a positive width, so they are numbers.
pub mod Consistent
pub mod Cover
pub mod Widths
pub mod Leaders
pub mod Default
pub mod Mapper
pub mod File
use xitao.Prelude.{
  ℕ, zero, suc, ◌+◌, ◌-◌, ◌*◌, ◌/◌, ◌%◌, Bool, true, false, List, [], ◌∷◌, ◌++◌, ltb, leb, ◌==◌,
  if◌then◌else◌, Option, none, some,
}
use mathlib.Core.List.{reverse}
use xitao.Prelude.Int.{ℤ, pos, negsuc, pos_part, minus_one, ltb_ℤ, leb_ℤ}
use xitao.Prelude.Family.{update}
use xitao.Prelude.Member.{push}
use xitao.Prelude.Result.{Result, ok, exit, ◌>>=◌}

-- `XITAO_MAXTHREADS` of include/config.h
abbrev pub max_threads : ℕ
max_threads = 64

-- `std::pair<int, int>`: a leader and a width.
pub record Place : Type 0 where
  pub leader : ℕ
  pub width : ℕ

pub record Layout : Type 0 where
  pub nthreads : ℕ
  pub static_resource_mapper : ℕ → ℤ
  pub ptt_layout : ℕ → List ℤ
  pub inclusive_partitions : ℕ → List Place

-- `clear_layout_partitions`: the first `n` rows of both tables are emptied.
unfoldable pub clear_rows : {A : Type 0} → ℕ → (ℕ → List A) → ℕ → List A
clear_rows zero rows = rows
clear_rows (suc n) rows = clear_rows n (update rows n [])

unfoldable pub clear_layout_partitions : Layout → Layout
clear_layout_partitions s = record s {
  ptt_layout = clear_rows max_threads s.ptt_layout;
  inclusive_partitions = clear_rows max_threads s.inclusive_partitions;
}

-- `for(j = 0; j < width; ++j) inclusive_partitions[i + j].push_back((i, width))`, from `j` on with
-- `m` rounds left.
unfoldable pub cover : ℕ → ℕ → ℕ → ℕ → (ℕ → List Place) → ℕ → List Place
cover zero j i width rows = rows
cover (suc m) j i width rows =
    cover m (j + 1) i width (push rows (i + j) (record { leader = i; width = width }))

-- The widths that `prepare_default_layout` collects: `widths`, and the large divisors in `temp`.
pub record Divisors : Type 0 where
  pub widths : List ℕ
  pub temp : List ℕ

-- The loop over `i`, with a bound on its rounds. `i < sqrt(nthreads)` is `i * i < nthreads`.
unfoldable pub divisors : ℕ → ℕ → ℕ → Divisors → Divisors
divisors zero i nthreads d = d
divisors (suc rounds) i nthreads d =
    let d' =
      if nthreads % i == 0
      then record { widths = d.widths ++ i ∷ []; temp = d.temp ++ (nthreads / i) ∷ [] }
      else d in
    let rest = divisors rounds (i + 1) nthreads d' in if ltb (i * i) nthreads then rest else d

unfoldable pub default_widths : ℕ → List ℕ
default_widths nthreads =
    let d = divisors nthreads 1 nthreads (record { widths = []; temp = [] }) in
    d.widths ++ reverse d.temp

-- `for(j = 0; j < nthreads; j += width) ptt_layout[j].push_back(width)`, with a bound on its rounds.
unfoldable pub add_width : ℕ → ℕ → ℕ → ℕ → (ℕ → List ℤ) → ℕ → List ℤ
add_width zero j width nthreads rows = rows
add_width (suc rounds) j width nthreads rows =
    let rest = add_width rounds (j + width) width nthreads (push rows j (pos width)) in
    if ltb j nthreads then rest else rows

unfoldable pub add_widths : List ℕ → ℕ → (ℕ → List ℤ) → ℕ → List ℤ
add_widths [] nthreads rows = rows
add_widths (w ∷ ws) nthreads rows = add_widths ws nthreads (add_width nthreads 0 w nthreads rows)

-- `for(auto&& width : ptt_layout[i])`: a width that is not positive covers nothing.
unfoldable pub cover_widths : List ℤ → ℕ → (ℕ → List Place) → ℕ → List Place
cover_widths [] i rows = rows
cover_widths (w ∷ ws) i rows = cover_widths ws i (cover (pos_part w) 0 i (pos_part w) rows)

-- `for(i = 0; i < nthreads; ++i)`, from `i` on with `m` rounds left.
unfoldable pub cover_threads : ℕ → ℕ → (ℕ → List ℤ) → (ℕ → List Place) → ℕ → List Place
cover_threads zero i layout rows = rows
cover_threads (suc m) i layout rows =
    cover_threads m (i + 1) layout (cover_widths (layout i) i rows)

unfoldable pub prepare_default_layout : ℕ → Layout → Layout
prepare_default_layout nthreads s =
    let layout = add_widths (default_widths nthreads) nthreads s.ptt_layout in
    record s {
      ptt_layout = layout;
      inclusive_partitions = cover_threads nthreads 0 layout s.inclusive_partitions;
    }

-- Why `read_layout_table` ends. `bad_number` is the exception of `std::stoi`; `outside_mapper` stands
-- for the undefined write behind the 64 entries of `static_resource_mapper`.
pub data LayoutExit : Type 0 where
  cannot_open too_many_partitions too_many_configs illegal_partition bad_number outside_mapper :
      LayoutExit

-- The text before each comma of a line, and the text behind the last one.
unfoldable pub split_commas : List ℕ → List ℕ → List (List ℕ) × List ℕ
split_commas token [] = ([], token)
split_commas token (c ∷ line) =
    let (tokens, last) = split_commas (if c == b',' then [] else token ++ c ∷ []) line in
    if c == b',' then (token ∷ tokens, last) else (tokens, last)

-- The loop over `i < val` with the test of `current_thread_id + i` in it.
unfoldable pub cover_checked : ℕ → ℕ → ℕ → ℕ → (ℕ → List Place) → Result LayoutExit (ℕ → List Place)
cover_checked zero j i width rows = ok rows
cover_checked (suc m) j i width rows =
    let rest =
      cover_checked m (j + 1) i width (push rows (i + j) (record { leader = i; width = width })) in
    if leb max_threads (i + j) then exit illegal_partition else rest

-- One width `val` of thread `id`.
unfoldable pub add_config : ℕ → ℤ → Layout → Result LayoutExit Layout
add_config id val s =
    cover_checked (pos_part val) 0 id (pos_part val) s.inclusive_partitions >>= λ rows.
    ok (record s { ptt_layout = push s.ptt_layout id val; inclusive_partitions = rows })

-- `std::stoi`: none where it throws.
module _ (stoi : List ℕ → Option ℤ) where
  unfoldable pub number : List ℕ → Result LayoutExit ℤ
  number token = elim (stoi token) [ none ↦ exit bad_number | some val ↦ ok val ]

  -- The first line: `static_resource_mapper[thread_count++] = val`.
  unfoldable pub affinity_tokens : List (List ℕ) → ℕ → Layout → Result LayoutExit (ℕ × Layout)
  affinity_tokens [] thread_count s = ok (thread_count, s)
  affinity_tokens (token ∷ tokens) thread_count s = number token >>= λ val.
      if leb max_threads thread_count
      then exit outside_mapper
      else affinity_tokens tokens (thread_count + 1)
          (record s { static_resource_mapper = update s.static_resource_mapper thread_count val })

  -- The text behind the last comma is a token unless it is empty.
  abbrev pub last_tokens : List ℕ → List (List ℕ)
  last_tokens [] = []
  last_tokens (c ∷ token) = (c ∷ token) ∷ []

  unfoldable pub affinity_line : List ℕ → Layout → Result LayoutExit Layout
  affinity_line line s =
      let (tokens, last) = split_commas [] line in
      affinity_tokens (tokens ++ last_tokens last) 0 s >>= λ (thread_count, s').
      ok (record s' { nthreads = thread_count })

  -- The tokens in front of a comma: only these are tested against the number of threads.
  unfoldable pub config_tokens : List (List ℕ) → ℕ → Layout → Result LayoutExit Layout
  config_tokens [] id s = ok s
  config_tokens (token ∷ tokens) id s = number token >>= λ val.
      (if leb s.nthreads (id + 1) then exit too_many_configs else add_config id val s)
      >>= config_tokens tokens id

  unfoldable pub config_last : List (List ℕ) → ℕ → Layout → Result LayoutExit Layout
  config_last [] id s = ok s
  config_last (token ∷ tokens) id s = number token >>= λ val. add_config id val s

  unfoldable pub config_line : List ℕ → ℕ → Layout → Result LayoutExit Layout
  config_line line id s =
      let (tokens, last) = split_commas [] line in
      config_tokens tokens id s >>= config_last (last_tokens last) id

  -- The other lines, the first of which is for thread 0.
  unfoldable pub config_lines : List (List ℕ) → ℕ → Layout → Result LayoutExit Layout
  config_lines [] id s = ok s
  config_lines (line ∷ lines) id s =
      (if leb max_threads id then exit too_many_partitions else config_line line id s)
      >>= config_lines lines (id + 1)

  -- The file is its lines; `none` where it cannot be opened.
  unfoldable pub read_layout_table : Option (List (List ℕ)) → Layout → Result LayoutExit Layout
  read_layout_table none s = exit cannot_open
  read_layout_table (some []) s = ok s
  read_layout_table (some (line ∷ lines)) s = affinity_line line s >>= config_lines lines 0
