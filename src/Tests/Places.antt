-- ===== src/Tests/Places.antt =====
-- Runs of the layout code (src/xitao_ptt.cpp).
use xitao.Prelude.{
  ℕ, ◌*◌, ◌+◌, ◌-◌, ◌≡◌, ◌↔◌, refl, List, [], ◌∷◌, Option, none, some, leb, ◌&&◌, if◌then◌else◌,
  arith, ◌≤◌,
}
use xitao.Prelude.Int.{ℤ, pos}
use xitao.Prelude.Member.{In}
use xitao.Prelude.Result.{Result, ok, exit}
use xitao.Layout.{
  Place, Layout, LayoutExit, default_widths, divisors, read_layout_table, split_commas, number,
  affinity_tokens, affinity_line, config_tokens, config_last, config_line, config_lines, add_config,
  cover_checked, max_threads,
}
use xitao.Layout.Consistent.{IsWellFormed}
use xitao.Layout.Widths.{IsWidth}
use xitao.Layout.Default.{
  IsSized, default_layout, default_layout-places, default_layout-IsWellFormed,
}
use xitao.Layout.File.{read_layout_table-IsWellFormed}

abbrev pub no_layout : Layout
no_layout = record {
  nthreads = 0;
  static_resource_mapper = λ _. pos 0;
  ptt_layout = λ _. [];
  inclusive_partitions = λ _. [];
}

pub no_layout-IsSized : IsSized no_layout
no_layout-IsSized = record { no_width = λ t h. refl; no_place = λ t h. refl }

pub no_layout-IsWellFormed : IsWellFormed no_layout
no_layout-IsWellFormed = record {
  consistent = λ t p. (λ h. absurd h, λ h. absurd h.allowed);
  bounded = λ l w h some_width. absurd h;
}

widths_12 : default_widths 12 ≡ 1 ∷ 2 ∷ 3 ∷ 4 ∷ 6 ∷ 12 ∷ []
unfolding default_widths divisors
widths_12 = refl

-- The square root is missing, and a machine of one thread gets no width at all.
widths_16 : default_widths 16 ≡ 1 ∷ 2 ∷ 8 ∷ 16 ∷ []
unfolding default_widths divisors
widths_16 = refl

widths_1 : default_widths 1 ≡ []
unfolding default_widths divisors
widths_1 = refl

abbrev four_of_twelve : Place
four_of_twelve = record { leader = 4; width = 4 }

default_layout-places_example :
    In four_of_twelve ((default_layout 12 no_layout).inclusive_partitions 6)
    ↔ (IsWidth 12 4 × (four_of_twelve.leader ≡ 4))
default_layout-places_example =
    default_layout-places 12 no_layout 6 four_of_twelve no_layout-IsSized (omega arith)
      (omega arith)

-- Decimal digits alone.
stoi_from : List ℕ → ℕ → Option ℤ
stoi_from [] n = some (pos n)
stoi_from (c ∷ cs) n =
    let rest = stoi_from cs (n * 10 + (c - b'0')) in if leb b'0' c && leb c b'9' then rest else none

stoi : List ℕ → Option ℤ
stoi [] = none
stoi (c ∷ cs) = stoi_from (c ∷ cs) 0

-- Threads 0 to 3; thread 0 leads places of widths 1 and 4, thread 2 one of width 2.
abbrev file : List (List ℕ)
file =
    (b'0' ∷ b',' ∷ b'1' ∷ b',' ∷ b'2' ∷ b',' ∷ b'3' ∷ [])
    ∷ (b'1' ∷ b',' ∷ b'4' ∷ [])
    ∷ []
    ∷ (b'2' ∷ [])
    ∷ []

all_read : Result LayoutExit Layout → Layout
all_read (ok s) = s
all_read (exit e) = no_layout

abbrev four_threads : Layout
four_threads = all_read (read_layout_table stoi (some file) no_layout)

file_read : read_layout_table stoi (some file) no_layout ≡ ok four_threads
unfolding read_layout_table all_read affinity_line affinity_tokens config_lines config_line
    config_tokens config_last add_config cover_checked number split_commas stoi stoi_from
file_read = refl

places_of_three :
    four_threads.inclusive_partitions 3
    ≡ record { leader = 0; width = 4 } ∷ record { leader = 2; width = 2 } ∷ []
unfolding read_layout_table all_read affinity_line affinity_tokens config_lines config_line
    config_tokens config_last add_config cover_checked number split_commas stoi stoi_from
places_of_three = refl

read_layout_table-IsWellFormed_example :
    IsWellFormed four_threads
    × (no_layout.nthreads ≤ max_threads → four_threads.nthreads ≤ max_threads)
read_layout_table-IsWellFormed_example =
    read_layout_table-IsWellFormed stoi (some file) no_layout four_threads no_layout-IsWellFormed
      file_read

default_layout-IsWellFormed_example : IsWellFormed (default_layout 12 no_layout)
default_layout-IsWellFormed_example =
    default_layout-IsWellFormed 12 no_layout no_layout-IsSized (omega arith)
