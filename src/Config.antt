-- ===== src/Config.antt =====
-- src/config.cpp: the options of the runtime. A text is the list of its characters; `getopt_long`
-- and `atoi` are parameters, and an option is what a call of `getopt_long` leaves behind.
pub mod Words
pub mod Accepted
use xitao.Prelude.{
  ℕ, zero, suc, ◌+◌, ◌≡◌, Bool, true, false, not, ◌&&◌, ◌||◌, List, [], ◌∷◌, ◌++◌, Option, none,
  some, ◌==◌, if◌then◌else◌,
}
use xitao.Prelude.Int.{ℤ, pos, eqb_ℤ}
use xitao.Prelude.Result.{Result, ok, exit, ◌>>=◌}

abbrev pub Text : Type 0
Text = List ℕ

pub record Config : Type 0 where
  pub minimize_parallel_cost : Bool
  pub refresh_frequency : ℤ
  pub old_tick_weight : ℤ
  pub mold : Bool
  pub verbose : Bool
  pub print_stats : Bool
  pub stats_file : Text
  pub delete_executed_taos : Bool
  pub thread_base : ℤ
  pub affinity : ℤ
  pub steal_attempts : ℤ
  pub task_pool : ℤ
  pub sta : ℤ
  pub hw_contexts : ℤ
  pub nthreads : ℤ
  pub enable_workstealing : Bool
  pub enable_local_workstealing : Bool
  pub use_performance_modeling : Bool

-- The initial values, on a machine with the given number of threads.
unfoldable pub default_config : ℤ → Config
default_config hardware_concurrency = record {
  minimize_parallel_cost = true;
  refresh_frequency = pos 10;
  old_tick_weight = pos 4;
  mold = true;
  verbose = true;
  print_stats = false;
  stats_file = b's' ∷ b't' ∷ b'a' ∷ b't' ∷ b's' ∷ b'.' ∷ b't' ∷ b'x' ∷ b't' ∷ [];
  delete_executed_taos = true;
  thread_base = pos 0;
  affinity = pos 1;
  steal_attempts = pos 100;
  task_pool = pos 100;
  sta = pos 1;
  hw_contexts = pos 1;
  nthreads = hardware_concurrency;
  enable_workstealing = true;
  enable_local_workstealing = false;
  use_performance_modeling = true;
}

abbrev pub xitao_args_prefix : Text
xitao_args_prefix =
    b'-' ∷ b'-' ∷ b'x' ∷ b'i' ∷ b't' ∷ b'a' ∷ b'o' ∷ b'_' ∷ b'a' ∷ b'r' ∷ b'g' ∷ b's' ∷ b'=' ∷ []

-- `!text.compare(0, prefix.size(), prefix)`, and `text.substr(prefix.size())` where it holds.
unfoldable pub after_prefix : Text → Text → Option Text
after_prefix [] text = some text
after_prefix (p ∷ prefix) [] = none
after_prefix (p ∷ prefix) (c ∷ text) =
    let rest = after_prefix prefix text in if p == c then rest else none

-- The loop over the arguments, up to the first with the prefix.
unfoldable pub find_args : List Text → Text
find_args [] = []
find_args (arg ∷ rest) = elim (after_prefix xitao_args_prefix arg) [
  | none ↦ find_args rest
  | some args ↦ args
]

-- `isspace`
unfoldable pub is_space : ℕ → Bool
is_space c = (c == 32) || ((c == 9) || ((c == 10) || ((c == 11) || ((c == 12) || (c == 13)))))

abbrev pub flush : Text → List Text
flush [] = []
flush (c ∷ token) = (c ∷ token) ∷ []

-- `while(iss >> token)`; `token` is what has been read of the current one.
unfoldable pub tokens : Text → Text → List Text
tokens [] token = flush token
tokens (c ∷ rest) token =
    let space = is_space c in
    (if space then flush token else []) ++ tokens rest (if space then [] else token ++ c ∷ [])

-- What a call of `getopt_long` leaves behind: the letter of the option, `optarg`, and
-- `argv[optind]` if there is one.
pub record ParsedOption : Type 0 where
  pub letter : ℕ
  pub optarg : Option Text
  pub following : Option Text

-- `usage` and `abort`
pub data ConfigExit : Type 0 where
  aborted : ConfigExit

abbrev pub text_of : Option Text → Text
text_of none = []
text_of (some text) = text

-- `optarg == NULL && optind < argc && argv[optind] != NULL && argv[optind][0] != '-'`
unfoldable pub stats_file_of : Option Text → Option Text → Text → Text
stats_file_of (some text) following old = old
stats_file_of none none old = old
stats_file_of none (some []) old = []
stats_file_of none (some (c ∷ name)) old = if c == b'-' then old else c ∷ name

module _ (atoi : Text → ℤ) where
  abbrev pub flag_of : Option Text → Bool
  flag_of optarg = not (eqb_ℤ (atoi (text_of optarg)) (pos 0))

  -- The `switch` of `init_config`.
  unfoldable pub apply_option : ParsedOption → Config → Result ConfigExit Config
  apply_option o s =
      let c = o.letter in
      if c == b'w'
      then ok (record s { enable_workstealing = flag_of o.optarg })
      else if c == b's'
      then ok (record s { sta = atoi (text_of o.optarg) })
      else if c == b'l'
      then ok (record s { enable_local_workstealing = flag_of o.optarg })
      else if c == b'm'
      then ok (record s { mold = flag_of o.optarg })
      else if c == b'p'
      then ok (record s { use_performance_modeling = flag_of o.optarg })
      else if c == b'c'
      then ok (record s { minimize_parallel_cost = flag_of o.optarg })
      else if c == b't'
      then ok (record s { nthreads = atoi (text_of o.optarg) })
      else if c == b'i'
      then ok (record s { steal_attempts = atoi (text_of o.optarg) })
      else if c == b'u'
      then ok (record s {
        print_stats = true;
        stats_file = stats_file_of o.optarg o.following s.stats_file;
      })
      else if c == b'h'
      then exit aborted
      else if c == b'o'
      then ok (record s { old_tick_weight = atoi (text_of o.optarg) })
      else if c == b'f'
      then ok (record s { refresh_frequency = atoi (text_of o.optarg) })
      else if c == b'd'
      then ok (record s { delete_executed_taos = flag_of o.optarg })
      else exit aborted

  -- `while (argc > 1)`, until `getopt_long` returns -1.
  unfoldable pub run_options : List ParsedOption → Config → Result ConfigExit Config
  run_options [] s = ok s
  run_options (o ∷ rest) s = apply_option o s >>= run_options rest

  module _ (getopt : List Text → List ParsedOption) where
    -- The loop on `argc` and `argv`.
    unfoldable pub parse_args : List Text → Config → Result ConfigExit Config
    parse_args [] s = ok s
    parse_args (name ∷ []) s = ok s
    parse_args (name ∷ arg ∷ rest) s = run_options (getopt (name ∷ arg ∷ rest)) s

    unfoldable pub init_config : List Text → Bool → Config → Result ConfigExit Config
    init_config argv true s = parse_args argv s
    init_config [] false s = parse_args (xitao_args_prefix ∷ tokens [] []) s
    init_config (name ∷ argv) false s =
        parse_args (xitao_args_prefix ∷ tokens (find_args argv) []) s

unfoldable pub enable_stealing : ℤ → Config → Config
enable_stealing idle_tries_before_steal_count s = record s {
  enable_workstealing = true;
  steal_attempts = idle_tries_before_steal_count;
}

unfoldable pub disable_stealing : Config → Config
disable_stealing s = record s { enable_workstealing = false }

-- The first of the two functions of this name.
unfoldable pub enable_performance_modeling : Config → Config
enable_performance_modeling s = record s { use_performance_modeling = true }

unfoldable pub disable_performancem_modeling : Config → Config
disable_performancem_modeling s = record s { use_performance_modeling = false }

-- The second, with its values.
unfoldable pub enable_performance_modeling_with : Bool → ℤ → ℤ → Config → Config
enable_performance_modeling_with min_par_cost table_refresh_rate old_tck_weight s = record s {
  use_performance_modeling = true;
  minimize_parallel_cost = min_par_cost;
  refresh_frequency = table_refresh_rate;
  old_tick_weight = old_tck_weight;
}
