-- ===== src/Tests/Options.antt =====
-- Runs of the options (src/config.cpp).
use xitao.Prelude.{ℕ, ◌≡◌, refl, ◌↔◌, true, false, none, some, List, [], ◌∷◌, ◌++◌, All, ◌-◌}
use xitao.Prelude.Int.{ℤ, pos}
use xitao.Config.{
  Text, ParsedOption, xitao_args_prefix, after_prefix, is_space, default_config, init_config,
  run_options,
}
use xitao.Config.Words.{join, init_config-join}
use xitao.Config.Accepted.{Accepts, known, run_options-Accepts}

-- Reads one digit.
abbrev digit : Text → ℤ
digit [] = pos 0
digit (c ∷ rest) = pos (c - 48)

-- Options of one letter with their value in the next argument.
abbrev pairs : List Text → List ParsedOption
pairs [] = []
pairs (name ∷ []) = []
pairs (name ∷ option ∷ []) = []
pairs (name ∷ option ∷ value ∷ rest) =
    record { letter = letter_of option; optarg = some value; following = none }
    ∷ pairs (name ∷ rest)
  where
    letter_of : Text → ℕ
    letter_of [] = 0
    letter_of (dash ∷ []) = 0
    letter_of (dash ∷ c ∷ rest) = c

abbrev program : Text
program = b'a' ∷ []

-- `-t 4`
abbrev four_threads : List Text
four_threads = (b'-' ∷ b't' ∷ []) ∷ (b'4' ∷ []) ∷ []

init_config-join_example :
    init_config digit pairs
      (program ∷ ((program ∷ []) ++ ((xitao_args_prefix ++ join four_threads) ∷ [])))
      false
      (default_config (pos 8))
    ≡ init_config digit pairs (xitao_args_prefix ∷ four_threads) true (default_config (pos 8))
unfolding after_prefix is_space
init_config-join_example =
    init_config-join digit pairs program (program ∷ []) [] four_threads (default_config (pos 8))
      (refl, tt) ((refl, (refl, tt)), ((refl, tt), tt))

run_options-Accepts_example :
    Accepts (run_options digit (pairs (program ∷ four_threads)) (default_config (pos 8)))
    ↔ All (λ (o : ParsedOption). known o.letter ≡ true) (pairs (program ∷ four_threads))
run_options-Accepts_example =
    run_options-Accepts digit (pairs (program ∷ four_threads)) (default_config (pos 8))
