-- ===== src/Config/Accepted.antt =====
-- Which options stop the process (src/config.cpp).
use xitao.Prelude.{
  ℕ, ◌≡◌, ◌↔◌, refl, Bool, true, false, List, [], ◌∷◌, All, ◌||◌, ◌==◌, arith, Bool-cases, inl, inr,
}
use xitao.Prelude.Int.{ℤ}
use xitao.Prelude.Result.{Result, ok, exit}
use xitao.Config.{Text, Config, ConfigExit, ParsedOption, aborted, apply_option, run_options}

abbrev pub known : ℕ → Bool
known c =
    (c == b'w')
    || ((c == b's')
        || ((c == b'l')
            || ((c == b'm')
                || ((c == b'p')
                    || ((c == b'c')
                        || ((c == b't')
                            || ((c == b'i')
                                || ((c == b'u')
                                    || ((c == b'o') || ((c == b'f') || (c == b'd')))))))))))

abbrev pub Accepts : Result ConfigExit Config → Type 0
Accepts (ok s) = Unit
Accepts (exit e) = ⊥

Accepts-ok : (r : Result ConfigExit Config) → Accepts r → (s : Config) × (r ≡ ok s)
Accepts-ok (ok s) accepted = (s, refl)
Accepts-ok (exit e) accepted = absurd accepted

module _ (atoi : Text → ℤ) where
  apply_option-known :
      (o : ParsedOption) (s : Config) → known o.letter ≡ true → Accepts (apply_option atoi o s)
  unfolding apply_option
  apply_option-known o s k = ground arith

  apply_option-unknown :
      (o : ParsedOption) (s : Config)
      → known o.letter ≡ false
      → apply_option atoi o s ≡ exit aborted
  unfolding apply_option
  apply_option-unknown o s k = ground arith

  known-Accepts_step :
      (o : ParsedOption) (s : Config)
      → known o.letter ≡ true
      → (s' : Config) × (apply_option atoi o s ≡ ok s')
  known-Accepts_step o s k = Accepts-ok (apply_option atoi o s) (apply_option-known o s k)

  known_if :
      (opts : List ParsedOption) (s : Config)
      → Accepts (run_options atoi opts s)
      → All (λ (o : ParsedOption). known o.letter ≡ true) opts
  unfolding run_options
  known_if [] s accepted = tt
  known_if (o ∷ rest) s accepted = elim (Bool-cases (known o.letter)) [
    | inr unknown ↦ absurd (rw (apply_option-unknown o s unknown) at accepted)
    | inl k ↦ let (s', e) = known-Accepts_step o s k in (k, known_if rest s' (rw e at accepted))
  ]

  if_known :
      (opts : List ParsedOption) (s : Config)
      → All (λ (o : ParsedOption). known o.letter ≡ true) opts
      → Accepts (run_options atoi opts s)
  unfolding run_options
  if_known [] s all = tt
  if_known (o ∷ rest) s (k, all) =
      let (s', e) = known-Accepts_step o s k in rw e (if_known rest s' all)

  -- The options are accepted, with no call of `abort`, exactly if the letter of each of them is
  -- one of w, s, l, m, p, c, t, i, u, o, f and d.
  pub run_options-Accepts :
      (opts : List ParsedOption) (s : Config)
      → Accepts (run_options atoi opts s) ↔ All (λ (o : ParsedOption). known o.letter ≡ true) opts
  run_options-Accepts opts s = (known_if opts s, if_known opts s)
