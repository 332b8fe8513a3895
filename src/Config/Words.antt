-- ===== src/Config/Words.antt =====
-- The argument with the prefix that `init_config` of src/config.cpp takes apart.
use xitao.Prelude.{
  ℕ, ◌≡◌, refl, ◌∙◌, ap, false, none, some, List, [], ◌∷◌, ◌++◌, All, append_assoc, append-nil,
  ◌==◌, true, arith, sym,
}
use xitao.Prelude.Int.{ℤ}
use xitao.Config.{
  Text, Config, ParsedOption, xitao_args_prefix, after_prefix, find_args, is_space, tokens,
  init_config,
}

abbrev pub IsWord : Text → Type 0
IsWord [] = ⊥
IsWord (c ∷ word) = All (λ (x : ℕ). is_space x ≡ false) (c ∷ word)

-- The words with a blank between each two.
unfoldable pub join : List Text → Text
join [] = []
join (word ∷ []) = word
join (word ∷ next ∷ rest) = word ++ (32 ∷ join (next ∷ rest))

tokens-word :
    (word rest token : Text)
    → All (λ (x : ℕ). is_space x ≡ false) word
    → tokens (word ++ rest) token ≡ tokens rest (token ++ word)
unfolding tokens
tokens-word [] rest token all = ap (tokens rest) (sym (append-nil token))
tokens-word (c ∷ word) rest token (no_space, others) = rw no_space (
    tokens-word word rest (token ++ c ∷ []) others
    ∙ ap (tokens rest) (append_assoc token (c ∷ []) word))

tokens-join : (words : List Text) → All IsWord words → tokens (join words) [] ≡ words
unfolding join tokens is_space
tokens-join [] all = refl
tokens-join ([] ∷ rest) all = absurd all.0
tokens-join ((c ∷ word) ∷ []) all =
    ap (λ (t : Text). tokens t []) (sym (append-nil (c ∷ word)))
    ∙ tokens-word (c ∷ word) [] [] all.0
tokens-join ((c ∷ word) ∷ next ∷ rest) all =
    tokens-word (c ∷ word) (32 ∷ join (next ∷ rest)) [] all.0
    ∙ ap (λ (l : List Text). (c ∷ word) ∷ l) (tokens-join (next ∷ rest) all.1)

after_prefix-append : (prefix text : Text) → after_prefix prefix (prefix ++ text) ≡ some text
unfolding after_prefix
after_prefix-append [] text = refl
after_prefix-append (c ∷ prefix) text =
    let same : (c == c) ≡ true = ground arith in rw same (after_prefix-append prefix text)

-- Arguments without the prefix.
abbrev pub IsOther : Text → Type 0
IsOther arg = after_prefix xitao_args_prefix arg ≡ none

find_args-append :
    (before after : List Text) (text : Text)
    → All IsOther before
    → find_args (before ++ ((xitao_args_prefix ++ text) ∷ after)) ≡ text
unfolding find_args
find_args-append [] after text none_before =
    let e = after_prefix-append xitao_args_prefix text in rw (e, find_args) refl
find_args-append (arg ∷ before) after text (other, others) =
    rw (other, find_args) (find_args-append before after text others)

-- Where no argument in front of it has the prefix `--xitao_args=`, the runtime is told by an
-- argument with that prefix, behind which stand words with a blank between each two, exactly what
-- it is told by these words as its own arguments; the words are not empty and have no blank in
-- them.
pub init_config-join :
    (atoi : Text → ℤ) (getopt : List Text → List ParsedOption) (name : Text)
    (before after words : List Text) (s : Config)
    → All IsOther before
    → All IsWord words
    → init_config atoi getopt
        (name ∷ (before ++ ((xitao_args_prefix ++ join words) ∷ after)))
        false
        s
      ≡ init_config atoi getopt (xitao_args_prefix ∷ words) true s
unfolding init_config
init_config-join atoi getopt name before after words s others all =
    let found = find_args-append before after (join words) others in
    let split = tokens-join words all in rw (found, split) refl
