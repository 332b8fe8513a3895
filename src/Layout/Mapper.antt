-- ===== src/Layout/Mapper.antt =====
-- The number of threads that `read_layout_table` (src/xitao_ptt.cpp) takes from the first line.
use xitao.Prelude.{ℕ, ◌+◌, ◌≤◌, ◌≡◌, ap, ◌∙◌, List, [], ◌∷◌, arith, leb, Option, if◌then◌else◌}
use xitao.Prelude.Int.{ℤ, pos_part}
use xitao.Prelude.Member.{push}
use xitao.Prelude.Result.{Result, ok, exit, >>=-eq-ok, unless-eq-ok}
use xitao.Layout.{
  too_many_configs, outside_mapper, too_many_partitions, Layout, LayoutExit, cover_checked,
  add_config, number, affinity_tokens, affinity_line, config_tokens, config_last, config_line,
  config_lines, max_threads,
}

-- No number of the first line is behind the entries of the mapper.
affinity_tokens-bound :
    (stoi : List ℕ → Option ℤ) (tokens : List (List ℕ)) (n m : ℕ) (s s' : Layout)
    → affinity_tokens stoi tokens n s ≡ ok (m, s')
    → n ≤ max_threads
    → m ≤ max_threads
unfolding affinity_tokens
affinity_tokens-bound stoi [] n m s s' e few = let same : n ≡ m = cc in omega (arith, same)
affinity_tokens-bound stoi (token ∷ tokens) n m s s' e few =
    let (val, read, rest) = >>=-eq-ok (number stoi token) _ e in
    let (inside, later) = unless-eq-ok (leb max_threads n) outside_mapper _ rest in
    affinity_tokens-bound stoi tokens (n + 1) m _ s' later (ground arith)

pub affinity_line-bound :
    (stoi : List ℕ → Option ℤ) (line : List ℕ) (s s' : Layout)
    → affinity_line stoi line s ≡ ok s'
    → s'.nthreads ≤ max_threads
unfolding affinity_line
affinity_line-bound stoi line s s' e =
    let ((n, s1), read, made) = >>=-eq-ok (affinity_tokens stoi _ 0 s) _ e in
    let same : record s1 { nthreads = n } ≡ s' = cc in
    let count : n ≡ s'.nthreads = ap (λ (x : Layout). x.nthreads) same in
    omega (arith, count, affinity_tokens-bound stoi _ 0 n s s1 read (omega arith))

-- The other lines leave the number as it is.
add_config-nthreads :
    (id : ℕ) (val : ℤ) (s s' : Layout) → add_config id val s ≡ ok s' → s'.nthreads ≡ s.nthreads
unfolding add_config
add_config-nthreads id val s s' e =
    let (rows, covered, made) =
      >>=-eq-ok (cover_checked (pos_part val) 0 id (pos_part val) s.inclusive_partitions) _ e in
    let same : s'
        ≡ record s { ptt_layout = push s.ptt_layout id val; inclusive_partitions = rows } =
      cc in
    ap (λ (x : Layout). x.nthreads) same

module _ (stoi : List ℕ → Option ℤ) where
  config_tokens-nthreads :
      (tokens : List (List ℕ)) (id : ℕ) (s s' : Layout)
      → config_tokens stoi tokens id s ≡ ok s'
      → s'.nthreads ≡ s.nthreads
  unfolding config_tokens
  config_tokens-nthreads [] id s s' e =
      let same : s' ≡ s = cc in ap (λ (x : Layout). x.nthreads) same
  config_tokens-nthreads (token ∷ tokens) id s s' e =
      let (val, read, rest) = >>=-eq-ok (number stoi token) _ e in
      let next : Result LayoutExit Layout =
        if leb s.nthreads (id + 1) then exit too_many_configs else add_config id val s in
      let (s1, passed, more) = >>=-eq-ok next (config_tokens stoi tokens id) rest in
      let (few, added) =
        unless-eq-ok (leb s.nthreads (id + 1)) too_many_configs (add_config id val s) passed in
      config_tokens-nthreads tokens id s1 s' more ∙ add_config-nthreads id val s s1 added

  config_last-nthreads :
      (tokens : List (List ℕ)) (id : ℕ) (s s' : Layout)
      → config_last stoi tokens id s ≡ ok s'
      → s'.nthreads ≡ s.nthreads
  unfolding config_last
  config_last-nthreads [] id s s' e = let same : s' ≡ s = cc in ap (λ (x : Layout). x.nthreads) same
  config_last-nthreads (token ∷ tokens) id s s' e =
      let (val, read, added) = >>=-eq-ok (number stoi token) _ e in
      add_config-nthreads id val s s' added

  pub config_lines-nthreads :
      (lines : List (List ℕ)) (id : ℕ) (s s' : Layout)
      → config_lines stoi lines id s ≡ ok s'
      → s'.nthreads ≡ s.nthreads
  unfolding config_lines config_line
  config_lines-nthreads [] id s s' e =
      let same : s' ≡ s = cc in ap (λ (x : Layout). x.nthreads) same
  config_lines-nthreads (line ∷ lines) id s s' e =
      let next : Result LayoutExit Layout =
        if leb max_threads id then exit too_many_partitions else config_line stoi line id s in
      let (s1, passed, more) = >>=-eq-ok next (config_lines stoi lines (id + 1)) e in
      let (few, one) =
        unless-eq-ok (leb max_threads id) too_many_partitions (config_line stoi line id s) passed in
      let (s2, tokens, last) = >>=-eq-ok (config_tokens stoi _ id s) _ one in
      config_lines-nthreads lines (id + 1) s1 s' more
      ∙ config_last-nthreads _ id s2 s1 last
      ∙ config_tokens-nthreads _ id s s2 tokens
