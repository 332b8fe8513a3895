-- ===== src/Layout/File.antt =====
-- `read_layout_table`: what the tables hold after a file that it accepts.
use xitao.Prelude.{
  ℕ, ◌+◌, ◌≤◌, ◌<◌, ◌≡◌, ◌∙◌, sym, List, [], ◌∷◌, ◌⊎◌, inl, inr, arith, leb, ap, subst, Option,
  none, some, if◌then◌else◌,
}
use xitao.Prelude.Int.{ℤ, pos, pos_part, eq-pos_part}
use xitao.Prelude.Member.{In, push, In-push_to, In-push_old, In-push_new}
use xitao.Prelude.Result.{Result, ok, exit, >>=-eq-ok, unless-eq-ok}
use xitao.Layout.{
  too_many_configs, outside_mapper, too_many_partitions, Place, Layout, LayoutExit, cover,
  cover_checked, add_config, number, affinity_tokens, affinity_line, config_tokens, config_last,
  config_line, config_lines, read_layout_table, max_threads,
}
use xitao.Layout.Consistent.{Holds, IsConsistent, IsWellFormed}
use xitao.Layout.Mapper.{affinity_line-bound, config_lines-nthreads}
use xitao.Layout.Cover.{cover_to, cover_old, cover_new, cover_checked-ok}

abbrev place : ℕ → ℕ → Place
place leader width = record { leader = leader; width = width }

abbrev configured : ℕ → ℤ → Layout → Layout
configured id val s = record s {
  ptt_layout = push s.ptt_layout id val;
  inclusive_partitions = cover (pos_part val) 0 id (pos_part val) s.inclusive_partitions;
}

module _ (id : ℕ) (val : ℤ) (s : Layout) (t : ℕ) where
  Holds-new :
      0 < pos_part val
      → id ≤ t
      → t < id + pos_part val
      → Holds (push s.ptt_layout id val) t (place id (pos_part val))
  Holds-new some_width lo hi = record {
    allowed =
        subst (λ (w : ℤ). In w (push s.ptt_layout id val id)) (eq-pos_part val some_width)
          (In-push_new val s.ptt_layout id);
    from = lo;
    below = hi;
  }

  configured_to :
      (p : Place)
      → IsConsistent s
      → In p ((configured id val s).inclusive_partitions t)
      → Holds (push s.ptt_layout id val) t p
  configured_to p c h =
      elim (cover_to (pos_part val) 0 id (pos_part val) s.inclusive_partitions t p h) [
        | inl old ↦
            let older = (c t p).0 old in
            record {
              allowed = In-push_old (pos p.width) val s.ptt_layout id p.leader older.allowed;
              from = older.from;
              below = older.below;
            }
        | inr (e, lo, hi) ↦
            subst (Holds (push s.ptt_layout id val) t) e
              (Holds-new (omega arith) (omega arith) (omega arith))
      ]

  configured_from :
      (p : Place)
      → IsConsistent s
      → Holds (push s.ptt_layout id val) t p
      → In p ((configured id val s).inclusive_partitions t)
  configured_from p c h = elim (In-push_to (pos p.width) val s.ptt_layout id p.leader h.allowed) [
    | inl old ↦
        cover_old (pos_part val) 0 id (pos_part val) s.inclusive_partitions t p
          ((c t p).1 (record { allowed = old; from = h.from; below = h.below }))
    | inr (e, same) ↦
        let width : pos_part val ≡ p.width = ap pos_part same in
        let eq : place id (pos_part val) ≡ p = λ i. record { leader = e i; width = width i } in
        subst (λ (q : Place). In q ((configured id val s).inclusive_partitions t)) eq
          (cover_new (pos_part val) 0 id (pos_part val) s.inclusive_partitions t
            (omega (arith, h.from)) (omega (arith, h.below)))
  ]

add_config-inv :
    (id : ℕ) (val : ℤ) (s s' : Layout)
    → add_config id val s ≡ ok s'
    → (configured id val s ≡ s') × ((pos_part val ≡ 0) ⊎ (id + 0 + pos_part val ≤ max_threads))
unfolding add_config
add_config-inv id val s s' e =
    let with_rows : (ℕ → List Place) → Layout =
      λ rows. record s { ptt_layout = push s.ptt_layout id val; inclusive_partitions = rows } in
    let (rows, covered, made) =
      >>=-eq-ok (cover_checked (pos_part val) 0 id (pos_part val) s.inclusive_partitions)
        (λ rows. ok (with_rows rows)) e in
    let (same, room) =
      cover_checked-ok (pos_part val) 0 id (pos_part val) s.inclusive_partitions rows covered in
    let done : with_rows rows ≡ s' = cc in (ap with_rows (sym same) ∙ done, room)

add_config-IsWellFormed :
    (id : ℕ) (val : ℤ) (s s' : Layout)
    → IsWellFormed s
    → add_config id val s ≡ ok s'
    → IsWellFormed s'
add_config-IsWellFormed id val s s' c e =
    let (made, room) = add_config-inv id val s s' e in
    subst IsWellFormed made (record {
      consistent = λ t p.
          (configured_to id val s t p c.consistent, configured_from id val s t p c.consistent);
      bounded = λ leader width h some_width.
          elim (In-push_to (pos width) val s.ptt_layout id leader h) [
            | inl old ↦ c.bounded leader width old some_width
            | inr (at, same) ↦ let w : pos_part val ≡ width = ap pos_part same in ground arith
          ];
    })

affinity_tokens-tables :
    (stoi : List ℕ → Option ℤ) (tokens : List (List ℕ)) (n m : ℕ) (s s' : Layout)
    → affinity_tokens stoi tokens n s ≡ ok (m, s')
    → IsWellFormed s
    → IsWellFormed s'
unfolding affinity_tokens
affinity_tokens-tables stoi [] n m s s' e c = let same : s ≡ s' = cc in subst IsWellFormed same c
affinity_tokens-tables stoi (token ∷ tokens) n m s s' e c =
    let (val, read, rest) = >>=-eq-ok (number stoi token) _ e in
    let (inside, later) = unless-eq-ok (leb max_threads n) outside_mapper _ rest in
    affinity_tokens-tables stoi tokens (n + 1) m _ s' later
      (record { consistent = c.consistent; bounded = c.bounded })

module _ (stoi : List ℕ → Option ℤ) where
  affinity_line-IsWellFormed :
      (line : List ℕ) (s s' : Layout)
      → IsWellFormed s
      → affinity_line stoi line s ≡ ok s'
      → IsWellFormed s'
  unfolding affinity_line
  affinity_line-IsWellFormed line s s' c e =
      let ((n, s1), read, made) = >>=-eq-ok (affinity_tokens stoi _ 0 s) _ e in
      let c1 = affinity_tokens-tables stoi _ 0 n s s1 read c in
      let same : record s1 { nthreads = n } ≡ s' = cc in
      subst IsWellFormed same (record { consistent = c1.consistent; bounded = c1.bounded })

  config_tokens-IsWellFormed :
      (tokens : List (List ℕ)) (id : ℕ) (s s' : Layout)
      → IsWellFormed s
      → config_tokens stoi tokens id s ≡ ok s'
      → IsWellFormed s'
  unfolding config_tokens
  config_tokens-IsWellFormed [] id s s' c e = let same : s ≡ s' = cc in subst IsWellFormed same c
  config_tokens-IsWellFormed (token ∷ tokens) id s s' c e =
      let (val, read, rest) = >>=-eq-ok (number stoi token) _ e in
      let next : Result LayoutExit Layout =
        if leb s.nthreads (id + 1) then exit too_many_configs else add_config id val s in
      let (s1, passed, more) = >>=-eq-ok next (config_tokens stoi tokens id) rest in
      let (few, added) =
        unless-eq-ok (leb s.nthreads (id + 1)) too_many_configs (add_config id val s) passed in
      config_tokens-IsWellFormed tokens id s1 s' (add_config-IsWellFormed id val s s1 c added) more

  config_last-IsWellFormed :
      (tokens : List (List ℕ)) (id : ℕ) (s s' : Layout)
      → IsWellFormed s
      → config_last stoi tokens id s ≡ ok s'
      → IsWellFormed s'
  unfolding config_last
  config_last-IsWellFormed [] id s s' c e = let same : s ≡ s' = cc in subst IsWellFormed same c
  config_last-IsWellFormed (token ∷ tokens) id s s' c e =
      let (val, read, added) = >>=-eq-ok (number stoi token) _ e in
      add_config-IsWellFormed id val s s' c added

  config_line-IsWellFormed :
      (line : List ℕ) (id : ℕ) (s s' : Layout)
      → IsWellFormed s
      → config_line stoi line id s ≡ ok s'
      → IsWellFormed s'
  unfolding config_line
  config_line-IsWellFormed line id s s' c e =
      let (s1, tokens, last) = >>=-eq-ok (config_tokens stoi _ id s) _ e in
      config_last-IsWellFormed _ id s1 s' (config_tokens-IsWellFormed _ id s s1 c tokens) last

  config_lines-IsWellFormed :
      (lines : List (List ℕ)) (id : ℕ) (s s' : Layout)
      → IsWellFormed s
      → config_lines stoi lines id s ≡ ok s'
      → IsWellFormed s'
  unfolding config_lines
  config_lines-IsWellFormed [] id s s' c e = let same : s ≡ s' = cc in subst IsWellFormed same c
  config_lines-IsWellFormed (line ∷ lines) id s s' c e =
      let next : Result LayoutExit Layout =
        if leb max_threads id then exit too_many_partitions else config_line stoi line id s in
      let (s1, passed, more) = >>=-eq-ok next (config_lines stoi lines (id + 1)) e in
      let (few, one) =
        unless-eq-ok (leb max_threads id) too_many_partitions (config_line stoi line id s) passed in
      config_lines-IsWellFormed lines (id + 1) s1 s' (config_line-IsWellFormed line id s s1 c one)
        more

-- Reading a layout file keeps the tables well-formed where the file is accepted and its first
-- line has no number behind the 64 entries of the mapper: if the tables were well-formed before,
-- each thread then lists exactly the allowed places that it is in, no allowed place of positive
-- width reaches past thread 63, and the number of threads is still at most 64 if it was, whatever
-- `stoi` returns.
pub read_layout_table-IsWellFormed :
    (stoi : List ℕ → Option ℤ) (file : Option (List (List ℕ))) (s s' : Layout)
    → IsWellFormed s
    → read_layout_table stoi file s ≡ ok s'
    → IsWellFormed s' × (s.nthreads ≤ max_threads → s'.nthreads ≤ max_threads)
unfolding read_layout_table
read_layout_table-IsWellFormed stoi none s s' c e = cc
read_layout_table-IsWellFormed stoi (some []) s s' c e =
    let same : s ≡ s' = cc in
    subst (λ (x : Layout). IsWellFormed x × (s.nthreads ≤ max_threads → x.nthreads ≤ max_threads))
      same (c, λ few. few)
read_layout_table-IsWellFormed stoi (some (line ∷ lines)) s s' c e =
    let (s1, first, rest) = >>=-eq-ok (affinity_line stoi line s) (config_lines stoi lines 0) e in
    (
      config_lines-IsWellFormed stoi lines 0 s1 s'
          (affinity_line-IsWellFormed stoi line s s1 c first) rest,
      λ few. omega (
        arith,
        affinity_line-bound stoi line s s1 first,
        config_lines-nthreads stoi lines 0 s1 s' rest,
      ),
    )
