-- ===== src/Tables/Sharing.antt =====
-- `try_insert_table` (src/xitao_ptt.cpp): which tasks share a table.
use xitao.Prelude.{
  ℕ, suc, ◌<◌, ◌≡◌, refl, sym, ap, ◌∙◌, subst, true, List, ◌∷◌, ◌⊎◌, Option, none, some,
  none-ne-some, some-injective, arith, Bool-cases, inl, inr, ◌↔◌,
}
use xitao.Prelude.Family.{update}
use xitao.Perf.{Float, new_perf_data}
use xitao.Tables.{XitaoPttKey, equal_keys, find_table, PttTables, try_insert_table, no_tables}

pub equal_keys_refl : (a : XitaoPttKey) → equal_keys a a ≡ true
unfolding equal_keys
equal_keys_refl a = ground arith

pub equal_keys-eq : (a b : XitaoPttKey) → equal_keys a b ≡ true → a ≡ b
unfolding equal_keys
equal_keys-eq a b e =
    let w : a.workload_hint ≡ b.workload_hint = ground arith in
    let t : a.tao_type_index ≡ b.tao_type_index = ground arith in
    λ i. record { workload_hint = w i; tao_type_index = t i }

-- Each table has one key, and is allocated.
pub record IsShared (fl : Float) (s : PttTables fl) : Type 0 where
  pub one_key :
      (a b : XitaoPttKey) (table : ℕ)
      → find_table a s.runtime_ptt_tables ≡ some table
      → find_table b s.runtime_ptt_tables ≡ some table
      → a ≡ b
  pub bounded :
      (a : XitaoPttKey) (table : ℕ)
      → find_table a s.runtime_ptt_tables ≡ some table
      → table < s.allocated

-- A table is found at the new entry or behind it.
find-cons :
    (key a : XitaoPttKey) (new table : ℕ) (rest : List (XitaoPttKey × ℕ))
    → find_table a ((key, new) ∷ rest) ≡ some table
    → ((key ≡ a) × (new ≡ table)) ⊎ (find_table a rest ≡ some table)
unfolding find_table
find-cons key a new table rest e = elim (Bool-cases (equal_keys key a)) [
  | inl same ↦ inl (equal_keys-eq key a same, some-injective _ _ (rw same at e))
  | inr other ↦ inr (rw other at e)
]

module _ (fl : Float) (s : PttTables fl) (key : XitaoPttKey) where
  -- The tables after a key that was missing is put in.
  abbrev with_new : PttTables fl
  with_new = record {
    runtime_ptt_tables = (key, s.allocated) ∷ s.runtime_ptt_tables;
    heap = update s.heap s.allocated (new_perf_data fl);
    allocated = suc s.allocated;
  }

  inserted-new :
      find_table key s.runtime_ptt_tables ≡ none
      → try_insert_table fl key s ≡ (s.allocated, with_new)
  unfolding try_insert_table
  inserted-new e = rw (e, try_insert_table) refl

  inserted-old :
      (table : ℕ)
      → find_table key s.runtime_ptt_tables ≡ some table
      → try_insert_table fl key s ≡ (table, s)
  unfolding try_insert_table
  inserted-old table e = rw (e, try_insert_table) refl

  with_new-found : find_table key with_new.runtime_ptt_tables ≡ some s.allocated
  unfolding find_table
  with_new-found = rw (equal_keys_refl key) refl

  with_new-IsShared : IsShared fl s → IsShared fl with_new
  with_new-IsShared h = record {
    one_key = λ a b table ea eb. elim (find-cons key a s.allocated table s.runtime_ptt_tables ea) [
      | inl (ka, na) ↦ elim (find-cons key b s.allocated table s.runtime_ptt_tables eb) [
        | inl (kb, nb) ↦ sym ka ∙ kb
        | inr old ↦ absurd (omega (arith, na, h.bounded b table old))
      ]
      | inr old_a ↦ elim (find-cons key b s.allocated table s.runtime_ptt_tables eb) [
        | inl (kb, nb) ↦ absurd (omega (arith, nb, h.bounded a table old_a))
        | inr old_b ↦ h.one_key a b table old_a old_b
      ]
    ];
    bounded = λ a table e. elim (find-cons key a s.allocated table s.runtime_ptt_tables e) [
      | inl (k, n) ↦ omega (arith, n)
      | inr old ↦ omega (arith, h.bounded a table old)
    ];
  }

  -- What an insertion does, by whether the key was there.
  insertion :
      ((find_table key s.runtime_ptt_tables ≡ none)
        × (try_insert_table fl key s ≡ (s.allocated, with_new)))
      ⊎ ((table : ℕ) × (find_table key s.runtime_ptt_tables ≡ some table)
          × (try_insert_table fl key s ≡ (table, s)))
  insertion = by_found (find_table key s.runtime_ptt_tables) refl
    where
      by_found :
          (o : Option ℕ)
          → find_table key s.runtime_ptt_tables ≡ o
          → ((find_table key s.runtime_ptt_tables ≡ none)
              × (try_insert_table fl key s ≡ (s.allocated, with_new)))
            ⊎ ((table : ℕ) × (find_table key s.runtime_ptt_tables ≡ some table)
                × (try_insert_table fl key s ≡ (table, s)))
      by_found none e = inl (e, inserted-new e)
      by_found (some table) e = inr (table, e, inserted-old table e)

  pub try_insert_table-IsShared : IsShared fl s → IsShared fl (try_insert_table fl key s).1
  try_insert_table-IsShared h = elim insertion [
    | inl (_, new) ↦
        subst (λ (r : ℕ × PttTables fl). IsShared fl r.1) (sym new) (with_new-IsShared h)
    | inr (_, _, old) ↦ subst (λ (r : ℕ × PttTables fl). IsShared fl r.1) (sym old) h
  ]

  try_insert_table-finds :
      find_table key (try_insert_table fl key s).1.runtime_ptt_tables
      ≡ some (try_insert_table fl key s).0
  try_insert_table-finds = elim insertion [
    | inl (_, new) ↦
        subst (λ (r : ℕ × PttTables fl). find_table key r.1.runtime_ptt_tables ≡ some r.0) (sym new)
          with_new-found
    | inr (_, found, old) ↦
        subst (λ (r : ℕ × PttTables fl). find_table key r.1.runtime_ptt_tables ≡ some r.0) (sym old)
          found
  ]

  with_new-keeps :
      (a : XitaoPttKey) (table : ℕ)
      → find_table key s.runtime_ptt_tables ≡ none
      → find_table a s.runtime_ptt_tables ≡ some table
      → find_table a with_new.runtime_ptt_tables ≡ some table
  unfolding find_table
  with_new-keeps a table missing found = elim (Bool-cases (equal_keys key a)) [
    | inl same ↦ absurd (
        none-ne-some table (
          sym (
            subst (λ (k : XitaoPttKey). find_table k s.runtime_ptt_tables ≡ none)
              (equal_keys-eq key a same) missing)
          ∙ found))
    | inr other ↦ rw other found
  ]

  try_insert_table-keeps :
      (a : XitaoPttKey) (table : ℕ)
      → find_table a s.runtime_ptt_tables ≡ some table
      → find_table a (try_insert_table fl key s).1.runtime_ptt_tables ≡ some table
  try_insert_table-keeps a table found = elim insertion [
    | inl (missing, new) ↦
        subst (λ (r : ℕ × PttTables fl). find_table a r.1.runtime_ptt_tables ≡ some table) (sym new)
          (with_new-keeps a table missing found)
    | inr (_, _, old) ↦
        subst (λ (r : ℕ × PttTables fl). find_table a r.1.runtime_ptt_tables ≡ some table) (sym old)
          found
  ]

-- From tables that each have one key, two insertions after one another give the same table
-- exactly if their keys are equal: the classes and the workloads of the two tasks.
pub try_insert_table-shares :
    (fl : Float) (s : PttTables fl) (a b : XitaoPttKey)
    → IsShared fl s
    → ((try_insert_table fl a s).0 ≡ (try_insert_table fl b (try_insert_table fl a s).1).0)
      ↔ (a ≡ b)
try_insert_table-shares fl s a b h =
    let s1 = (try_insert_table fl a s).1 in
    let s2 = (try_insert_table fl b s1).1 in
    let found = try_insert_table-finds fl s a in
    (
      λ same.
          (try_insert_table-IsShared fl s1 b (try_insert_table-IsShared fl s a h)).one_key a b
            (try_insert_table fl a s).0
            (try_insert_table-keeps fl s1 b a (try_insert_table fl a s).0 found)
            (try_insert_table-finds fl s1 b ∙ ap some (sym same)),
      λ same. sym (
          ap (λ (r : ℕ × PttTables fl). r.0)
            (inserted-old fl s1 b (try_insert_table fl a s).0 (
              subst
                (λ (k : XitaoPttKey).
                  find_table k s1.runtime_ptt_tables ≡ some (try_insert_table fl a s).0)
                same found))),
    )

pub no_tables-IsShared : (fl : Float) → IsShared fl (no_tables fl)
unfolding find_table
no_tables-IsShared fl = record {
  one_key = λ a b table ea eb. absurd (none-ne-some table ea);
  bounded = λ a table e. absurd (none-ne-some table e);
}
