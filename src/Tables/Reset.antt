-- ===== src/Tables/Reset.antt =====
-- `reset_table` (src/xitao_ptt.cpp): which times it empties.
use xitao.Prelude.{
  ℕ, ◌≡◌, refl, sym, ap, ◌∙◌, subst, true, false, ◌==◌, if◌then◌else◌, Option, none, some,
  none-ne-some, some-injective, arith, Bool-cases, inl, inr, ℕ_discrete,
}
use xitao.Prelude.Family.{update}
use xitao.Perf.{Float, get_timetable}
use xitao.Tables.{XitaoPttKey, equal_keys, find_table, PttTables, reset_table}
use xitao.Tables.Sharing.{equal_keys_refl, equal_keys-eq, IsShared}

module _ (fl : Float) (s : PttTables fl) (key : XitaoPttKey) where
  reset-missing : find_table key s.runtime_ptt_tables ≡ none → reset_table fl key s ≡ s
  unfolding reset_table
  reset-missing e = rw (e, reset_table) refl

  abbrev with_reset : ℕ → PttTables fl
  with_reset table = record s {
    heap = update s.heap table (record (s.heap table) { values = λ _. fl.zero_f });
  }

  reset-found :
      (table : ℕ)
      → find_table key s.runtime_ptt_tables ≡ some table
      → reset_table fl key s ≡ with_reset table
  unfolding reset_table
  reset-found table e = rw (e, reset_table) refl

abbrev Reads :
    (fl : Float) → PttTables fl → XitaoPttKey → XitaoPttKey → ℕ → ℕ → ℕ → PttTables fl → Type 0
Reads fl s key a table t w r =
    get_timetable fl (r.heap table) t w
    ≡ (if equal_keys key a then fl.zero_f else get_timetable fl (s.heap table) t w)

-- From tables that each have one key, `reset_table` empties every entry that a task with an equal
-- key reads from its table, and no entry that a task with another key reads from its own.
pub reset_table-get :
    (fl : Float) (s : PttTables fl) (key a : XitaoPttKey) (table t w : ℕ)
    → IsShared fl s
    → find_table a s.runtime_ptt_tables ≡ some table
    → get_timetable fl ((reset_table fl key s).heap table) t w
      ≡ (if equal_keys key a then fl.zero_f else get_timetable fl (s.heap table) t w)
unfolding get_timetable
reset_table-get fl s key a table t w h found = by_found (find_table key s.runtime_ptt_tables) refl
  where
    by_found :
        (o : Option ℕ)
        → find_table key s.runtime_ptt_tables ≡ o
        → Reads fl s key a table t w (reset_table fl key s)
    by_found none e =
        let differ : equal_keys key a ≡ false = elim (Bool-cases (equal_keys key a)) [
          | inl same ↦ absurd (
              none-ne-some table (
                sym (
                  subst (λ (k : XitaoPttKey). find_table k s.runtime_ptt_tables ≡ none)
                    (equal_keys-eq key a same) e)
                ∙ found))
          | inr other ↦ other
        ] in
        subst (Reads fl s key a table t w) (sym (reset-missing fl s key e)) (rw differ refl)
    by_found (some own) e = elim (ℕ_discrete own table) [
      | yes here ↦
          let same : key ≡ a = h.one_key key a table (e ∙ ap some here) found in
          let hit : equal_keys key a ≡ true =
            subst (λ (k : XitaoPttKey). equal_keys key k ≡ true) same (equal_keys_refl key) in
          subst (Reads fl s key a table t w) (sym (reset-found fl s key own e))
            (let at : (own == table) ≡ true = ground arith in rw (at, hit) refl)
      | no there ↦
          let differ : equal_keys key a ≡ false = elim (Bool-cases (equal_keys key a)) [
            | inl same ↦ absurd (
                there (
                  some-injective _ _ (
                    sym e
                    ∙ ap (λ (k : XitaoPttKey). find_table k s.runtime_ptt_tables)
                        (equal_keys-eq key a same)
                    ∙ found)))
            | inr other ↦ other
          ] in
          subst (Reads fl s key a table t w) (sym (reset-found fl s key own e))
            (let off : (own == table) ≡ false = ground arith in rw (off, differ) refl)
    ]
