-- ===== src/Trace/Transfer.antt =====
-- The loops of `read` and `write` calls of loi/krd_trace.c, where each call moves some bytes.
use xitao.Prelude.{
  ℕ, zero, suc, ◌+◌, ◌-◌, ◌≤◌, ◌<◌, ◌≡◌, refl, ◌∙◌, inl, inr, true, false, Option, some, ltb, arith,
  Bool-cases, dec_lt,
}
use xitao.Prelude.Result.{ok}
use xitao.Trace.Files.{
  TraceFile, EntryBytes, append_bytes, write_chunk, write_loop, read_bytes, read_chunk, read_loop,
}

-- Each call moves at most what is asked for, and something where there is something to move.
abbrev pub Transfers : (ℕ → ℕ → Option ℕ) → Type 0
Transfers call =
    (round asked : ℕ) → (n : ℕ) × (call round asked ≡ some n) × (n ≤ asked) × (0 < asked → 0 < n)

module _ (layout : EntryBytes) where
  pub append_bytes-same :
      (memory : ℕ → ℕ) (offset n : ℕ) (file : TraceFile)
      → file.size ≡ offset
      → ((o : ℕ) → o < offset → file.bytes o ≡ memory o)
      → (o : ℕ) → o < offset + n
      → (append_bytes layout memory offset n file).bytes o ≡ memory o
  unfolding append_bytes
  append_bytes-same memory offset n file there same o below = elim (dec_lt o offset) [
    | yes old ↦ let e : ltb o file.size ≡ true = ground arith in rw e (same o old)
    | no new ↦
        let e : ltb o file.size ≡ false = ground arith in
        let e' : ltb o (file.size + n) ≡ true = ground arith in
        let at : offset + (o - file.size) ≡ o = ground arith in rw (e, e', at) refl
  ]

  pub write_loop-writes :
      (write : ℕ → ℕ → Option ℕ) (moves : Transfers write) (rounds round : ℕ) (memory : ℕ → ℕ)
      (pending offset : ℕ) (file : TraceFile)
      → pending < rounds
      → file.size ≡ offset
      → ((o : ℕ) → o < offset → file.bytes o ≡ memory o)
      → (done : TraceFile) × (write_loop layout write rounds round memory pending offset file
          ≡ ok done)
        × (done.magic ≡ file.magic)
        × (done.size ≡ offset + pending)
        × ((o : ℕ) → o < offset + pending → done.bytes o ≡ memory o)
  unfolding write_loop write_chunk append_bytes
  write_loop-writes write moves zero round memory pending offset file fuel there same =
      absurd (omega arith)
  write_loop-writes write moves (suc rounds) round memory pending offset file fuel there same =
      let (n, e, most, some_moved) = moves round pending in
      let file' = append_bytes layout memory offset n file in
      let same' = append_bytes-same memory offset n file there same in
      elim (Bool-cases (ltb 0 (pending - n))) [
        | inl more ↦
            let fuel' : pending - n < rounds = ground arith in
            let (done, runs, magic, size, bytes) =
              write_loop-writes write moves rounds (suc round) memory (pending - n) (offset + n)
                file' fuel' (ground arith) same' in
            (done, rw (e, more) runs, magic, omega arith, λ o below. bytes o (omega arith))
        | inr all ↦
            let last : n ≡ pending = ground arith in
            (file', rw (e, all) refl, refl, ground arith, λ o below. same' o (omega arith))
      ]

  pub read_bytes-inside :
      (file : TraceFile) (offset n : ℕ) (memory : ℕ → ℕ) (o : ℕ)
      → offset ≤ o
      → o < offset + n
      → read_bytes layout file offset n memory o ≡ file.bytes o
  unfolding read_bytes
  read_bytes-inside file offset n memory o lo hi = ground arith

  pub read_bytes-outside :
      (file : TraceFile) (offset n : ℕ) (memory : ℕ → ℕ) (o : ℕ)
      → ((offset ≤ o) → offset + n ≤ o)
      → read_bytes layout file offset n memory o ≡ memory o
  unfolding read_bytes
  read_bytes-outside file offset n memory o out = ground arith

  pub read_loop-reads :
      (read : ℕ → ℕ → Option ℕ) (moves : Transfers read) (rounds round : ℕ) (file : TraceFile)
      (pending offset : ℕ) (memory : ℕ → ℕ)
      → pending < rounds
      → (done : ℕ → ℕ) × (read_loop layout read rounds round file pending offset memory ≡ ok done)
        × ((o : ℕ) → offset ≤ o → o < offset + pending → done o ≡ file.bytes o)
        × ((o : ℕ) → (offset ≤ o → offset + pending ≤ o) → done o ≡ memory o)
  unfolding read_loop read_chunk
  read_loop-reads read moves zero round file pending offset memory fuel = absurd (omega arith)
  read_loop-reads read moves (suc rounds) round file pending offset memory fuel =
      let (n, e, most, some_moved) = moves round pending in
      let memory' = read_bytes layout file offset n memory in
      elim (Bool-cases (ltb 0 (pending - n))) [
        | inl more ↦
            let fuel' : pending - n < rounds = ground arith in
            let (done, runs, inside, outside) =
              read_loop-reads read moves rounds (suc round) file (pending - n) (offset + n) memory'
                fuel' in
            (
              done,
              rw (e, more) runs,
              λ o lo hi. elim (dec_lt o (offset + n)) [
                | yes now ↦
                    outside o (λ h. omega arith) ∙ read_bytes-inside file offset n memory o lo now
                | no later ↦ inside o (omega arith) (omega arith)
              ],
              λ o out.
                  outside o (λ h. omega (arith, out))
                  ∙ read_bytes-outside file offset n memory o (λ h. omega (arith, out h)),
            )
        | inr all ↦
            let last : n ≡ pending = ground arith in
            (
              memory',
              rw (e, all) refl,
              λ o lo hi. read_bytes-inside file offset n memory o lo (omega arith),
              λ o out. read_bytes-outside file offset n memory o (λ h. omega (arith, out h)),
            )
      ]
