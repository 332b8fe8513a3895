-- ===== src/Reuse/Overlap.antt =====
-- What `overlap` and `superset` of loi/krd.c say of blocks of bytes.
use xitao.Prelude.{
  ℕ, ◌+◌, ◌%◌, ◌≤◌, ◌<◌, ◌≡◌, ◌↔◌, ◌⊎◌, refl, true, false, Option, none, some, ltb, arith,
  Bool-cases, inl, inr, ◌&&◌, if◌then◌else◌,
}
use xitao.Reuse.{StackEntry, overlap, superset, array_partial, add_64, sub_64, two_64, two_32}

-- A byte of a block.
abbrev pub Holds : ℕ → ℕ → ℕ → Type 0
Holds start size x = (start ≤ x) × (x < start + size)

abbrev pub HoldsSome : Option (ℕ × ℕ) → ℕ → Type 0
HoldsSome none x = ⊥
HoldsSome (some (start, size)) x = Holds start size x

-- The common bytes of two blocks, by their ends.
abbrev common : ℕ → ℕ → ℕ → ℕ → Option (ℕ × ℕ)
common a a_end b b_end =
    let start = if ltb b a then a else b in
    if ltb a b_end && ltb b a_end
    then some (start, (if ltb a_end b_end then sub_64 a_end start else sub_64 b_end start) % two_32)
    else none

-- Which of two numbers is smaller, with the value of the test.
ltb_cases : (a b : ℕ) → ((ltb a b ≡ true) × (a < b)) ⊎ ((ltb a b ≡ false) × (b ≤ a))
ltb_cases a b = elim (Bool-cases (ltb a b)) [
  | inl e ↦ inl (e, ground arith)
  | inr e ↦ inr (e, ground arith)
]

-- The bytes from a start on that two ends bound.
common_bytes :
    (start a_end b_end x : ℕ)
    → start ≤ a_end
    → start ≤ b_end
    → a_end < two_64
    → b_end < two_64
    → a_end < start + two_32
    → b_end < start + two_32
    → Holds start ((if ltb a_end b_end then sub_64 a_end start else sub_64 b_end start) % two_32) x
      ↔ ((start ≤ x) × (x < a_end) × (x < b_end))
common_bytes start a_end b_end x before_a before_b a_fits b_fits a_near b_near =
    elim (ltb_cases a_end b_end) [
      | inl (t, first) ↦
          rw t (λ h. (omega arith, omega arith, omega arith), λ h. (omega arith, omega arith))
      | inr (t, first) ↦
          rw t (λ h. (omega arith, omega arith, omega arith), λ h. (omega arith, omega arith))
    ]

common-Holds :
    (a n b m x : ℕ)
    → a + n < two_64
    → b + m < two_64
    → n < two_32
    → m < two_32
    → HoldsSome (common a (a + n) b (b + m)) x ↔ (Holds a n x × Holds b m x)
common-Holds a n b m x a_fits b_fits n_small m_small = elim (ltb_cases a (b + m)) [
  | inr (e, before) ↦ rw e (λ h. absurd h, λ h. absurd (omega arith))
  | inl (e, meets) ↦ elim (ltb_cases b (a + n)) [
    | inr (e', before) ↦ rw (e, e') (λ h. absurd h, λ h. absurd (omega arith))
    | inl (e', meets') ↦ elim (ltb_cases b a) [
      | inl (s, later) ↦
          let found =
            common_bytes a (a + n) (b + m) x (omega arith) (omega arith) a_fits b_fits (omega arith)
              (omega arith) in
          rw (e, e', s) (λ h. ground arith, λ h. ground arith)
      | inr (s, later) ↦
          let found =
            common_bytes b (a + n) (b + m) x (omega arith) (omega arith) a_fits b_fits (omega arith)
              (omega arith) in
          rw (e, e', s) (λ h. ground arith, λ h. ground arith)
    ]
  ]
]

common_whole :
    (a n b m : ℕ)
    → b + m < two_64
    → n < two_32
    → 0 < n
    → b ≤ a
    → a + n ≤ b + m
    → common a (a + n) b (b + m) ≡ some (a, n)
common_whole a n b m fits small some_bytes from to =
    let meets : ltb a (b + m) ≡ true = ground arith in
    let meets' : ltb b (a + n) ≡ true = ground arith in
    let start : (if ltb b a then a else b) ≡ a = ground arith in
    let size : (if ltb (a + n) (b + m) then sub_64 (a + n) a else sub_64 (b + m) a) % two_32 ≡ n =
      elim (ltb_cases (a + n) (b + m)) [
        | inl (t, less) ↦ rw t (omega arith)
        | inr (t, more) ↦ rw t (omega arith)
      ] in
    rw (meets, meets', start) (rw size refl)

-- For a block of the stack and an incoming block that do not wrap around, what `overlap` finds in
-- vector data is exactly the bytes that the two blocks have in common, none if there are none,
-- and where `superset` holds and the block of the stack is not empty, it is that whole block.
pub overlap-superset :
    (entry : StackEntry) (inaddr insize : ℕ)
    → entry.elem + entry.size < two_64
    → inaddr + insize < two_64
    → entry.size < two_32
    → insize < two_32
    → ((x : ℕ)
        → HoldsSome (overlap array_partial entry.elem entry.size inaddr insize) x
          ↔ (Holds entry.elem entry.size x × Holds inaddr insize x))
      × (superset entry inaddr insize ≡ true
          → 0 < entry.size
          → overlap array_partial entry.elem entry.size inaddr insize
            ≡ some (entry.elem, entry.size))
unfolding overlap superset
overlap-superset entry inaddr insize s_fits i_fits s_small i_small =
    let s_end : add_64 entry.elem entry.size ≡ entry.elem + entry.size = omega arith in
    let i_end : add_64 inaddr insize ≡ inaddr + insize = omega arith in
    rw (s_end, i_end)
      (
        λ x. common-Holds entry.elem entry.size inaddr insize x s_fits i_fits s_small i_small,
        λ whole some_bytes.
            common_whole entry.elem entry.size inaddr insize i_fits s_small some_bytes
              (ground arith) (ground arith),
      )
