-- ===== src/Port/Frame.antt =====
-- Where the frames of port/os_cpu_c.c lie and what they hold.
use ucosii_arm64_qemu.Prelude.{
  ℕ, zero, suc, ◌+◌, ◌-◌, ◌*◌, ◌/◌, ◌%◌, ◌≤◌, ◌≡◌, ◌∙◌, refl, ap, Bool, true, false, List, [], ◌∷◌,
  ◌++◌, ltb, leb, ◌==◌, ◌&&◌, if◌then◌else◌, get_or, length, length-replicate, get_or-replicate,
  replicate, subst, arith, Bool-cases, inl, inr,
}
use ucosii_arm64_qemu.Port.{Memory, store_words, context, os_task_stk_init, os_init_hook_begin}

-- Whether `x` is one of the places of `n` words from `addr` on.
abbrev pub inside : ℕ → ℕ → ℕ → Bool
inside addr n x = leb addr x && ltb x (addr + 8 * n) && (x - addr) % 8 == 0

store_words_lem :
    (ws : List ℕ) (m : Memory) (addr x : ℕ)
    → store_words m addr ws x
      ≡ (if inside addr (length ws) x then get_or ws ((x - addr) / 8) 0 else m x)
unfolding store_words
store_words_lem [] m addr x = let out : inside addr 0 x ≡ false = ground arith in rw out refl
store_words_lem (w ∷ ws) m addr x = elim (Bool-cases (x == addr)) [
  | inl same ↦
      let e : x ≡ addr = ground arith in
      let past : inside (addr + 8) (length ws) addr ≡ false = ground arith in
      let here : inside addr (suc (length ws)) addr ≡ true = ground arith in
      let first : (addr - addr) / 8 ≡ 0 = omega arith in
      let start : (addr == addr) ≡ true = ground arith in
      store_words_lem ws (λ y. if y == addr then w else m y) (addr + 8) x
      ∙ rw (e, past, here, first, start) refl
  | inr other ↦ elim (Bool-cases (inside (addr + 8) (length ws) x)) [
    | inl later ↦
        let also : inside addr (suc (length ws)) x ≡ true = ground arith in
        let next : (x - addr) / 8 ≡ suc ((x - (addr + 8)) / 8) = ground arith in
        store_words_lem ws (λ y. if y == addr then w else m y) (addr + 8) x
        ∙ rw (later, also, next) refl
    | inr no_later ↦
        let out : inside addr (suc (length ws)) x ≡ false = ground arith in
        store_words_lem ws (λ y. if y == addr then w else m y) (addr + 8) x
        ∙ rw (no_later, out, other) refl
  ]
]

get_or-replicate_append :
    (n : ℕ) (rest : List ℕ) (k : ℕ)
    → get_or (replicate n 0 ++ rest) k 0 ≡ (if ltb k n then 0 else get_or rest (k - n) 0)
get_or-replicate_append zero rest k =
    let out : ltb k 0 ≡ false = ground arith in
    let same : k - 0 ≡ k = omega arith in rw (out, same) refl
get_or-replicate_append (suc n) rest zero =
    let low : ltb 0 (suc n) ≡ true = ground arith in rw low refl
get_or-replicate_append (suc n) rest (suc k) =
    let same : ltb (suc k) (suc n) ≡ ltb k n = ground arith in
    let less : suc k - suc n ≡ k - n = omega arith in
    rw (same, less) (get_or-replicate_append n rest k)

-- The words of a first frame: SPSR, ELR, X30, X29 to X1, X0 and the padding.
abbrev pub first_word : ℕ → ℕ → ℕ → ℕ → ℕ
first_word task p_arg task_return k =
    if k == 0
    then 5
    else if k == 1
    then task
    else if k == 2
    then task_return
    else if k == 32
    then p_arg
    else 0

past_last : (j : ℕ) → get_or {A = ℕ} (0 ∷ []) j 0 ≡ 0
past_last zero = refl
past_last (suc j) = refl

context_word :
    (task p_arg task_return k : ℕ)
    → get_or (context task p_arg task_return) k 0 ≡ first_word task p_arg task_return k
unfolding context
context_word task p_arg task_return zero = refl
context_word task p_arg task_return (suc zero) = refl
context_word task p_arg task_return (suc (suc zero)) = refl
context_word task p_arg task_return (suc (suc (suc k))) =
    let other0 : (suc (suc (suc k)) == 0) ≡ false = ground arith in
    let other1 : (suc (suc (suc k)) == 1) ≡ false = ground arith in
    let other2 : (suc (suc (suc k)) == 2) ≡ false = ground arith in
    rw (other0, other1, other2) (get_or-replicate_append 29 (p_arg ∷ 0 ∷ []) k ∙ last_words)
  where
    last_words :
        (if ltb k 29 then 0 else get_or (p_arg ∷ 0 ∷ []) (k - 29) 0)
        ≡ (if suc (suc (suc k)) == 32 then p_arg else 0)
    last_words = elim (Bool-cases (ltb k 29)) [
      | inl low ↦
          let other : (suc (suc (suc k)) == 32) ≡ false = ground arith in rw (low, other) refl
      | inr high ↦ elim (Bool-cases (k == 29)) [
        | inl at ↦
            let here : (suc (suc (suc k)) == 32) ≡ true = ground arith in
            let first : k - 29 ≡ 0 = ground arith in rw (high, here, first) refl
        | inr beyond ↦
            let other : (suc (suc (suc k)) == 32) ≡ false = ground arith in
            let second : k - 29 ≡ suc (k - 30) = ground arith in
            rw (high, other, second) (past_last (k - 30))
      ]
    ]

-- On a stack of `size` words at `stk`, at least 36 of them, whose last word is passed, the stack
-- pointer of a new task is a multiple of 16 and its frame of 34 words lies within the stack. The
-- frame holds, from its start: SPSR 5, the task's entry, the return function, zero for X29 to X1, the
-- argument for X0, and a zero that fills it up. Memory outside the frame is unchanged.
pub os_task_stk_init_lem :
    (task_return task p_arg stk size : ℕ) (m : Memory) (x : ℕ)
    → 36 ≤ size
    → let (p_stk, m') = os_task_stk_init task_return task p_arg (stk + 8 * (size - 1)) m in
      (p_stk % 16 ≡ 0)
      × (stk ≤ p_stk)
      × (p_stk + 34 * 8 ≤ stk + 8 * size)
      × (m' x ≡ (
          if inside p_stk 34 x then first_word task p_arg task_return ((x - p_stk) / 8) else m x))
unfolding os_task_stk_init context
os_task_stk_init_lem task_return task p_arg stk size m x room = (
  omega arith,
  omega arith,
  omega arith,
  store_words_lem (context task p_arg task_return) m _ x
      ∙ ap (λ w. if inside p_stk 34 x then w else m x)
          (context_word task p_arg task_return ((x - p_stk) / 8)),
)
  where
    p_stk : ℕ
    p_stk = (stk + 8 * (size - 1) + 8) / 16 * 16 - 34 * 8

-- The exception stack is all zero afterwards, memory outside it is unchanged, and the base that is
-- recorded is the multiple of 16 at its end or at most 15 bytes below.
pub os_init_hook_begin_lem :
    (stk size : ℕ) (m : Memory) (x : ℕ)
    → let (base, m') = os_init_hook_begin stk size m in
      (base % 16 ≡ 0)
      × (base ≤ stk + 8 * size)
      × (stk + 8 * size ≤ base + 15)
      × (m' x ≡ (if inside stk size x then 0 else m x))
unfolding os_init_hook_begin
os_init_hook_begin_lem stk size m x = (
  omega arith,
  omega arith,
  omega arith,
  subst (λ n. store_words m stk (replicate size 0) x ≡ (if inside stk n x then 0 else m x))
      (length-replicate {A = ℕ} size 0)
      (store_words_lem (replicate size 0) m stk x
        ∙ rw (get_or-replicate {A = ℕ} size ((x - stk) / 8) 0) refl),
)
