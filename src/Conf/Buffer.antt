-- ===== src/Conf/Buffer.antt =====
-- `readconf` and `readfile` of src/conf/pconf.cpp: the file is read into a buffer by blocks of 1024
-- bytes. The answers of `read` are an argument; the end of their list is the answer 0.
use record_lib.Base.{
  ℕ, suc, ◌+◌, ◌-◌, ◌*◌, ◌≤◌, ◌<◌, ◌≡◌, ◌≢◌, refl, ap, ◌∙◌, Option, some, none, List, [], ◌∷◌, ◌==◌,
  ltb, if◌then◌else◌, arith, inl, inr, Bool-cases, false,
}

-- What `readconf` allocates and stores in `buflen`, which no line changes later.
abbrev buflen : ℕ
buflen = 1024 * 256

-- The `while`: `none` is a write behind the `capacity` of the buffer, and else the file's length is
-- the result. A full block is followed by a `realloc` and the clearing of the next 1024 bytes.
unfoldable pub read_loop : List ℕ → (capacity total remain : ℕ) → Option ℕ
read_loop [] capacity total remain = some total
read_loop (bytes_read ∷ answers) capacity total remain =
    let next = read_loop answers capacity (total + bytes_read) (remain - bytes_read) in
    let next_block = read_loop answers (buflen + 1024) (total + bytes_read) 1024 in
    if ltb capacity (total + bytes_read)
    then none
    else if remain == bytes_read
    then (if ltb (buflen + 1024) (total + 1024 + 1024) then none else next_block)
    else next

-- `readconf` with the open file.
unfoldable pub readfile : List ℕ → Option ℕ
unfolding read_loop
readfile answers = read_loop answers buflen 0 1024

-- Each answer is positive and not above the number of bytes that were asked for.
abbrev pub Answers : ℕ → List ℕ → Type 0
Answers remain [] = Unit
Answers remain (n ∷ ns) =
    (0 < n) × (n ≤ remain) × Answers (if remain == n then 1024 else remain - n) ns

abbrev pub sum : List ℕ → ℕ
sum [] = 0
sum (n ∷ ns) = n + sum ns

read_loop_fits :
    (ns : List ℕ) (blocks capacity total remain : ℕ)
    → Answers remain ns
    → total + remain ≡ 1024 * blocks
    → remain ≤ 1024
    → buflen ≤ capacity
    → total + sum ns < buflen
    → read_loop ns capacity total remain ≡ some (total + sum ns)
unfolding read_loop
read_loop_fits [] blocks capacity total remain ok e le room small =
    let e : total ≡ total + 0 = omega arith in ap some e
read_loop_fits (n ∷ ns) blocks capacity total remain (pos, fit, more) e le room small =
    let first : ltb capacity (total + n) ≡ false = ground arith in
    let assoc : total + n + sum ns ≡ total + (n + sum ns) = omega arith in
    elim (Bool-cases (remain == n)) [
      | inl q ↦
          let second : ltb (buflen + 1024) (total + 1024 + 1024) ≡ false = ground arith in
          let same : remain ≡ n = ground arith in
          rw (first, q, second)
            (read_loop_fits ns (suc blocks) (buflen + 1024) (total + n) 1024 (rw q at more)
                (omega arith) (omega arith) (omega arith) (omega arith)
              ∙ ap some assoc)
      | inr q ↦
          rw (first, q)
            (read_loop_fits ns blocks capacity (total + n) (remain - n) (rw q at more) (omega arith)
                (omega arith) room (omega arith)
              ∙ ap some assoc)
    ]

-- For all answers of read that are positive and not above the bytes asked for: a file of less than
-- 262144 bytes is read whole and nothing is written behind the end of the buffer.
pub readfile_fits :
    (answers : List ℕ)
    → Answers 1024 answers
    → sum answers < 262144
    → readfile answers ≡ some (sum answers)
unfolding readfile
readfile_fits answers ok small =
    read_loop_fits answers 1 buflen 0 1024 ok refl (omega arith) (omega arith) (omega arith)
    ∙ ap some (omega arith)

read_loop_overruns :
    (ns : List ℕ) (blocks capacity total remain : ℕ)
    → Answers remain ns
    → total + remain ≡ 1024 * blocks
    → 0 < remain
    → remain ≤ 1024
    → blocks ≤ 257
    → 263168 ≤ total + sum ns
    → read_loop ns capacity total remain ≡ none
unfolding read_loop
read_loop_overruns [] blocks capacity total remain ok e pos le few large = absurd (omega arith)
read_loop_overruns (n ∷ ns) blocks capacity total remain (pos', fit, more) e pos le few large =
    elim (Bool-cases (ltb capacity (total + n))) [
      | inl q ↦ rw q refl
      | inr q ↦ elim (Bool-cases (remain == n)) [
        | inl q' ↦ elim (Bool-cases (ltb (buflen + 1024) (total + 1024 + 1024))) [
          | inl q'' ↦ rw (q, q', q'') refl
          | inr q'' ↦
              let same : remain ≡ n = ground arith in
              let early : total + 2048 ≤ 263168 = ground arith in
              rw (q, q', q'')
                (read_loop_overruns ns (suc blocks) (buflen + 1024) (total + n) 1024 (rw q' at more)
                  (omega arith) (omega arith) (omega arith) (omega arith) (omega arith))
        ]
        | inr q' ↦
            let other : remain ≢ n = ground arith in
            rw (q, q')
              (read_loop_overruns ns blocks capacity (total + n) (remain - n) (rw q' at more)
                (omega arith) (omega arith) (omega arith) few (omega arith))
      ]
    ]

-- For all answers of read that are positive and not above the bytes asked for: a file of 263168
-- bytes or more is written or cleared behind the end of the buffer.
pub readfile_overruns :
    (answers : List ℕ) → Answers 1024 answers → 263168 ≤ sum answers → readfile answers ≡ none
unfolding readfile
readfile_overruns answers ok large =
    read_loop_overruns answers 1 buflen 0 1024 ok refl (omega arith) (omega arith) (omega arith)
      (omega arith)
