-- ===== src/Pe/Inspect/Cover.antt =====
-- The reads of the depths cover each partition without gaps, and the partitions cover the vertices.
use graph_accelerator.Common.{
  ℕ, zero, suc, ◌+◌, ◌*◌, ◌/◌, ◌≤◌, ◌<◌, ◌≡◌, ◌↔◌, refl, false, ltb, List, [], ◌∷◌, if◌then◌else◌,
  Bool-cases, inl, inr, arith,
}
use graph_accelerator.Pe.Inspect.{
  Partition, partition, Issue, restart, actual_len, Read, issue_turn, push_read, issue_run,
}
use mathlib.Core.Logic.{◌⊎◌}
use native.Mathlib.Decide.{dec_lt}

-- The reads, the last first, follow each other from `base` to `stop`, each of 1 to `base_len` bytes that
-- the buffer has room for.
pub AreReads : ℕ → ℕ → ℕ → ℕ → List Read → Type 0
AreReads base_len depth base stop [] = stop ≡ base
AreReads base_len depth base stop (r ∷ rs) =
    (r.addr + r.len ≡ stop)
    × (0 < r.len)
    × (r.len ≤ base_len)
    × (r.len ≤ depth)
    × AreReads base_len depth base r.addr rs

record IsIssue (base_len depth : ℕ) (p : Partition) (s : Issue) (reads : List Read) : Type 0 where
  at : s.mem_addr ≡ p.base + s.current_len
  within : s.current_len ≤ p.max_len
  covered : AreReads base_len depth p.base s.mem_addr reads

actual_len-bounds :
    (base_len : ℕ) (p : Partition) (s : Issue)
    → 0 < base_len
    → s.current_len < p.max_len
    → (0 < actual_len base_len p s)
      × (actual_len base_len p s ≤ base_len)
      × (s.current_len + actual_len base_len p s ≤ p.max_len)
unfolding actual_len
actual_len-bounds base_len p s pos more = ground arith

IsIssue-turn :
    (base_len depth size : ℕ) (p : Partition) (s : Issue) (reads : List Read)
    → 0 < base_len
    → IsIssue base_len depth p s reads
    → IsIssue base_len depth p
        (issue_turn base_len depth p size s).0
        (push_read (issue_turn base_len depth p size s).1 reads)
unfolding issue_turn AreReads
IsIssue-turn base_len depth size p s reads pos ok =
    let at = ok.at in
    elim (Bool-cases (ltb s.current_len p.max_len)) [
      | inr done ↦ simp done ok
      | inl more ↦ elim (Bool-cases (ltb depth (size + actual_len base_len p s))) [
        | inl full ↦ simp (more, full) ok
        | inr room ↦
            let (lo, hi, inside) = actual_len-bounds base_len p s pos (ground arith) in
            simp (more, room)
              (record {
                at = omega (arith, at);
                within = inside;
                covered = (refl, lo, hi, ground arith, ok.covered);
              })
      ]
    ]

issue_run-IsIssue :
    (base_len depth : ℕ) (p : Partition) (sizes : List ℕ)
    → 0 < base_len
    → IsIssue base_len depth p
        (issue_run base_len depth p sizes).0
        (issue_run base_len depth p sizes).1
unfolding issue_run restart AreReads
issue_run-IsIssue base_len depth p [] pos = record {
  at = omega arith;
  within = omega arith;
  covered = refl;
}
issue_run-IsIssue base_len depth p (size ∷ sizes) pos =
    IsIssue-turn base_len depth size p (issue_run base_len depth p sizes).0
      (issue_run base_len depth p sizes).1 pos (issue_run-IsIssue base_len depth p sizes pos)

-- The turns at which the buffer has room for a whole burst.
unfoldable pub free_turns : ℕ → ℕ → List ℕ → ℕ
free_turns base_len depth [] = 0
free_turns base_len depth (size ∷ sizes) =
    if ltb depth (size + base_len)
    then free_turns base_len depth sizes
    else suc (free_turns base_len depth sizes)

issue_turn-progress :
    (base_len depth size : ℕ) (p : Partition) (s : Issue)
    → 0 < base_len
    → (s.current_len ≤ (issue_turn base_len depth p size s).0.current_len)
      × (ltb depth (size + base_len) ≡ false
          → s.current_len < p.max_len
          → s.current_len < (issue_turn base_len depth p size s).0.current_len)
unfolding issue_turn
issue_turn-progress base_len depth size p s pos = elim (Bool-cases (ltb s.current_len p.max_len)) [
  | inr done ↦ simp done (omega arith, λ free more. ground arith)
  | inl more ↦ elim (Bool-cases (ltb depth (size + actual_len base_len p s))) [
    | inl full ↦
        let (_, hi, _) = actual_len-bounds base_len p s pos (ground arith) in
        simp (more, full) (omega arith, λ free m. ground (arith, hi))
    | inr room ↦
        let (lo, _, _) = actual_len-bounds base_len p s pos (ground arith) in
        simp (more, room) (omega arith, λ free m. omega (arith, lo))
  ]
]

issue_run-progress :
    (base_len depth : ℕ) (p : Partition) (sizes : List ℕ)
    → 0 < base_len
    → (free_turns base_len depth sizes ≤ (issue_run base_len depth p sizes).0.current_len)
      ⊎ (p.max_len ≤ (issue_run base_len depth p sizes).0.current_len)
unfolding free_turns issue_run
issue_run-progress base_len depth p [] pos = inl (omega arith)
issue_run-progress base_len depth p (size ∷ sizes) pos =
    let s = (issue_run base_len depth p sizes).0 in
    let (grows, moves) = issue_turn-progress base_len depth size p s pos in
    elim (issue_run-progress base_len depth p sizes pos) [
      | inr done ↦ inr (omega (arith, done, grows))
      | inl le ↦ elim (Bool-cases (ltb depth (size + base_len))) [
        | inl full ↦ rw full (inl (omega (arith, le, grows)))
        | inr free ↦ rw free (elim (dec_lt s.current_len p.max_len) [
          | yes more ↦ let up = moves free more in inl (omega (arith, le, up))
          | no end ↦ inr (omega (arith, end, grows))
        ])
      ]
    ]

-- Whatever the sizes of the buffer that the thread meets, its reads, from the base of the partition on,
-- follow each other without a gap or an overlap, none is empty or longer than `baseLen` or than the
-- buffer is deep, and they do not go beyond the partition.
pub issue_run-AreReads :
    (base_len depth : ℕ) (p : Partition) (sizes : List ℕ)
    → 0 < base_len
    → AreReads base_len depth p.base
        (p.base + (issue_run base_len depth p sizes).0.current_len)
        (issue_run base_len depth p sizes).1
      × ((issue_run base_len depth p sizes).0.current_len ≤ p.max_len)
issue_run-AreReads base_len depth p sizes pos =
    let ok = issue_run-IsIssue base_len depth p sizes pos in
    let at = ok.at in (rw at at ok.covered, ok.within)

-- Once as many turns as the partition has bytes have found room for a whole burst, the reads end where
-- the partition ends.
pub issue_run_ends :
    (base_len depth : ℕ) (p : Partition) (sizes : List ℕ)
    → 0 < base_len
    → p.max_len ≤ free_turns base_len depth sizes
    → (issue_run base_len depth p sizes).0.current_len ≡ p.max_len
issue_run_ends base_len depth p sizes pos enough =
    let ok = issue_run-IsIssue base_len depth p sizes pos in
    let top = ok.within in
    elim (issue_run-progress base_len depth p sizes pos) [
      | inl le ↦ omega (arith, le, top, enough)
      | inr done ↦ omega (arith, done, top)
    ]

abbrev owner : ℕ → ℕ → ℕ
owner q v = if ltb v q then 0 else if ltb v (2 * q) then 1 else if ltb v (3 * q) then 2 else 3

quarter : (n : ℕ) → 4 * (n / 4) ≤ n
quarter n = grind arith

owner-lt : (q v : ℕ) → owner q v < 4
owner-lt q v = ground arith

-- With the depths at address 0, each vertex lies in exactly one of the four partitions.
pub partition-covers :
    (vertex_num v : ℕ)
    → v < vertex_num
    → (i : ℕ) × (i < 4)
      × ((j : ℕ)
          → j < 4
          → (((partition 0 vertex_num j).base ≤ v)
              × (v < (partition 0 vertex_num j).base + (partition 0 vertex_num j).max_len))
            ↔ (j ≡ i))
unfolding partition
partition-covers n v h = (owner (n / 4) v, owner-lt (n / 4) v, each)
  where
    each :
        (j : ℕ)
        → j < 4
        → (((partition 0 n j).base ≤ v) × (v < (partition 0 n j).base + (partition 0 n j).max_len))
          ↔ (j ≡ owner (n / 4) v)
    each zero lt = ground (arith, quarter n, h)
    each (suc zero) lt = ground (arith, quarter n, h)
    each (suc (suc zero)) lt = ground (arith, quarter n, h)
    each (suc (suc (suc zero))) lt = ground (arith, quarter n, h)
    each (suc (suc (suc (suc j)))) lt = absurd (omega arith)
