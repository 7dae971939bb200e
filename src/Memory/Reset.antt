-- ===== src/Memory/Reset.antt =====
-- `cleanRam` and `setNewStartVertex`: the memory before a search. A `signed char` is one byte and an
-- `int` four, so that -1 is the byte 255 once or four times.
use graph_accelerator.Common.{
  ℕ, zero, suc, ◌+◌, ◌*◌, ◌≤◌, ◌<◌, ◌≡◌, refl, ◌∙◌, ◌⊎◌, inl, inr, ◌==◌, List, [], ◌∷◌, Option,
  none, some, if◌then◌else◌, length, get_or, replicate, length-replicate, arith, Bool-cases, ◌-◌,
}
use native.Mathlib.Decide.{dec_lt}
use graph_accelerator.Burst.Transfer.{store_bytes}
use graph_accelerator.Burst.Transfer.Copy.{store_bytes-IsStored}
use graph_accelerator.Memory.Layout.{Layout, IsLayout}

-- `updateSingleDataToRam` of a value of `width` bytes; `none` is an access out of range.
unfoldable pub update_single : ℕ → ℕ → List ℕ → List ℕ → Option (List ℕ)
update_single width addr bytes ram = store_bytes width 0 addr bytes ram

-- `n` values of the same bytes from `addr` on.
unfoldable pub fill : ℕ → ℕ → ℕ → List ℕ → List ℕ → Option (List ℕ)
fill zero width addr bytes ram = some ram
fill (suc n) width addr bytes ram = elim (update_single width addr bytes ram) [
  | none ↦ none
  | some ram' ↦ fill n width (addr + width) bytes ram'
]

-- -1 in `width` bytes.
abbrev pub minus_one_bytes : ℕ → List ℕ
minus_one_bytes width = replicate width 255

pub clean_ram : Layout → ℕ → List ℕ → Option (List ℕ)
clean_ram l vertex_num ram = elim (fill vertex_num 1 l.depth (minus_one_bytes 1) ram) [
  | none ↦ none
  | some ram' ↦ fill vertex_num 4 l.frontier (minus_one_bytes 4) ram'
]

pub set_new_start_vertex : Layout → ℕ → List ℕ → Option (List ℕ)
set_new_start_vertex l idx ram = update_single 1 (l.depth + idx * 1) (0 ∷ []) ram

-- The cells of `[at, at + n)` of `after` hold 255, and the others are as in `ram`.
pub record IsFilled (n at : ℕ) (ram after : List ℕ) : Type 0 where
  pub size : length after ≡ length ram
  pub inside : (j : ℕ) → at ≤ j → j < at + n → get_or after j 0 ≡ 255
  pub outside : (j : ℕ) → (j < at) ⊎ (at + n ≤ j) → get_or after j 0 ≡ get_or ram j 0

get_or-bytes : (n i : ℕ) → i < n → get_or (minus_one_bytes n) i 0 ≡ 255
get_or-bytes zero i h = absurd (omega arith)
get_or-bytes (suc n) zero h = refl
get_or-bytes (suc n) (suc i) h = get_or-bytes n i (omega arith)

update_single-IsFilled :
    (width at : ℕ) (ram : List ℕ)
    → at + width ≤ length ram
    → (after : List ℕ) × (update_single width at (minus_one_bytes width) ram ≡ some after)
      × IsFilled width at ram after
unfolding update_single
update_single-IsFilled width at ram room =
    let size = length-replicate {A = ℕ} width 255 in
    let (after, e, ok) =
      store_bytes-IsStored width 0 at (minus_one_bytes width) ram (omega (arith, size)) room in
    (
      after,
      e,
      record {
        size = ok.size;
        inside = λ j lo hi.
            let p : at + (j - at) ≡ j = omega arith in
            rw p at (ok.inside (j - at) (omega arith))
            ∙ get_or-bytes width (0 + (j - at)) (omega arith);
        outside = ok.outside;
      },
    )

IsFilled-append :
    (n m at : ℕ) (ram mid after : List ℕ)
    → IsFilled n at ram mid
    → IsFilled m (at + n) mid after
    → IsFilled (n + m) at ram after
IsFilled-append n m at ram mid after p q = record {
  size = q.size ∙ p.size;
  inside = λ j lo hi. elim (dec_lt j (at + n)) [
    | yes lt ↦ q.outside j (inl lt) ∙ p.inside j lo lt
    | no ge ↦ q.inside j (omega arith) (omega arith)
  ];
  outside = λ j h. elim h [
    | inl lt ↦ q.outside j (inl (omega arith)) ∙ p.outside j (inl lt)
    | inr ge ↦ q.outside j (inr (omega arith)) ∙ p.outside j (inr (omega arith))
  ];
}

pub fill-IsFilled :
    (n width at : ℕ) (ram : List ℕ)
    → at + n * width ≤ length ram
    → (after : List ℕ) × (fill n width at (minus_one_bytes width) ram ≡ some after)
      × IsFilled (n * width) at ram after
unfolding fill
fill-IsFilled zero width at ram room = (
  ram,
  refl,
  record { size = refl; inside = λ j lo hi. absurd (omega arith); outside = λ j h. refl },
)
fill-IsFilled (suc n) width at ram room =
    let p : width + n * width ≡ suc n * width = grind arith in
    let (mid, e, one) = update_single-IsFilled width at ram (omega (arith, p)) in
    let size = one.size in
    let (after, es, rest) = fill-IsFilled n width (at + width) mid (omega (arith, p, size)) in
    (after, rw (e, fill) es, rw p at (IsFilled-append width (n * width) at ram mid after one rest))

-- With the layout of `ramInit` and a memory that holds it, `cleanRam` and then `setNewStartVertex` end.
-- They leave the depth 0 at the start vertex and -1 at the others, -1 in each entry of the frontier, and
-- the cells of the arrays between unchanged.
pub set_new_start_vertex-clean_ram :
    (l : Layout) (vertex_num edge_num idx : ℕ) (ram : List ℕ)
    → IsLayout vertex_num edge_num l
    → l.frontier + 4 * vertex_num ≤ length ram
    → idx < vertex_num
    → (mid after : List ℕ) × (clean_ram l vertex_num ram ≡ some mid)
      × (set_new_start_vertex l idx mid ≡ some after)
      × (length after ≡ length ram)
      × ((v : ℕ) → v < vertex_num → get_or after (l.depth + v) 0 ≡ (if v == idx then 0 else 255))
      × ((j : ℕ) → l.frontier ≤ j → j < l.frontier + 4 * vertex_num → get_or after j 0 ≡ 255)
      × ((j : ℕ) → l.rpao ≤ j → j < l.frontier → get_or after j 0 ≡ get_or ram j 0)
unfolding clean_ram set_new_start_vertex update_single
set_new_start_vertex-clean_ram l n m idx ram ok room h =
    let s1 = ok.depth_rpao in
    let s2 = ok.rpao_ciao in
    let s3 = ok.ciao_rpai in
    let s4 = ok.rpai_ciai in
    let s5 = ok.ciai_frontier in
    let (first, e1, f1) = fill-IsFilled n 1 l.depth ram (omega arith) in
    let z1 = f1.size in
    let (mid, e2, f2) = fill-IsFilled n 4 l.frontier first (omega arith) in
    let z2 = f2.size in
    let (after, e3, f3) =
      store_bytes-IsStored 1 0 (l.depth + idx * 1) (0 ∷ []) mid (omega arith) (omega arith) in
    (
      mid,
      after,
      rw (e1, clean_ram) e2,
      e3,
      f3.size ∙ z2 ∙ z1,
      λ v lt. elim (Bool-cases (v == idx)) [
        | inl e ↦
            let same : v ≡ idx = ground arith in
            let p : l.depth + idx * 1 + 0 ≡ l.depth + v = omega (arith, same) in
            rw e (rw p at (f3.inside 0 (omega arith)))
        | inr e ↦
            let other : (v < idx) ⊎ (idx < v) = ground arith in
            rw e (
              f3.outside (l.depth + v)
                (elim other [ inl lo ↦ inl (omega arith) | inr hi ↦ inr (omega arith) ])
              ∙ f2.outside (l.depth + v) (inl (omega arith))
              ∙ f1.inside (l.depth + v) (omega arith) (omega arith))
      ],
      λ j lo hi. f3.outside j (inr (omega arith)) ∙ f2.inside j lo (omega arith),
      λ j lo hi.
          f3.outside j (inr (omega arith))
          ∙ f2.outside j (inl hi)
          ∙ f1.outside j (inr (omega arith)),
    )
