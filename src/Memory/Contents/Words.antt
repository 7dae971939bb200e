-- ===== src/Memory/Contents/Words.antt =====
-- An array of words that is written to the memory is read back by bursts.
use graph_accelerator.Common.{
  ℕ, zero, suc, ◌+◌, ◌-◌, ◌*◌, ◌/◌, ◌%◌, ◌==◌, ◌≤◌, ◌<◌, ◌≡◌, refl, sym, ap, ◌∙◌, true, List, [],
  ◌∷◌, ◌++◌, some, inl, inr, length, length-append, get_or, slice, List-ext, arith, length-slice,
  get_or-slice, slice-append,
}
use mathlib.Core.List.{append_assoc}
use native.Mathlib.Decide.{dec_lt}
use graph_accelerator.Burst.{BurstOp}
use graph_accelerator.Burst.Transfer.{ram_to_req, burst_req_to_buffer}
use graph_accelerator.Burst.Transfer.Copy.{IsStored, store_bytes-IsStored, load_bytes-slice}
use graph_accelerator.Burst.Transfer.Chunks.{
  AreExact, encode_all, take_values-all, quotient, remainder,
}
use graph_accelerator.Memory.Reset.{update_single}
use graph_accelerator.Memory.Contents.{fill_mem}
use mathlib.Core.Path.{subst}

get_or-append_left :
    (xs ys : List ℕ) (k : ℕ) → k < length xs → get_or (xs ++ ys) k 0 ≡ get_or xs k 0
get_or-append_left [] ys k h = absurd (omega arith)
get_or-append_left (x ∷ xs) ys zero h = refl
get_or-append_left (x ∷ xs) ys (suc k) h = get_or-append_left xs ys k (omega arith)

get_or-append_right : (xs ys : List ℕ) (k : ℕ) → get_or (xs ++ ys) (length xs + k) 0 ≡ get_or ys k 0
get_or-append_right [] ys k = ap (λ j. get_or ys j 0) (omega arith)
get_or-append_right (x ∷ xs) ys k =
    let e : suc (length xs) + k ≡ suc (length xs + k) = omega arith in
    ap (λ j. get_or (x ∷ (xs ++ ys)) j 0) e ∙ get_or-append_right xs ys k

slice-all : (xs : List ℕ) → xs ≡ slice xs 0 (length xs)
slice-all xs = sym (
    List-ext 0 (slice xs 0 (length xs)) xs (length-slice xs 0 (length xs)) (λ k lt.
      get_or-slice xs 0 (length xs) k (omega (arith, lt, length-slice xs 0 (length xs)))
      ∙ ap (λ j. get_or xs j 0) (omega arith)))

slice-parts :
    (xs : List ℕ) (i n : ℕ)
    → i + n ≤ length xs
    → xs ≡ slice xs 0 i ++ (slice xs i n ++ slice xs (i + n) (length xs - (i + n)))
slice-parts xs i n room =
    let rest = length xs - (i + n) in
    let z : i ≡ 0 + i = omega arith in
    let all : i + (n + rest) ≡ length xs = omega (arith, room) in
    let two : slice xs i n ++ slice xs (i + n) rest ≡ slice xs (0 + i) (n + rest) =
      slice-append xs i n rest ∙ ap (λ j. slice xs j (n + rest)) z in
    slice-all xs
    ∙ ap (slice xs 0) (sym all)
    ∙ sym (slice-append xs 0 i (n + rest))
    ∙ ap (λ r. slice xs 0 i ++ r) (sym two)

times_le : (a b w : ℕ) → a ≤ b → a * w ≤ b * w
times_le a b w le =
    let e : a + (b - a) ≡ b = omega arith in
    let f = ap (λ k. k * w) e in
    let g : (a + (b - a)) * w ≡ a * w + (b - a) * w = grind arith in omega (arith, f, g)

-- Two writes in a row.
IsStored-append :
    (n m at : ℕ) (bytes rest ram mid after : List ℕ)
    → length bytes ≡ n
    → IsStored n 0 at bytes ram mid
    → IsStored m 0 (at + n) rest mid after
    → IsStored (n + m) 0 at (bytes ++ rest) ram after
IsStored-append n m at bytes rest ram mid after size p q = record {
  size = q.size ∙ p.size;
  inside = λ k lt. elim (dec_lt k n) [
    | yes lo ↦
        q.outside (at + k) (inl (omega arith))
        ∙ p.inside k lo
        ∙ sym (get_or-append_left bytes rest (0 + k) (omega (arith, size)))
    | no hi ↦
        let e : (at + n) + (k - n) ≡ at + k = omega arith in
        let f : length bytes + (0 + (k - n)) ≡ 0 + k = omega (arith, size) in
        ap (λ j. get_or after j 0) (sym e)
        ∙ q.inside (k - n) (omega arith)
        ∙ sym (get_or-append_right bytes rest (0 + (k - n)))
        ∙ ap (λ j. get_or (bytes ++ rest) j 0) f
  ];
  outside = λ j h. elim h [
    | inl lo ↦ q.outside j (inl (omega arith)) ∙ p.outside j (inl lo)
    | inr hi ↦ q.outside j (inr (omega arith)) ∙ p.outside j (inr (omega arith))
  ];
}

module _ (width : ℕ) (encode : ℕ → List ℕ) (sized : (x : ℕ) → length (encode x) ≡ width) where
  abbrev all_bytes : List ℕ → List ℕ
  all_bytes = encode_all encode

  length-all_bytes : (xs : List ℕ) → length (all_bytes xs) ≡ length xs * width
  unfolding encode_all
  length-all_bytes [] = grind arith
  length-all_bytes (x ∷ xs) =
      let e = length-append (encode x) (all_bytes xs) in
      let f = length-all_bytes xs in
      let g = sized x in
      let h : width + length xs * width ≡ suc (length xs) * width = grind arith in
      omega (arith, e, f, g, h)

  pub fill_mem-IsStored :
      (xs : List ℕ) (at : ℕ) (ram : List ℕ)
      → at + length xs * width ≤ length ram
      → (after : List ℕ) × (fill_mem width encode xs at ram ≡ some after)
        × IsStored (length xs * width) 0 at (all_bytes xs) ram after
  unfolding fill_mem update_single encode_all
  fill_mem-IsStored [] at ram room = (
    ram,
    refl,
    record { size = refl; inside = λ k lt. absurd (grind arith); outside = λ j h. refl },
  )
  fill_mem-IsStored (x ∷ xs) at ram room =
      let h : width + length xs * width ≡ suc (length xs) * width = grind arith in
      let size = sized x in
      let (mid, e, p) =
        store_bytes-IsStored width 0 at (encode x) ram (omega (arith, size))
          (omega (arith, h, room)) in
      let same = p.size in
      let (after, f, q) = fill_mem-IsStored xs (at + width) mid (omega (arith, h, room, same)) in
      (
        after,
        rw (e, fill_mem) f,
        subst (λ n. IsStored n 0 at (encode x ++ all_bytes xs) ram after) h
            (IsStored-append width (length xs * width) at (encode x) (all_bytes xs) ram mid after
              size p q),
      )

  all_bytes-append : (xs ys : List ℕ) → all_bytes (xs ++ ys) ≡ all_bytes xs ++ all_bytes ys
  unfolding encode_all
  all_bytes-append [] ys = refl
  all_bytes-append (x ∷ xs) ys =
      ap (λ r. encode x ++ r) (all_bytes-append xs ys)
      ∙ sym (append_assoc (encode x) (all_bytes xs) (all_bytes ys))

  -- A byte of some words in the middle.
  get_or-middle :
      (xs : List ℕ) (i n k : ℕ)
      → i + n ≤ length xs
      → k < n * width
      → get_or (all_bytes xs) (i * width + k) 0 ≡ get_or (all_bytes (slice xs i n)) k 0
  get_or-middle xs i n k room lt =
      let rest = length xs - (i + n) in
      let front = slice xs 0 i in
      let back = slice xs (i + n) rest in
      let ys = slice xs i n in
      let z : 0 + i ≡ i = omega arith in
      let whole : xs ≡ front ++ (ys ++ back) = slice-parts xs i n room in
      let e =
        ap all_bytes whole
        ∙ all_bytes-append front (ys ++ back)
        ∙ ap (λ r. all_bytes front ++ r) (all_bytes-append ys back) in
      let size : length (all_bytes front) ≡ i * width =
        length-all_bytes front ∙ ap (λ j. j * width) (length-slice xs 0 i) in
      let inner : length (all_bytes ys) ≡ n * width =
        length-all_bytes ys ∙ ap (λ j. j * width) (length-slice xs i n) in
      ap (λ b. get_or b (i * width + k) 0) e
      ∙ ap (λ j. get_or (all_bytes front ++ (all_bytes ys ++ all_bytes back)) (j + k) 0) (sym size)
      ∙ get_or-append_right (all_bytes front) (all_bytes ys ++ all_bytes back) k
      ∙ get_or-append_left (all_bytes ys) (all_bytes back) k (omega (arith, inner, lt))

  -- A burst of whole words in an array that the memory holds.
  pub burst_req_to_buffer-words :
      (decode : List ℕ → ℕ) (xs : List ℕ) (at : ℕ) (ram : List ℕ) (op : BurstOp) (i n : ℕ)
      (buffer : List ℕ)
      → AreExact encode decode (slice xs i n)
      → 0 < width
      → at + length xs * width ≤ length ram
      → ((k : ℕ) → k < length xs * width → get_or ram (at + k) 0 ≡ get_or (all_bytes xs) k 0)
      → i + n ≤ length xs
      → op.addr ≡ at + i * width
      → op.len ≡ n * width
      → op.bytes ≡ []
      → (op' : BurstOp) × (ram_to_req op ram ≡ some op')
        × (burst_req_to_buffer width decode op' buffer ≡ some (buffer ++ slice xs i n))
  unfolding ram_to_req burst_req_to_buffer
  burst_req_to_buffer-words decode xs at ram op i n buffer exact positive room holds inside addr len
        fresh =
      let parts : (i + n) * width ≡ i * width + n * width = grind arith in
      let low = times_le (i + n) (length xs) width inside in
      let read =
        load_bytes-slice (n * width) (at + i * width) ram [] (omega (arith, room, parts, low)) in
      let ys = slice xs i n in
      let size : length (all_bytes ys) ≡ n * width =
        length-all_bytes ys ∙ ap (λ j. j * width) (length-slice xs i n) in
      let bytes : slice ram (at + i * width) (n * width) ≡ all_bytes ys =
        List-ext 0 (slice ram (at + i * width) (n * width)) (all_bytes ys)
          (length-slice ram (at + i * width) (n * width) ∙ sym size)
          (λ k lt.
            let lt' : k < n * width =
              omega (arith, lt, length-slice ram (at + i * width) (n * width)) in
            let e : at + i * width + k ≡ at + (i * width + k) = omega arith in
            get_or-slice ram (at + i * width) (n * width) k lt'
            ∙ ap (λ j. get_or ram j 0) e
            ∙ holds (i * width + k) (omega (arith, lt', parts, low))
            ∙ get_or-middle xs i n k inside lt') in
      let op' : BurstOp = record op { bytes = all_bytes ys } in
      let whole : n * width % width == 0 ≡ true = remainder n width positive in
      let count : n * width / width ≡ length ys =
        quotient n width positive ∙ sym (length-slice xs i n) in
      (
        op',
        simp (len, addr, fresh, read, bytes, ram_to_req),
        simp (len, whole, count, burst_req_to_buffer)
            (take_values-all width encode decode sized ys buffer [] exact),
      )
