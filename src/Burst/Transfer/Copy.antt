-- ===== src/Burst/Transfer/Copy.antt =====
-- What is written to the memory is read back, and nothing else is written.
use graph_accelerator.Common.{
  ℕ, zero, suc, ◌+◌, ◌≤◌, ◌<◌, ◌≡◌, refl, sym, ap, ◌∙◌, true, List, [], ◌∷◌, ◌++◌, some, get_elem?,
  get_or, set, length, slice, ltb, length-set, get_or-set_self, get_or-set_ne, arith, ◌⊎◌, inl, inr,
}
use mathlib.Core.List.{append_assoc, append-nil}
use graph_accelerator.Burst.{BurstOp}
use graph_accelerator.Burst.Transfer.{load_bytes, store_bytes, ram_to_req, req_to_ram}

get_elem?-in : (xs : List ℕ) (i : ℕ) → i < length xs → get_elem? xs i ≡ some (get_or xs i 0)
get_elem?-in [] i h = absurd (omega arith)
get_elem?-in (x ∷ xs) zero h = refl
get_elem?-in (x ∷ xs) (suc i) h = get_elem?-in xs i (omega arith)

pub load_bytes-slice :
    (n at : ℕ) (ram bytes : List ℕ)
    → at + n ≤ length ram
    → load_bytes n at ram bytes ≡ some (bytes ++ slice ram at n)
unfolding load_bytes slice
load_bytes-slice zero at ram bytes h = ap some (sym (append-nil bytes))
load_bytes-slice (suc n) at ram bytes h =
    rw (get_elem?-in ram at (omega arith), load_bytes)
      (load_bytes-slice n (suc at) ram (bytes ++ get_or ram at 0 ∷ []) (omega arith)
        ∙ ap some (append_assoc bytes (get_or ram at 0 ∷ []) (slice ram (suc at) n)))

-- The cells of `[at, at + n)` of `after` hold the bytes from `i` on, and the others are as in `ram`.
pub record IsStored (n i at : ℕ) (bytes ram after : List ℕ) : Type 0 where
  pub size : length after ≡ length ram
  pub inside : (k : ℕ) → k < n → get_or after (at + k) 0 ≡ get_or bytes (i + k) 0
  pub outside : (j : ℕ) → (j < at) ⊎ (at + n ≤ j) → get_or after j 0 ≡ get_or ram j 0

module _ (n i at : ℕ) (bytes ram after : List ℕ) (room : at + suc n ≤ length ram)
    (ok : IsStored n (suc i) (suc at) bytes (set ram at (get_or bytes i 0)) after) where
  at_first : get_or after at 0 ≡ get_or bytes i 0
  at_first =
      ok.outside at (inl (omega arith)) ∙ get_or-set_self ram at (get_or bytes i 0) 0 (omega arith)

  IsStored-inside : (k : ℕ) → k < suc n → get_or after (at + k) 0 ≡ get_or bytes (i + k) 0
  IsStored-inside zero h =
      let p : at + 0 ≡ at = omega arith in let q : i + 0 ≡ i = omega arith in rw (p, q) at_first
  IsStored-inside (suc k) h =
      let p : at + suc k ≡ suc at + k = omega arith in
      let q : i + suc k ≡ suc i + k = omega arith in rw (p, q) (ok.inside k (omega arith))

  IsStored-outside : (j : ℕ) → (j < at) ⊎ (at + suc n ≤ j) → get_or after j 0 ≡ get_or ram j 0
  IsStored-outside j h =
      ok.outside j (elim h [ inl l ↦ inl (omega arith) | inr r ↦ inr (omega arith) ])
      ∙ get_or-set_ne ram at j (get_or bytes i 0) 0
          (λ e. elim h [ inl l ↦ omega arith | inr r ↦ omega arith ])

  IsStored-suc : IsStored (suc n) i at bytes ram after
  IsStored-suc = record {
    size = ok.size ∙ length-set ram at (get_or bytes i 0);
    inside = IsStored-inside;
    outside = IsStored-outside;
  }

pub store_bytes-IsStored :
    (n i at : ℕ) (bytes ram : List ℕ)
    → i + n ≤ length bytes
    → at + n ≤ length ram
    → (after : List ℕ) × (store_bytes n i at bytes ram ≡ some after)
      × IsStored n i at bytes ram after
unfolding store_bytes
store_bytes-IsStored zero i at bytes ram hb hr =
    (ram, refl, record { size = refl; inside = λ k h. absurd (omega arith); outside = λ j h. refl })
store_bytes-IsStored (suc n) i at bytes ram hb hr =
    let size = length-set ram at (get_or bytes i 0) in
    let (after, e, ok) =
      store_bytes-IsStored n (suc i) (suc at) bytes (set ram at (get_or bytes i 0)) (omega arith)
        (omega (arith, size)) in
    let room : ltb at (length ram) ≡ true = ground arith in
    (
      after,
      rw (get_elem?-in bytes i (omega arith), room, store_bytes) e,
      IsStored-suc n i at bytes ram after hr ok,
    )

slice-same :
    (n i at : ℕ) (xs ys : List ℕ)
    → ((k : ℕ) → k < n → get_or xs (at + k) 0 ≡ get_or ys (i + k) 0)
    → slice xs at n ≡ slice ys i n
unfolding slice
slice-same zero i at xs ys h = refl
slice-same (suc n) i at xs ys h =
    let p : at + 0 ≡ at = omega arith in
    let q : i + 0 ≡ i = omega arith in
    let first = rw (p, q) at (h 0 (omega arith)) in
    let rest = slice-same n (suc i) (suc at) xs ys (λ k lt.
      let p' : suc at + k ≡ at + suc k = omega arith in
      let q' : suc i + k ≡ i + suc k = omega arith in rw (p', q') (h (suc k) (omega arith))) in
    cc (first, rest)

-- When the burst holds its bytes and its addresses are inside the memory, `reqToRam` ends, with a
-- memory of the same size whose cells outside the burst's addresses are unchanged, and from which
-- `ramToReq` on the burst without bytes reads the burst's first `length` bytes.
pub ram_to_req-req_to_ram :
    (op : BurstOp) (ram : List ℕ)
    → op.len ≤ length op.bytes
    → op.addr + op.len ≤ length ram
    → (after : List ℕ) × (req_to_ram op ram ≡ some after)
      × (length after ≡ length ram)
      × ((j : ℕ) → (j < op.addr) ⊎ (op.addr + op.len ≤ j) → get_or after j 0 ≡ get_or ram j 0)
      × (ram_to_req (record op { bytes = [] }) after
          ≡ some (record op { bytes = slice op.bytes 0 op.len }))
unfolding req_to_ram ram_to_req
ram_to_req-req_to_ram op ram hb hr =
    let (after, e, ok) = store_bytes-IsStored op.len 0 op.addr op.bytes ram (omega arith) hr in
    let size = ok.size in
    let read = load_bytes-slice op.len op.addr after [] (omega (arith, size, hr)) in
    (
      after,
      e,
      ok.size,
      ok.outside,
      rw (read, slice-same op.len 0 op.addr after op.bytes ok.inside, ram_to_req) refl,
    )
