-- ===== src/Burst/Transfer/Chunks.antt =====
-- Values that a buffer puts into a burst come out of it again.
use graph_accelerator.Common.{
  ℕ, suc, ◌+◌, ◌*◌, ◌/◌, ◌%◌, ◌==◌, ◌<◌, ◌≡◌, refl, sym, ap, ◌∙◌, true, List, [], ◌∷◌, ◌++◌, some,
  get_elem?, length, arith,
}
use mathlib.Core.List.{append_assoc, append-nil}
use graph_accelerator.Burst.{BurstOp}
use graph_accelerator.Burst.Transfer.{
  take_bytes, take_values, burst_req_to_buffer, put_values, buffer_to_burst_req,
}

get_elem?-append : (xs ys : List ℕ) (x : ℕ) → get_elem? (xs ++ x ∷ ys) (length xs) ≡ some x
get_elem?-append [] ys x = refl
get_elem?-append (z ∷ xs) ys x = get_elem?-append xs ys x

length-concat : (xs : List ℕ) (x : ℕ) → length (xs ++ x ∷ []) ≡ suc (length xs)
length-concat [] x = refl
length-concat (y ∷ xs) x = ap suc (length-concat xs x)

pub length-append : (xs ys : List ℕ) → length (xs ++ ys) ≡ length xs + length ys
length-append [] ys = omega arith
length-append (x ∷ xs) ys = let e = length-append xs ys in omega (arith, e)

pub take_bytes-append :
    (xs bs ys : List ℕ) → take_bytes (length bs) (length xs) (xs ++ (bs ++ ys)) ≡ some bs
unfolding take_bytes
take_bytes-append xs [] ys = refl
take_bytes-append xs (b ∷ bs) ys =
    let shift : (xs ++ b ∷ []) ++ (bs ++ ys) ≡ xs ++ b ∷ (bs ++ ys) =
      append_assoc xs (b ∷ []) (bs ++ ys) in
    let rest : take_bytes (length bs) (suc (length xs)) (xs ++ b ∷ (bs ++ ys)) ≡ some bs =
      rw (length-concat xs b, shift) at (take_bytes-append (xs ++ b ∷ []) bs ys) in
    rw (get_elem?-append xs (bs ++ ys) b, rest, take_bytes) refl

pub quotient : (n width : ℕ) → 0 < width → n * width / width ≡ n
quotient n width pos = grind arith

pub remainder : (n width : ℕ) → 0 < width → (n * width % width == 0) ≡ true
remainder n width pos = grind arith

module _ {ℓ} {T : Type ℓ} (encode : T → List ℕ) where
  unfoldable pub encode_all : List T → List ℕ
  encode_all [] = []
  encode_all (x ∷ xs) = encode x ++ encode_all xs

  -- Decoding recovers these values.
  abbrev pub AreExact : (List ℕ → T) → List T → Type ℓ
  AreExact decode [] = Unit
  AreExact decode (x ∷ xs) = (decode (encode x) ≡ x) × AreExact decode xs

module _ {ℓ} {T : Type ℓ} (width : ℕ) (encode : T → List ℕ) (decode : List ℕ → T)
    (sized : (x : T) → length (encode x) ≡ width) where
  put_values-all :
      (xs rest : List T) (bytes : List ℕ)
      → put_values width encode (length xs) (xs ++ rest) bytes
        ≡ some (rest, bytes ++ encode_all encode xs)
  unfolding put_values encode_all
  put_values-all [] rest bytes = ap (λ b. some (rest, b)) (sym (append-nil bytes))
  put_values-all (x ∷ xs) rest bytes =
      put_values-all xs rest (bytes ++ encode x)
      ∙ ap (λ b. some (rest, b)) (append_assoc bytes (encode x) (encode_all encode xs))

  pub take_values-all :
      (xs buffer : List T) (bytes : List ℕ)
      → AreExact encode decode xs
      → take_values width decode (length xs) (length bytes) (bytes ++ encode_all encode xs) buffer
        ≡ some (buffer ++ xs)
  unfolding take_values encode_all
  take_values-all [] buffer bytes all = ap some (sym (append-nil buffer))
  take_values-all (x ∷ xs) buffer bytes all =
      let first : take_bytes width (length bytes) (bytes ++ (encode x ++ encode_all encode xs))
          ≡ some (encode x) =
        rw (sized x) at (take_bytes-append bytes (encode x) (encode_all encode xs)) in
      let rest = take_values-all xs (buffer ++ x ∷ []) (bytes ++ encode x) all.1 in
      let next : length (bytes ++ encode x) ≡ length bytes + width =
        length-append bytes (encode x) ∙ ap (λ n. length bytes + n) (sized x) in
      let rest' =
        rw
          (
            next,
            append_assoc bytes (encode x) (encode_all encode xs),
            append_assoc buffer (x ∷ []) xs,
          )
          at rest in
      rw (first, all.0, take_values) rest'

module _ {ℓ} {T : Type ℓ} (width : ℕ) (encode : T → List ℕ) (decode : List ℕ → T)
    (sized : (x : T) → length (encode x) ≡ width) (exact : (x : T) → decode (encode x) ≡ x) where
  AreExact-all : (xs : List T) → AreExact encode decode xs
  AreExact-all [] = tt
  AreExact-all (x ∷ xs) = (exact x, AreExact-all xs)

  -- For values of `width` bytes each, which decoding recovers, and a fresh burst whose length is that of
  -- `xs`: `bufferToBurstReq` takes exactly `xs` from the front of a buffer, and `burstReqToBuffer`
  -- then appends `xs` to any buffer.
  pub burst_req_to_buffer-buffer_to_burst_req :
      (op : BurstOp) (xs rest buffer : List T)
      → op.bytes ≡ []
      → 0 < width
      → op.len ≡ length xs * width
      → (t : BurstOp) × (buffer_to_burst_req width encode (xs ++ rest) op ≡ some (rest, t))
        × (burst_req_to_buffer width decode t buffer ≡ some (buffer ++ xs))
  unfolding buffer_to_burst_req burst_req_to_buffer
  burst_req_to_buffer-buffer_to_burst_req op xs rest buffer fresh pos len =
      let size : op.len / width ≡ length xs = rw len (quotient (length xs) width pos) in
      let whole : op.len % width == 0 ≡ true = rw len (remainder (length xs) width pos) in
      (
        record op { bytes = encode_all encode xs },
        rw (size, fresh, put_values-all width encode decode sized xs rest [], buffer_to_burst_req)
            refl,
        rw (whole, burst_req_to_buffer)
            (rw size (take_values-all width encode decode sized xs buffer [] (AreExact-all xs))),
      )
