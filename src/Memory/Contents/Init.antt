-- ===== src/Memory/Contents/Init.antt =====
-- The memory after `ramInit`, and the bursts of the element that reads it.
use graph_accelerator.Common.{
  ℕ, ◌+◌, ◌-◌, ◌*◌, ◌/◌, ◌≤◌, ◌<◌, ◌≡◌, ap, ◌∙◌, List, [], ◌++◌, some, inl, length, get_or, arith,
  ◌^◌, slice, zero, suc,
}
use graph_accelerator.Bfs.Csr.{Csr}
use graph_accelerator.Burst.{BurstOp}
use graph_accelerator.Burst.Transfer.{ram_to_req, burst_req_to_buffer}
use graph_accelerator.Burst.Transfer.Copy.{IsStored}
use graph_accelerator.Burst.Transfer.Chunks.{encode_all, AreExact}
use graph_accelerator.Memory.Layout.{Layout, IsLayout}
use graph_accelerator.Memory.Reset.{fill-IsFilled}
use graph_accelerator.Memory.Contents.{init_ram}
use graph_accelerator.Memory.Contents.Words.{fill_mem-IsStored, burst_req_to_buffer-words}
use graph_accelerator.Pe.Expand.Run.{load_words}

-- The arrays have the sizes that the layout makes room for.
pub record HasSizes (c : Csr) (edge_num : ℕ) : Type 0 where
  pub rpao_size : length c.rpao ≡ c.v_num + 1
  pub rpai_size : length c.rpai ≡ c.v_num + 1
  pub ciao_size : length c.ciao ≤ edge_num
  pub ciai_size : length c.ciai ≤ edge_num

module _ (encode : ℕ → List ℕ) (decode : List ℕ → ℕ) (sized : (x : ℕ) → length (encode x) ≡ 4)
    (exact : (x : ℕ) → x < 2 ^ 31 → decode (encode x) ≡ x) (c : Csr) (l : Layout) (edge_num : ℕ)
    (ram : List ℕ) (rpao_words : (k : ℕ) → get_or c.rpao k 0 < 2 ^ 31)
    (ciao_words : (k : ℕ) → get_or c.ciao k 0 < 2 ^ 31) (ok : IsLayout c.v_num edge_num l)
    (sizes : HasSizes c edge_num) (room : l.frontier + 4 * c.v_num ≤ length ram) where
  AreExact-slice :
      (xs : List ℕ) (i n : ℕ)
      → ((k : ℕ) → get_or xs k 0 < 2 ^ 31)
      → AreExact encode decode (slice xs i n)
  unfolding slice
  AreExact-slice xs i zero words = tt
  AreExact-slice xs i (suc n) words =
      (exact (get_or xs i 0) (words i), AreExact-slice xs (suc i) n words)

  abbrev Held : List ℕ → ℕ → List ℕ → Type 0
  Held xs at after =
      (k : ℕ) → k < length xs * 4 → get_or after (at + k) 0 ≡ get_or (encode_all encode xs) k 0

  Held-IsStored :
      (xs : List ℕ) (at : ℕ) (before after : List ℕ)
      → IsStored (length xs * 4) 0 at (encode_all encode xs) before after
      → Held xs at after
  Held-IsStored xs at before after stored k lt =
      let z : 0 + k ≡ k = omega arith in
      stored.inside k lt ∙ ap (λ j. get_or (encode_all encode xs) j 0) z

  init_ram-Held :
      (after : List ℕ) × (init_ram encode c l ram ≡ some after)
      × (length after ≡ length ram)
      × Held c.rpao l.rpao after
      × Held c.ciao l.ciao after
  unfolding init_ram
  init_ram-Held =
      let s1 = ok.depth_rpao in
      let s2 = ok.rpao_ciao in
      let s3 = ok.ciao_rpai in
      let s4 = ok.rpai_ciai in
      let s5 = ok.ciai_frontier in
      let z1 = sizes.rpao_size in
      let z2 = sizes.ciao_size in
      let z3 = sizes.rpai_size in
      let z4 = sizes.ciai_size in
      let (m1, e1, f1) = fill-IsFilled c.v_num 1 l.depth ram (omega arith) in
      let t1 = f1.size in
      let (m2, e2, f2) = fill_mem-IsStored 4 encode sized c.rpao l.rpao m1 (omega arith) in
      let t2 = f2.size in
      let (m3, e3, f3) = fill_mem-IsStored 4 encode sized c.ciao l.ciao m2 (omega arith) in
      let t3 = f3.size in
      let (m4, e4, f4) = fill_mem-IsStored 4 encode sized c.rpai l.rpai m3 (omega arith) in
      let t4 = f4.size in
      let (m5, e5, f5) = fill_mem-IsStored 4 encode sized c.ciai l.ciai m4 (omega arith) in
      let t5 = f5.size in
      let (m6, e6, f6) = fill-IsFilled c.v_num 4 l.frontier m5 (omega arith) in
      let t6 = f6.size in
      (
        m6,
        simp (e1, e2, e3, e4, e5, init_ram) e6,
        omega arith,
        λ k lt.
            f6.outside (l.rpao + k) (inl (omega arith))
            ∙ f5.outside (l.rpao + k) (inl (omega arith))
            ∙ f4.outside (l.rpao + k) (inl (omega arith))
            ∙ f3.outside (l.rpao + k) (inl (omega arith))
            ∙ Held-IsStored c.rpao l.rpao m1 m2 f2 k lt,
        λ k lt.
            f6.outside (l.ciao + k) (inl (omega arith))
            ∙ f5.outside (l.ciao + k) (inl (omega arith))
            ∙ f4.outside (l.ciao + k) (inl (omega arith))
            ∙ Held-IsStored c.ciao l.ciao m2 m3 f3 k lt,
      )

  -- With a layout and arrays that fit it and hold values of an `int`, a memory of enough room, and an encoding in
  -- four bytes that can be decoded for those values, `ramInit` fills the memory, and a burst of whole words inside the row offsets, as well as one
  -- inside the targets, then brings exactly the words of the array that the element's threads take it to bring.
  pub init_ram-load_words :
      (op op' : BurstOp) (i n i' n' : ℕ) (buffer : List ℕ)
      → i + n ≤ length c.rpao
      → op.addr ≡ l.rpao + i * 4
      → op.len ≡ n * 4
      → op.bytes ≡ []
      → i' + n' ≤ length c.ciao
      → op'.addr ≡ l.ciao + i' * 4
      → op'.len ≡ n' * 4
      → op'.bytes ≡ []
      → (after : List ℕ) × (u u' : BurstOp) × (init_ram encode c l ram ≡ some after)
        × (ram_to_req op after ≡ some u)
        × (burst_req_to_buffer 4 decode u buffer
            ≡ some (
                buffer
                ++ load_words c.rpao l.rpao
                    (record { burst_idx = op.burst_idx; addr = op.addr; len = op.len })))
        × (ram_to_req op' after ≡ some u')
        × (burst_req_to_buffer 4 decode u' buffer
            ≡ some (
                buffer
                ++ load_words c.ciao l.ciao
                    (record { burst_idx = op'.burst_idx; addr = op'.addr; len = op'.len })))
  init_ram-load_words op op' i n i' n' buffer in1 a1 b1 c1 in2 a2 b2 c2 =
      let (after, e, size, h1, h2) = init_ram-Held in
      let s2 = ok.rpao_ciao in
      let s3 = ok.ciao_rpai in
      let s4 = ok.rpai_ciai in
      let s5 = ok.ciai_frontier in
      let z1 = sizes.rpao_size in
      let z2 = sizes.ciao_size in
      let (u, f, g) =
        burst_req_to_buffer-words 4 encode sized decode c.rpao l.rpao after op i n buffer
          (AreExact-slice c.rpao i n rpao_words) (omega arith) (omega arith) h1 in1 a1 b1 c1 in
      let (u', f', g') =
        burst_req_to_buffer-words 4 encode sized decode c.ciao l.ciao after op' i' n' buffer
          (AreExact-slice c.ciao i' n' ciao_words) (omega arith) (omega arith) h2 in2 a2 b2 c2 in
      let p1 : (op.addr - l.rpao) / 4 ≡ i = omega (arith, a1) in
      let p2 : op.len / 4 ≡ n = omega (arith, b1) in
      let p3 : (op'.addr - l.ciao) / 4 ≡ i' = omega (arith, a2) in
      let p4 : op'.len / 4 ≡ n' = omega (arith, b2) in
      (after, u, u', e, f, simp (p1, p2) g, f', simp (p3, p4) g')
