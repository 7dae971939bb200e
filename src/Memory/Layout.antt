-- ===== src/Memory/Layout.antt =====
-- The addresses that `MemWrapper::ramInit` gives the arrays, in bytes.
use graph_accelerator.Common.{ℕ, ◌+◌, ◌*◌, ◌/◌, ◌%◌, ◌≤◌, ◌<◌, ◌≡◌, ◌==◌, if◌then◌else◌, arith}

-- `alignMyself`
pub align_myself : ℕ → ℕ
align_myself addr = if addr % 256 == 0 then addr else (addr / 256 + 1) * 256

-- `GL::depthMemAddr` and the other addresses.
pub record Layout : Type 0 where
  pub depth : ℕ
  pub rpao : ℕ
  pub ciao : ℕ
  pub rpai : ℕ
  pub ciai : ℕ
  pub frontier : ℕ

-- For `GL::vertexNum` and `GL::edgeNum`.
pub new_layout : ℕ → ℕ → Layout
new_layout vertex_num edge_num =
    let rpao = align_myself (0 + 1 * vertex_num) in
    let ciao = align_myself (rpao + 4 * (vertex_num + 1)) in
    let rpai = align_myself (ciao + 4 * edge_num) in
    let ciai = align_myself (rpai + 4 * (vertex_num + 1)) in
    let frontier = align_myself (ciai + 4 * edge_num) in
    record { depth = 0; rpao = rpao; ciao = ciao; rpai = rpai; ciai = ciai; frontier = frontier }

-- `ramData.resize(GL::edgeNum * 4 * 4)`
abbrev pub ram_size : ℕ → ℕ
ram_size edge_num = edge_num * 4 * 4

align_myself-le : (a : ℕ) → a ≤ align_myself a
unfolding align_myself
align_myself-le a = grind arith

align_myself-lt : (a : ℕ) → align_myself a < a + 256
unfolding align_myself
align_myself-lt a = grind arith

align_myself_multiple : (a : ℕ) → align_myself a % 256 ≡ 0
unfolding align_myself
align_myself_multiple a = grind arith

-- Each array ends before the next begins, and each begins at a multiple of 256.
pub record IsLayout (vertex_num edge_num : ℕ) (l : Layout) : Type 0 where
  pub depth_rpao : l.depth + vertex_num ≤ l.rpao
  pub rpao_ciao : l.rpao + 4 * (vertex_num + 1) ≤ l.ciao
  pub ciao_rpai : l.ciao + 4 * edge_num ≤ l.rpai
  pub rpai_ciai : l.rpai + 4 * (vertex_num + 1) ≤ l.ciai
  pub ciai_frontier : l.ciai + 4 * edge_num ≤ l.frontier
  pub aligned :
      (l.depth % 256 ≡ 0)
      × (l.rpao % 256 ≡ 0)
      × (l.ciao % 256 ≡ 0)
      × (l.rpai % 256 ≡ 0)
      × (l.ciai % 256 ≡ 0)
      × (l.frontier % 256 ≡ 0)

-- `ramInit` gives the six arrays disjoint ranges in a fixed order, each from a multiple of 256 on, and
-- the last ends less than 1280 bytes after the sum of their sizes.
pub new_layout-IsLayout :
    (vertex_num edge_num : ℕ)
    → IsLayout vertex_num edge_num (new_layout vertex_num edge_num)
      × ((new_layout vertex_num edge_num).frontier + 4 * vertex_num
          < 13 * vertex_num + 8 * edge_num + 8 + 1280)
unfolding new_layout
new_layout-IsLayout v e =
    let a1 = 0 + 1 * v in
    let rpao = align_myself a1 in
    let a2 = rpao + 4 * (v + 1) in
    let ciao = align_myself a2 in
    let a3 = ciao + 4 * e in
    let rpai = align_myself a3 in
    let a4 = rpai + 4 * (v + 1) in
    let ciai = align_myself a4 in
    let a5 = ciai + 4 * e in
    (
      record {
        depth_rpao = omega (arith, align_myself-le a1);
        rpao_ciao = align_myself-le a2;
        ciao_rpai = align_myself-le a3;
        rpai_ciai = align_myself-le a4;
        ciai_frontier = align_myself-le a5;
        aligned = (
          omega arith,
          align_myself_multiple a1,
          align_myself_multiple a2,
          align_myself_multiple a3,
          align_myself_multiple a4,
          align_myself_multiple a5,
        );
      },
      omega (
        arith,
        align_myself-lt a1,
        align_myself-lt a2,
        align_myself-lt a3,
        align_myself-lt a4,
        align_myself-lt a5,
      ),
    )

-- The memory has room for the arrays when eight times the edges are at least 1288 more than thirteen
-- times the vertices.
pub ram_size-fits :
    (vertex_num edge_num : ℕ)
    → 13 * vertex_num + 1288 ≤ 8 * edge_num
    → (new_layout vertex_num edge_num).frontier + 4 * vertex_num ≤ ram_size edge_num
ram_size-fits v e h = let (_, top) = new_layout-IsLayout v e in omega (arith, top, h)

-- When eight times the edges are less than eight more than thirteen times the vertices, the frontier
-- array ends beyond the memory.
pub ram_size_overflow :
    (vertex_num edge_num : ℕ)
    → 8 * edge_num < 13 * vertex_num + 8
    → ram_size edge_num < (new_layout vertex_num edge_num).frontier + 4 * vertex_num
ram_size_overflow v e h =
    let (ok, _) = new_layout-IsLayout v e in
    let s1 = ok.depth_rpao in
    let s2 = ok.rpao_ciao in
    let s3 = ok.ciao_rpai in
    let s4 = ok.rpai_ciai in let s5 = ok.ciai_frontier in omega (arith, h, s1, s2, s3, s4, s5)
