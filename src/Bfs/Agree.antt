-- ===== src/Bfs/Agree.antt =====
-- The five searches of bfs/graph.cpp compute the same depths.
use graph_accelerator.Common.{
  ℕ, zero, suc, ◌<◌, ◌≡◌, ◌∙◌, ap, sym, refl, some, List, ℤ, pos, negsuc, List-ext, minus_one,
  arith,
}
use graph_accelerator.Bfs.Csr.{Csr, IsCsr}
use graph_accelerator.Bfs.Depth.{Search, depth_at}
use graph_accelerator.Bfs.Shortest.{IsDistance, IsShortest}
use graph_accelerator.Bfs.TopDown.{td_bfs}
use graph_accelerator.Bfs.TopDown.Correct.{td_bfs-IsShortest}
use graph_accelerator.Bfs.BottomUp.{bu_bfs}
use graph_accelerator.Bfs.BottomUp.Correct.{bu_bfs-IsShortest}
use graph_accelerator.Bfs.Params.{Params}
use graph_accelerator.Bfs.Hybrid.{Hybrid, hybrid_bfs}
use graph_accelerator.Bfs.Hybrid.Correct.{hybrid_bfs-IsShortest}
use graph_accelerator.Bfs.Basic.{Basic, basic_bfs}
use graph_accelerator.Bfs.Basic.Correct.{basic_bfs-IsShortest}
use graph_accelerator.Bfs.Cache.{Cached, cache_hybrid_bfs}
use graph_accelerator.Bfs.Cache.Correct.{cache_hybrid_bfs-IsShortest}

-- A vertex has one distance.
IsDistance-unique :
    (c : Csr) (src v : ℕ) (x y : ℤ) → IsDistance c src v x → IsDistance c src v y → x ≡ y
IsDistance-unique c src v (pos m) (pos n) p q =
    let le = p.1 n q.0 in let ge = q.1 m p.0 in ap pos (omega arith)
IsDistance-unique c src v (pos m) (negsuc zero) p q = absurd (q m p.0)
IsDistance-unique c src v (pos m) (negsuc (suc k)) p q = absurd q
IsDistance-unique c src v (negsuc zero) (pos n) p q = absurd (p n q.0)
IsDistance-unique c src v (negsuc zero) (negsuc zero) p q = refl
IsDistance-unique c src v (negsuc zero) (negsuc (suc k)) p q = absurd q
IsDistance-unique c src v (negsuc (suc k)) y p q = absurd p

IsShortest-unique :
    (c : Csr) (src : ℕ) (d e : List ℤ) → IsShortest c src d → IsShortest c src e → d ≡ e
IsShortest-unique c src d e p q = List-ext minus_one d e (p.size ∙ sym q.size) λ v h.
    let n = p.size in
    IsDistance-unique c src v (depth_at d v) (depth_at e v) (p.each v (omega arith))
      (q.each v (omega arith))

-- From a vertex of a well-formed graph all five searches return, and the depths that they leave are
-- equal, for any thresholds and any outcome of the tests that switch the direction of the hybrid ones.
pub searches_agree :
    (c : Csr) (p : Params) (src : ℕ)
    → IsCsr c
    → src < c.v_num
    → (basic : Basic) × (td : Search) × (bu : Search) × (hybrid : Hybrid) × (cached : Cached)
      × (basic_bfs c src ≡ some basic)
      × (td_bfs c src ≡ some td)
      × (bu_bfs c src ≡ some bu)
      × (hybrid_bfs c p src ≡ some hybrid)
      × (cache_hybrid_bfs c p src ≡ some cached)
      × (td.depth ≡ basic.depth)
      × (bu.depth ≡ basic.depth)
      × (hybrid.depth ≡ basic.depth)
      × (cached.depth ≡ basic.depth)
searches_agree c p src ok h =
    let (basic, e, q) = basic_bfs-IsShortest c src ok h in
    let (td, e1, q1) = td_bfs-IsShortest c src ok h in
    let (bu, e2, q2) = bu_bfs-IsShortest c src ok h in
    let (hybrid, e3, q3) = hybrid_bfs-IsShortest c p src ok h in
    let (cached, e4, q4) = cache_hybrid_bfs-IsShortest c p src ok h in
    (
      basic,
      td,
      bu,
      hybrid,
      cached,
      e,
      e1,
      e2,
      e3,
      e4,
      IsShortest-unique c src td.depth basic.depth q1 q,
      IsShortest-unique c src bu.depth basic.depth q2 q,
      IsShortest-unique c src hybrid.depth basic.depth q3 q,
      IsShortest-unique c src cached.depth basic.depth q4 q,
    )
