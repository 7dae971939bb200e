-- ===== src/Pe/Expand/Later.antt =====
-- The depths in the memory at any time of a level, beside those with which it began: what the threads that
-- inspect the depths of src/pe.cpp may read meanwhile.
use graph_accelerator.Common.{ℕ, ◌%◌, ◌≡◌, sym, true, List, ℤ, some, arith}
use graph_accelerator.Memory.Layout.{Layout}
use graph_accelerator.Bfs.Csr.{Csr}
use graph_accelerator.Pe.Depths.{may_become, later_depths, later_depths-intro}
use graph_accelerator.Pe.Expand.{Sizes, Expand}
use graph_accelerator.Pe.Expand.Run.{System, Action, run, is_idle}
use graph_accelerator.Pe.Expand.Writing.{is_cell}
use graph_accelerator.Pe.Expand.Level.{IsLevel}
use graph_accelerator.Pe.Expand.Correct.{begin_level, run-IsLevel}

-- From an idle element, with chunks of whole words, after any run of a level: every depth in the memory is
-- the one with which the level began or, where that was -1, maybe the next, as the `char` that the
-- threads write.
pub run-later_depths :
    (c : Csr) (z : Sizes) (l : Layout) (level : ℕ) (s : Expand) (d : List ℤ) (actions : List Action)
    (t : System)
    → z.base_len % 4 ≡ 0
    → is_idle s ≡ true
    → run c z l level actions (begin_level s d) ≡ some t
    → later_depths level d t.depth ≡ true
unfolding is_cell may_become
run-later_depths c z l level s d actions t b idle e =
    let inv : IsLevel c l level d t = rw e at (run-IsLevel c z l level s d actions b idle) in
    later_depths-intro level d t.depth (sym inv.writing.size)
      λ v. let k = inv.writing.cell v in ground (arith, k)
