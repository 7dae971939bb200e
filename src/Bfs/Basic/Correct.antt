-- ===== src/Bfs/Basic/Correct.antt =====
-- `basicBfs` computes the lengths of the shortest walks.
use graph_accelerator.Common.{
  ℕ, zero, suc, ◌<◌, ◌≡◌, ◌∙◌, sym, ap, refl, true, false, ◌&&◌, ◌||◌, ◌==◌, List, [], ◌∷◌, some,
  contains, pos, minus_one, length-replicate, get_or-replicate, replicate, inl, inr, Bool-cases,
  arith,
}
use graph_accelerator.Bfs.Advance.{advance, depth_at-set}
use graph_accelerator.Bfs.Basic.{Basic, basic_round, basic_loop, basic_bfs, start_basic}
use graph_accelerator.Bfs.Basic.Round.{
  IsFrontier, contains-pushed, contains-pushed_target, targets, basic_round-advance,
  basic_round-frontier,
}
use graph_accelerator.Bfs.Csr.{Csr, IsCsr}
use graph_accelerator.Bfs.Depth.{at_level, unvisited, is_empty, start_depth, enough_rounds}
use graph_accelerator.Bfs.Levels.{NoneAt, NoneAt-IsQuiet}
use graph_accelerator.Bfs.Loop.{HasFuel, HasFuel-advance, enough-HasFuel}
use graph_accelerator.Bfs.Shortest.{
  IsShortest, IsSettled, IsSettled-start, IsSettled-advance, IsShortest-quiet, at_level-advance_lem,
}
use graph_accelerator.Bfs.TopDown.Round.{all_out, all_out-elim, all_out-has_parent}

module _ (c : Csr) (ok : IsCsr c) (src : ℕ) where
  basic_round-level : (s : Basic) → (basic_round c s).level ≡ suc s.level
  unfolding basic_round
  basic_round-level s = refl

  IsFrontier-start : src < c.v_num → IsFrontier c (start_basic c src)
  unfolding start_basic contains
  IsFrontier-start h = record { at = λ v lt. at_start v lt; inside = λ v m. ground arith }
    where
      at_start : (v : ℕ) → v < c.v_num → (v == src || false) ≡ at_level 0 (start_depth c src) v
      at_start v lt =
          let size = length-replicate c.v_num minus_one in
          ground (
            arith,
            depth_at-set (replicate c.v_num minus_one) src v (pos 0),
            get_or-replicate c.v_num v minus_one,
          )

  IsFrontier-round :
      (s : Basic)
      → IsSettled c src s.level s.depth
      → IsFrontier c s
      → IsFrontier c (basic_round c s)
  IsFrontier-round s settled f = record {
    at = λ v h.
        let n = settled.size in
        rw (basic_round-frontier c ok s n f, basic_round-level s, basic_round-advance c ok s n f)
          (contains-pushed s.level s.depth (all_out c s.frontier) v (omega arith)
            ∙ ap (λ t. unvisited s.depth v && t)
                (targets c ok s n f v h ∙ all_out-has_parent c s.level s.depth v ok h)
            ∙ sym (at_level-advance_lem c ok src s.level s.depth settled v h));
    inside = λ v m.
        let m' = rw (basic_round-frontier c ok s settled.size f) at m in
        let (u, mu, e) =
          all_out-elim c s.frontier v
            (contains-pushed_target s.level s.depth (all_out c s.frontier) v m') in
        ok.out_lt u v (f.inside u mu) e;
  }

  is_empty-NoneAt :
      (s : Basic) → IsFrontier c s → is_empty s.frontier ≡ true → NoneAt c s.level s.depth
  is_empty-NoneAt s f e v h = sym (f.at v h) ∙ go s.frontier e
    where
      go : (l : List ℕ) → is_empty l ≡ true → contains v l ≡ false
      go [] e' = unfold contains in refl
      go (x ∷ l) e' = cc

  NoneAt-is_empty :
      (s : Basic) → IsFrontier c s → NoneAt c s.level s.depth → is_empty s.frontier ≡ true
  NoneAt-is_empty s f none = go s.frontier refl
    where
      go : (l : List ℕ) → s.frontier ≡ l → is_empty l ≡ true
      go [] e = refl
      go (v ∷ l) e =
          let m : contains v s.frontier ≡ true = rw e (unfold contains in ground arith) in
          let lt = f.inside v m in cc (f.at v lt, none v lt)

  basic_loop-IsShortest :
      (fuel : ℕ) (s : Basic)
      → src < c.v_num
      → IsSettled c src s.level s.depth
      → IsFrontier c s
      → HasFuel c fuel s.level s.depth
      → (t : Basic) × (basic_loop c fuel s ≡ some t) × IsShortest c src t.depth
  unfolding basic_loop
  basic_loop-IsShortest zero s h settled f (inl room) = absurd (omega arith)
  basic_loop-IsShortest zero s h settled f (inr (none, room)) = absurd (omega arith)
  basic_loop-IsShortest (suc fuel) s h settled f room = elim (Bool-cases (is_empty s.frontier)) [
    | inl e ↦ (
      s,
      rw (e, basic_loop),
      IsShortest-quiet c ok src s.level s.depth settled h
          (NoneAt-IsQuiet c s.level s.depth ok (is_empty-NoneAt s f e)),
    )
    | inr e ↦
        let (t, runs, right) =
          basic_loop-IsShortest fuel (basic_round c s) h
            (rw (basic_round-level s, basic_round-advance c ok s settled.size f)
              (IsSettled-advance c ok src s.level s.depth settled))
            (IsFrontier-round s settled f)
            (rw (basic_round-level s, basic_round-advance c ok s settled.size f) (left room e)) in
        (t, rw (e, basic_loop) runs, right)
  ]
    where
      left :
          HasFuel c (suc fuel) s.level s.depth
          → is_empty s.frontier ≡ false
          → HasFuel c fuel (suc s.level) (advance c s.level s.depth)
      left (inl more) e = HasFuel-advance c ok src s.level s.depth settled fuel more
      left (inr (none, more)) e = cc (NoneAt-is_empty s f none)

-- From a vertex of a well-formed graph `basicBfs` ends, and it leaves in `depth` the number of edges
-- of a shortest walk to each vertex, or -1 where there is no walk.
pub basic_bfs-IsShortest :
    (c : Csr) (src : ℕ)
    → IsCsr c
    → src < c.v_num
    → (t : Basic) × (basic_bfs c src ≡ some t) × IsShortest c src t.depth
unfolding basic_bfs start_basic
basic_bfs-IsShortest c src ok h =
    let settled = IsSettled-start c src h in
    basic_loop-IsShortest c ok src (enough_rounds c) (start_basic c src) h settled
      (IsFrontier-start c ok src h) (enough-HasFuel c src h)
