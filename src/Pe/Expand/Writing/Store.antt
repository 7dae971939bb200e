-- ===== src/Pe/Expand/Writing/Store.antt =====
-- A write of a depth that reaches the memory.
use graph_accelerator.Common.{
  ℕ, zero, suc, ◌-◌, ◌+◌, ◌≤◌, ◌<◌, ◌≡◌, refl, ap, ◌∙◌, ◌⊎◌, true, false, ◌&&◌, ◌||◌, not, ◌==◌,
  List, [], ◌∷◌, ◌++◌, ℤ, inl, inr, arith, length, contains, set, length-set, eq_ℤ_iff, to_char,
}
use graph_accelerator.Bfs.Depth.{depth_at, unvisited}
use graph_accelerator.Bfs.Advance.{depth_at-set}
use graph_accelerator.Memory.Layout.{Layout}
use graph_accelerator.Pe.Expand.{Write}
use graph_accelerator.Pe.Expand.Reading.{Down}
use graph_accelerator.Pe.Expand.Writing.{
  entries, is_cell, is_next, all_next, writing, writes_left, staged, IsWriting, is_open,
  is_open-written,
}
use graph_accelerator.Pe.Expand.Writing.Fits.{fits-later}

depth_at-set_cases :
    (d : List ℤ) (k : ℕ) (x : ℤ) (v : ℕ)
    → (depth_at (set d k x) v ≡ depth_at d v) ⊎ ((v ≡ k) × (depth_at (set d k x) v ≡ x))
depth_at-set_cases [] k x v = inl refl
depth_at-set_cases (y ∷ d) zero x zero = inr (refl, refl)
depth_at-set_cases (y ∷ d) zero x (suc v) = inl refl
depth_at-set_cases (y ∷ d) (suc k) x zero = inl refl
depth_at-set_cases (y ∷ d) (suc k) x (suc v) = elim (depth_at-set_cases d k x v) [
  | inl e ↦ inl e
  | inr (e, f) ↦ inr (ap suc e, f)
]

module _ (l : Layout) (level : ℕ) (d0 : List ℤ) (seen : List ℕ) (d : List ℤ) (s : Down)
    (w : IsWriting l level d0 seen d s) (x : Write) (rest : List Write)
    (e : s.write_flight ≡ x ∷ rest) where
  abbrev cell_of : ℕ
  cell_of = x.access.addr - l.depth

  abbrev stored : List ℤ
  stored = set d cell_of x.value

  -- The write is one of the next depth.
  front :
      (l.depth ≤ x.access.addr)
      × (contains cell_of seen ≡ true)
      × (unvisited d0 cell_of ≡ true)
      × (x.value ≡ to_char (level + 1))
      × (all_next l level d0 seen (rest ++ (s.write_req ++ staged s.write_creating s.depth_buffer2))
          ≡ true)
  unfolding writes_left all_next is_next
  front =
      let n : (is_next l level d0 seen x
            && all_next l level d0 seen
                (rest ++ (s.write_req ++ staged s.write_creating s.depth_buffer2)))
          ≡ true =
        simp e at w.next in
      ground (arith, n, eq_ℤ_iff x.value (to_char (level + 1)))

  pub IsWriting-receive_write : IsWriting l level d0 seen stored (record s { write_flight = rest })
  unfolding is_cell writes_left entries writing is_open
  IsWriting-receive_write =
      let (le, m, u, val, n) = front in
      record {
        fit = fits-later l level d0 d stored s.vidx_buffer (entries s) later w.fit;
        stage = w.stage;
        next = n;
        done = landed;
        cell = cells;
        size = length-set d cell_of x.value ∙ w.size;
      }
    where
      later : (v : ℕ) → is_open level d v ≡ false → is_open level stored v ≡ false
      later v h =
          let (le, m, u, val, n) = front in
          elim (depth_at-set_cases d cell_of x.value v) [
            | inl k ↦ simp k h
            | inr (i, k) ↦ is_open-written level stored v (k ∙ val)
          ]

      cells : (v : ℕ) → is_cell level d0 seen stored v ≡ true
      cells v =
          let (le, m, u, val, n) = front in
          elim (depth_at-set_cases d cell_of x.value v) [
            | inl k ↦ let c = w.cell v in ground (arith, c, k)
            | inr (i, k) ↦
                let m' : contains v seen ≡ true = rw i m in
                let u' : unvisited d0 v ≡ true = rw i u in ground (arith, k, val, m', u')
          ]

      landed :
          (v : ℕ)
          → contains v seen ≡ true
          → v < length stored
          → (not (is_open level stored v)
              || writing l v (writes_left (record s { write_flight = rest })))
            ≡ true
      landed v mv lt =
          let (le, m, u, val, n) = front in
          let lt' : v < length d = rw⁻¹ (length-set d cell_of x.value) lt in
          let at = depth_at-set d cell_of v x.value lt' in
          let left = rest ++ (s.write_req ++ staged s.write_creating s.depth_buffer2) in
          let old : (not (is_open level d v) || (x.access.addr == l.depth + v || writing l v left))
              ≡ true =
            simp e at (w.done v mv lt') in
          ground (arith, le, val, at, old)
