-- ===== src/Bfs/Cache/In.antt =====
-- The cached traversal does what the plain one does as long as the buffer holds vertices at the
-- level only: bottom-up.
use graph_accelerator.Common.{
  ℕ, zero, suc, ◌≡◌, refl, ap, ◌∙◌, ◌+◌, ◌<◌, true, false, List, [], ◌∷◌, pos, foldl, length, slice,
  set, contains, any, if◌then◌else◌, inl, inr, Bool-cases, arith,
}
use graph_accelerator.Bfs.Advance.{adopt, adopt_all, at_level-adopt, has_parent}
use graph_accelerator.Bfs.BottomUp.Round.{adopted}
use graph_accelerator.Bfs.Cache.{CacheSweep, cache_find_parent, cache_adopt}
use graph_accelerator.Bfs.Cache.Out.{IsCache}
use graph_accelerator.Bfs.Csr.{Csr, entry, in_degree}
use graph_accelerator.Bfs.Depth.{at_level}
use graph_accelerator.Bfs.Params.{Params}

module _ (c : Csr) (p : Params) (level : ℕ) (ping : List ℕ) where
  cache_find_parent_lem :
      (v n i : ℕ) (s : CacheSweep)
      → IsCache level s.depth ping
      → let found = any (at_level level s.depth) (slice c.ciai i n) in
        ((cache_find_parent c p level ping v n i s).depth
          ≡ (if found then set s.depth v (pos (suc level)) else s.depth))
        × ((cache_find_parent c p level ping v n i s).visited
            ≡ (if found then s.visited + 1 else s.visited))
  unfolding cache_find_parent any slice
  cache_find_parent_lem v zero i s cache = (refl, refl)
  cache_find_parent_lem v (suc n) i s cache =
      elim (Bool-cases (at_level level s.depth (entry c.ciai i))) [
        | inl e ↦ ground arith
        | inr e ↦ elim (Bool-cases (contains (entry c.ciai i) ping)) [
          | inl m ↦ cc (cache (entry c.ciai i) m)
          | inr m ↦ rw (e, m) (cache_find_parent_lem v n (suc i) _ cache)
        ]
      ]

  cache_adopt_lem :
      (s : CacheSweep) (v : ℕ)
      → IsCache level s.depth ping
      → ((cache_adopt c p level ping s v).depth ≡ adopt c level s.depth v)
        × ((cache_adopt c p level ping s v).visited
            ≡ s.visited + (if has_parent c level s.depth v then 1 else 0))
  unfolding cache_adopt
  cache_adopt_lem s v cache =
      let (d, n) = cache_find_parent_lem v (in_degree c v) (entry c.rpai v) _ cache in
      (d, n ∙ ground arith)

  -- The bottom-up traversal gives the frontier's vertices with a parent the next depth.
  pub cache_adopt_all :
      (s : CacheSweep) (vs : List ℕ)
      → IsCache level s.depth ping
      → ((u : ℕ) → contains u vs ≡ true → (u < length s.depth) × (at_level level s.depth u ≡ false))
      → ((foldl (cache_adopt c p level ping) s vs).depth ≡ adopt_all c level s.depth vs)
        × ((foldl (cache_adopt c p level ping) s vs).visited
            ≡ s.visited + adopted c level s.depth vs)
  unfolding adopt_all adopted
  cache_adopt_all s [] cache away = (refl, omega arith)
  cache_adopt_all s (v ∷ vs) cache away =
      let (d, k) = cache_adopt_lem s v cache in
      let (lv, ev) = away v (unfold contains in ground arith) in
      let (ds, ks) =
        cache_adopt_all (cache_adopt c p level ping s v) vs
          (λ u m.
            let (same, _) = at_level-adopt c level s.depth v u lv ev in rw (d, same) (cache u m))
          (λ u m.
            let (same, size) = at_level-adopt c level s.depth v u lv ev in
            let (lu, eu) = away u (unfold contains in ground arith) in
            rw (d, same) (omega arith, eu)) in
      (
        ds ∙ ap (λ e. adopt_all c level e vs) d,
        ks
            ∙ ap (λ e. (cache_adopt c p level ping s v).visited + adopted c level e vs) d
            ∙ omega arith,
      )
