-- ===== src/Bfs/Cache/Out.antt =====
-- The cached traversals do what the plain ones do as long as the buffer holds vertices at the level
-- only: top-down.
use graph_accelerator.Common.{
  ℕ, zero, suc, ◌≡◌, refl, ap, ◌∙◌, true, List, [], ◌∷◌, ℤ, pos, foldl, for_range, slice, contains,
  get_or-set_ne, minus_one, arith,
}
use graph_accelerator.Bfs.Advance.{mark, mark_all, mark_all-append}
use graph_accelerator.Bfs.Cache.{CacheSweep, cache_visit_out, cache_expand}
use graph_accelerator.Bfs.Csr.{Csr, entry, out_degree, out_ngbs}
use graph_accelerator.Bfs.Depth.{at_level}
use graph_accelerator.Bfs.Params.{Params}
use graph_accelerator.Bfs.TopDown.Round.{all_out}

-- The buffer holds vertices at the level.
abbrev pub IsCache : ℕ → List ℤ → List ℕ → Type 0
IsCache level d ping = (u : ℕ) → contains u ping ≡ true → at_level level d u ≡ true

at_level-mark :
    (level : ℕ) (d : List ℤ) (v u : ℕ)
    → at_level level d u ≡ true
    → at_level level (mark level d v) u ≡ true
at_level-mark level d v u e = ground (arith, get_or-set_ne d v u (pos (suc level)) minus_one)

IsCache-mark_all :
    (level : ℕ) (d : List ℤ) (ping vs : List ℕ)
    → IsCache level d ping
    → IsCache level (mark_all level d vs) ping
unfolding mark_all
IsCache-mark_all level d ping [] cache = cache
IsCache-mark_all level d ping (v ∷ vs) cache =
    IsCache-mark_all level (mark level d v) ping vs (λ u m. at_level-mark level d v u (cache u m))

module _ (c : Csr) (p : Params) (level : ℕ) (ping : List ℕ) where
  cache_visit_out-depth :
      (i : ℕ) (s : CacheSweep)
      → IsCache level s.depth ping
      → ((cache_visit_out c level ping i s).depth ≡ mark level s.depth (entry c.ciao i))
        × ((cache_visit_out c level ping i s).visited ≡ s.visited)
  unfolding cache_visit_out
  cache_visit_out-depth i s cache = ground (arith, cache (entry c.ciao i))

  cache_out_loop :
      (n i : ℕ) (s : CacheSweep)
      → IsCache level s.depth ping
      → ((for_range n i (cache_visit_out c level ping) s).depth
          ≡ mark_all level s.depth (slice c.ciao i n))
        × ((for_range n i (cache_visit_out c level ping) s).visited ≡ s.visited)
  unfolding for_range mark_all slice
  cache_out_loop zero i s cache = (refl, refl)
  cache_out_loop (suc n) i s cache =
      let (d, k) = cache_visit_out-depth i s cache in
      let (ds, ks) =
        cache_out_loop n (suc i) (cache_visit_out c level ping i s)
          (rw d (λ u m. at_level-mark level s.depth (entry c.ciao i) u (cache u m))) in
      (ds ∙ ap (λ e. mark_all level e (slice c.ciao (suc i) n)) d, ks ∙ k)

  -- The top-down traversal marks the targets of the frontier's edges.
  pub cache_expand_all :
      (s : CacheSweep) (us : List ℕ)
      → IsCache level s.depth ping
      → ((foldl (cache_expand c p level ping) s us).depth ≡ mark_all level s.depth (all_out c us))
        × ((foldl (cache_expand c p level ping) s us).visited ≡ s.visited)
  unfolding mark_all all_out
  cache_expand_all s [] cache = (refl, refl)
  cache_expand_all s (u ∷ us) cache =
      let (d, k) = one s cache in
      let (ds, ks) =
        cache_expand_all (cache_expand c p level ping s u) us
          (rw d (IsCache-mark_all level s.depth ping (out_ngbs c u) cache)) in
      (
        ds
            ∙ ap (λ e. mark_all level e (all_out c us)) d
            ∙ mark_all-append level s.depth (out_ngbs c u) (all_out c us),
        ks ∙ k,
      )
    where
      one :
          (t : CacheSweep)
          → IsCache level t.depth ping
          → ((cache_expand c p level ping t u).depth ≡ mark_all level t.depth (out_ngbs c u))
            × ((cache_expand c p level ping t u).visited ≡ t.visited)
      one t cache' =
          unfold cache_expand in cache_out_loop (out_degree c u) (entry c.rpao u) _ cache'
