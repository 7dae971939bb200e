-- ===== src/Pe/Expand/Writing/Writes.antt =====
-- The threads that write depths.
use graph_accelerator.Common.{
  ℕ, ◌-◌, ◌+◌, ◌*◌, ◌<◌, ◌≡◌, refl, sym, ap, ◌∙◌, true, false, ◌&&◌, ◌||◌, not, ◌==◌, leb, List, [],
  ◌∷◌, ◌++◌, ℤ, eq_ℤ, minus_one, none, some, inl, inr, arith, Bool-cases, Option-cases, length,
  contains, contains-concat, to_char,
}
use mathlib.Core.List.{append_assoc, append-nil}
use graph_accelerator.Bfs.Csr.{Csr}
use graph_accelerator.Memory.Layout.{Layout}
use graph_accelerator.Pe.Port.{Access}
use graph_accelerator.Pe.Port.Flow.{List-cases}
use graph_accelerator.Pe.Expand.{
  Sizes, Write, Expand, new_access, depth_analysis_turn, write_place, write_resp_turn,
}
use graph_accelerator.Pe.Expand.Run.{send_write}
use graph_accelerator.Pe.Expand.Pending.{reads_left, offsets_left}
use graph_accelerator.Pe.Expand.Reading.{IsReading, IsReading-kept, Succeeds, down, Down}
use graph_accelerator.Pe.Expand.Writing.{
  known, entries, fits, fits_one, is_staged, is_cell, is_next, all_next, writing, writes_left,
  IsWriting, IsWriting-kept, Drains, Drains-refl, is_open,
}
use graph_accelerator.Pe.Expand.Writing.Fits.{all_next-append, all_next-seen, writing-append}

module _ (l : Layout) (level : ℕ) (d0 : List ℤ) (seen : List ℕ) (d : List ℤ) where
  -- A depth is looked at, and a write may follow.
  IsWriting-looked :
      (s t : Down) (v : ℕ) (ws : List Write)
      → IsWriting l level d0 seen d s
      → fits l level d0 d t.vidx_buffer (entries t) ≡ true
      → is_staged t.write_creating t.depth_buffer2 ≡ true
      → writes_left t ≡ writes_left s ++ ws
      → all_next l level d0 (seen ++ v ∷ []) ws ≡ true
      → (not (is_open level d v) || writing l v ws) ≡ true
      → IsWriting l level d0 (seen ++ v ∷ []) d t
  unfolding is_cell is_open
  IsWriting-looked s t v ws w f g e n k = record {
    fit = f;
    stage = g;
    next =
        ap (all_next l level d0 (seen ++ v ∷ [])) e
        ∙ all_next-append l level d0 (seen ++ v ∷ []) (writes_left s) ws
        ∙ ground (arith, all_next-seen l level d0 seen v (writes_left s) w.next, n);
    done = λ u m lt. ap (λ r. not (is_open level d u) || writing l u r) e ∙ looked u m lt;
    cell = λ u. ground (arith, w.cell u, contains-concat u v seen);
    size = w.size;
  }
    where
      looked :
          (u : ℕ)
          → contains u (seen ++ v ∷ []) ≡ true
          → u < length d
          → (not (is_open level d u) || writing l u (writes_left s ++ ws)) ≡ true
      looked u m lt = elim (Bool-cases (u == v)) [
        | inl q ↦
            let q' : u ≡ v = ground (arith, q) in
            rw q' (ground (arith, k, writing-append l level d0 v (writes_left s) ws))
        | inr q ↦ ground (
          arith,
          w.done u,
          contains-concat u v seen,
          m,
          lt,
          q,
          writing-append l level d0 u (writes_left s) ws,
        )
      ]

is_staged-rest :
    (a : Access) (x : ℤ) (xs : List ℤ)
    → is_staged (some a) (x ∷ xs) ≡ true
    → is_staged none xs ≡ true
is_staged-rest a x [] h = refl
is_staged-rest a x (y ∷ ys) h = cc

is_staged-none : (xs : List ℤ) → is_staged none xs ≡ true → xs ≡ []
is_staged-none [] h = refl
is_staged-none (x ∷ xs) h = cc

module _ (c : Csr) (l : Layout) (level : ℕ) (d0 : List ℤ) (seen : List ℕ) (d : List ℤ) where
  pub Drains-write_place :
      (s : Expand)
      → IsReading c l s
      → IsWriting l level d0 seen d (down s)
      → Succeeds (Drains c l level d0 seen d s) (write_place s)
  unfolding write_place reads_left offsets_left writes_left entries
  Drains-write_place s r w = elim (Option-cases s.write_creating) [
    | inl e ↦ simp (e, write_place) (Drains-refl s r w)
    | inr (a, e) ↦ elim (List-cases s.depth_buffer2) [
      | inl f ↦ let k : is_staged (some a) [] ≡ true = simp (e, f) at w.stage in absurd cc
      | inr (x, xs, f) ↦
          simp (e, f, write_place)
            (record {
              reading = IsReading-kept s _ r refl refl refl refl;
              writing =
                  IsWriting-kept (down s) _ w refl refl
                    (is_staged-rest a x xs (simp (e, f) at w.stage))
                    (simp (e, f, append_assoc, append-nil));
              same = refl;
            })
    ]
  ]

  pub Drains-send_write :
      (s : Expand)
      → IsReading c l s
      → IsWriting l level d0 seen d (down s)
      → Drains c l level d0 seen d s (send_write s)
  unfolding send_write reads_left offsets_left writes_left entries
  Drains-send_write s r w = elim (List-cases s.write_req) [
    | inl e ↦ simp (e, send_write) (Drains-refl s r w)
    | inr (x, rest, e) ↦
        simp (e, send_write)
          (record {
            reading = IsReading-kept s _ r refl refl refl refl;
            writing = IsWriting-kept (down s) _ w refl refl w.stage (simp (e, append_assoc));
            same = refl;
          })
  ]

  pub Drains-write_resp_turn :
      (s : Expand)
      → IsReading c l s
      → IsWriting l level d0 seen d (down s)
      → Drains c l level d0 seen d s (write_resp_turn s)
  unfolding write_resp_turn reads_left offsets_left writes_left entries
  Drains-write_resp_turn s r w = elim (List-cases s.write_resp) [
    | inl e ↦ simp (e, write_resp_turn) (Drains-refl s r w)
    | inr (x, rest, e) ↦
        simp (e, write_resp_turn)
          (record {
            reading = IsReading-kept s _ r refl refl refl refl;
            writing = IsWriting-kept (down s) _ w refl refl w.stage refl;
            same = refl;
          })
  ]

  -- From `s` to `t` a depth may have been looked at.
  pub record Looks (s t : Expand) : Type 0 where
    pub looked : List ℕ
    pub reading : IsReading c l t
    pub writing : IsWriting l level d0 looked d (down t)
    pub same :
        looked ++ (t.vidx_buffer ++ reads_left c l t) ≡ seen ++ (s.vidx_buffer ++ reads_left c l s)

  Looks-refl : (s : Expand) → IsReading c l s → IsWriting l level d0 seen d (down s) → Looks s s
  Looks-refl s r w = record { looked = seen; reading = r; writing = w; same = refl }

  module _ (s : Expand) (r : IsReading c l s) (w : IsWriting l level d0 seen d (down s)) (x : ℤ)
      (xs : List ℤ) (v : ℕ) (vs : List ℕ) (f : s.depth_buffer1 ≡ x ∷ xs)
      (g : s.vidx_buffer ≡ v ∷ vs) where
    fit_front :
        (fits_one l level d0 d v (known x)
          && fits l level d0 d vs
              (entries (down (record s { depth_buffer1 = xs; vidx_buffer = vs }))))
        ≡ true
    unfolding fits entries
    fit_front = simp (f, g, entries, fits) at w.fit

    Looks-visited :
        eq_ℤ x minus_one ≡ false → Looks s (record s { depth_buffer1 = xs; vidx_buffer = vs })
    unfolding reads_left offsets_left writes_left entries fits_one all_next
    Looks-visited h =
        let fit = fit_front in
        record {
          looked = seen ++ v ∷ [];
          reading = IsReading-kept s _ r refl refl refl refl;
          writing =
              IsWriting-looked l level d0 seen d (down s) _ v [] w (ground (arith, fit)) w.stage
                (sym (append-nil _)) refl (ground (arith, fit, h));
          same = simp (g, append_assoc);
        }

    Looks-unvisited :
        s.write_creating ≡ none
        → eq_ℤ x minus_one ≡ true
        → Looks s (record s {
          depth_buffer1 = xs;
          vidx_buffer = vs;
          depth_buffer2 = s.depth_buffer2 ++ to_char (level + 1) ∷ [];
          write_creating = some (new_access s (l.depth + v * 1) 1);
          next_burst = s.next_burst + 1;
        })
    unfolding reads_left offsets_left writes_left entries fits_one all_next is_next writing
    Looks-unvisited e h =
        let fit = fit_front in
        let empty = is_staged-none s.depth_buffer2 (simp e at w.stage) in
        let ws : List Write =
          (record { access = new_access s (l.depth + v * 1) 1; value = to_char (level + 1) })
          ∷ [] in
        let i : l.depth + v * 1 - l.depth ≡ v = omega arith in
        record {
          looked = seen ++ v ∷ [];
          reading = IsReading-kept s _ r refl refl refl refl;
          writing =
              IsWriting-looked l level d0 seen d (down s) _ v ws w (ground (arith, fit))
                (simp empty) (simp (e, empty, append_assoc, append-nil))
                (simp i (ground (arith, fit, h, contains-concat v v seen))) (ground arith);
          same = simp (g, append_assoc);
        }

  pub Looks-depth_analysis_turn :
      (z : Sizes) (s : Expand)
      → IsReading c l s
      → IsWriting l level d0 seen d (down s)
      → Succeeds (Looks s) (depth_analysis_turn z l level s)
  unfolding depth_analysis_turn entries fits
  Looks-depth_analysis_turn z s r w = elim (Option-cases s.write_creating) [
    | inr (a, e) ↦ simp (e, depth_analysis_turn) (Looks-refl s r w)
    | inl e ↦ elim (List-cases s.depth_buffer1) [
      | inl f ↦ simp (e, f, depth_analysis_turn) (Looks-refl s r w)
      | inr (x, xs, f) ↦ elim (Bool-cases (leb (length s.depth_buffer2) z.depth_buffer_depth)) [
        | inr t ↦ simp (e, f, t, depth_analysis_turn) (Looks-refl s r w)
        | inl t ↦ elim (List-cases s.vidx_buffer) [
          | inl g ↦ let k : false ≡ true = simp (f, g, entries, fits) at w.fit in absurd cc
          | inr (v, vs, g) ↦ elim (Bool-cases (eq_ℤ x minus_one)) [
            | inr h ↦
                let eq : depth_analysis_turn z l level s
                    ≡ some (record s { depth_buffer1 = xs; vidx_buffer = vs }) =
                  simp (e, f, t, g, h, depth_analysis_turn) in
                rw eq (Looks-visited s r w x xs v vs f g h)
            | inl h ↦
                let eq : depth_analysis_turn z l level s
                    ≡ some (record s {
                      depth_buffer1 = xs;
                      vidx_buffer = vs;
                      depth_buffer2 = s.depth_buffer2 ++ to_char (level + 1) ∷ [];
                      write_creating = some (new_access s (l.depth + v * 1) 1);
                      next_burst = s.next_burst + 1;
                    }) =
                  simp (e, f, t, g, h, depth_analysis_turn) in
                rw eq (Looks-unvisited s r w x xs v vs f g e h)
          ]
        ]
      ]
    ]
  ]
