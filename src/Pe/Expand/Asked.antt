-- ===== src/Pe/Expand/Asked.antt =====
-- The depths that the threads ask for, in the order in which `issueExpandDepthReadReq` of src/pe.cpp
-- creates their bursts.
pub mod Order
use graph_accelerator.Common.{
  ℕ, ◌+◌, ◌-◌, ◌*◌, ◌%◌, ◌≡◌, refl, sym, ap, ◌∙◌, true, ltb, leb, List, [], ◌∷◌, ◌++◌, map, ℤ,
  Option, none, some, inl, inr, arith, length, Bool-cases, Option-cases, eq_ℤ, minus_one,
}
use mathlib.Core.List.{append_assoc, append-nil, map-append}
use graph_accelerator.Bfs.Csr.{Csr}
use graph_accelerator.Bfs.TopDown.Round.{all_out}
use graph_accelerator.Memory.Layout.{Layout}
use graph_accelerator.Pe.Port.{Access}
use graph_accelerator.Pe.Port.Flow.{List-cases}
use graph_accelerator.Pe.Expand.{
  Sizes, Expand, new_access, depth_turn, depth_place, depth_resp_turn, depth_analysis_turn,
  write_place, write_resp_turn,
}
use graph_accelerator.Pe.Expand.Run.{System, Action, step, send_write, with_element, with_result}
use graph_accelerator.Pe.Expand.Pending.{reads_left, offsets_left}
use graph_accelerator.Pe.Expand.Reading.{Moves, Succeeds}

-- The address of the depth that a step begins to read.
unfoldable pub new_read : Expand → Expand → List ℕ
new_read s t = elim s.depth_creating [
  | some a ↦ []
  | none ↦ elim t.depth_creating [ none ↦ [] | some a ↦ a.addr ∷ [] ]
]

-- Those of a run.
unfoldable pub depth_reads : Csr → Sizes → Layout → ℕ → List Action → System → List ℕ
depth_reads c z l level [] t = []
depth_reads c z l level (a ∷ rest) t = elim (step c z l level a t) [
  | none ↦ []
  | some t' ↦ new_read t.element t'.element ++ depth_reads c z l level rest t'
]

-- Where the depths of vertices are.
abbrev pub addresses : Layout → List ℕ → List ℕ
addresses l = map (λ v. l.depth + v)

new_read-kept : (s t : Expand) → t.depth_creating ≡ s.depth_creating → new_read s t ≡ []
unfolding new_read
new_read-kept s t e = elim (Option-cases s.depth_creating) [
  | inl f ↦ simp (e, f, new_read)
  | inr (a, f) ↦ simp (f, new_read)
]

module _ (c : Csr) (l : Layout) where
  -- From `s` to `t` no read has begun and no target has come or gone.
  pub record Quiet (s t : Expand) : Type 0 where
    pub no_read : new_read s t ≡ []
    pub same : reads_left c l t ≡ reads_left c l s

  pub Quiet-kept :
      (s t : Expand)
      → t.depth_creating ≡ s.depth_creating
      → reads_left c l t ≡ reads_left c l s
      → Quiet s t
  Quiet-kept s t e f = record { no_read = new_read-kept s t e; same = f }

  pub Quiet-Moves : (s t : Expand) → Moves c l s t → Quiet s t
  Quiet-Moves s t m = Quiet-kept s t (ap (λ k. k.depth_creating) m.down_eq) m.same

  pub Quiet-depth_place : (s : Expand) → Quiet s (depth_place s)
  unfolding depth_place reads_left offsets_left new_read
  Quiet-depth_place s = elim (Option-cases s.depth_creating) [
    | inl e ↦ simp (e, depth_place) (Quiet-kept s s refl refl)
    | inr (a, e) ↦ simp (e, depth_place) (record { no_read = simp (e, new_read); same = refl })
  ]

  pub Quiet-depth_resp_turn : (s : Expand) → Quiet s (depth_resp_turn s)
  unfolding depth_resp_turn reads_left offsets_left
  Quiet-depth_resp_turn s = elim (List-cases s.depth_port.resp) [
    | inl e ↦ simp (e, depth_resp_turn) (Quiet-kept s s refl refl)
    | inr (r, rest, e) ↦ simp (e, depth_resp_turn) (Quiet-kept s _ refl refl)
  ]

  -- The same of a turn that has not failed.
  abbrev pub Quietly : Expand → Option Expand → Type 0
  Quietly s none = Unit
  Quietly s (some u) = Quiet s u

  pub Quietly-Moves : (s : Expand) (o : Option Expand) → Succeeds (Moves c l s) o → Quietly s o
  Quietly-Moves s none h = tt
  Quietly-Moves s (some u) h = Quiet-Moves s u h

  pub Quietly-write_place : (s : Expand) → Quietly s (write_place s)
  unfolding write_place reads_left offsets_left
  Quietly-write_place s = elim (Option-cases s.write_creating) [
    | inl e ↦ simp (e, write_place) (Quiet-kept s s refl refl)
    | inr (a, e) ↦ elim (List-cases s.depth_buffer2) [
      | inl f ↦ simp (e, f, write_place) tt
      | inr (x, xs, f) ↦ simp (e, f, write_place) (Quiet-kept s _ refl refl)
    ]
  ]

  pub Quietly-depth_analysis_turn :
      (z : Sizes) (level : ℕ) (s : Expand) → Quietly s (depth_analysis_turn z l level s)
  unfolding depth_analysis_turn reads_left offsets_left
  Quietly-depth_analysis_turn z level s = elim (Option-cases s.write_creating) [
    | inr (a, e) ↦ simp (e, depth_analysis_turn) (Quiet-kept s s refl refl)
    | inl e ↦ elim (List-cases s.depth_buffer1) [
      | inl f ↦ simp (e, f, depth_analysis_turn) (Quiet-kept s s refl refl)
      | inr (x, xs, f) ↦ elim (Bool-cases (leb (length s.depth_buffer2) z.depth_buffer_depth)) [
        | inr t ↦ simp (e, f, t, depth_analysis_turn) (Quiet-kept s s refl refl)
        | inl t ↦ elim (List-cases s.vidx_buffer) [
          | inl g ↦ simp (e, f, t, g, depth_analysis_turn) tt
          | inr (v, vs, g) ↦ elim (Bool-cases (eq_ℤ x minus_one)) [
            | inr h ↦ simp (e, f, t, g, h, depth_analysis_turn) (Quiet-kept s _ refl refl)
            | inl h ↦ simp (e, f, t, g, h, depth_analysis_turn) (Quiet-kept s _ refl refl)
          ]
        ]
      ]
    ]
  ]

  pub Quiet-send_write : (s : Expand) → Quiet s (send_write s)
  unfolding send_write reads_left offsets_left
  Quiet-send_write s = elim (List-cases s.write_req) [
    | inl e ↦ simp (e, send_write) (Quiet-kept s s refl refl)
    | inr (x, rest, e) ↦ simp (e, send_write) (Quiet-kept s _ refl refl)
  ]

  pub Quiet-write_resp_turn : (s : Expand) → Quiet s (write_resp_turn s)
  unfolding write_resp_turn reads_left offsets_left
  Quiet-write_resp_turn s = elim (List-cases s.write_resp) [
    | inl e ↦ simp (e, write_resp_turn) (Quiet-kept s s refl refl)
    | inr (x, rest, e) ↦ simp (e, write_resp_turn) (Quiet-kept s _ refl refl)
  ]

  -- A read begins at the next target's depth.
  pub asked-depth_turn :
      (z : Sizes) (s : Expand)
      → new_read s (depth_turn z l s) ++ addresses l (reads_left c l (depth_turn z l s))
        ≡ addresses l (reads_left c l s)
  unfolding depth_turn reads_left offsets_left new_read
  asked-depth_turn z s = elim (Option-cases s.depth_creating) [
    | inr (a, e) ↦ simp (e, depth_turn, new_read)
    | inl e ↦ elim (List-cases s.ciao_buffer) [
      | inl f ↦ simp (e, f, depth_turn, new_read)
      | inr (v, rest, f) ↦ elim (Bool-cases (ltb (length s.ciao_buffer) z.depth_buffer_depth)) [
        | inr t ↦ simp (e, f, (simp f at t), depth_turn, new_read)
        | inl t ↦
            let m : v * 1 ≡ v = omega arith in simp (e, f, (simp f at t), m, depth_turn, new_read)
      ]
    ]
  ]
