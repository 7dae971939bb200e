-- ===== src/Pe/Expand/Work.antt =====
-- How much the expansion threads have left to do, as a number that their turns lower.
pub mod Rows
pub mod Targets
pub mod Depths
pub mod Progress
pub mod Done
use graph_accelerator.Common.{
  ℕ, ◌+◌, ◌*◌, ◌<◌, ◌≡◌, refl, ap, ◌∙◌, List, [], ◌∷◌, ◌++◌, Option, none, some, length,
  length-append, arith, suc,
}
use graph_accelerator.Bfs.Csr.{Csr}
use graph_accelerator.Memory.Layout.{Layout}
use graph_accelerator.Pe.Port.{Access, Reply, Port, push_req, send, receive}
use graph_accelerator.Pe.Port.Flow.{List-cases, held, contents}
use graph_accelerator.Pe.Expand.{Sizes, Expand}
use graph_accelerator.Pe.Expand.Run.{System, Action, step, load_words, with_element}
use graph_accelerator.Pe.Expand.Pending.{reads_left, offsets_left, chunks_left, rows, values_of}
use graph_accelerator.Pe.Expand.Reading.{Moves, Down, down}

-- The steps that take a burst to its answer.
abbrev pub port_steps : {T : Type 0} → Port T → ℕ
port_steps p = 3 * length p.req + 2 * length p.flight + length p.resp

abbrev pub held_steps {ℓ} : {A : Type ℓ} → ℕ → Option A → ℕ
held_steps n none = 0
held_steps n (some a) = n

-- The targets that no chunk has asked for.
unfoldable pub unread : Csr → Layout → Expand → ℕ
unread c l s = length (held (chunks_left c l) s.ciao_loop ++ rows c (offsets_left c l s))

-- The offsets that are read or asked for.
unfoldable pub offsets_asked : Csr → Layout → Expand → ℕ
offsets_asked c l s =
    length s.rpao_buffer
    + length (contents (load_words c.rpao l.rpao) values_of s.rpao_port)
    + length (held (load_words c.rpao l.rpao) s.rpao_creating)

unfoldable pub upper_work : Csr → Layout → Expand → ℕ
upper_work c l s =
    7 * length s.frontier_buffer
    + offsets_asked c l s
    + held_steps 4 s.rpao_creating
    + port_steps s.rpao_port
    + held_steps 1 s.ciao_loop
    + 8 * unread c l s
    + held_steps 4 s.ciao_creating
    + port_steps s.ciao_port

unfoldable pub lower_work : Down → ℕ
lower_work s =
    6 * length s.vidx_buffer
    + held_steps 4 s.depth_creating
    + port_steps s.depth_port
    + held_steps 4 s.write_creating
    + 3 * length s.write_req
    + 2 * length s.write_flight

unfoldable pub work : Csr → Layout → Expand → ℕ
work c l s = upper_work c l s + 11 * length (reads_left c l s) + lower_work (down s)

-- A step that lowers the work.
abbrev pub Lowers : Csr → Sizes → Layout → ℕ → Action → System → Type 0
Lowers c z l level a t =
    (t' : System) × (step c z l level a t ≡ some t')
    × (t'.found ≡ t.found)
    × (work c l t'.element < work c l t.element)

-- The targets read or asked for, and the others.
pub length-reads_left :
    (c : Csr) (l : Layout) (s : Expand)
    → length (reads_left c l s)
      ≡ length s.ciao_buffer
        + length (contents (load_words c.ciao l.ciao) values_of s.ciao_port)
        + length (held (load_words c.ciao l.ciao) s.ciao_creating)
        + unread c l s
unfolding reads_left unread
length-reads_left c l s =
    let load = load_words c.ciao l.ciao in
    let rest = held (chunks_left c l) s.ciao_loop ++ rows c (offsets_left c l s) in
    omega (
      arith,
      length-append s.ciao_buffer
          (contents load values_of s.ciao_port ++ (held load s.ciao_creating ++ rest)),
      length-append (contents load values_of s.ciao_port) (held load s.ciao_creating ++ rest),
      length-append (held load s.ciao_creating) rest,
    )

module _ {T : Type 0} where
  pub port_steps-push_req : (p : Port T) (a : Access) → port_steps (push_req p a) ≡ port_steps p + 3
  port_steps-push_req p a = let e = length-append p.req (a ∷ []) in omega (arith, e)

  pub port_steps-send :
      (p : Port T) (a : Access) (rest : List Access)
      → p.req ≡ a ∷ rest
      → port_steps p ≡ suc (port_steps (send p))
  unfolding send
  port_steps-send p a rest e =
      let f = length-append p.flight (a ∷ []) in
      let g = ap length e in rw (e, send) (omega (arith, f, g))

  pub port_steps-receive :
      (load : Access → List T) (p : Port T) (a : Access) (rest : List Access)
      → p.flight ≡ a ∷ rest
      → port_steps p ≡ suc (port_steps (receive load p))
  unfolding receive
  port_steps-receive load p a rest e =
      let f = length-append p.resp ((record { access = a; values = load a }) ∷ []) in
      let g = ap length e in rw (e, receive) (omega (arith, f, g))

module _ (c : Csr) (l : Layout) (s s' : Expand) (m : Moves c l s s') where
  -- Turns of the threads that read offsets and targets.
  pub work-Moves : upper_work c l s' < upper_work c l s → work c l s' < work c l s
  unfolding work
  work-Moves h =
      let e = ap length m.same in let f = ap lower_work m.down_eq in omega (arith, e, f, h)

  pub unread-Moves :
      s'.ciao_buffer ≡ s.ciao_buffer
      → s'.ciao_port ≡ s.ciao_port
      → s'.ciao_creating ≡ s.ciao_creating
      → unread c l s' ≡ unread c l s
  unread-Moves e f g =
      let load = load_words c.ciao l.ciao in
      let same = ap length m.same in
      let e' = ap length e in
      let f' = ap (λ p. length (contents load values_of p)) f in
      let g' = ap (λ o. length (held load o)) g in
      omega (arith, same, e', f', g', length-reads_left c l s, length-reads_left c l s')

-- The work is lowered if the step's result is as stated.
pub Lowers-turn :
    (c : Csr) (z : Sizes) (l : Layout) (level : ℕ) (a : Action) (t : System) (s : Expand)
    → step c z l level a t ≡ some (with_element t s)
    → work c l s < work c l t.element
    → Lowers c z l level a t
Lowers-turn c z l level a t s e h = (with_element t s, e, refl, h)
