-- ===== src/Pe/Expand/Writing.antt =====
-- The invariant of the threads that read and write depths. `seen` are the targets whose depths they
-- have looked at, `d0` the depths when the level began and `d` those of now.
pub mod Fits
pub mod Reads
pub mod Writes
pub mod Store
use graph_accelerator.Common.{
  ℕ, ◌-◌, ◌+◌, ◌<◌, ◌≡◌, Bool, true, false, ◌&&◌, ◌||◌, not, ◌==◌, leb, List, [], ◌∷◌, ◌++◌, map, ℤ,
  pos, minus_one, eq_ℤ, Option, none, some, if◌then◌else◌, length, contains, refl, ap, to_char,
  to_char-lt, arith,
}
use graph_accelerator.Bfs.Depth.{depth_at, unvisited}
use graph_accelerator.Memory.Layout.{Layout}
use graph_accelerator.Pe.Port.{Access, Reply}
use graph_accelerator.Pe.Port.Flow.{held, contents}
use graph_accelerator.Pe.Expand.{Write, Expand}
use graph_accelerator.Pe.Expand.Reading.{Down, IsReading, Moves, down}
use graph_accelerator.Pe.Expand.Pending.{reads_left}
use graph_accelerator.Bfs.Csr.{Csr}

-- A depth that is read, or a burst that will read it.
pub data Entry : Type 0 where
  known : ℤ → Entry
  asked : Access → Entry

abbrev pub ask_depth : Access → List Entry
ask_depth a = asked a ∷ []

abbrev pub got_depth : Reply ℤ → List Entry
got_depth r = map known r.values

unfoldable pub entries : Down → List Entry
entries s =
    map known s.depth_buffer1
    ++ (contents ask_depth got_depth s.depth_port ++ held ask_depth s.depth_creating)

-- No depth of the level has been written there. Only at a level whose next depth is -1 as a `char`
-- does that not show.
unfoldable pub is_open : ℕ → List ℤ → ℕ → Bool
is_open level d v = unvisited d v && not (eq_ℤ (to_char (level + 1)) minus_one)

pub is_open-visited :
    (level : ℕ) (d : List ℤ) (v : ℕ) → unvisited d v ≡ false → is_open level d v ≡ false
unfolding is_open
is_open-visited level d v h = simp h

pub is_open-low : (level : ℕ) (d : List ℤ) (v : ℕ) → level < 127 → is_open level d v ≡ unvisited d v
unfolding is_open
is_open-low level d v h = let e = to_char-lt (level + 1) (omega (arith, h)) in ground (arith, e)

pub is_open-written :
    (level : ℕ) (d : List ℤ) (v : ℕ)
    → depth_at d v ≡ to_char (level + 1)
    → is_open level d v ≡ false
unfolding is_open
is_open-written level d v e = rw e (contradicts (eq_ℤ (to_char (level + 1)) minus_one))
  where
    contradicts : (b : Bool) → (b && not b) ≡ false
    contradicts true = refl
    contradicts false = refl

-- A depth read as -1 was that at the beginning, and a vertex with another is visited.
unfoldable pub fits_one : Layout → ℕ → List ℤ → List ℤ → ℕ → Entry → Bool
fits_one l level d0 d v (known x) =
    if eq_ℤ x minus_one then unvisited d0 v else not (is_open level d v)
fits_one l level d0 d v (asked a) = (a.addr == l.depth + v) && (a.len == 1)

unfoldable pub fits : Layout → ℕ → List ℤ → List ℤ → List ℕ → List Entry → Bool
fits l level d0 d [] [] = true
fits l level d0 d [] (e ∷ es) = false
fits l level d0 d (v ∷ vs) [] = false
fits l level d0 d (v ∷ vs) (e ∷ es) = fits_one l level d0 d v e && fits l level d0 d vs es

-- The write that is being created.
abbrev pub staged : Option Access → List ℤ → List Write
staged none ds = []
staged (some a) [] = []
staged (some a) (d ∷ ds) = (record { access = a; value = d }) ∷ []

abbrev pub is_staged : Option Access → List ℤ → Bool
is_staged none [] = true
is_staged none (d ∷ ds) = false
is_staged (some a) [] = false
is_staged (some a) (d ∷ []) = true
is_staged (some a) (d ∷ e ∷ ds) = false

unfoldable pub writes_left : Down → List Write
writes_left s = s.write_flight ++ (s.write_req ++ staged s.write_creating s.depth_buffer2)

-- A write of the next depth to a target that was unvisited.
unfoldable pub is_next : Layout → ℕ → List ℤ → List ℕ → Write → Bool
is_next l level d0 seen w =
    leb l.depth w.access.addr
    && (contains (w.access.addr - l.depth) seen
        && (unvisited d0 (w.access.addr - l.depth) && eq_ℤ w.value (to_char (level + 1))))

unfoldable pub all_next : Layout → ℕ → List ℤ → List ℕ → List Write → Bool
all_next l level d0 seen [] = true
all_next l level d0 seen (w ∷ ws) = is_next l level d0 seen w && all_next l level d0 seen ws

unfoldable pub writing : Layout → ℕ → List Write → Bool
writing l v [] = false
writing l v (w ∷ ws) = (w.access.addr == l.depth + v) || writing l v ws

unfoldable pub is_cell : ℕ → List ℤ → List ℕ → List ℤ → ℕ → Bool
is_cell level d0 seen d v =
    eq_ℤ (depth_at d v) (depth_at d0 v)
    || (eq_ℤ (depth_at d v) (to_char (level + 1)) && (unvisited d0 v && contains v seen))

pub record IsWriting (l : Layout) (level : ℕ) (d0 : List ℤ) (seen : List ℕ) (d : List ℤ) (s : Down)
    : Type 0 where
  pub fit : fits l level d0 d s.vidx_buffer (entries s) ≡ true
  pub stage : is_staged s.write_creating s.depth_buffer2 ≡ true
  pub next : all_next l level d0 seen (writes_left s) ≡ true
  pub done :
      (v : ℕ)
      → contains v seen ≡ true
      → v < length d
      → (not (is_open level d v) || writing l v (writes_left s)) ≡ true
  pub cell : (v : ℕ) → is_cell level d0 seen d v ≡ true
  pub size : length d ≡ length d0

-- From `s` to `t` data has moved on, and nothing more has been looked at.
pub record Drains (c : Csr) (l : Layout) (level : ℕ) (d0 : List ℤ) (seen : List ℕ) (d : List ℤ)
    (s t : Expand) : Type 0 where
  pub reading : IsReading c l t
  pub writing : IsWriting l level d0 seen d (down t)
  pub same : t.vidx_buffer ++ reads_left c l t ≡ s.vidx_buffer ++ reads_left c l s

pub Drains-refl :
    {c : Csr} {l : Layout} {level : ℕ} {d0 : List ℤ} {seen : List ℕ} {d : List ℤ} (s : Expand)
    → IsReading c l s
    → IsWriting l level d0 seen d (down s)
    → Drains c l level d0 seen d s s
Drains-refl s r w = record { reading = r; writing = w; same = refl }

-- Turns of the threads before these.
pub Drains-Moves :
    {c : Csr} {l : Layout} {level : ℕ} {d0 : List ℤ} {seen : List ℕ} {d : List ℤ} (s t : Expand)
    → IsWriting l level d0 seen d (down s)
    → Moves c l s t
    → Drains c l level d0 seen d s t
Drains-Moves s t w m = record {
  reading = m.reading;
  writing = rw m.down_eq w;
  same = cc (ap (λ k. k.vidx_buffer) m.down_eq, m.same);
}

-- Turns that keep the entries and the writes.
pub IsWriting-kept :
    {l : Layout} {level : ℕ} {d0 : List ℤ} {seen : List ℕ} {d : List ℤ} (s t : Down)
    → IsWriting l level d0 seen d s
    → t.vidx_buffer ≡ s.vidx_buffer
    → entries t ≡ entries s
    → is_staged t.write_creating t.depth_buffer2 ≡ true
    → writes_left t ≡ writes_left s
    → IsWriting l level d0 seen d t
IsWriting-kept s t w e f g h = record {
  fit = simp (e, f) w.fit;
  stage = g;
  next = simp h w.next;
  done = λ v m k. simp h (w.done v m k);
  cell = w.cell;
  size = w.size;
}
