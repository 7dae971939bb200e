-- ===== src/Pe/Expand/Reading.antt =====
-- The invariant of the threads that read offsets and targets, and what a turn of one of them keeps.
pub mod Rows
pub mod Targets
use graph_accelerator.Common.{
  ℕ, ◌-◌, ◌*◌, ◌/◌, ◌%◌, ◌+◌, ◌≡◌, refl, ap, ◌∙◌, Bool, true, false, ◌&&◌, ◌==◌, leb, List, [], ◌∷◌,
  ◌++◌, ℤ, Option, none, some, arith,
}
use graph_accelerator.Bfs.Csr.{Csr}
use graph_accelerator.Memory.Layout.{Layout}
use graph_accelerator.Pe.Port.{Access, Reply, Port, push_req, send, receive}
use graph_accelerator.Pe.Port.Flow.{
  held, contents, contents-push_req, contents-send, contents-receive, flat,
}
use graph_accelerator.Pe.Expand.{CiaoLoop, Write, Expand}
use graph_accelerator.Pe.Expand.Pending.{reads_left, offsets_left, is_even}
use mathlib.Core.List.{append-nil}

unfoldable pub all_words : List ℕ → Bool
all_words [] = true
all_words (n ∷ ns) = n % 4 == 0 && all_words ns

pub all_words-append : (ms ns : List ℕ) → all_words (ms ++ ns) ≡ (all_words ms && all_words ns)
unfolding all_words
all_words-append [] ns = refl
all_words-append (m ∷ ms) ns = ground (arith, all_words-append ms ns)

-- The lengths of the bursts of a port.
abbrev pub access_len : Access → List ℕ
access_len a = a.len ∷ []

abbrev pub reply_len : {T : Type 0} → Reply T → List ℕ
reply_len r = r.access.len ∷ []

unfoldable pub lens_left : {T : Type 0} → Option Access → Port T → List ℕ
lens_left creating p = contents access_len reply_len p ++ held access_len creating

-- The loop over the chunks is at whole words.
abbrev pub is_aligned : Layout → Option CiaoLoop → Bool
is_aligned l none = true
is_aligned l (some p) =
    leb l.ciao p.mem_addr
    && ((p.mem_addr - l.ciao) % 4 == 0 && (p.len % 4 == 0 && p.max_len % 4 == 0))

pub record IsReading (c : Csr) (l : Layout) (s : Expand) : Type 0 where
  pub even : is_even (offsets_left c l s) ≡ true
  pub rpao_words : all_words (lens_left s.rpao_creating s.rpao_port) ≡ true
  pub ciao_words : all_words (lens_left s.ciao_creating s.ciao_port) ≡ true
  pub loop : is_aligned l s.ciao_loop ≡ true

pub IsReading-kept :
    {c : Csr} {l : Layout} (s t : Expand)
    → IsReading c l s
    → offsets_left c l t ≡ offsets_left c l s
    → lens_left t.rpao_creating t.rpao_port ≡ lens_left s.rpao_creating s.rpao_port
    → lens_left t.ciao_creating t.ciao_port ≡ lens_left s.ciao_creating s.ciao_port
    → t.ciao_loop ≡ s.ciao_loop
    → IsReading c l t
IsReading-kept s t r e f g h = record {
  even = simp e r.even;
  rpao_words = simp f r.rpao_words;
  ciao_words = simp g r.ciao_words;
  loop = simp h r.loop;
}

-- The part of the element from the read targets on.
pub record Down : Type 0 where
  pub vidx_buffer : List ℕ
  pub depth_creating : Option Access
  pub depth_port : Port ℤ
  pub depth_buffer1 : List ℤ
  pub depth_buffer2 : List ℤ
  pub write_creating : Option Access
  pub write_req : List Write
  pub write_flight : List Write

abbrev pub down : Expand → Down
down s = record {
  vidx_buffer = s.vidx_buffer;
  depth_creating = s.depth_creating;
  depth_port = s.depth_port;
  depth_buffer1 = s.depth_buffer1;
  depth_buffer2 = s.depth_buffer2;
  write_creating = s.write_creating;
  write_req = s.write_req;
  write_flight = s.write_flight;
}

-- From `s` to `t` data has only moved on in these threads.
pub record Moves (c : Csr) (l : Layout) (s t : Expand) : Type 0 where
  pub reading : IsReading c l t
  pub same : reads_left c l t ≡ reads_left c l s
  pub down_eq : down t ≡ down s

pub Moves-refl : {c : Csr} {l : Layout} (s : Expand) → IsReading c l s → Moves c l s s
Moves-refl s r = record { reading = r; same = refl; down_eq = refl }

-- The turn does not fail, and its result has the property.
abbrev pub Succeeds {ℓ} : {A : Type ℓ} → (A → Type 0) → Option A → Type 0
Succeeds P none = ⊥
Succeeds P (some a) = P a

module _ {T : Type 0} (creating : Option Access) (p : Port T) where
  pub lens_left-send : lens_left creating (send p) ≡ lens_left creating p
  unfolding lens_left
  lens_left-send = ap (λ r. r ++ held access_len creating) (contents-send access_len reply_len p)

  pub lens_left-receive :
      (load : Access → List T) → lens_left creating (receive load p) ≡ lens_left creating p
  unfolding lens_left
  lens_left-receive load =
      ap (λ r. r ++ held access_len creating)
        (contents-receive access_len reply_len load p (λ a. refl))

  pub lens_left-push_req : (a : Access) → lens_left none (push_req p a) ≡ lens_left (some a) p
  unfolding lens_left
  lens_left-push_req a = append-nil _ ∙ contents-push_req access_len reply_len p a

  -- A new burst of whole words.
  pub all_words-some :
      (a : Access)
      → a.len % 4 ≡ 0
      → all_words (lens_left none p) ≡ true
      → all_words (lens_left (some a) p) ≡ true
  unfolding lens_left all_words
  all_words-some a e h =
      let f = all_words-append (contents access_len reply_len p) (a.len ∷ []) in
      let g = all_words-append (contents access_len reply_len p) [] in ground (arith, e, f, g, h)

  -- The answer at the front.
  pub lens_left-cons :
      (r : Reply T) (rest : List (Reply T))
      → p.resp ≡ r ∷ rest
      → lens_left creating p ≡ r.access.len ∷ lens_left creating (record p { resp = rest })
  unfolding lens_left contents flat
  lens_left-cons r rest e =
      ap
        (λ q.
          (flat reply_len q ++ (flat access_len p.flight ++ flat access_len p.req))
          ++ held access_len creating)
        e
