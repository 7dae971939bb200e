-- ===== src/Pe/Expand/Pending.antt =====
-- The targets that the expansion threads have still to take, in the order in which they will: each stage
-- holds what it has taken from the one before and not given to the next.
use graph_accelerator.Common.{
  ℕ, ◌-◌, ◌/◌, ◌≡◌, refl, sym, ap, ◌∙◌, Bool, true, not, List, [], ◌∷◌, ◌++◌, arith, slice,
}
use mathlib.Core.List.{append_assoc}
use graph_accelerator.Bfs.Csr.{Csr}
use graph_accelerator.Memory.Layout.{Layout}
use graph_accelerator.Pe.Port.{Reply}
use graph_accelerator.Pe.Port.Flow.{flat, held, contents}
use graph_accelerator.Pe.Expand.{CiaoLoop, Expand}
use graph_accelerator.Pe.Expand.Run.{load_words}

abbrev pub values_of : {T : Type 0} → Reply T → List T
values_of r = r.values

-- The offsets, two for each vertex.
abbrev pub offset_pair : Csr → ℕ → List ℕ
offset_pair c u = slice c.rpao u 2

unfoldable pub offsets_left : Csr → Layout → Expand → List ℕ
offsets_left c l s =
    s.rpao_buffer
    ++ (contents (load_words c.rpao l.rpao) values_of s.rpao_port
        ++ (held (load_words c.rpao l.rpao) s.rpao_creating
            ++ flat (offset_pair c) s.frontier_buffer))

-- The targets between each two offsets.
unfoldable pub rows : Csr → List ℕ → List ℕ
rows c [] = []
rows c (src ∷ []) = []
rows c (src ∷ dst ∷ rest) = slice c.ciao src (dst - src) ++ rows c rest

abbrev pub chunks_left : Csr → Layout → CiaoLoop → List ℕ
chunks_left c l p = slice c.ciao ((p.mem_addr - l.ciao) / 4) ((p.max_len - p.len) / 4)

-- From the targets that are read to the rows that the loop has not begun.
unfoldable pub reads_left : Csr → Layout → Expand → List ℕ
reads_left c l s =
    s.ciao_buffer
    ++ (contents (load_words c.ciao l.ciao) values_of s.ciao_port
        ++ (held (load_words c.ciao l.ciao) s.ciao_creating
            ++ (held (chunks_left c l) s.ciao_loop ++ rows c (offsets_left c l s))))

unfoldable pub pending : Csr → Layout → Expand → List ℕ
pending c l s = s.vidx_buffer ++ reads_left c l s

-- A list of an even length.
unfoldable pub is_even : List ℕ → Bool
is_even [] = true
is_even (x ∷ xs) = not (is_even xs)

pub rows-append :
    (c : Csr) (xs ys : List ℕ) → is_even xs ≡ true → rows c (xs ++ ys) ≡ rows c xs ++ rows c ys
unfolding rows is_even
rows-append c [] ys h = refl
rows-append c (x ∷ []) ys h = cc
rows-append c (x ∷ y ∷ xs) ys h =
    ap (λ r. slice c.ciao x (y - x) ++ r) (rows-append c xs ys (ground (arith, h)))
    ∙ sym (append_assoc (slice c.ciao x (y - x)) (rows c xs) (rows c ys))

pub is_even-append : (xs ys : List ℕ) → is_even ys ≡ true → is_even (xs ++ ys) ≡ is_even xs
unfolding is_even
is_even-append [] ys h = h
is_even-append (x ∷ xs) ys h = ap not (is_even-append xs ys h)
