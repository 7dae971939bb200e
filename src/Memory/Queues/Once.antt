-- ===== src/Memory/Queues/Once.antt =====
-- A burst is put into the response queue once, when the last of its requests is done.
use graph_accelerator.Common.{
  ℕ, suc, ◌+◌, ◌≡◌, refl, ◌∙◌, Bool, true, false, ◌&&◌, ◌==◌, ltb, leb, List, [], ◌∷◌, ◌++◌,
  if◌then◌else◌, Bool-cases, inl, inr, arith, count, count-concat, update,
}
use graph_accelerator.Burst.Requests.{Request}
use graph_accelerator.Memory.Queues.{Wrapper, complete}

-- The requests of the burst.
unfoldable pub requests_of : ℕ → List Request → ℕ
requests_of b [] = 0
requests_of b (r ∷ rs) = if b == r.burst_idx then suc (requests_of b rs) else requests_of b rs

unfoldable pub complete_all : List Request → Wrapper → Wrapper
complete_all [] w = w
complete_all (r ∷ rs) w = complete_all rs (complete r w)

-- The requests of the burst have one port.
abbrev pub HavePort : ℕ → ℕ → List Request → Type 0
HavePort b p [] = Unit {0}
HavePort b p (r ∷ rs) = (b == r.burst_idx ≡ true → r.port_idx ≡ p) × HavePort b p rs

update-suc : (f : ℕ → ℕ) (i b : ℕ) → update f i (f i + 1) b ≡ (if b == i then suc (f b) else f b)
update-suc f i b = elim (Bool-cases (b == i)) [
  | inl e ↦
      let same : i ≡ b = ground arith in
      let self : b == b ≡ true = ground arith in rw (same, self) (omega arith)
  | inr e ↦ let other : i == b ≡ false = ground arith in rw (e, other) refl
]

count-update :
    (q : ℕ → List ℕ) (b p x port : ℕ) (done : Bool)
    → (b == x ≡ true → port ≡ p)
    → count b ((if done then update q port (q port ++ x ∷ []) else q) p)
      ≡ (if b == x && done then suc (count b (q p)) else count b (q p))
count-update q b p x port false same = elim (Bool-cases (b == x)) [
  | inl e ↦ rw e refl
  | inr e ↦ rw e refl
]
count-update q b p x port true same = elim (Bool-cases (port == p)) [
  | inl e ↦
      let here : port ≡ p = ground arith in
      let self : p == p ≡ true = ground arith in
      rw (here, self) (count-concat b x (q p) ∙ both (b == x))
  | inr e ↦ let other : b == x ≡ false = ground (arith, same) in rw (e, other) refl
]
  where
    both :
        (t : Bool)
        → (if t then suc (count b (q p)) else count b (q p))
          ≡ (if t && true then suc (count b (q p)) else count b (q p))
    both true = refl
    both false = refl

-- The count of answers of a burst after a request of it (`mine`), at `n` done before, of `total`.
step_answers :
    (mine : Bool) (n total done answers k : ℕ)
    → (if mine && n + 1 == total then suc answers else answers)
        + (if ltb (if mine then suc n else n) total && leb total ((if mine then suc n else n) + k)
            then 1
            else 0)
      ≡ answers + (if ltb n total && leb total (n + (if mine then suc k else k)) then 1 else 0)
step_answers true n total done answers k = ground arith
step_answers false n total done answers k = ground arith

processed-complete :
    (b : ℕ) (r : Request) (w : Wrapper)
    → (complete r w).processed_req_num b
      ≡ (if b == r.burst_idx then suc (w.processed_req_num b) else w.processed_req_num b)
unfolding complete
processed-complete b r w = update-suc w.processed_req_num r.burst_idx b

total-complete : (r : Request) (w : Wrapper) → (complete r w).total_req_num ≡ w.total_req_num
unfolding complete
total-complete r w = refl

test_same :
    (b i : ℕ) (test : ℕ → Bool) (m n : ℕ)
    → (if b == i && test i then m else n) ≡ (if b == i && test b then m else n)
test_same b i test m n = elim (Bool-cases (b == i)) [
  | inl e ↦ let same : b ≡ i = ground arith in rw same refl
  | inr e ↦ rw e refl
]

answered-complete :
    (b p : ℕ) (r : Request) (w : Wrapper)
    → (b == r.burst_idx ≡ true → r.port_idx ≡ p)
    → count b ((complete r w).burst_resp_queue p) ≡ (
        if b == r.burst_idx && w.processed_req_num b + 1 == w.total_req_num b
        then suc (count b (w.burst_resp_queue p))
        else count b (w.burst_resp_queue p))
unfolding complete
answered-complete b p r w port =
    count-update w.burst_resp_queue b p r.burst_idx r.port_idx
      (w.processed_req_num r.burst_idx + 1 == w.total_req_num r.burst_idx) port
    ∙ test_same b r.burst_idx (λ x. w.processed_req_num x + 1 == w.total_req_num x) _ _

-- Whatever the order in which the requests of several bursts are done: if the requests of burst `b`
-- have port `p`, then after them the response queue of the port holds `b` once more if fewer than all of its
-- requests were done before and all are done now, and as often as before otherwise.
pub complete_all-once :
    (b p : ℕ) (rs : List Request) (w : Wrapper)
    → HavePort b p rs
    → count b ((complete_all rs w).burst_resp_queue p)
      ≡ count b (w.burst_resp_queue p)
        + (if ltb (w.processed_req_num b) (w.total_req_num b)
              && leb (w.total_req_num b) (w.processed_req_num b + requests_of b rs)
            then 1
            else 0)
unfolding complete_all requests_of complete
complete_all-once b p [] w port = ground arith
complete_all-once b p (r ∷ rs) w (here, rest) =
    let later = complete_all-once b p rs (complete r w) rest in
    let now =
      rw (answered-complete b p r w here, processed-complete b r w, total-complete r w) at later in
    now
    ∙ step_answers (b == r.burst_idx) (w.processed_req_num b) (w.total_req_num b) 0
        (count b (w.burst_resp_queue p)) (requests_of b rs)
