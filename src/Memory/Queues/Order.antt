-- ===== src/Memory/Queues/Order.antt =====
-- The bursts of a port are answered in the order in which they were accepted.
use graph_accelerator.Common.{
  ℕ, ◌≡◌, refl, sym, ap, ◌∙◌, ◌==◌, leb, List, [], ◌∷◌, ◌++◌, Option, none, some, if◌then◌else◌,
  get_elem?, contains, Bool-cases, Option-cases, inl, inr, arith, update, ltb, length, true, false,
}
use mathlib.Core.List.{append_assoc, append-nil}
use graph_accelerator.Burst.{Geometry}
use graph_accelerator.Burst.Requests.{Request, convert_to_req}
use graph_accelerator.Memory.Queues.{Wrapper, accept, complete, respond, transfer}
use mathlib.Core.Logic.{◌⊎◌}

-- What a signal shows.
abbrev pub shown : Option ℕ → List ℕ
shown none = []
shown (some b) = b ∷ []

-- The answer of a turn at port `p`: where its queue has become shorter, what the signal of the port then
-- shows.
unfoldable pub answer : ℕ → Wrapper → Wrapper → List ℕ
answer p w w' =
    if ltb (length (w'.burst_req_queue p)) (length (w.burst_req_queue p))
    then shown (w'.burst_resp p)
    else []

unfoldable pub last : List ℕ → Option ℕ
last [] = none
last (x ∷ []) = some x
last (x ∷ y ∷ ys) = last (y ∷ ys)

-- An interleaving of the threads from a state whose queue of port `p` is empty and whose signal there
-- shows no burst, with the bursts that the port accepted and the answers that its signal showed.
pub data Run (g : Geometry) (p : ℕ) : Wrapper → List ℕ → List ℕ → Type 0 where
  start : {w : Wrapper} → w.burst_req_queue p ≡ [] → w.burst_resp p ≡ none → Run g p w [] []
  accepts :
      {w w' : Wrapper} {accepted sent : List ℕ} (i b : ℕ)
      → Run g p w accepted sent
      → accept g i b w ≡ some w'
      → Run g p w' (if i == p then accepted ++ b ∷ [] else accepted) sent
  completes :
      {w : Wrapper} {accepted sent : List ℕ} (r : Request)
      → Run g p w accepted sent
      → Run g p (complete r w) accepted sent
  responds :
      {w w' : Wrapper} {accepted sent : List ℕ} (now i : ℕ)
      → Run g p w accepted sent
      → respond now i w ≡ some w'
      → Run g p w' accepted (sent ++ answer p w w')

-- The queue of the port in a result.
queue_of : ℕ → Option Wrapper → List ℕ
queue_of p none = []
queue_of p (some w) = w.burst_req_queue p

accept-queue :
    (g : Geometry) (i b p : ℕ) (w w' : Wrapper)
    → accept g i b w ≡ some w'
    → w'.burst_req_queue p ≡ (if i == p then w.burst_req_queue i ++ b ∷ [] else w.burst_req_queue p)
unfolding accept queue_of
accept-queue g i b p w w' e = elim (Option-cases (get_elem? w.bursts b)) [
  | inl none_op ↦ cc (rw (none_op, accept) at e)
  | inr (op, some_op) ↦ elim (Option-cases (convert_to_req g op w.req_queue)) [
    | inl none_req ↦ cc (rw (some_op, none_req, accept) at e)
    | inr (q, some_req) ↦ sym (ap (queue_of p) (rw (some_op, some_req, accept) at e))
  ]
]

accept-signal :
    (g : Geometry) (i b p : ℕ) (w w' : Wrapper)
    → accept g i b w ≡ some w'
    → w'.burst_resp p ≡ w.burst_resp p
unfolding accept
accept-signal g i b p w w' e = elim (Option-cases (get_elem? w.bursts b)) [
  | inl none_op ↦ cc (rw (none_op, accept) at e)
  | inr (op, some_op) ↦ elim (Option-cases (convert_to_req g op w.req_queue)) [
    | inl none_req ↦ cc (rw (some_op, none_req, accept) at e)
    | inr (q, some_req) ↦ sym (ap (signal_of p) (rw (some_op, some_req, accept) at e))
  ]
]
  where
    signal_of : ℕ → Option Wrapper → Option ℕ
    signal_of p none = none
    signal_of p (some w) = w.burst_resp p

List-cases : (xs : List ℕ) → (xs ≡ []) ⊎ ((x : ℕ) × (rest : List ℕ) × (xs ≡ x ∷ rest))
List-cases [] = inl refl
List-cases (x ∷ xs) = inr (x, xs, refl)

-- What a turn of `respond` does to a port: it shows nothing or what it showed before, or the front of its
-- queue, which it takes from there.
abbrev IsTurn : List ℕ → Option ℕ → List ℕ → Option ℕ → Type 0
IsTurn old shows new shows' =
    ((new ≡ old) × ((shows' ≡ none) ⊎ (shows' ≡ shows)))
    ⊎ ((b : ℕ) × (old ≡ b ∷ new) × (shows' ≡ some b))

abbrev Responds : ℕ → Wrapper → Option Wrapper → Type 0
Responds p w none = Unit
Responds p w (some w') =
    IsTurn (w.burst_req_queue p) (w.burst_resp p) (w'.burst_req_queue p) (w'.burst_resp p)

-- The signal of port `i` is cleared.
cleared : (i p : ℕ) (old : List ℕ) (f : ℕ → Option ℕ) → IsTurn old (f p) old (update f i none p)
cleared i p old f = elim (Bool-cases (i == p)) [
  | inl e ↦ inl (refl, inl (rw e refl))
  | inr e ↦ inl (refl, inr (rw e refl))
]

-- The front of port `i` is answered.
taken :
    (i p idx : ℕ) (rest : List ℕ) (q : ℕ → List ℕ) (f : ℕ → Option ℕ)
    → q i ≡ idx ∷ rest
    → IsTurn (q p) (f p) (update q i rest p) (update f i (some idx) p)
taken i p idx rest q f front = elim (Bool-cases (i == p)) [
  | inl e ↦ let same : p ≡ i = ground arith in inr (idx, rw (e, same) front, rw e refl)
  | inr e ↦ inl (rw e refl, inr (rw e refl))
]

respond-Responds : (now i p : ℕ) (w : Wrapper) → Responds p w (respond now i w)
unfolding respond
respond-Responds now i p w = elim (List-cases (w.burst_req_queue i)) [
  | inl empty ↦ rw (empty, respond) (cleared i p (w.burst_req_queue p) w.burst_resp)
  | inr (idx, rest, front) ↦ elim (Bool-cases (contains idx (w.burst_resp_queue i))) [
    | inr waits ↦ rw (front, waits, respond) (cleared i p (w.burst_req_queue p) w.burst_resp)
    | inl ready ↦ elim (Option-cases (get_elem? w.bursts idx)) [
      | inl gone ↦ rw (front, ready, gone, respond) tt
      | inr (op, is_op) ↦ elim (Bool-cases (leb op.depart_mem_time now)) [
        | inr early ↦ rw (front, ready, is_op, early, respond) (inl (refl, inr refl))
        | inl due ↦ elim (Option-cases (transfer idx op w)) [
          | inl fault ↦ rw (front, ready, is_op, due, fault, respond) tt
          | inr (w', moved) ↦
              rw (front, ready, is_op, due, moved, respond)
                (taken i p idx rest w.burst_req_queue w.burst_resp front)
        ]
      ]
    ]
  ]
]

accepted_more :
    (i p b : ℕ) (accepted sent old new tail : List ℕ)
    → accepted ≡ sent ++ old
    → new ≡ (if i == p then tail ++ b ∷ [] else old)
    → (i ≡ p → tail ≡ old)
    → (if i == p then accepted ++ b ∷ [] else accepted) ≡ sent ++ new
accepted_more i p b accepted sent old new tail before e same = elim (Bool-cases (i == p)) [
  | inl c ↦
      let at : i ≡ p = ground arith in
      let e' : new ≡ tail ++ b ∷ [] = rw c at e in
      rw (c, e', same at, before) (append_assoc sent old (b ∷ []))
  | inr c ↦ let e' : new ≡ old = rw c at e in rw (c, e') before
]

last-concat : (xs : List ℕ) (x : ℕ) → last (xs ++ x ∷ []) ≡ some x
unfolding last
last-concat [] x = refl
last-concat (y ∷ []) x = refl
last-concat (y ∷ z ∷ xs) x = last-concat (z ∷ xs) x

answer-kept :
    (p : ℕ) (w w' : Wrapper) → w'.burst_req_queue p ≡ w.burst_req_queue p → answer p w w' ≡ []
unfolding answer
answer-kept p w w' e =
    let n = ap length e in
    let t : ltb (length (w'.burst_req_queue p)) (length (w.burst_req_queue p)) ≡ false =
      ground (arith, n) in
    rw t refl

answer-taken :
    (p b : ℕ) (w w' : Wrapper)
    → w.burst_req_queue p ≡ b ∷ w'.burst_req_queue p
    → w'.burst_resp p ≡ some b
    → answer p w w' ≡ b ∷ []
unfolding answer
answer-taken p b w w' e f =
    let n = ap length e in
    let t : ltb (length (w'.burst_req_queue p)) (length (w.burst_req_queue p)) ≡ true =
      ground (arith, n) in
    rw (t, f) refl

-- The signal shows nothing or the last answer.
abbrev pub ShowsLast : Option ℕ → List ℕ → Type 0
ShowsLast shows sent = (shows ≡ none) ⊎ (shows ≡ last sent)

answered_more :
    (p : ℕ) (w w' : Wrapper) (accepted sent : List ℕ)
    → Responds p w (some w')
    → accepted ≡ sent ++ w.burst_req_queue p
    → ShowsLast (w.burst_resp p) sent
    → (accepted ≡ (sent ++ answer p w w') ++ w'.burst_req_queue p)
      × ShowsLast (w'.burst_resp p) (sent ++ answer p w w')
answered_more p w w' accepted sent (inl (kept, shows)) before was =
    let none_more : sent ++ answer p w w' ≡ sent =
      ap (λ r. sent ++ r) (answer-kept p w w' kept) ∙ append-nil sent in
    (
      rw (none_more, kept) before,
      rw none_more (elim shows [
        | inl e ↦ inl e
        | inr e ↦ elim was [ inl k ↦ inl (e ∙ k) | inr k ↦ inr (e ∙ k) ]
      ]),
    )
answered_more p w w' accepted sent (inr (b, front, shows)) before was =
    let one_more = answer-taken p b w w' front shows in
    (
      before
          ∙ ap (λ r. sent ++ r) front
          ∙ sym (append_assoc sent (b ∷ []) (w'.burst_req_queue p))
          ∙ ap (λ r. (sent ++ r) ++ w'.burst_req_queue p) (sym one_more),
      rw one_more (inr (shows ∙ sym (last-concat sent b))),
    )

-- Over every interleaving of `getBurstReq`, the completion of requests and `sendBurstResp` that begins
-- with an empty queue and no burst in the signal, the bursts accepted at a port are those that its signal
-- showed in the turns that took one from the queue, followed by those still in the queue: they are
-- answered in their order, and none is lost or made up. At any other time the signal shows no burst or
-- still the last answer.
pub Run-in_order :
    {g : Geometry} {p : ℕ} {w : Wrapper} {accepted sent : List ℕ}
    → Run g p w accepted sent
    → (accepted ≡ sent ++ w.burst_req_queue p) × ShowsLast (w.burst_resp p) sent
unfolding complete
Run-in_order (start empty off) = (sym empty, inl off)
Run-in_order {g} {p} (accepts {w} {w'} {accepted} {sent} i b run e) =
    let (before, was) = Run-in_order run in
    (
      accepted_more i p b accepted sent (w.burst_req_queue p) (w'.burst_req_queue p)
          (w.burst_req_queue i) before (accept-queue g i b p w w' e)
          (λ same. ap w.burst_req_queue same),
      rw (accept-signal g i b p w w' e) was,
    )
Run-in_order {p} (completes r run) = Run-in_order run
Run-in_order {p} (responds {w} {w'} {accepted} {sent} now i run e) =
    let (before, was) = Run-in_order run in
    answered_more p w w' accepted sent (rw e at (respond-Responds now i p w)) before was
