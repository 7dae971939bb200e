-- ===== src/Pe/Inspect/Arrive.antt =====
-- The depths arrive once each and in order, whatever the order of the turns.
use graph_accelerator.Common.{
  ℕ, zero, suc, ◌+◌, ◌-◌, ◌≤◌, ◌≡◌, refl, sym, ap, ◌∙◌, true, ltb, List, [], ◌∷◌, ◌++◌, ℤ, inl, inr,
  arith, length, Bool-cases, Bool, ◌&&◌,
}
use mathlib.Core.List.{append_assoc, append-nil}
use graph_accelerator.Bfs.Depth.{depth_at}
use graph_accelerator.Pe.Inspect.{Partition, Issue, restart, actual_len, issue_turn}
use graph_accelerator.Pe.Port.{Access, Port, push_req, receive}
use graph_accelerator.Pe.Port.Flow.{
  List-cases, flat, contents, contents-push_req, contents-send, contents-receive, flat-append,
}
use graph_accelerator.Pe.Expand.Run.{load_depths, port_idle}
use graph_accelerator.Pe.Expand.Pending.{values_of}
use graph_accelerator.Pe.Expand.Reading.{access_len, reply_len}
use graph_accelerator.Pe.Expand.Level.Done.{contents-idle}
use graph_accelerator.Pe.Inspect.Response.{
  Lane, LaneAction, issues, sends, receives, responds, response_turn, lane_step, lane_run,
}
use graph_accelerator.Pe.Depths.{
  later_depths, later_depths_refl, later_depths-append, later_depths-load_depths,
  later_depths_trans,
}

pub load_depths-append :
    (d : List ℤ) (i n m : ℕ)
    → load_depths d i n ++ load_depths d (i + n) m ≡ load_depths d i (n + m)
unfolding load_depths
load_depths-append d i zero m =
    let e : i + 0 ≡ i = omega arith in
    let f : m ≡ 0 + m = omega arith in ap (λ k. load_depths d k m) e ∙ ap (load_depths d i) f
load_depths-append d i (suc n) m =
    let e : i + suc n ≡ suc i + n = omega arith in
    let f : suc (n + m) ≡ suc n + m = omega arith in
    ap (λ k. depth_at d i ∷ (load_depths d (suc i) n ++ load_depths d k m)) e
    ∙ ap (λ r. depth_at d i ∷ r) (load_depths-append d (suc i) n m)
    ∙ ap (load_depths d i) f

unfoldable sum : List ℕ → ℕ
sum [] = 0
sum (n ∷ ns) = n + sum ns

sum-append : (ms ns : List ℕ) → sum (ms ++ ns) ≡ sum ms + sum ns
unfolding sum
sum-append [] ns = omega arith
sum-append (m ∷ ms) ns = let e = sum-append ms ns in omega (arith, e)

actual_len-within :
    (base_len : ℕ) (p : Partition) (s : Issue)
    → ltb s.current_len p.max_len ≡ true
    → s.current_len + actual_len base_len p s ≤ p.max_len
unfolding actual_len
actual_len-within base_len p s more = ground (arith, more)

-- Every depth that arrives in a turn is the one of the beginning or the next depth over a -1.
unfoldable pub since_beginning : ℕ → List ℤ → List LaneAction → Bool
since_beginning level d [] = true
since_beginning level d (receives now ∷ rest) =
    later_depths level d now && since_beginning level d rest
since_beginning level d (issues size idx ∷ rest) = since_beginning level d rest
since_beginning level d (sends ∷ rest) = since_beginning level d rest
since_beginning level d (responds ∷ rest) = since_beginning level d rest

since_beginning-cons :
    (level : ℕ) (d : List ℤ) (a : LaneAction) (rest : List LaneAction)
    → since_beginning level d (a ∷ rest) ≡ true
    → (since_beginning level d (a ∷ []) ≡ true) × (since_beginning level d rest ≡ true)
unfolding since_beginning
since_beginning-cons level d (receives now) rest h = (ground (arith, h), ground (arith, h))
since_beginning-cons level d (issues size idx) rest h = (refl, h)
since_beginning-cons level d sends rest h = (refl, h)
since_beginning-cons level d responds rest h = (refl, h)

module _ (base_len buffer_depth : ℕ) (p : Partition) (d : List ℤ) (depth_addr : ℕ) (level : ℕ)
    (above : depth_addr ≤ p.base) where
  abbrev load : Access → List ℤ
  load a = load_depths d (a.addr - depth_addr) a.len

  abbrev lens : Port ℤ → ℕ
  lens q = sum (contents access_len reply_len q)

  -- What has arrived, followed by what is asked for, is the partition as far as its reads are issued.
  record IsLane (n : Lane) : Type 0 where
    at : n.issue.mem_addr ≡ p.base + n.issue.current_len
    within : n.issue.current_len ≤ p.max_len
    data_left :
        later_depths level
          (load_depths d (p.base - depth_addr) n.issue.current_len)
          (n.buffer ++ contents load values_of n.port)
        ≡ true
    len_left : n.total_len + lens n.port ≡ n.issue.current_len

  IsLane-issues :
      (size idx : ℕ) (n : Lane)
      → IsLane n
      → IsLane (lane_step base_len buffer_depth p depth_addr (issues size idx) n)
  unfolding lane_step issue_turn sum
  IsLane-issues size idx n ok = elim (Bool-cases (ltb n.issue.current_len p.max_len)) [
    | inr done ↦ simp done ok
    | inl more ↦ elim (Bool-cases (ltb buffer_depth (size + actual_len base_len p n.issue))) [
      | inl full ↦ simp (more, full) ok
      | inr room ↦
          let len = actual_len base_len p n.issue in
          let inside : n.issue.current_len + len ≤ p.max_len =
            actual_len-within base_len p n.issue more in
          let at = ok.at in
          let new : Access = record { burst_idx = idx; addr = n.issue.mem_addr; len = len } in
          let i : n.issue.mem_addr - depth_addr ≡ (p.base - depth_addr) + n.issue.current_len =
            omega (arith, at, above) in
          let e = contents-push_req load values_of n.port new in
          let f =
            ap sum (contents-push_req access_len reply_len n.port new)
            ∙ sum-append (contents access_len reply_len n.port) (len ∷ []) in
          let g = ok.len_left in
          simp (more, room)
            (record {
              at = omega (arith, at);
              within = inside;
              data_left =
                  (let old = load_depths d (p.base - depth_addr) n.issue.current_len in
                    let now = n.buffer ++ contents load values_of n.port in
                    let more' : load_depths d (p.base - depth_addr) (n.issue.current_len + len)
                        ≡ old ++ load new =
                      sym (
                        ap (λ k. old ++ load_depths d k len) i
                        ∙ load_depths-append d (p.base - depth_addr) n.issue.current_len len) in
                    let now' : n.buffer ++ contents load values_of (push_req n.port new)
                        ≡ now ++ load new =
                      ap (λ r. n.buffer ++ r) e
                      ∙ sym (append_assoc n.buffer (contents load values_of n.port) (load new)) in
                    rw (more', now')
                      (later_depths-append level old (load new) now (load new) ok.data_left
                        (later_depths_refl level (load new))));
              len_left = omega (arith, f, g);
            })
    ]
  ]

  IsLane-responds : (n : Lane) → IsLane n → IsLane (response_turn n)
  unfolding response_turn contents flat sum
  IsLane-responds n ok = elim (List-cases n.port.resp) [
    | inl e ↦ simp (e, response_turn) ok
    | inr (r, rest, e) ↦
        let len = simp (e, contents, flat, sum) at ok.len_left in
        let data_left = simp (e, contents, flat, append_assoc) at ok.data_left in
        simp (e, response_turn)
          (record {
            at = ok.at;
            within = ok.within;
            data_left = simp append_assoc data_left;
            len_left = omega (arith, len);
          })
  ]

  -- The depths that arrive are of a later time than those the level began with.
  IsLane-receives :
      (now : List ℤ) (n : Lane)
      → later_depths level d now ≡ true
      → IsLane n
      → IsLane (lane_step base_len buffer_depth p depth_addr (receives now) n)
  unfolding lane_step contents flat receive sum
  IsLane-receives now n since ok = elim (List-cases n.port.flight) [
    | inl e ↦ simp (e, receive) ok
    | inr (a, rest, e) ↦
        let brings : Access → List ℤ = λ b. load_depths now (b.addr - depth_addr) b.len in
        let len : n.total_len + lens (receive brings n.port) ≡ n.issue.current_len =
          rw (contents-receive access_len reply_len brings n.port (λ b. refl)) ok.len_left in
        let data_left = simp (e, contents, flat, append_assoc) at ok.data_left in
        let before = n.buffer ++ flat values_of n.port.resp in
        let after = flat load rest ++ flat load n.port.req in
        let new = load_depths now (a.addr - depth_addr) a.len in
        let moved =
          later_depths-append level before (load a ++ after) before (new ++ after)
            (later_depths_refl level before)
            (later_depths-append level (load a) after new after
              (later_depths-load_depths level d now since (a.addr - depth_addr) a.len)
              (later_depths_refl level after)) in
        simp (e, receive)
          (record {
            at = ok.at;
            within = ok.within;
            data_left =
                simp (flat-append, append_assoc, append-nil, flat)
                  (later_depths_trans level _ _ _ data_left (simp append_assoc at moved));
            len_left = simp (e, receive) at len;
          })
  ]

  IsLane-step :
      (a : LaneAction) (n : Lane)
      → since_beginning level d (a ∷ []) ≡ true
      → IsLane n
      → IsLane (lane_step base_len buffer_depth p depth_addr a n)
  unfolding lane_step since_beginning
  IsLane-step (issues size idx) n h ok = IsLane-issues size idx n ok
  IsLane-step sends n h ok = record {
    at = ok.at;
    within = ok.within;
    data_left = rw (contents-send load values_of n.port) ok.data_left;
    len_left = rw (contents-send access_len reply_len n.port) ok.len_left;
  }
  IsLane-step (receives now) n h ok = IsLane-receives now n (ground (arith, h)) ok
  IsLane-step responds n h ok = IsLane-responds n ok

  IsLane-run :
      (actions : List LaneAction)
      → since_beginning level d actions ≡ true
      → IsLane (lane_run base_len buffer_depth p depth_addr actions)
  unfolding lane_run restart contents flat sum load_depths later_depths
  IsLane-run [] h = record {
    at = omega arith;
    within = omega arith;
    data_left = refl;
    len_left = omega arith;
  }
  IsLane-run (a ∷ before) h =
      let (now, earlier) = since_beginning-cons level d a before h in
      IsLane-step a _ now (IsLane-run before earlier)

  -- A partition whose reads are issued and whose port is idle has arrived.
  pub lane_run-done :
      (actions : List LaneAction)
      → since_beginning level d actions ≡ true
      → (lane_run base_len buffer_depth p depth_addr actions).issue.current_len ≡ p.max_len
      → port_idle (lane_run base_len buffer_depth p depth_addr actions).port ≡ true
      → (later_depths level
            (load_depths d (p.base - depth_addr) p.max_len)
            (lane_run base_len buffer_depth p depth_addr actions).buffer
          ≡ true)
        × ((lane_run base_len buffer_depth p depth_addr actions).total_len ≡ p.max_len)
  unfolding sum
  lane_run-done actions h e idle =
      let n = lane_run base_len buffer_depth p depth_addr actions in
      let ok = IsLane-run actions h in
      let none_left = contents-idle load values_of n.port idle in
      let no_lens = ap sum (contents-idle access_len reply_len n.port idle) in
      let lens_eq = ok.len_left in
      (simp (none_left, append-nil, e) at ok.data_left, omega (arith, lens_eq, no_lens, e))

pub load_depths-all :
    (d e : List ℤ) (i : ℕ)
    → ((k : ℕ) → depth_at e (k + i) ≡ depth_at d k)
    → load_depths e i (length d) ≡ d
unfolding load_depths
load_depths-all [] e i same = refl
load_depths-all (x ∷ d) e i same =
    let first : depth_at e i ≡ x = ap (depth_at e) (omega arith) ∙ same 0 in
    let rest = load_depths-all d e (suc i) (λ k. ap (depth_at e) (omega arith) ∙ same (suc k)) in
    cc (first, rest)
