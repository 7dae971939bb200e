-- ===== src/Pe/Port/Flow.antt =====
-- What a port holds, in the order in which it arrives.
use graph_accelerator.Common.{
  ◌≡◌, refl, sym, List, [], ◌∷◌, ◌++◌, Option, none, some, inl, inr, ◌⊎◌, ap, ◌∙◌,
}
use mathlib.Core.List.{append_assoc, append-nil}
use graph_accelerator.Pe.Port.{Access, Reply, Port, push_req, send, receive}

pub List-cases {ℓ} :
    {A : Type ℓ} (xs : List A) → (xs ≡ []) ⊎ ((x : A) × (rest : List A) × (xs ≡ x ∷ rest))
List-cases [] = inl refl
List-cases (x ∷ xs) = inr (x, xs, refl)

module _ {ℓ κ} {A : Type ℓ} {B : Type κ} where
  unfoldable pub flat : (A → List B) → List A → List B
  flat f [] = []
  flat f (x ∷ xs) = f x ++ flat f xs

  pub flat-append : (f : A → List B) (xs ys : List A) → flat f (xs ++ ys) ≡ flat f xs ++ flat f ys
  unfolding flat
  flat-append f [] ys = refl
  flat-append f (x ∷ xs) ys =
      ap (λ r. f x ++ r) (flat-append f xs ys) ∙ sym (append_assoc (f x) (flat f xs) (flat f ys))

  abbrev pub held : (A → List B) → Option A → List B
  held f none = []
  held f (some a) = f a

module _ {κ} {T : Type 0} {B : Type κ} (ask : Access → List B) (got : Reply T → List B) where
  -- The answers, then the bursts in the memory, then those on their way to it.
  unfoldable pub contents : Port T → List B
  contents p = flat got p.resp ++ (flat ask p.flight ++ flat ask p.req)

  pub contents-push_req : (p : Port T) (a : Access) → contents (push_req p a) ≡ contents p ++ ask a
  unfolding contents flat
  contents-push_req p a = simp (flat-append, append_assoc, append-nil, flat)

  pub contents-send : (p : Port T) → contents (send p) ≡ contents p
  unfolding contents send flat
  contents-send p = elim (List-cases p.req) [
    | inl e ↦ rw (e, send) (ap (λ q. flat got p.resp ++ (flat ask p.flight ++ flat ask q)) e)
    | inr (a, rest, e) ↦ rw (e, send) (simp (flat-append, append_assoc, append-nil, flat))
  ]

  -- An answer stands for its burst.
  pub contents-receive :
      (load : Access → List T) (p : Port T)
      → ((a : Access) → got (record { access = a; values = load a }) ≡ ask a)
      → contents (receive load p) ≡ contents p
  unfolding contents receive flat
  contents-receive load p same = elim (List-cases p.flight) [
    | inl e ↦ rw (e, receive) (ap (λ q. flat got p.resp ++ (flat ask q ++ flat ask p.req)) e)
    | inr (a, rest, e) ↦ rw (e, receive) (simp (flat-append, append_assoc, append-nil, flat, same))
  ]
