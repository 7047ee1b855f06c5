-- ===== src/Edge/Resume/Told.antt =====
-- pkg/edge/resume.go: which half a half is told of, and the steps that tell it nothing new.
use outrelay_relay.Common.{
  ℕ, none, some, arith, ◌≡◌, inl, inr, ◌⊎◌, Option, get, Dict, Option-cases, ◌∙◌, nat_eq, get-put,
  Bool-cases, subst, eq_iff, ap, ◌==◌, sym,
}
use outrelay_relay.Edge.Resume.{ResumeMatcher, HalfStream, resumed, update, read_matched}

abbrev pub id_of : Option HalfStream → Option ℕ
id_of none = none
id_of (some x) = some x.id

-- The half that this one is told of: in its channel, or read by its handler.
abbrev pub IsTold : HalfStream → ℕ → Type 0
IsTold x p = (x.message ≡ some p) ⊎ (x.handler ≡ resumed p)

-- A parked half waits under its own id, and a half is only told of a half with the same id.
pub record Inv (m : ResumeMatcher) : Type 0 where
  pub parked : (id h : ℕ) → get id m.pending ≡ some h → id_of (get h m.halves) ≡ some id
  pub paired :
      (h p : ℕ) (x : HalfStream)
      → get h m.halves ≡ some x
      → IsTold x p
      → id_of (get p m.halves) ≡ some x.id

-- A change of a half that keeps its id and tells it nothing.
pub record IsQuiet (f : HalfStream → HalfStream) : Type 0 where
  pub same_id : (x : HalfStream) → (f x).id ≡ x.id
  pub told : (x : HalfStream) (p : ℕ) → IsTold (f x) p → IsTold x p

pub read_matched-IsQuiet : IsQuiet read_matched
unfolding read_matched
read_matched-IsQuiet = record { same_id = λ x. ground arith; told = λ x p t. ground arith }

pub id_of-update :
    (h j : ℕ) (f : HalfStream → HalfStream) (halves : Dict ℕ HalfStream)
    → ((x : HalfStream) → (f x).id ≡ x.id)
    → id_of (get j (update h f halves)) ≡ id_of (get j halves)
unfolding update
id_of-update h j f halves q = elim (Option-cases (get h halves)) [
  | inl missing ↦ ground arith
  | inr (x, found) ↦ ground (arith, get-put h j (f x) halves, q x, eq_iff h j)
]

pub get-update_cases :
    (h j : ℕ) (f : HalfStream → HalfStream) (halves : Dict ℕ HalfStream) (y : HalfStream)
    → get j (update h f halves) ≡ some y
    → (get j halves ≡ some y) ⊎ ((x : HalfStream) × (get j halves ≡ some x) × (y ≡ f x) × (h ≡ j))
unfolding update
get-update_cases h j f halves y found = elim (Option-cases (get h halves)) [
  | inl missing ↦ inl (ground arith)
  | inr (x, at) ↦ elim (Bool-cases (h == j)) [
    | inl same ↦ inr (
      x,
      ground (arith, eq_iff h j),
      ground (arith, get-put h j (f x) halves),
      ground (arith, eq_iff h j),
    )
    | inr other ↦ inl (ground (arith, get-put h j (f x) halves))
  ]
]

pub quiet-Inv :
    (h : ℕ) (f : HalfStream → HalfStream) (m : ResumeMatcher) (pending : Dict ℕ ℕ)
    → IsQuiet f
    → ((id j : ℕ) → get id pending ≡ some j → get id m.pending ≡ some j)
    → Inv m
    → Inv (record { pending = pending; halves = update h f m.halves })
quiet-Inv h f m pending q fewer v = record {
  parked = λ id j e. id_of-update h j f m.halves q.same_id ∙ v.parked id j (fewer id j e);
  paired = λ j p y found t. elim (get-update_cases h j f m.halves y found) [
    | inl old ↦ id_of-update h p f m.halves q.same_id ∙ v.paired j p y old t
    | inr (x, old, e, _) ↦
        id_of-update h p f m.halves q.same_id
        ∙ v.paired j p x old (q.told x p (subst (λ z. IsTold z p) e t))
        ∙ ap some (sym (ap (λ z. z.id) e ∙ q.same_id x))
  ];
}
