-- ===== src/Application/Planning/Graph.antt =====
-- Paths of task dependencies.
use community_stack.Common.{
  String, sym, subst, List, [], ◌∷◌, ◌++◌, In, In-append_one, ◌⊎◌, inl, inr,
}
use community_stack.Application.Planning.{Edge}

-- A walk of any length along the edges of a list.
pub data Walk (es : List Edge) : String → String → Type 0 where
  stop : {a : String} → Walk es a a
  step : {b : String} (e : Edge) → In e es → Walk es e.to b → Walk es e.from b

-- No walk along at least one edge returns to its start.
abbrev pub IsAcyclic : List Edge → Type 0
IsAcyclic es = (e : Edge) → In e es → Walk es e.to e.from → ⊥

pub Walk-trans : (es : List Edge) {a b c : String} → Walk es a b → Walk es b c → Walk es a c
Walk-trans es stop w = w
Walk-trans es (step e m v) w = step e m (Walk-trans es v w)

pub Walk-snoc :
    (es : List Edge) (e : Edge) {a : String} → Walk es a e.from → In e es → Walk es a e.to
Walk-snoc es e w m = Walk-trans es w (step e m stop)

-- A walk with one more edge keeps to the old ones, or goes through the new one.
split-Walk :
    (es : List Edge) (n : Edge) {a b : String}
    → Walk (es ++ n ∷ []) a b
    → Walk es a b ⊎ (Walk (es ++ n ∷ []) a n.from × Walk (es ++ n ∷ []) n.to b)
split-Walk es n stop = inl stop
split-Walk es n (step {b = b} e m w) = elim (split-Walk es n w) [
  | inr v ↦ inr (step e m v.0, v.1)
  | inl v ↦ elim (In-append_one e n es m) [
    | inl old ↦ inl (step e old v)
    | inr same ↦ inr (
      subst (λ (x : Edge). Walk (es ++ n ∷ []) x.from n.from) same stop,
      subst (λ (x : Edge). Walk (es ++ n ∷ []) x.to b) (sym same) w,
    )
  ]
]

-- A new edge keeps a graph acyclic exactly if no walk leads from its end to its start.
pub IsAcyclic-extend :
    (es : List Edge) (n : Edge)
    → IsAcyclic es
    → (Walk (es ++ n ∷ []) n.to n.from → ⊥)
    → IsAcyclic (es ++ n ∷ [])
IsAcyclic-extend es n acyclic apart e m w = elim (In-append_one e n es m) [
  | inr same ↦ apart (subst (λ (x : Edge). Walk (es ++ n ∷ []) x.to x.from) (sym same) w)
  | inl old ↦ elim (split-Walk es n w) [
    | inl v ↦ acyclic e old v
    | inr v ↦ apart (Walk-trans (es ++ n ∷ []) v.1 (step e m v.0))
  ]
]

Walk-mono :
    (es fs : List Edge) {a b : String}
    → ((e : Edge) → In e es → In e fs)
    → Walk es a b
    → Walk fs a b
Walk-mono es fs h stop = stop
Walk-mono es fs h (step e m w) = step e (h e m) (Walk-mono es fs h w)

-- Fewer edges make no cycle.
pub IsAcyclic-mono :
    (es fs : List Edge) → ((e : Edge) → In e es → In e fs) → IsAcyclic fs → IsAcyclic es
IsAcyclic-mono es fs h acyclic e m w = acyclic e (h e m) (Walk-mono es fs h w)
