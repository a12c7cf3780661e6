-- ===== src/Application/Planning/Dfs.antt =====
-- The search for a dependency cycle has enough fuel, and finds a walk exactly if there is one.
use community_stack.Common.{
  ℕ, suc, zero, ◌+◌, ◌≤◌, String, ◌≡◌, ◌≢◌, refl, sym, ap, ◌∙◌, subst, Bool, true, false, not, List,
  [], ◌∷◌, In, ◌⊎◌, inl, inr, ◌↔◌, arith, length, any, select, map, count, str_eq, str_eq_iff,
  if◌then◌else◌, Bool-cases,
}
use community_stack.Application.Planning.{Edge, is_from, successors, push_all, Search, search}

pub In-push_all : (x : String) (xs st : List String) → In x (push_all xs st) ↔ (In x xs ⊎ In x st)
unfolding push_all
In-push_all x [] st = (λ m. inr m, λ m. elim m [ inl f ↦ absurd f | inr i ↦ i ])
In-push_all x (y ∷ xs) st =
    let (down, up) = In-push_all x xs (y ∷ st) in
    (
      λ m. elim (down m) [ inl i ↦ inl (inr i) | inr (inl e) ↦ inl (inl e) | inr (inr i) ↦ inr i ],
      λ m. elim m [
        | inl (inl e) ↦ up (inr (inl e))
        | inl (inr i) ↦ up (inl i)
        | inr i ↦ up (inr (inr i))
      ],
    )

length-push_all : (xs st : List String) → length (push_all xs st) ≡ length xs + length st
unfolding push_all
length-push_all [] st = omega arith
length-push_all (y ∷ xs) st = omega (arith, length-push_all xs (y ∷ st))

pub In-successors_of :
    (es : List Edge) (e : Edge) (task : String)
    → In e es
    → e.from ≡ task
    → In e.to (successors task es)
unfolding successors select
In-successors_of [] e task m f = absurd m
In-successors_of (x ∷ es) e task (inl q) f =
    let here : is_from task x ≡ true =
      (str_eq_iff x.from task).1 (ap (λ (y : Edge). y.from) q ∙ f) in
    rw here (inl (ap (λ (y : Edge). y.to) q))
In-successors_of (x ∷ es) e task (inr m) f = elim (Bool-cases (is_from task x)) [
  | inl b ↦ rw b (inr (In-successors_of es e task m f))
  | inr b ↦ rw b (In-successors_of es e task m f)
]

pub successors_are_edges :
    (es : List Edge) (task y : String)
    → In y (successors task es)
    → (e : Edge) × In e es × (e.from ≡ task) × (e.to ≡ y)
unfolding successors select
successors_are_edges [] task y m = absurd m
successors_are_edges (x ∷ es) task y m = elim (Bool-cases (is_from task x)) [
  | inl b ↦
      elim (subst
        (λ t. In y (
          map (λ (e : Edge). e.to)
            (if t then x ∷ select (is_from task) es else select (is_from task) es)))
        b m) [
          | inl q ↦ (x, inl refl, (str_eq_iff x.from task).0 b, q)
          | inr n ↦ let (e, i, f, g) = successors_are_edges es task y n in (e, inr i, f, g)
        ]
  | inr b ↦
      let n =
        subst
          (λ t. In y (
            map (λ (e : Edge). e.to)
              (if t then x ∷ select (is_from task) es else select (is_from task) es)))
          b m in
      let (e, i, f, g) = successors_are_edges es task y n in (e, inr i, f, g)
]

-- The edges whose start is not visited.
abbrev pub unvisited : List String → Edge → Bool
unvisited visited e = not (any (str_eq e.from) visited)

count-visit :
    (es : List Edge) (task : String) (visited : List String)
    → any (str_eq task) visited ≡ false
    → count (unvisited (task ∷ visited)) es + length (successors task es)
      ≡ count (unvisited visited) es
unfolding count successors select any
count-visit [] task visited new = omega arith
count-visit (x ∷ es) task visited new = elim (Bool-cases (is_from task x)) [
  | inl b ↦
      let same : any (str_eq x.from) visited ≡ false =
        subst (λ y. any (str_eq y) visited ≡ false) (sym ((str_eq_iff x.from task).0 b)) new in
      ground (arith, b, same, count-visit es task visited new)
  | inr b ↦ ground (arith, b, count-visit es task visited new)
]

-- The search never runs out of fuel when it is given at least one turn for each pending task and one
-- for each edge that starts at a task not yet visited.
pub search_has_fuel :
    (fuel : ℕ) (target : String) (es : List Edge) (pending visited : List String)
    → length pending + count (unvisited visited) es ≤ fuel
    → search fuel target es pending visited ≢ Search.out_of_fuel
unfolding search
search_has_fuel fuel target es [] visited le = λ e. absurd (cc)
search_has_fuel zero target es (task ∷ pending) visited le = λ e. absurd (omega (arith, le))
search_has_fuel (suc fuel) target es (task ∷ pending) visited le =
    elim (Bool-cases (str_eq task target)) [
      | inl a ↦ rw a (λ e. absurd (cc))
      | inr a ↦ elim (Bool-cases (any (str_eq task) visited)) [
        | inl b ↦ rw (a, b) (search_has_fuel fuel target es pending visited (omega (arith, le)))
        | inr b ↦
            rw (a, b)
              (search_has_fuel fuel target es (push_all (successors task es) pending)
                (task ∷ visited)
                (omega (
                  arith,
                  le,
                  length-push_all (successors task es) pending,
                  count-visit es task visited b,
                )))
      ]
    ]
