-- ===== src/Application/Planning/Cycle.antt =====
-- `reject_dependency_cycle` accepts a dependency exactly if the graph stays acyclic.
use community_stack.Common.{
  ℕ, suc, zero, String, ◌≡◌, ◌≢◌, refl, sym, ap, subst, true, List, [], ◌∷◌, In, In-last, ◌⊎◌, inl,
  inr, ◌↔◌, arith, length, any, any-In, str_eq, str_eq_iff, Bool-cases, count-le,
}
use community_stack.Domain.Planning.{PutDependency, PlanningCatalog}
use community_stack.Failure.{ok}
use community_stack.Application.Planning.{
  Edge, kept_edges, request_edge, edges, successors, push_all, Search, search, verdict,
  reject_dependency_cycle,
}
use community_stack.Application.Planning.Graph.{
  Walk, stop, step, Walk-snoc, IsAcyclic, IsAcyclic-extend,
}
use community_stack.Application.Planning.Dfs.{
  In-push_all, In-successors_of, successors_are_edges, unvisited, search_has_fuel,
}

-- From what is visited, one edge leads only to what is visited or pending.
abbrev IsClosed : List Edge → List String → List String → Type 0
IsClosed es pending visited =
    (e : Edge) → In e es → In e.from visited → In e.to visited ⊎ In e.to pending

visited-In :
    (task : String) (visited : List String) → any (str_eq task) visited ≡ true → In task visited
visited-In task visited b =
    let (x, m, e) = any-In (str_eq task) visited b in
    subst (λ y. In y visited) (sym ((str_eq_iff task x).0 e)) m

-- A search that is exhausted has met every task that a walk leads to, and the target is none of them.
pub exhausted_apart :
    (fuel : ℕ) (target : String) (es : List Edge) (pending visited : List String)
    → search fuel target es pending visited ≡ Search.exhausted
    → IsClosed es pending visited
    → ((v : String) → In v visited → v ≢ target)
    → (x y : String) → In x pending ⊎ In x visited
    → Walk es x y
    → y ≢ target
unfolding search
exhausted_apart fuel target es [] visited e closed clean x y (inl m) w = absurd m
exhausted_apart fuel target es [] visited e closed clean x y (inr m) stop = clean x m
exhausted_apart fuel target es [] visited e closed clean x y (inr m) (step d i w) =
    elim (closed d i m) [
      | inl v ↦ exhausted_apart fuel target es [] visited e closed clean d.to y (inr v) w
      | inr f ↦ absurd f
    ]
exhausted_apart zero target es (task ∷ pending) visited e closed clean x y m w = absurd (cc)
exhausted_apart (suc fuel) target es (task ∷ pending) visited e closed clean x y m w =
    elim (Bool-cases (str_eq task target)) [
      | inl a ↦ absurd (ground (arith, a, e))
      | inr a ↦
          let other : task ≢ target =
            λ q. absurd (ground (arith, (str_eq_iff task target).1 q, a)) in
          elim (Bool-cases (any (str_eq task) visited)) [
            | inl b ↦
                let there = visited-In task visited b in
                exhausted_apart fuel target es pending visited (ground (arith, a, b, e))
                  (λ d i v. elim (closed d i v) [
                    | inl k ↦ inl k
                    | inr (inl q) ↦ inl (subst (λ z. In z visited) q there)
                    | inr (inr k) ↦ inr k
                  ])
                  clean x y
                  (elim m [
                    | inl (inl q) ↦ inr (subst (λ z. In z visited) q there)
                    | inl (inr k) ↦ inl k
                    | inr k ↦ inr k
                  ])
                  w
            | inr b ↦
                let add = λ (z : String). (In-push_all z (successors task es) pending).1 in
                exhausted_apart fuel target es (push_all (successors task es) pending)
                  (task ∷ visited) (ground (arith, a, b, e))
                  (λ d i v. elim v [
                    | inl q ↦ inr (add d.to (inl (In-successors_of es d task i (sym q))))
                    | inr k ↦ elim (closed d i k) [
                      | inl l ↦ inl (inr l)
                      | inr (inl q) ↦ inl (inl q)
                      | inr (inr l) ↦ inr (add d.to (inr l))
                    ]
                  ])
                  (λ v k. elim k [ inl q ↦ subst (λ z. z ≢ target) q other | inr l ↦ clean v l ]) x
                  y
                  (elim m [
                    | inl (inl q) ↦ inr (inl q)
                    | inl (inr k) ↦ inl (add x (inr k))
                    | inr k ↦ inr (inr k)
                  ])
                  w
          ]
    ]

-- A search that finds the target has a walk to it.
pub found-Walk :
    (fuel : ℕ) (source target : String) (es : List Edge) (pending visited : List String)
    → search fuel target es pending visited ≡ Search.found
    → ((x : String) → In x pending → Walk es source x)
    → Walk es source target
unfolding search
found-Walk fuel source target es [] visited e walks = absurd (cc)
found-Walk zero source target es (task ∷ pending) visited e walks = absurd (cc)
found-Walk (suc fuel) source target es (task ∷ pending) visited e walks =
    elim (Bool-cases (str_eq task target)) [
      | inl a ↦ subst (Walk es source) ((str_eq_iff task target).0 a) (walks task (inl refl))
      | inr a ↦ elim (Bool-cases (any (str_eq task) visited)) [
        | inl b ↦
            found-Walk fuel source target es pending visited (ground (arith, a, b, e))
              (λ x m. walks x (inr m))
        | inr b ↦
            found-Walk fuel source target es (push_all (successors task es) pending)
              (task ∷ visited) (ground (arith, a, b, e))
              (λ x m. elim ((In-push_all x (successors task es) pending).0 m) [
                | inr k ↦ walks x (inr k)
                | inl k ↦
                    let (d, i, f, g) = successors_are_edges es task x k in
                    subst (Walk es source) g
                      (Walk-snoc es d (subst (Walk es source) (sym f) (walks task (inl refl))) i)
              ])
      ]
    ]

-- The outcome of the search that the guard starts.
search_started :
    (r : PutDependency) (catalog : PlanningCatalog) (s : Search)
    → search
        (suc (length (edges r catalog)))
        r.predecessor_task_id
        (edges r catalog)
        (r.successor_task_id ∷ [])
        []
      ≡ s
    → s ≢ Search.out_of_fuel
search_started r catalog s e =
    subst (λ x. x ≢ Search.out_of_fuel) e
      (search_has_fuel (suc (length (edges r catalog))) r.predecessor_task_id (edges r catalog)
        (r.successor_task_id ∷ []) [] (omega (arith, count-le (unvisited []) (edges r catalog))))

-- If the dependencies that stay are acyclic, then the guard accepts a new one exactly if they are
-- acyclic together with it.
pub reject_dependency_cycle-IsAcyclic :
    (r : PutDependency) (catalog : PlanningCatalog)
    → IsAcyclic (kept_edges r catalog)
    → (reject_dependency_cycle r catalog ≡ ok tt) ↔ IsAcyclic (edges r catalog)
unfolding reject_dependency_cycle
reject_dependency_cycle-IsAcyclic r catalog acyclic = go _ refl
  where
    es : List Edge
    es = edges r catalog

    go :
        (s : Search)
        → search (suc (length es)) r.predecessor_task_id es (r.successor_task_id ∷ []) [] ≡ s
        → (reject_dependency_cycle r catalog ≡ ok tt) ↔ IsAcyclic es
    go Search.exhausted e = (
      λ accepted. IsAcyclic-extend (kept_edges r catalog) (request_edge r) acyclic (λ w. absurd (
          exhausted_apart (suc (length es)) r.predecessor_task_id es (r.successor_task_id ∷ []) [] e
            (λ d i f. absurd f) (λ v f. absurd f) r.successor_task_id r.predecessor_task_id
            (inl (inl refl)) w refl)),
      λ all_acyclic. ap verdict e,
    )
    go Search.found e = (
      λ accepted. let refused = ap verdict e in absurd (cc),
      λ all_acyclic. absurd (
          all_acyclic (request_edge r) (In-last (request_edge r) (kept_edges r catalog)) (
            found-Walk (suc (length es)) r.successor_task_id r.predecessor_task_id es
              (r.successor_task_id ∷ []) [] e
              (λ x m. elim m [
                | inl q ↦ subst (Walk es r.successor_task_id) q stop
                | inr f ↦ absurd f
              ]))),
    )
    go Search.out_of_fuel e = absurd (search_started r catalog Search.out_of_fuel e refl)
