-- ===== src/Store/Projection/Toolkit/Sound.antt =====
-- New concepts, tools and assertions keep the tables sound.
use community_stack.Common.{
  ◌≡◌, refl, sym, ap, ◌∙◌, subst, inl, inr, String, true, false, List, [], ◌∷◌, ◌++◌, arith, any,
  update, In, In-append_one, In-append_left, any-false,
}
use community_stack.Domain.Replication.{Hash}
use community_stack.Domain.Toolkit.{ConceptDefinition, ToolkitConcept, ToolkitTool}
use community_stack.Failure.{ok, >>=-eq-ok, ok_eq, reject-eq-ok}
use community_stack.Store.Tables.{Scoped, AssertionRow, ToolkitTables, Database}
use community_stack.Store.Projection.Toolkit.{
  concept_row, tool_row, active_concept, in_table, unique, apply_concept, apply_tool,
}
use community_stack.Store.Projection.Toolkit.Rivals.{
  SameScope, IsConceptOf, Rivals, IsSound, SameScope-sym, SameScope-trans, concept_row_from,
  deactivate, updated-In, concepts-kept, moved_concept, SameRow-sym,
}

-- Where no row has the key and the revision of a new one, none has its place.
not_new :
    (app community : String) (cs : List (Scoped ToolkitConcept)) (c new : Scoped ToolkitConcept)
    → any (concept_row app community new.row.definition.key new.row.revision) cs ≡ false
    → new.app_id ≡ app
    → new.community_id ≡ community
    → In c cs
    → SameScope c new
    → c.row.definition.key ≡ new.row.definition.key
    → c.row.revision ≡ new.row.revision
    → ⊥
not_new app community cs c new fresh a b m scope key revision =
    let h =
      concept_row_from app community new.row.definition.key new.row.revision c (scope.app ∙ a)
        (scope.community ∙ b) key revision in
    ground (arith, h, any-false _ cs fresh c m)

module _ (app community : String) (t : ToolkitTables) (new : Scoped ToolkitConcept)
    (a : new.app_id ≡ app) (b : new.community_id ≡ community)
    (fresh : any
        (concept_row app community new.row.definition.key new.row.revision)
        (update (active_concept app community new.row.definition.key) deactivate t.concepts)
      ≡ false) where
  abbrev old_concepts : List (Scoped ToolkitConcept)
  old_concepts = update (active_concept app community new.row.definition.key) deactivate t.concepts

  abbrev with_concept : ToolkitTables
  with_concept = record t { concepts = old_concepts ++ new ∷ [] }

  defined_once_new :
      IsSound t
      → (c d : Scoped ToolkitConcept) → In c with_concept.concepts
      → In d with_concept.concepts
      → SameScope c d
      → c.row.definition.key ≡ d.row.definition.key
      → c.row.revision ≡ d.row.revision
      → c.row.definition ≡ d.row.definition
  defined_once_new sound c d m n scope key revision = elim (In-append_one c new old_concepts m) [
    | inr q ↦ elim (In-append_one d new old_concepts n) [
      | inr p ↦ ap (λ (x : Scoped ToolkitConcept). x.row.definition) (sym q ∙ p)
      | inl j ↦ absurd (
          not_new app community old_concepts d new fresh a b j
            (subst (SameScope d) (sym q) (SameScope-sym scope))
            (sym key ∙ ap (λ (x : Scoped ToolkitConcept). x.row.definition.key) (sym q))
            (sym revision ∙ ap (λ (x : Scoped ToolkitConcept). x.row.revision) (sym q)))
    ]
    | inl i ↦ elim (In-append_one d new old_concepts n) [
      | inr p ↦ absurd (
          not_new app community old_concepts c new fresh a b i (subst (SameScope c) (sym p) scope)
            (key ∙ ap (λ (x : Scoped ToolkitConcept). x.row.definition.key) (sym p))
            (revision ∙ ap (λ (x : Scoped ToolkitConcept). x.row.revision) (sym p)))
      | inl j ↦
          let (c₀, i₀, f) = updated-In app community _ t.concepts c i in
          let (d₀, j₀, g) = updated-In app community _ t.concepts d j in
          let key_of = λ (x : ConceptDefinition). x.key in
          f.definition
          ∙ sound.defined_once c₀ d₀ i₀ j₀
              (SameScope-trans (SameScope-sym f.scope) (SameScope-trans scope g.scope))
              (ap key_of (sym f.definition) ∙ key ∙ ap key_of g.definition)
              (sym f.revision ∙ revision ∙ g.revision)
          ∙ sym g.definition
    ]
  ]

  old-Rivals :
      IsSound t
      → (r s : Scoped AssertionRow) → In r t.assertions
      → Rivals with_concept.concepts r s
      → Rivals t.concepts r s
  old-Rivals sound r s m v = elim (In-append_one v.about new old_concepts v.listed) [
    | inl i ↦
        let (c, j, same) = updated-In app community _ t.concepts v.about i in
        record {
          scope = v.scope;
          tool = v.tool;
          concept = v.concept;
          revision = v.revision;
          left = v.left;
          right = v.right;
          apart = v.apart;
          about = c;
          listed = j;
          is_about = moved_concept (SameRow-sym same) v.is_about;
          single = ap (λ (x : ConceptDefinition). x.cardinality) (sym same.definition) ∙ v.single;
        }
    | inr q ↦
        let (c₀, i₀, of₀) = sound.known r m in
        let (c, i, same) = concepts-kept app community _ t.concepts c₀ i₀ in
        let is = moved_concept same of₀ in
        let new_is = subst (λ x. IsConceptOf x r) (sym q) v.is_about in
        absurd (
          not_new app community old_concepts c new fresh a b i
            (SameScope-trans is.scope (SameScope-sym new_is.scope)) (is.key ∙ sym new_is.key)
            (is.revision ∙ sym new_is.revision))
  ]

  with_concept-IsSound : IsSound t → IsSound with_concept
  with_concept-IsSound sound = record {
    defined_once = defined_once_new sound;
    known = λ r m.
        let (c₀, i₀, of₀) = sound.known r m in
        let (c, i, same) = concepts-kept app community _ t.concepts c₀ i₀ in
        (c, In-append_left c old_concepts _ i, moved_concept same of₀);
    stored_once = sound.stored_once;
    agree = λ r s m n v. sound.agree r s m n (old-Rivals sound r s m v);
  }

pub concept-IsSound :
    (app community : String) (hash : Hash) (c : ToolkitConcept) (a b : Database)
    → apply_concept app community hash c a ≡ ok b
    → IsSound a.toolkit
    → IsSound b.toolkit
unfolding apply_concept
concept-IsSound app community hash c a b e sound =
    let new =
      in_table app community (record c { source_operation_hash = hash; active_revision = true }) in
    let (u, e₀, e₁) =
      >>=-eq-ok
        (unique (
          any (concept_row app community c.definition.key c.revision)
            (update (active_concept app community c.definition.key) deactivate a.toolkit.concepts)))
        _ e in
    subst (λ (d : Database). IsSound d.toolkit) (ok_eq e₁)
      (with_concept-IsSound app community a.toolkit new refl refl (reject-eq-ok _ _ e₀) sound)

pub tool-IsSound :
    (app community : String) (hash : Hash) (x : ToolkitTool) (a b : Database)
    → apply_tool app community hash x a ≡ ok b
    → IsSound a.toolkit
    → IsSound b.toolkit
unfolding apply_tool
tool-IsSound app community hash x a b e sound =
    let (u, e₀, e₁) = >>=-eq-ok (unique (any (tool_row app community x.key) a.toolkit.tools)) _ e in
    subst (λ (d : Database). IsSound d.toolkit) (ok_eq e₁)
      (record {
        defined_once = sound.defined_once;
        known = sound.known;
        stored_once = sound.stored_once;
        agree = sound.agree;
      })
