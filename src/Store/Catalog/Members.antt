-- ===== src/Store/Catalog/Members.antt =====
-- The rows that the catalog of a community holds.
use community_stack.Common.{
  ◌≡◌, refl, ap, subst, String, true, List, [], ◌∷◌, inl, inr, str_eq_iff, arith, map, In, In-map,
  In-select,
}
use community_stack.Common.Sort.{In-sort}
use community_stack.Domain.Toolkit.{ToolkitConcept, ToolkitAssertion}
use community_stack.Store.Tables.{Scoped, in_scope, AssertionRow, Database}
use community_stack.Store.Catalog.{
  select, page, concept_before, rows_of, query_concepts, assertion_before, query_assertions,
  catalog,
}

pub In-map_from :
    {A B : Type 0} (f : A → B) (xs : List A) (b : B)
    → In b (map f xs)
    → (a : A) × In a xs × (f a ≡ b)
In-map_from f [] b m = absurd m
In-map_from f (x ∷ xs) b (inl e) = (x, inl refl, e)
In-map_from f (x ∷ xs) b (inr m) = let (a, i, e) = In-map_from f xs b m in (a, inr i, e)

in_scope_from :
    {A : Type 0} (app community : String) (r : Scoped A)
    → r.app_id ≡ app
    → r.community_id ≡ community
    → in_scope app community r ≡ true
in_scope_from app community r a b =
    ground (arith, (str_eq_iff r.app_id app).1 a, (str_eq_iff r.community_id community).1 b)

scope_of :
    {A : Type 0} (app community : String) (r : Scoped A)
    → in_scope app community r ≡ true
    → (r.app_id ≡ app) × (r.community_id ≡ community)
scope_of app community r h = (
  (str_eq_iff r.app_id app).0 (ground arith),
  (str_eq_iff r.community_id community).0 (ground arith),
)

pub rows-In :
    {A : Type 0} (app community : String) (rows : List (Scoped A)) (a : A)
    → In a (rows_of app community rows)
    → (r : Scoped A) × In r rows × (r.app_id ≡ app) × (r.community_id ≡ community) × (r.row ≡ a)
rows-In app community rows a m =
    let (r, i, e) = In-map_from (λ (x : Scoped _). x.row) _ a m in
    let (j, h) = (In-select (in_scope app community) rows r).0 i in
    let (p, q) = scope_of app community r h in (r, j, p, q, e)

pub In-rows :
    {A : Type 0} (app community : String) (rows : List (Scoped A)) (r : Scoped A)
    → In r rows
    → r.app_id ≡ app
    → r.community_id ≡ community
    → In r.row (rows_of app community rows)
In-rows app community rows r m a b =
    In-map (λ (x : Scoped _). x.row) (select (in_scope app community) rows) r
      ((In-select (in_scope app community) rows r).1 (m, in_scope_from app community r a b))

-- A concept of the catalog is in the table.
pub catalog-concept :
    (app community : String) (db : Database) (c : ToolkitConcept)
    → In c (catalog app community db).concepts
    → (r : Scoped ToolkitConcept) × In r db.toolkit.concepts
      × (r.app_id ≡ app)
      × (r.community_id ≡ community)
      × (r.row ≡ c)
unfolding catalog query_concepts page
catalog-concept app community db c m =
    rows-In app community db.toolkit.concepts c ((In-sort concept_before c _).0 m)

-- An assertion of the catalog is in the table.
pub catalog-assertion :
    (app community : String) (db : Database) (a : ToolkitAssertion)
    → In a (catalog app community db).assertions
    → (r : Scoped AssertionRow) × In r db.toolkit.assertions
      × (r.app_id ≡ app)
      × (r.community_id ≡ community)
      × (r.row.assertion ≡ a)
unfolding catalog query_assertions page
catalog-assertion app community db a m =
    let (x, i, e) = In-map_from (λ (r : AssertionRow). r.assertion) _ a m in
    let (r, j, p, q, f) =
      rows-In app community db.toolkit.assertions x ((In-sort assertion_before x _).0 i) in
    (r, j, p, q, subst (λ y. r.row.assertion ≡ y) e (ap (λ (y : AssertionRow). y.assertion) f))

-- An assertion of the table is in the catalog of its community.
pub In-catalog :
    (db : Database) (r : Scoped AssertionRow)
    → In r db.toolkit.assertions
    → In r.row.assertion (catalog r.app_id r.community_id db).assertions
unfolding catalog query_assertions page
In-catalog db r m =
    In-map (λ (x : AssertionRow). x.assertion) _ r.row
      ((In-sort assertion_before r.row _).1 (
        In-map (λ (x : Scoped AssertionRow). x.row) _ r
          ((In-select (in_scope r.app_id r.community_id) db.toolkit.assertions r).1
            (m, in_scope_from r.app_id r.community_id r refl refl))))
