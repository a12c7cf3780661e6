-- ===== src/Application/Dispatch/Access.antt =====
-- Which methods which principals can reach: the tables of the roles and of the known methods.
use community_stack.Common.{
  String, ◌≡◌, ◌≢◌, not, ◌↔◌, inl, inr, refl, sym, ap, ◌∙◌, if◌then◌else◌, subst, Bool, true, false,
  ◌||◌, List, [], ◌∷◌, In, any, any-In, any-append, ◌++◌, all, arith, str_eq, str_eq_iff,
}
use community_stack.Domain.Error.{ApiErrorCode}
use community_stack.Domain.Json.{Value}
use community_stack.Domain.Security.{Principal, PrincipalRole}
use community_stack.Failure.{Result, ok, err, protocol_error}
use community_stack.Application.Dispatch.{
  methods, is_routed, known_methods, known_method, is_reserved, call_authenticated,
}

-- Every text of the first list is one of the second.
abbrev covers : List String → List String → Bool
covers xs ys = all (λ x. any (str_eq x) ys) xs

covers-In :
    (xs ys : List String) (x : String) → covers xs ys ≡ true → In x xs → any (str_eq x) ys ≡ true
unfolding all
covers-In [] ys x h m = absurd m
covers-In (y ∷ xs) ys x h (inl e) = subst (λ z. any (str_eq z) ys ≡ true) e (ground (arith, h))
covers-In (y ∷ xs) ys x h (inr m) = covers-In xs ys x (ground (arith, h)) m

covers-any :
    (xs ys : List String) (m : String)
    → covers xs ys ≡ true
    → any (str_eq m) xs ≡ true
    → any (str_eq m) ys ≡ true
covers-any xs ys m h e =
    let (x, i, same) = any-In (str_eq m) xs e in
    subst (λ z. any (str_eq z) ys ≡ true) (sym ((str_eq_iff m x).0 same)) (covers-In xs ys x h i)

routed_known : (role : PrincipalRole) → covers (methods role) known_methods ≡ true
unfolding all any
routed_known PrincipalRole.app = refl
routed_known PrincipalRole.admin = refl
routed_known PrincipalRole.transport = refl

-- Some role may call the method.
abbrev pub is_for_some_role : String → Bool
is_for_some_role m =
    is_routed PrincipalRole.app m
    || (is_routed PrincipalRole.admin m || is_routed PrincipalRole.transport m)

known_covered :
    covers known_methods
      (methods PrincipalRole.app ++ methods PrincipalRole.admin ++ methods PrincipalRole.transport)
    ≡ true
unfolding all any
known_covered = refl

-- A method is known exactly if some role may call it.
known_method-routed : (m : String) → (known_method m ≡ true) ↔ (is_for_some_role m ≡ true)
unfolding known_method is_routed
known_method-routed m = (
  λ known.
      let union = covers-any known_methods _ m known_covered known in
      let outer =
        any-append (str_eq m) (methods PrincipalRole.app)
          (methods PrincipalRole.admin ++ methods PrincipalRole.transport) in
      let inner =
        any-append (str_eq m) (methods PrincipalRole.admin) (methods PrincipalRole.transport) in
      sym (outer ∙ ap (λ t. is_routed PrincipalRole.app m || t) inner) ∙ union,
  λ some_role.
      by_role (is_routed PrincipalRole.app m) (is_routed PrincipalRole.admin m) some_role
        (covers-any (methods PrincipalRole.app) known_methods m (routed_known PrincipalRole.app))
        (covers-any (methods PrincipalRole.admin) known_methods m
          (routed_known PrincipalRole.admin))
        (covers-any (methods PrincipalRole.transport) known_methods m
          (routed_known PrincipalRole.transport)),
)
  where
    by_role :
        (a b : Bool) {c d : Bool}
        → (a || (b || c)) ≡ true
        → (a ≡ true → d ≡ true)
        → (b ≡ true → d ≡ true)
        → (c ≡ true → d ≡ true)
        → d ≡ true
    by_role true b h f g k = f refl
    by_role false true h f g k = g refl
    by_role false false h f g k = k h

known_method-eq : (m : String) → known_method m ≡ is_for_some_role m
known_method-eq m = same (known_method m) (is_for_some_role m) (known_method-routed m)
  where
    same : (a b : Bool) → (a ≡ true) ↔ (b ≡ true) → a ≡ b
    same true b h = sym (h.0 refl)
    same false true h = h.1 refl
    same false false h = refl

-- The answers of the dispatch, by the tables of the roles.
access_control :
    (handler : Principal → String → Value → Result Value) (p : Principal) (m : String) (v : Value)
    → is_reserved p ≡ false
    → call_authenticated handler p m v ≡ (
        if is_routed p.role m
        then handler p m v
        else if is_for_some_role m
        then err (
            protocol_error ApiErrorCode.forbidden
              "method is unknown or not allowed for this principal" false)
        else err (protocol_error ApiErrorCode.method_not_found "method is not available" false))
unfolding call_authenticated
access_control handler p m v free = rw (free, known_method-eq m) refl

-- What both applications and administrators may ask.
abbrev is_shared : String → Bool
is_shared m = str_eq m "profile.list" || str_eq m "profile.get"

abbrev overlap : PrincipalRole → PrincipalRole → Bool
overlap r q = all (λ x. not (any (str_eq x) (methods q)) || is_shared x) (methods r)

no_overlap : (r q : PrincipalRole) → r ≢ q → overlap r q ≡ true
unfolding all any
no_overlap PrincipalRole.app PrincipalRole.app ne = absurd (ne refl)
no_overlap PrincipalRole.app PrincipalRole.admin ne = refl
no_overlap PrincipalRole.app PrincipalRole.transport ne = refl
no_overlap PrincipalRole.admin PrincipalRole.app ne = refl
no_overlap PrincipalRole.admin PrincipalRole.admin ne = absurd (ne refl)
no_overlap PrincipalRole.admin PrincipalRole.transport ne = refl
no_overlap PrincipalRole.transport PrincipalRole.app ne = refl
no_overlap PrincipalRole.transport PrincipalRole.admin ne = refl
no_overlap PrincipalRole.transport PrincipalRole.transport ne = absurd (ne refl)

all-In : {A : Type 0} (p : A → Bool) (xs : List A) (x : A) → all p xs ≡ true → In x xs → p x ≡ true
unfolding all
all-In p [] x h m = absurd m
all-In p (y ∷ xs) x h (inl e) = subst (λ z. p z ≡ true) e (ground (arith, h))
all-In p (y ∷ xs) x h (inr m) = all-In p xs x (ground (arith, h)) m

-- A method of two roles is one of the shared ones.
both_routed :
    (r q : PrincipalRole) (m : String)
    → r ≢ q
    → is_shared m ≡ false
    → is_routed r m ≡ true
    → is_routed q m ≡ false
unfolding is_routed
both_routed r q m ne private routed =
    let (x, i, same) = any-In (str_eq m) (methods r) routed in
    let apart =
      subst (λ z. (not (any (str_eq z) (methods q)) || is_shared z) ≡ true)
        (sym ((str_eq_iff m x).0 same))
        (all-In (λ z. not (any (str_eq z) (methods q)) || is_shared z) (methods r) x
          (no_overlap r q ne) i) in
    ground (arith, apart, private)

-- A call that succeeds is one of a method of the caller's role.
answered-routed :
    (handler : Principal → String → Value → Result Value) (p : Principal) (m : String)
    (v result : Value)
    → call_authenticated handler p m v ≡ ok result
    → is_routed p.role m ≡ true
unfolding call_authenticated
answered-routed handler p m v result e = ground (arith, e)

for_some : (r : PrincipalRole) (m : String) → is_routed r m ≡ true → is_for_some_role m ≡ true
for_some PrincipalRole.app m e = ground (arith, e)
for_some PrincipalRole.admin m e = ground (arith, e)
for_some PrincipalRole.transport m e = ground (arith, e)

-- A method by which a principal of one role can get an answer is forbidden to every principal of
-- another role, whatever the handlers do, except `profile.list` and `profile.get`. (A principal that has
-- the name of the planning namespace is refused before this.)
pub roles_are_separate :
    (handler other : Principal → String → Value → Result Value) (p q : Principal) (m : String)
    (v w result : Value)
    → call_authenticated handler p m v ≡ ok result
    → p.role ≢ q.role
    → is_reserved q ≡ false
    → m ≢ "profile.list"
    → m ≢ "profile.get"
    → call_authenticated other q m w
      ≡ err (
          protocol_error ApiErrorCode.forbidden
            "method is unknown or not allowed for this principal" false)
roles_are_separate handler other p q m v w result e ne free list get =
    let routed = answered-routed handler p m v result e in
    let private : is_shared m ≡ false =
      ground (arith, str_eq_iff m "profile.list", str_eq_iff m "profile.get", list, get) in
    access_control other q m w free
    ∙ rw (both_routed p.role q.role m ne private routed, for_some p.role m routed) refl
