-- ===== src/Authorization/Permitted.antt =====
-- Who is permitted to call a handler, in terms of the rows of the grants.
use mathlib.Core.Path.{ap₂}
use mathlib.Core.List.{Memᴰ}
use mathlib.Core.List.Memᴰ
use ratel_financial_platform.Prelude.{
  any-true, true-any, ℕ, ◌+◌, ◌≤◌, ◌≡◌, refl, sym, ◌∙◌, ap, ◌↔◌, ◌⊎◌, inl, inr, String, Bool, true,
  false, not, ◌&&◌, Option, none, some, List, [], ◌∷◌, arith, str_eq, eq_iff, any, keep, Bool-cases,
  Option-cases,
}
use ratel_financial_platform.Authorization.Guard.{
  PermissionScope, own, department, organization, RolePermission, RoleAssignment, UserPrincipal,
  PermissionRequirement, ResourceScopeInfo, Activation, allowed, is_step_up_fresh, is_scope,
  grants_to, grants_of, has_scope, is_empty, truthy, is_in, in_department, allow, within, found,
  on_resource, check_permission, can_activate,
}

module _ {ℓ} {A : Type ℓ} where
  any-keep : (p q : A → Bool) (xs : List A) → any p (keep q xs) ≡ any (λ x. q x && p x) xs
  any-keep p q [] = refl
  any-keep p q (x ∷ xs) = ground (arith, any-keep p q xs)

  nonempty : (xs : List A) {x : A} → Memᴰ x xs → is_empty xs ≡ false
  nonempty (y ∷ ys) m = refl
  nonempty [] m = absurd (Memᴰ.not-nil m)

  empty-keep : (q : A → Bool) (xs : List A) → is_empty (keep q xs) ≡ not (any q xs)
  empty-keep q [] = refl
  empty-keep q (x ∷ xs) = ground (arith, empty-keep q xs)

is_scope-true : (s t : PermissionScope) → is_scope s t ≡ true → t ≡ s
is_scope-true own own h = refl
is_scope-true department department h = refl
is_scope-true organization organization h = refl
is_scope-true own department h = absurd (ground (arith, h))
is_scope-true own organization h = absurd (ground (arith, h))
is_scope-true department own h = absurd (ground (arith, h))
is_scope-true department organization h = absurd (ground (arith, h))
is_scope-true organization own h = absurd (ground (arith, h))
is_scope-true organization department h = absurd (ground (arith, h))

is_scope-same : (s : PermissionScope) → is_scope s s ≡ true
is_scope-same own = refl
is_scope-same department = refl
is_scope-same organization = refl

is_in-true : (o : Option String) (d : String) → is_in o d ≡ true → o ≡ some d
is_in-true none d h = absurd (ground (arith, h))
is_in-true (some e) d h = ap some ((eq_iff e d).0 h)

module _ (roles : List RoleAssignment) (permission : String) (table : List RolePermission) where
  -- A row of the table gives the permission, in this scope, to a role that the user has.
  abbrev pub Granted : PermissionScope → Type 0
  Granted scope =
      (g : RolePermission) × Memᴰ g table
      × (g.permission ≡ permission)
      × (g.scope ≡ scope)
      × ((r : RoleAssignment) × Memᴰ r roles × (r.role ≡ g.role))

  grants_to-true :
      (g : RolePermission)
      → grants_to roles permission g ≡ true
      → (g.permission ≡ permission) × ((r : RoleAssignment) × Memᴰ r roles × (r.role ≡ g.role))
  grants_to-true g h =
      let (r, m, t) =
        any-true (λ (r : RoleAssignment). str_eq r.role g.role) roles (ground arith) in
      ((eq_iff g.permission permission).0 (ground arith), (r, m, (eq_iff r.role g.role).0 t))

  true-grants_to :
      (g : RolePermission) (r : RoleAssignment)
      → g.permission ≡ permission
      → Memᴰ r roles
      → r.role ≡ g.role
      → grants_to roles permission g ≡ true
  true-grants_to g r e m f =
      let h =
        true-any (λ (r : RoleAssignment). str_eq r.role g.role) m ((eq_iff r.role g.role).1 f) in
      let k = (eq_iff g.permission permission).1 e in ground arith

  has_scope_iff :
      (scope : PermissionScope)
      → (has_scope scope (grants_of roles permission table) ≡ true) ↔ Granted scope
  unfolding has_scope grants_of
  has_scope_iff scope = (
    λ h.
        let (g, m, t) =
          any-true (λ (g : RolePermission). grants_to roles permission g && is_scope scope g.scope)
            table
            (sym (
                any-keep (λ (g : RolePermission). is_scope scope g.scope)
                  (grants_to roles permission) table)
              ∙ h) in
        let (e, r) = grants_to-true g (ground arith) in
        (g, m, e, is_scope-true scope g.scope (ground arith), r),
    λ (g, m, e, s, (r, n, f)).
        let t = true-grants_to g r e n f in
        let u : is_scope scope g.scope ≡ true = ap (is_scope scope) s ∙ is_scope-same scope in
        any-keep (λ (g : RolePermission). is_scope scope g.scope) (grants_to roles permission) table
        ∙ true-any (λ (g : RolePermission). grants_to roles permission g && is_scope scope g.scope)
            m (ground arith),
  )

  Granted-iff :
      (is_empty (grants_of roles permission table) ≡ false) ↔ ((s : PermissionScope) × Granted s)
  unfolding grants_of
  Granted-iff = (
    λ h.
        let k = empty-keep (grants_to roles permission) table in
        let (g, m, t) = any-true (grants_to roles permission) table (ground arith) in
        let (e, r) = grants_to-true g t in (g.scope, (g, m, e, refl, r)),
    λ (s, (g, m, e, same, (r, n, f))).
        let k = empty-keep (grants_to roles permission) table in
        let t = true-any (grants_to roles permission) m (true-grants_to g r e n f) in ground arith,
  )

module _ (window now : ℕ) (requirement : PermissionRequirement) (user : UserPrincipal)
    (scope_of : String → String → Option (Option ResourceScopeInfo)) (table : List RolePermission)
    (resource_id : Option String) where
  abbrev pub Holds : PermissionScope → Type 0
  Holds = Granted user.roles requirement.permission table

  -- A password that was entered not longer than the window ago, where one is asked for.
  abbrev pub SteppedUp : Type 0
  SteppedUp =
      (requirement.requires_step_up ≡ false)
      ⊎ ((at : ℕ) × (user.step_up_at ≡ some at) × (now ≤ at + window))

  -- The user's own resource under an `own` grant, or one of a department that the user has a role in
  -- under a `department` grant.
  abbrev pub Covers : ResourceScopeInfo → Type 0
  Covers info =
      (Holds own × (info.requester_id ≡ user.id))
      ⊎ (Holds department
          × ((d : String) × (truthy info.department_id ≡ some d)
              × ((r : RoleAssignment) × Memᴰ r user.roles × (r.department_id ≡ some d))))

  -- The resource that the request names, with what its provider says of it.
  abbrev pub OnResource : Option String → Option String → Type 0
  OnResource named_type named_id =
      (type : String) × (id : String) × (info : ResourceScopeInfo) × (named_type ≡ some type)
      × (named_id ≡ some id)
      × (scope_of type id ≡ some (some info))
      × Covers info

  -- An `organization` grant; any grant where no resource is named; or a grant that covers the resource.
  abbrev pub InScope : Type 0
  InScope =
      Holds organization
      ⊎ ((((s : PermissionScope) × Holds s)
            × ((truthy requirement.resource_type ≡ none) ⊎ (truthy resource_id ≡ none)))
          ⊎ OnResource (truthy requirement.resource_type) (truthy resource_id))

  allow_iff : (allow window now requirement user ≡ allowed) ↔ SteppedUp
  unfolding allow is_step_up_fresh
  allow_iff = elim (Option-cases user.step_up_at) [
    | inl missing ↦ (
      λ h. inl (ground arith),
      λ k. elim k [ inl unasked ↦ ground arith | inr (at, e, l) ↦ ground arith ],
    )
    | inr (at, e) ↦ (
      λ h. elim (Bool-cases requirement.requires_step_up) [
        | inl asked ↦ inr (at, e, ground arith)
        | inr unasked ↦ inl unasked
      ],
      λ k. elim k [ inl unasked ↦ ground arith | inr (at', e', l) ↦ ground arith ],
    )
  ]

  in_department_iff :
      (o : Option String)
      → (in_department o user.roles ≡ true) ↔ (
          (d : String) × (o ≡ some d)
          × ((r : RoleAssignment) × Memᴰ r user.roles × (r.department_id ≡ some d)))
  unfolding in_department
  in_department_iff none =
      (λ h. absurd (ground (arith, h)), λ (d, e, r). absurd (ground (arith, e)))
  in_department_iff (some d) = (
    λ h.
        let (r, m, t) = any-true (λ (r : RoleAssignment). is_in r.department_id d) user.roles h in
        (d, refl, (r, m, is_in-true r.department_id d t)),
    λ (d', e, (r, m, f)).
        let same : d ≡ d' = ground (arith, e) in
        true-any (λ (r : RoleAssignment). is_in r.department_id d) m
          (ap (λ o. is_in o d) f ∙ (eq_iff d' d).1 (sym same)),
  )

  within_iff :
      (info : ResourceScopeInfo)
      → let grants = grants_of user.roles requirement.permission table in
        (within window now requirement user grants info ≡ allowed) ↔ (SteppedUp × Covers info)
  unfolding within
  within_iff info =
      let grants = grants_of user.roles requirement.permission table in
      let ho = has_scope_iff user.roles requirement.permission table own in
      let hd = has_scope_iff user.roles requirement.permission table department in
      let me = eq_iff info.requester_id user.id in
      let mine = in_department_iff (truthy info.department_id) in
      let al = allow_iff in
      let o = has_scope own grants in
      let m = str_eq info.requester_id user.id in
      let d = has_scope department grants in
      let c = in_department (truthy info.department_id) user.roles in
      (
        λ h. elim (Bool-cases (o && m)) [
          | inl t ↦ (al.0 (ground arith), inl (ho.0 (ground arith), me.0 (ground arith)))
          | inr f ↦ elim (Bool-cases (d && c)) [
            | inl t ↦ (al.0 (ground arith), inr (hd.0 (ground arith), mine.0 (ground arith)))
            | inr g ↦ absurd (ground arith)
          ]
        ],
        λ (fresh, covers).
            let a = al.1 fresh in
            elim covers [
              | inl (own_grant, same) ↦ let t = ho.1 own_grant in let u = me.1 same in ground arith
              | inr (grant, there) ↦ let t = hd.1 grant in let u = mine.1 there in ground arith
            ],
      )

  on_resource_iff :
      (t i : Option String)
      → let grants = grants_of user.roles requirement.permission table in
        (on_resource window now requirement user scope_of grants t i ≡ allowed)
        ↔ (SteppedUp × (((t ≡ none) ⊎ (i ≡ none)) ⊎ OnResource t i))
  on_resource_iff none i = (λ h. (allow_iff.0 h, inl (inl refl)), λ (k, r). allow_iff.1 k)
  on_resource_iff (some t) none = (λ h. (allow_iff.0 h, inl (inr refl)), λ (k, r). allow_iff.1 k)
  on_resource_iff (some t) (some i) =
      let grants = grants_of user.roles requirement.permission table in
      let at : Option (Option ResourceScopeInfo) → Activation =
        λ o. found window now requirement user t i grants o in
      (
        λ h. elim (Option-cases (scope_of t i)) [
          | inl none_there ↦ absurd (ground (arith, sym (ap at none_there) ∙ h))
          | inr (o, e) ↦ elim (Option-cases o) [
            | inl none_found ↦ absurd (ground (arith, sym (ap at (e ∙ ap some none_found)) ∙ h))
            | inr (info, is_info) ↦
                let e' = e ∙ ap some is_info in
                let (k, c) = (within_iff info).0 (sym (ap at e') ∙ h) in
                (k, inr (t, i, info, refl, refl, e', c))
          ]
        ],
        λ (k, r). elim r [
          | inl unnamed ↦ elim unnamed [
            | inl e ↦ absurd (ground (arith, e))
            | inr e ↦ absurd (ground (arith, e))
          ]
          | inr (t', i', info, e, f, g, c) ↦
              let st : t ≡ t' = ground (arith, e) in
              let si : i ≡ i' = ground (arith, f) in
              ap at (ap₂ scope_of st si ∙ g) ∙ (within_iff info).1 (k, c)
        ],
      )

  Covers-some : (info : ResourceScopeInfo) → Covers info → (s : PermissionScope) × Holds s
  Covers-some info c = elim c [
    | inl (own_grant, same) ↦ (own, own_grant)
    | inr (grant, there) ↦ (department, grant)
  ]

  some_role : (s : PermissionScope) → Holds s → is_empty user.roles ≡ false
  some_role s (g, m, e, same, (r, n, f)) = nonempty user.roles n

  -- A signed-in user passes the guard exactly when a grant is in scope and, where the handler asks for
  -- it, the password was entered again lately enough. A grant is in scope when a row of the table gives
  -- the permission to a role of the user for the organization; or for any scope, where the handler
  -- names no resource; or as the owner or in a department of the user, where the resource is found and
  -- is the user's own or that department's.
  pub can_activate_iff :
      (can_activate window now scope_of table (some requirement) (some user) resource_id ≡ allowed)
      ↔ (SteppedUp × InScope)
  unfolding can_activate check_permission
  can_activate_iff =
      let grants = grants_of user.roles requirement.permission table in
      let hs = has_scope_iff user.roles requirement.permission table organization in
      let hg = Granted-iff user.roles requirement.permission table in
      let al = allow_iff in
      let res = on_resource_iff (truthy requirement.resource_type) (truthy resource_id) in
      let passes : (s : PermissionScope)
          → Holds s
          → on_resource window now requirement user scope_of grants
              (truthy requirement.resource_type) (truthy resource_id)
            ≡ allowed
          → SteppedUp
          → can_activate window now scope_of table (some requirement) (some user) resource_id
            ≡ allowed =
        λ s grant h k.
          let a = al.1 k in let r = some_role s grant in let g = hg.1 (s, grant) in ground arith in
      (
        λ h. elim (Bool-cases (is_empty grants)) [
          | inl e ↦ absurd (ground arith)
          | inr g ↦ elim (Bool-cases (has_scope organization grants)) [
            | inl t ↦ (al.0 (ground arith), inl (hs.0 t))
            | inr f ↦
                let (k, r) = res.0 (ground arith) in
                (k, inr (elim r [ inl unnamed ↦ inl (hg.0 g, unnamed) | inr named ↦ inr named ]))
          ]
        ],
        λ (k, scope). elim scope [
          | inl grant ↦
              let a = al.1 k in
              let r = some_role organization grant in
              let t = hs.1 grant in let g = hg.1 (organization, grant) in ground arith
          | inr rest ↦ elim rest [
            | inl ((s, grant), unnamed) ↦ passes s grant (res.1 (k, inl unnamed)) k
            | inr (t, i, info, e, f, g, c) ↦
                let (s, grant) = Covers-some info c in
                passes s grant (res.1 (k, inr (t, i, info, e, f, g, c))) k
          ]
        ],
      )
