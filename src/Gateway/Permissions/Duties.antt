-- ===== src/Gateway/Permissions/Duties.antt =====
-- Who may create a document and who may post it.
use wms_core.Base.{
  ◌≡◌, ◌≢◌, refl, Bool, true, false, String, some, List, [], ◌&&◌, if◌then◌else◌, all, str_eq,
  Bool-cases, inl, inr,
}
use wms_core.Documents.Types.{DocumentType}
use wms_core.Gateway.Permissions.{
  Permission, value, contains, is_subset, role_permissions, role_has_permissions, CurrentUser,
  require_permissions, create_requires, post_requires, user_permissions, sales_permissions,
  warehouse_manager_permissions, warehouse_permissions, accountant_permissions,
}

if-either {ℓ κ} :
    {A : Type ℓ} (P : A → Type κ) (b : Bool) {x y : A} → P x → P y → P (if b then x else y)
if-either P true px py = px
if-either P false px py = py

-- What holds of the permissions of each role holds of any role's that is no administrator's.
by_role {κ} :
    (P : List Permission → Type κ) (role : String)
    → str_eq role "admin" ≡ false
    → P user_permissions
    → P sales_permissions
    → P warehouse_manager_permissions
    → P warehouse_permissions
    → P accountant_permissions
    → P []
    → P (role_permissions role)
unfolding role_permissions
by_role P role not_admin user sales manager warehouse accountant nobody = rw not_admin (
    if-either P (str_eq role "user") user (
      if-either P (str_eq role "sales") sales (
        if-either P (str_eq role "warehouse_manager") manager (
          if-either P (str_eq role "warehouse") warehouse
            (if-either P (str_eq role "accountant") accountant nobody)))))

-- A set of permissions has no room for creating a document of the type and for posting it.
abbrev Separates : DocumentType → List Permission → Type 0
Separates kind perms =
    is_subset (create_requires kind) perms && is_subset post_requires perms ≡ false

role-Separates :
    (kind : DocumentType) (role : String)
    → str_eq role "admin" ≡ false
    → kind ≢ DocumentType.transfer
    → Separates kind (role_permissions role)
unfolding is_subset contains value all create_requires
role-Separates DocumentType.import role not_admin other =
    by_role (Separates DocumentType.import) role not_admin refl refl refl refl refl refl
role-Separates DocumentType.export role not_admin other =
    by_role (Separates DocumentType.export) role not_admin refl refl refl refl refl refl
role-Separates DocumentType.sale role not_admin other =
    by_role (Separates DocumentType.sale) role not_admin refl refl refl refl refl refl
role-Separates DocumentType.transfer role not_admin other = absurd (other refl)

let_in :
    (required : List Permission) (user : CurrentUser)
    → str_eq user.role "admin" ≡ false
    → require_permissions required user ≡ some user
    → is_subset required (role_permissions user.role) ≡ true
unfolding require_permissions role_has_permissions
let_in required user not_admin passed =
    elim (Bool-cases (is_subset required (role_permissions user.role))) [
      | inl e ↦ e
      | inr e ↦ absurd (cc (e, not_admin, passed))
    ]

-- A user whom the gateway lets both create documents of a type, other than a transfer, and post
-- documents, has the role "admin".
pub creator_who_posts_is_admin :
    (kind : DocumentType) (user : CurrentUser)
    → kind ≢ DocumentType.transfer
    → require_permissions (create_requires kind) user ≡ some user
    → require_permissions post_requires user ≡ some user
    → str_eq user.role "admin" ≡ true
creator_who_posts_is_admin kind user other creates posts =
    elim (Bool-cases (str_eq user.role "admin")) [
      | inl e ↦ e
      | inr e ↦ absurd (
          cc (
            let_in (create_requires kind) user e creates,
            let_in post_requires user e posts,
            role-Separates kind user.role e other,
          ))
    ]
