-- ===== src/Gateway/Permissions.antt =====
-- permissions.py, authz.py and the permissions that routes.py asks for.
use wms_core.Base.{
  ℕ, Bool, true, false, String, Option, some, none, List, [], ◌∷◌, ◌||◌, if◌then◌else◌, all, str_eq,
}
use wms_core.Documents.Types.{DocumentType}
pub mod Duties

pub data Permission : Type 0 where
  view_customers manage_customers view_products view_inventory view_reports view_warehouses :
      Permission
  view_documents manage_products manage_inventory manage_warehouses manage_documents : Permission
  manage_reports edit_prices doc_create_import doc_create_export doc_create_transfer : Permission
  doc_post manage_users : Permission

-- `Permission.value`, by which the members compare.
unfoldable pub value : Permission → String
value Permission.view_customers = "view_customers"
value Permission.manage_customers = "manage_customers"
value Permission.view_products = "view_products"
value Permission.view_inventory = "view_inventory"
value Permission.view_reports = "view_reports"
value Permission.view_warehouses = "view_warehouses"
value Permission.view_documents = "view_documents"
value Permission.manage_products = "manage_products"
value Permission.manage_inventory = "manage_inventory"
value Permission.manage_warehouses = "manage_warehouses"
value Permission.manage_documents = "manage_documents"
value Permission.manage_reports = "manage_reports"
value Permission.edit_prices = "edit_prices"
value Permission.doc_create_import = "doc_create_import"
value Permission.doc_create_export = "doc_create_export"
value Permission.doc_create_transfer = "doc_create_transfer"
value Permission.doc_post = "doc_post"
value Permission.manage_users = "manage_users"

-- `p in perms`
unfoldable pub contains : List Permission → Permission → Bool
contains [] p = false
contains (q ∷ perms) p = str_eq (value q) (value p) || contains perms p

-- `required.issubset(allowed)`
unfoldable pub is_subset : List Permission → List Permission → Bool
is_subset required allowed = all (contains allowed) required

-- The sets of `ROLE_PERMISSIONS`, in the source's order.
abbrev pub user_permissions : List Permission
user_permissions =
    Permission.view_customers ∷ Permission.view_products ∷ Permission.view_inventory
    ∷ Permission.view_reports ∷ []

abbrev pub sales_permissions : List Permission
sales_permissions =
    Permission.view_customers ∷ Permission.manage_customers ∷ Permission.view_products
    ∷ Permission.view_inventory ∷ Permission.view_reports ∷ Permission.doc_create_import ∷ []

abbrev pub warehouse_manager_permissions : List Permission
warehouse_manager_permissions =
    Permission.view_customers ∷ Permission.view_products ∷ Permission.manage_products
    ∷ Permission.view_warehouses ∷ Permission.manage_warehouses ∷ Permission.view_inventory
    ∷ Permission.manage_inventory ∷ Permission.view_documents ∷ Permission.manage_documents
    ∷ Permission.view_reports ∷ []

abbrev pub warehouse_permissions : List Permission
warehouse_permissions =
    Permission.view_customers ∷ Permission.view_products ∷ Permission.view_inventory
    ∷ Permission.view_reports ∷ Permission.doc_create_transfer ∷ Permission.doc_post ∷ []

abbrev pub accountant_permissions : List Permission
accountant_permissions =
    Permission.view_customers ∷ Permission.view_products ∷ Permission.view_inventory
    ∷ Permission.view_reports ∷ Permission.edit_prices ∷ []

abbrev pub all_permissions : List Permission
all_permissions =
    Permission.view_customers ∷ Permission.manage_customers ∷ Permission.view_products
    ∷ Permission.view_inventory ∷ Permission.view_reports ∷ Permission.view_warehouses
    ∷ Permission.view_documents ∷ Permission.manage_products ∷ Permission.manage_inventory
    ∷ Permission.manage_warehouses ∷ Permission.manage_documents ∷ Permission.manage_reports
    ∷ Permission.edit_prices ∷ Permission.doc_create_import ∷ Permission.doc_create_export
    ∷ Permission.doc_create_transfer ∷ Permission.doc_post ∷ Permission.manage_users ∷ []

-- `ROLE_PERMISSIONS.get(role, set())`
unfoldable pub role_permissions : String → List Permission
role_permissions role =
    if str_eq role "admin"
    then all_permissions
    else if str_eq role "user"
    then user_permissions
    else if str_eq role "sales"
    then sales_permissions
    else if str_eq role "warehouse_manager"
    then warehouse_manager_permissions
    else if str_eq role "warehouse"
    then warehouse_permissions
    else if str_eq role "accountant"
    then accountant_permissions
    else []

unfoldable pub role_has_permissions : String → List Permission → Bool
role_has_permissions role required =
    if str_eq role "admin" then true else is_subset required (role_permissions role)

pub record CurrentUser : Type 0 where
  pub user_id : ℕ
  pub role : String
  pub email : String
  pub full_name : String
  pub is_active : Bool

-- `_checker`; `none` where it raises the 403.
unfoldable pub require_permissions : List Permission → CurrentUser → Option CurrentUser
require_permissions required user =
    if str_eq user.role "admin"
    then some user
    else if role_has_permissions user.role required
    then some user
    else none

-- What the routes `/documents/import`, `/documents/export`, `/documents/sale` and
-- `/documents/transfer`, which create a document, ask for.
abbrev pub import_requires : List Permission
import_requires = Permission.doc_create_import ∷ []

abbrev pub export_requires : List Permission
export_requires = Permission.doc_create_export ∷ []

abbrev pub sale_requires : List Permission
sale_requires = Permission.doc_create_export ∷ []

abbrev pub transfer_requires : List Permission
transfer_requires = Permission.doc_create_transfer ∷ []

unfoldable pub create_requires : DocumentType → List Permission
create_requires DocumentType.import = import_requires
create_requires DocumentType.export = export_requires
create_requires DocumentType.sale = sale_requires
create_requires DocumentType.transfer = transfer_requires

-- What the route `/documents/{document_id}/post` asks for.
abbrev pub post_requires : List Permission
post_requires = Permission.doc_post ∷ []
