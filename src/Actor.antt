-- ===== src/Actor.antt =====
-- The people behind a command, as claims and assignments check them in the store.
-- Source: ValidateRecyclerActor and ValidateCollectorActor of src/backend/internal/repository.
use team5_ewaste_platform.Common.{
  ◌&&◌, not, Bool, Text, codes, text_eq, ◌==◌, store, claim_actor_not_eligible,
  assignment_actor_not_eligible,
}
use team5_ewaste_platform.Store.{Tx, fail_if, exists, count}
use team5_ewaste_platform.Store.Directory.{Directory, User, Role, Organisation}

-- The joins with roles and organisations find one row at most, by their primary keys.
abbrev has_role : Text → Text → User → Role → Bool
has_role role_code organisation_type u r =
    text_eq r.role_code u.role_code
    && r.is_active
    && text_eq r.allowed_organisation_type organisation_type

abbrev pub is_active_organisation : Text → Text → Organisation → Bool
is_active_organisation organisation_id organisation_type o =
    text_eq o.organisation_id organisation_id
    && text_eq o.organisation_type organisation_type
    && text_eq o.status (codes "ACTIVE")

abbrev is_actor : Text → Text → Text → Text → Directory → User → Bool
is_actor role_code organisation_type user_id organisation_id d u =
    text_eq u.user_id user_id
    && text_eq u.organisation_id organisation_id
    && text_eq u.status (codes "ACTIVE")
    && text_eq u.role_code role_code
    && exists (has_role role_code organisation_type u) d.roles
    && exists (is_active_organisation organisation_id organisation_type) d.organisations

unfoldable pub is_eligible : Text → Text → Text → Text → Directory → Bool
is_eligible role_code organisation_type user_id organisation_id d =
    count (is_actor role_code organisation_type user_id organisation_id d) d.users == 1

unfoldable pub validate_recycler_actor : Text → Text → Tx (Unit {0})
validate_recycler_actor user_id organisation_id db =
    fail_if
      (not (
        is_eligible (codes "RECYCLER") (codes "PROCESSING_FACILITY") user_id organisation_id
          db.directory))
      (store claim_actor_not_eligible) db

unfoldable pub validate_collector_actor : Text → Text → Tx (Unit {0})
validate_collector_actor user_id organisation_id db =
    fail_if
      (not (
        is_eligible (codes "COLLECTOR") (codes "COLLECTION_OPERATOR") user_id organisation_id
          db.directory))
      (store assignment_actor_not_eligible) db
