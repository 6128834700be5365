-- ===== src/Roles/Tests.antt =====
-- Tests of the roles and devices: an editor at a device of their own, and the same device revoked.
use obsidian_baritone.Prelude.{◌≡◌, refl, Bool, true, false, none, some, lit, ok, err, str_eq}
use obsidian_baritone.Protocol.{device_revoked}
use obsidian_baritone.Engine.Store.{editor, viewer}
use obsidian_baritone.Roles.{AuthRepository, DeviceClaims, role_rank, require_role, verify_device}

abbrev repo : Bool → AuthRepository
repo revoked = record {
  get_member = λ vault_id user_id. some editor;
  get_device = λ device_id.
      some (record {
        device_id = lit "d1";
        user_id = lit "u1";
        vault_id = lit "v1";
        revoked = revoked;
      });
}

abbrev claims : DeviceClaims
claims = record { user_id = lit "u1"; vault_id = lit "v1"; device_id = lit "d1" }

lets_editor_view :
    (verify_device (repo false) claims ≡ ok tt)
    × (require_role (repo false) (lit "v1") (lit "u1") viewer ≡ ok editor)
unfolding verify_device require_role role_rank str_eq
lets_editor_view = (refl, refl)

refuses_revoked :
    verify_device (repo true) claims
    ≡ err (record { code = device_revoked; message = "Device is not valid"; details = none })
unfolding verify_device
refuses_revoked = refl
