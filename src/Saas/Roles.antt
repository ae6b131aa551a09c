-- ===== src/Saas/Roles.antt =====
-- Roles (src/saas/roles.ts). The last argument is the SaaS mode, which the environment sets.
use xcoder.Prelude.{Bool, true, false, [], ◌∷◌}
use xcoder.Prelude.Text.{Text, codes, trim, to_lower, one_of}

-- `other_role` is any other text, or none.
pub data Role : Type 0 where
  saas_owner saas_ops tenant_admin tenant_user admin user other_role : Role

-- `/^(1|true|yes|on)$/i` on the trimmed variable
unfoldable pub is_saas_mode : Text → Bool
unfolding trim to_lower
is_saas_mode v =
    one_of (codes "1" ∷ codes "true" ∷ codes "yes" ∷ codes "on" ∷ []) (to_lower (trim v))

unfoldable pub is_platform_admin : Role → Bool → Bool
is_platform_admin saas_owner true = true
is_platform_admin admin false = true
is_platform_admin _ _ = false

unfoldable pub is_platform_staff : Role → Bool → Bool
is_platform_staff saas_owner true = true
is_platform_staff saas_ops true = true
is_platform_staff admin false = true
is_platform_staff _ _ = false

unfoldable pub is_tenant_admin : Role → Bool → Bool
is_tenant_admin tenant_admin true = true
is_tenant_admin admin false = true
is_tenant_admin _ _ = false

unfoldable pub is_tenant_member : Role → Bool → Bool
is_tenant_member tenant_admin true = true
is_tenant_member tenant_user true = true
is_tenant_member admin false = true
is_tenant_member user false = true
is_tenant_member _ _ = false
