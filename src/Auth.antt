-- ===== src/Auth.antt =====
-- The callers of source/shared/utils/auth-utils.ts: users of Identity Center, and clients that
-- act for a machine and have an email address that is made up.
use Prim.Native.String
use innovation_sandbox_on_aw.Common.{String, Option, none, some, List, [], ◌∷◌}

pub data Role : Type 0 where
  admin_role manager_role user_role : Role

pub data IsbUser : Type 0 where
  idc_user : (email user_id : String) → List Role → IsbUser
  m2m_user : (client_id : String) → List Role → IsbUser

abbrev pub role_name : Role → String
role_name admin_role = "Admin"
role_name manager_role = "Manager"
role_name user_role = "User"

-- The first role, as a template string shows it: `undefined` if there is none.
abbrev pub first_role_name : List Role → String
first_role_name [] = "undefined"
first_role_name (r ∷ _) = role_name r

-- The constant M2M_EMAIL_DOMAIN behind its sign.
abbrev pub m2m_email_suffix : String
m2m_email_suffix = "@automation.local"

-- `buildM2mSyntheticEmail`
unfoldable pub build_m2m_synthetic_email : (client_id role : String) → String
build_m2m_synthetic_email client_id role =
    String.◌++◌ "m2m-" (String.◌++◌ client_id (String.◌++◌ "-" (String.◌++◌ role m2m_email_suffix)))

-- `getUserEmail`
unfoldable pub get_user_email : IsbUser → String
unfolding build_m2m_synthetic_email
get_user_email (idc_user email _ _) = email
get_user_email (m2m_user client_id roles) =
    build_m2m_synthetic_email client_id (first_role_name roles)

-- `isIdcUser`, with the user's id.
abbrev pub idc_user_id : IsbUser → Option String
idc_user_id (idc_user _ id _) = some id
idc_user_id (m2m_user _ _) = none
