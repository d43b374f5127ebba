-- ===== src/Core/Auth.antt =====
-- platform/controller-core/src/authPolicy.js. The address check and the credential check are
-- functions that the policy is built with; an absent `verifyCredential` is `none`.
use web_action_recorder_exte.Common.{
  String, Bool, true, false, not, ◌&&◌, Option, none, some, if◌then◌else◌, truthy, ◌≡◌, ◌↔◌, ◌⊎◌,
  arith,
}
use web_action_recorder_exte.Core.Errors.{Result, ok, err, domain_error, auth_denied}

pub record AuthContext : Type 0 where
  pub source_address : Option String
  -- `credentialVerificationResult === true`
  pub credential_verified : Bool
  pub actor_type : Option String
  pub actor_id : Option String
  pub requested_action : Option String

pub data Decision : Type 0 where
  allow : (actor_type actor_id action : Option String) → Decision
  deny : (reason : String) → Decision

pub record AuthPolicy : Type 0 where
  pub verify_credential : Option (AuthContext → Bool)
  pub ip_allowed : Option String → Bool

abbrev pub verified : Option (AuthContext → Bool) → AuthContext → Bool
verified none c = false
verified (some verify) c = verify c

-- `decide`
unfoldable pub decide : AuthPolicy → AuthContext → Decision
decide p c =
    if truthy c.source_address && not (p.ip_allowed c.source_address)
    then deny "IP not allowed"
    else if c.credential_verified
    then allow c.actor_type c.actor_id c.requested_action
    else if verified p.verify_credential c
    then allow c.actor_type c.actor_id c.requested_action
    else deny "Unauthorized"

-- `require`
unfoldable pub require : AuthPolicy → AuthContext → Result Decision
require p c = elim (decide p c) [
  | allow t i a ↦ ok (allow t i a)
  | deny r ↦ err (domain_error auth_denied)
]

-- `require` passes exactly when the address, if one is given, is allowed, and the credential was
-- verified before or is by the policy's own check; otherwise it throws AUTH_DENIED (401).
pub require_iff :
    (p : AuthPolicy) (c : AuthContext)
    → ((require p c ≡ ok (allow c.actor_type c.actor_id c.requested_action)) ↔ (
        ((truthy c.source_address ≡ false) ⊎ (p.ip_allowed c.source_address ≡ true))
        × ((c.credential_verified ≡ true) ⊎ (verified p.verify_credential c ≡ true))))
      × ((require p c ≡ ok (allow c.actor_type c.actor_id c.requested_action))
          ⊎ (require p c ≡ err (domain_error auth_denied)))
unfolding decide require
require_iff p c = ground arith
