-- ===== src/Runtime/Entry/Denied.antt =====
-- Which errors isSupported of npm/core/index.js reports as a denied permission.
use keyobject_aws_kms.Prelude.{
  ◌≡◌, refl, ◌⊎◌, inl, inr, true, false, Option, none, some, Text, codes, Bool-cases,
}
use keyobject_aws_kms.Runtime.Host.{Failure, error, caused_error, message_of}
use keyobject_aws_kms.Runtime.Entry.{
  unsupported, permission_denied, is_denied, permission_failure, code_or, refused,
}

-- The first error for which the test holds, in the order of the causes; none before it.
pub data FirstDenied (found : Failure) : Failure → Type 0 where
  here : is_denied found ≡ true → FirstDenied found found
  beneath :
      (code : Option Text) (message : Text) (cause : Failure)
      → is_denied (caused_error code message cause) ≡ false
      → FirstDenied found cause
      → FirstDenied found (caused_error code message cause)

-- No error of the chain is one of a denied permission.
abbrev pub NoneDenied : Failure → Type 0
NoneDenied (error code message) = is_denied (error code message) ≡ false
NoneDenied (caused_error code message cause) =
    (is_denied (caused_error code message cause) ≡ false) × NoneDenied cause

abbrev Searched : Failure → Option Text → Type 0
Searched e none = NoneDenied e
Searched e (some reason) = (found : Failure) × FirstDenied found e × (message_of found ≡ reason)

permission_failure-Searched : (e : Failure) → Searched e (permission_failure e)
unfolding permission_failure
permission_failure-Searched (error code message) =
    elim (Bool-cases (is_denied (error code message))) [
      | inl d ↦ rw d (error code message, here d, refl)
      | inr n ↦ rw n n
    ]
permission_failure-Searched (caused_error code message cause) =
    elim (Bool-cases (is_denied (caused_error code message cause))) [
      | inl d ↦ rw d (caused_error code message cause, here d, refl)
      | inr n ↦ rw n (deeper (permission_failure cause) n (permission_failure-Searched cause))
    ]
  where
    deeper :
        (o : Option Text)
        → is_denied (caused_error code message cause) ≡ false
        → Searched cause o
        → Searched (caused_error code message cause) o
    deeper none n x = (n, x)
    deeper (some reason) n (found, first, same) = (found, beneath code message cause n first, same)

-- An error of `modulePath` is reported as ERR_AWSKMS_PERMISSION_DENIED exactly where it or an error in
-- its chain of causes is one of a denied permission (EACCES, EPERM or ERR_ACCESS_DENIED), and the reason
-- is the message of the first of them; every other error is reported with its own code, or with
-- ERR_AWSKMS_UNKNOWN where it has none, and its own message.
pub refused-NoneDenied :
    (e : Failure)
    → ((found : Failure) × FirstDenied found e
        × (refused e ≡ unsupported permission_denied (message_of found)))
      ⊎ (NoneDenied e
          × (refused e ≡ unsupported (code_or (codes "ERR_AWSKMS_UNKNOWN") e) (message_of e)))
unfolding refused
refused-NoneDenied e = by_search (permission_failure e) refl (permission_failure-Searched e)
  where
    by_search :
        (o : Option Text)
        → permission_failure e ≡ o
        → Searched e o
        → ((found : Failure) × FirstDenied found e
            × (refused e ≡ unsupported permission_denied (message_of found)))
          ⊎ (NoneDenied e
              × (refused e ≡ unsupported (code_or (codes "ERR_AWSKMS_UNKNOWN") e) (message_of e)))
    by_search none p x = inr (x, rw p refl)
    by_search (some reason) p (found, first, same) = inl (found, first, rw (p, same) refl)
