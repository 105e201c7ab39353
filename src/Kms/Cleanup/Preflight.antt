-- ===== src/Kms/Cleanup/Preflight.antt =====
-- What the preflight of scripts/real-kms-keys.mjs has established when it returns.
use keyobject_aws_kms.Prelude.{
  ◌≡◌, refl, true, not, not-false, Option, none, some, inl, inr, ◌⊎◌, is_empty, Text, text_eq,
}
use keyobject_aws_kms.Kms.Program.{Command, Request, Metadata, done, throw, other_error, ◌>>=◌}
use keyobject_aws_kms.Kms.Program.Logic.{History, Stays, Runs, Runs-if, Runs-bind}
use keyobject_aws_kms.Kms.Teardown.{
  TeardownOptions, Target, Entry, verify_owned_target, describe_alias_async, entry_for,
  preflight_alias, preflight_verified, preflight,
}
use keyobject_aws_kms.Kms.Teardown.Evidence.{
  IsReadOnly, asked, IsOwned, IsUnknown, IsUnaliased, IsAliased, Verified, Aliased, Verified-Stays,
  Aliased-Stays, verify_owned_target-Runs, describe_alias_async-Runs,
}

-- The alias of a target stands for no other key.
abbrev pub AliasClear : TeardownOptions → History → Metadata → Option Text → Type 0
AliasClear opts h metadata none = Unit
AliasClear opts h metadata (some alias) =
    (is_empty alias ≡ true)
    ⊎ IsUnaliased opts h alias
    ⊎ ((aliased : Metadata) × IsAliased opts h alias aliased
        × (text_eq aliased.arn metadata.arn ≡ true))

pub record IsVerified (opts : TeardownOptions) (h : History) (t : Target) : Type 0 where
  pub metadata : Metadata
  pub owned : IsOwned opts h t metadata
  pub clear : AliasClear opts h metadata t.alias

-- A target passes the preflight if its key does not exist, or is owned and its alias is clear.
abbrev pub Passed : TeardownOptions → History → Target → Type 0
Passed opts h t = IsUnknown opts h t.id ⊎ IsVerified opts h t

-- The entry that the preflight of `t` makes.
pub record IsEntry (opts : TeardownOptions) (h : History) (t : Target) (e : Entry) : Type 0 where
  pub verified : IsVerified opts h t
  pub target : e.target ≡ t
  pub alias : (e.alias ≡ none) ⊎ (e.alias ≡ t.alias)

abbrev pub Preflighted : TeardownOptions → Target → History → Option Entry → Type 0
Preflighted opts t h none = IsUnknown opts h t.id
Preflighted opts t h (some e) = IsEntry opts h t e

AliasClear-Stays :
    (opts : TeardownOptions) (metadata : Metadata) (alias : Option Text)
    → Stays (λ h. AliasClear opts h metadata alias)
AliasClear-Stays opts metadata none h g p c = tt
AliasClear-Stays opts metadata (some alias) h g p (inl empty) = inl empty
AliasClear-Stays opts metadata (some alias) h g p (inr (inl unaliased)) =
    inr (inl (Aliased-Stays opts alias none h g p unaliased))
AliasClear-Stays opts metadata (some alias) h g p (inr (inr (aliased, is, same))) =
    inr (inr (aliased, Aliased-Stays opts alias (some aliased) h g p is, same))

pub IsVerified-Stays : (opts : TeardownOptions) (t : Target) → Stays (λ h. IsVerified opts h t)
IsVerified-Stays opts t h g p v = record {
  metadata = v.metadata;
  owned = Verified-Stays opts t (some v.metadata) h g p v.owned;
  clear = AliasClear-Stays opts v.metadata t.alias h g p v.clear;
}

pub Passed-Stays : (opts : TeardownOptions) (t : Target) → Stays (λ h. Passed opts h t)
Passed-Stays opts t h g p (inl unknown) = inl (Verified-Stays opts t none h g p unknown)
Passed-Stays opts t h g p (inr v) = inr (IsVerified-Stays opts t h g p v)

pub Preflighted-Stays :
    (opts : TeardownOptions) (t : Target) (o : Option Entry) → Stays (λ h. Preflighted opts t h o)
Preflighted-Stays opts t none h g p unknown = Verified-Stays opts t none h g p unknown
Preflighted-Stays opts t (some e) h g p i = record {
  verified = IsVerified-Stays opts t h g p i.verified;
  target = i.target;
  alias = i.alias;
}

pub Passed-of_Preflighted :
    (opts : TeardownOptions) (t : Target) (h : History) (o : Option Entry)
    → Preflighted opts t h o
    → Passed opts h t
Passed-of_Preflighted opts t h none unknown = inl unknown
Passed-of_Preflighted opts t h (some e) i = inr i.verified

module _ (opts : TeardownOptions) (Q : History → Request → Type 0)
    (reads : (h : History) (c : Command) → IsReadOnly c → Q h (asked opts c)) where
  entry_for-Runs :
      (t : Target) (alias : Text) (metadata : Metadata) (h : History) (o : Option Metadata)
      → IsOwned opts h t metadata
      → t.alias ≡ some alias
      → Aliased opts alias h o
      → Runs Q (Preflighted opts t) h (entry_for t alias metadata o)
  unfolding entry_for
  entry_for-Runs t alias metadata h none owned has unaliased = record {
    verified = record { metadata = metadata; owned = owned; clear = rw has (inr (inl unaliased)) };
    target = refl;
    alias = inl refl;
  }
  entry_for-Runs t alias metadata h (some aliased) owned has is =
      Runs-if Q (Preflighted opts t) h (not (text_eq aliased.arn metadata.arn))
        (throw (other_error "refusing to delete: it targets another key"))
        (done (some (record { target = t; alias = some alias }))) (λ e. tt)
        (λ same. record {
          verified = record {
            metadata = metadata;
            owned = owned;
            clear = rw has (inr (inr (aliased, is, not-false _ same)));
          };
          target = refl;
          alias = inr (rw has);
        })

  preflight_alias-Runs :
      (t : Target) (metadata : Metadata) (h : History) (o : Option Text)
      → IsOwned opts h t metadata
      → t.alias ≡ o
      → Runs Q (Preflighted opts t) h (preflight_alias opts t metadata o)
  unfolding preflight_alias
  preflight_alias-Runs t metadata h none owned has = record {
    verified = record { metadata = metadata; owned = owned; clear = rw has tt };
    target = refl;
    alias = inl refl;
  }
  preflight_alias-Runs t metadata h (some alias) owned has =
      Runs-if Q (Preflighted opts t) h (is_empty alias)
        (done (some (record { target = t; alias = none })))
        (describe_alias_async opts alias >>= entry_for t alias metadata)
        (λ empty. record {
          verified = record { metadata = metadata; owned = owned; clear = rw has (inl empty) };
          target = refl;
          alias = inl refl;
        })
        (λ full.
          Runs-bind Q (Aliased opts alias) (Preflighted opts t) (entry_for t alias metadata)
            (describe_alias_async opts alias) h (describe_alias_async-Runs opts Q reads alias h)
            (λ g p o a.
              entry_for-Runs t alias metadata g o
                (Verified-Stays opts t (some metadata) h g p owned) has a))

  preflight_verified-Runs :
      (t : Target) (h : History) (o : Option Metadata)
      → Verified opts t h o
      → Runs Q (Preflighted opts t) h (preflight_verified opts t o)
  unfolding preflight_verified
  preflight_verified-Runs t h none unknown = unknown
  preflight_verified-Runs t h (some metadata) owned =
      preflight_alias-Runs t metadata h t.alias owned refl

  -- The preflight of a target only reads, and what it returns rests on the replies.
  pub preflight-Runs : (t : Target) (h : History) → Runs Q (Preflighted opts t) h (preflight opts t)
  unfolding preflight
  preflight-Runs t h =
      Runs-bind Q (Verified opts t) (Preflighted opts t) (preflight_verified opts t)
        (verify_owned_target opts t) h (verify_owned_target-Runs opts Q reads t h)
        (λ g p o v. preflight_verified-Runs t g o v)
