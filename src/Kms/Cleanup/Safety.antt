-- ===== src/Kms/Cleanup/Safety.antt =====
-- The two phases of scripts/real-kms-keys.mjs: no alias and no key is deleted before every target
-- has passed the preflight, nor without a second check of its own.
use keyobject_aws_kms.Prelude.{ℕ, ◌≡◌, refl, sym, some, List, [], ◌∷◌, All, In, Text, subst}
use keyobject_aws_kms.Kms.Program.{
  Command, describe_key, list_resource_tags, get_resources, list_keys, get_caller_identity,
  create_key, create_alias, delete_alias, schedule_key_deletion, sleep, Request,
}
use keyobject_aws_kms.Kms.Program.Logic.{History, ◌⊑◌, Stays, Runs}
use keyobject_aws_kms.Kms.Program.After.{After, After-Stays, ⊑-append, Runs-After, Runs-imp}
use keyobject_aws_kms.Kms.Teardown.{TeardownOptions, Target}
use keyobject_aws_kms.Kms.Teardown.Evidence.{IsReadOnly, asked, Verified-Stays, Aliased-Stays}
use keyobject_aws_kms.Kms.Cleanup.{delete_entry_alias, delete_key}
use keyobject_aws_kms.Kms.Cleanup.Preflight.{Passed, Passed-Stays}
use keyobject_aws_kms.Kms.Cleanup.Deletion.{
  MayUnalias, MaySchedule, AliasCall, KeyCall, Sent, KeyResult, delete_entry_alias-Runs,
}
use keyobject_aws_kms.Kms.Cleanup.Scheduling.{KeyResult-Stays, delete_key-Runs}

-- Every target has passed the preflight.
abbrev pub AllPassed : TeardownOptions → List Target → History → Type 0
AllPassed opts targets h = All (Passed opts h) targets

-- The calls of `cleanup`. An alias or a key is deleted only for one of the targets, after all of them
-- have passed the preflight, and by a check that was made since.
abbrev pub CleanupCall : TeardownOptions → List Target → History → Command → Type 0
CleanupCall opts targets h (delete_alias name) =
    (t : Target) × In t targets
    × (t.alias ≡ some name)
    × After (AllPassed opts targets) (λ late. MayUnalias opts late t name) h
CleanupCall opts targets h (schedule_key_deletion id window) =
    (t : Target) × In t targets
    × After (AllPassed opts targets) (λ late. MaySchedule opts late t id window) h
CleanupCall opts targets h (create_key spec description tags) = ⊥
CleanupCall opts targets h (create_alias name id) = ⊥
CleanupCall opts targets h _ = Unit

pub AllPassed-Stays :
    (opts : TeardownOptions) (targets : List Target) → Stays (AllPassed opts targets)
AllPassed-Stays opts [] h g p a = tt
AllPassed-Stays opts (t ∷ ts) h g p a =
    (Passed-Stays opts t h g p a.0, AllPassed-Stays opts ts h g p a.1)

MayUnalias-Stays :
    (opts : TeardownOptions) (t : Target) (name : Text) → Stays (λ h. MayUnalias opts h t name)
MayUnalias-Stays opts t name h g p m = record {
  metadata = m.metadata;
  aliased = m.aliased;
  owned = Verified-Stays opts t (some m.metadata) h g p m.owned;
  stands = Aliased-Stays opts name (some m.aliased) h g p m.stands;
  same = m.same;
  real = m.real;
}

MaySchedule-Stays :
    (opts : TeardownOptions) (t : Target) (id : Text) (window : ℕ)
    → Stays (λ h. MaySchedule opts h t id window)
MaySchedule-Stays opts t id window h g p m = record {
  metadata = m.metadata;
  owned = Verified-Stays opts t (some m.metadata) h g p m.owned;
  of_target = m.of_target;
  of_options = m.of_options;
  real = m.real;
}

module _ (opts : TeardownOptions) (targets : List Target) where
  CleanupCall-Stays : (c : Command) → Stays (λ h. CleanupCall opts targets h c)
  CleanupCall-Stays (delete_alias name) h g p (t, inside, has, after) = (
    t,
    inside,
    has,
    After-Stays (AllPassed opts targets) (λ late. MayUnalias opts late t name)
        (AllPassed-Stays opts targets) (MayUnalias-Stays opts t name) h g p after,
  )
  CleanupCall-Stays (schedule_key_deletion id window) h g p (t, inside, after) = (
    t,
    inside,
    After-Stays (AllPassed opts targets) (λ late. MaySchedule opts late t id window)
        (AllPassed-Stays opts targets) (MaySchedule-Stays opts t id window) h g p after,
  )
  CleanupCall-Stays (create_key spec description tags) h g p r = r
  CleanupCall-Stays (create_alias name id) h g p r = r
  CleanupCall-Stays (describe_key id) h g p r = tt
  CleanupCall-Stays (list_resource_tags id) h g p r = tt
  CleanupCall-Stays (get_resources key value) h g p r = tt
  CleanupCall-Stays list_keys h g p r = tt
  CleanupCall-Stays get_caller_identity h g p r = tt
  CleanupCall-Stays (sleep n) h g p r = tt

  abbrev pub Allowed : History → Request → Type 0
  Allowed = Sent opts (CleanupCall opts targets)

  pub Allowed-Stays : (c : Request) → Stays (λ h. Allowed h c)
  Allowed-Stays c h g p q = (q.0, CleanupCall-Stays c.command h g p q.1)

  pub reads : (h : History) (c : Command) → IsReadOnly c → Allowed h (asked opts c)
  reads h (describe_key id) r = (refl, tt)
  reads h (list_resource_tags id) r = (refl, tt)
  reads h (get_resources key value) r = (refl, tt)
  reads h list_keys r = (refl, tt)
  reads h get_caller_identity r = (refl, tt)
  reads h (create_key spec description tags) r = absurd r
  reads h (create_alias name id) r = absurd r
  reads h (delete_alias name) r = absurd r
  reads h (schedule_key_deletion id window) r = absurd r
  reads h (sleep n) r = (refl, tt)

  of_AliasCall :
      (t : Target) (alias : Text) (h : History) (same : Type 0) (c : Command)
      → In t targets
      → t.alias ≡ some alias
      → After (AllPassed opts targets) (λ late. same × AliasCall opts t alias late c) h
      → CleanupCall opts targets h c
  of_AliasCall t alias h same (delete_alias name) inside has a =
      let (e, may) = a.since.1 in
      (
        t,
        inside,
        rw e has,
        record {
          late = a.late;
          early = a.early;
          split = a.split;
          before = a.before;
          since = subst (λ n. MayUnalias opts a.late t n) (sym e) may;
        },
      )
  of_AliasCall t alias h same (schedule_key_deletion id window) inside has a = absurd a.since.1
  of_AliasCall t alias h same (create_key spec description tags) inside has a = absurd a.since.1
  of_AliasCall t alias h same (create_alias name id) inside has a = absurd a.since.1
  of_AliasCall t alias h same (describe_key id) inside has a = tt
  of_AliasCall t alias h same (list_resource_tags id) inside has a = tt
  of_AliasCall t alias h same (get_resources key value) inside has a = tt
  of_AliasCall t alias h same list_keys inside has a = tt
  of_AliasCall t alias h same get_caller_identity inside has a = tt
  of_AliasCall t alias h same (sleep n) inside has a = tt

  of_KeyCall :
      (t : Target) (h : History) (same : Type 0) (c : Command)
      → In t targets
      → After (AllPassed opts targets) (λ late. same × KeyCall opts t late c) h
      → CleanupCall opts targets h c
  of_KeyCall t h same (schedule_key_deletion id window) inside a = (
    t,
    inside,
    record {
      late = a.late;
      early = a.early;
      split = a.split;
      before = a.before;
      since = a.since.1;
    },
  )
  of_KeyCall t h same (delete_alias name) inside a = absurd a.since.1
  of_KeyCall t h same (create_key spec description tags) inside a = absurd a.since.1
  of_KeyCall t h same (create_alias name id) inside a = absurd a.since.1
  of_KeyCall t h same (describe_key id) inside a = tt
  of_KeyCall t h same (list_resource_tags id) inside a = tt
  of_KeyCall t h same (get_resources key value) inside a = tt
  of_KeyCall t h same list_keys inside a = tt
  of_KeyCall t h same get_caller_identity inside a = tt
  of_KeyCall t h same (sleep n) inside a = tt

  abbrev pub Any : History → ℕ → Type 0
  Any h n = Unit

  -- The deletion of an alias, as one step of the whole.
  pub alias_step :
      (t : Target) (alias : Text) (g : History)
      → In t targets
      → t.alias ≡ some alias
      → AllPassed opts targets g
      → Runs Allowed Any g (delete_entry_alias opts t alias)
  alias_step t alias g inside has passed =
      Runs-imp _ Allowed _ Any
        (λ h c a.
          (a.since.0, of_AliasCall t alias h (c ≡ asked opts c.command) c.command inside has a))
        (λ h n a. tt) (delete_entry_alias opts t alias) g
        (Runs-After (AllPassed opts targets) (Sent opts (AliasCall opts t alias)) Any g passed
          (delete_entry_alias opts t alias) [] (delete_entry_alias-Runs opts t alias []))

  pub key_step :
      (t : Target) (g : History)
      → In t targets
      → AllPassed opts targets g
      → Runs Allowed (KeyResult opts t) g (delete_key opts t)
  key_step t g inside passed =
      Runs-imp _ Allowed _ (KeyResult opts t)
        (λ h c a. (a.since.0, of_KeyCall t h (c ≡ asked opts c.command) c.command inside a))
        (λ h n a.
          KeyResult-Stays opts t n a.late h
            (subst (λ x. a.late ⊑ x) (sym a.split) (⊑-append a.late a.early)) a.since)
        (delete_key opts t) g
        (Runs-After (AllPassed opts targets) (Sent opts (KeyCall opts t)) (KeyResult opts t) g
          passed (delete_key opts t) [] (delete_key-Runs opts t []))
