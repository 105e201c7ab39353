-- ===== src/Kms/Provision/Whole.antt =====
-- The whole of `setup` of scripts/real-kms-keys.mjs.
use keyobject_aws_kms.Prelude.{
  arith, ℕ, ◌≡◌, refl, subst, sym, ap, ◌∙◌, Bool, true, false, ◌&&◌, Option, none, some, List, [],
  ◌∷◌, inl, inr, ◌⊎◌, All, In, Text, text_eq, text_eq_sound, Bool-cases,
}
use keyobject_aws_kms.Kms.Program.{
  Command, describe_key, list_resource_tags, get_resources, list_keys, get_caller_identity,
  create_key, create_alias, delete_alias, schedule_key_deletion, sleep, Request, Metadata, done,
}
use keyobject_aws_kms.Kms.Program.Logic.{History, Stays, Runs, Runs-bind}
use keyobject_aws_kms.Kms.Program.After.{Runs-imp}
use keyobject_aws_kms.Kms.MapLimit.{map_limit}
use keyobject_aws_kms.Kms.MapLimit.Results.{Outputs, map_limit-Runs}
use keyobject_aws_kms.Kms.Manifest.{
  KeyArn, parse_key_arn, Manifest, listed, is_run_id, includes, expected_tags,
}
use keyobject_aws_kms.Kms.Validation.{Place, is_in_place, valid_roles, validate_manifest}
use keyobject_aws_kms.Kms.Setup.{SetupOptions, Wanted, alias_for}
use keyobject_aws_kms.Kms.Setup.Attempts.{Enabled-Stays}
use keyobject_aws_kms.Kms.Provision.{
  Created, Provisioned, unavailable, created, provision, setup_manifest, setup,
}
use keyobject_aws_kms.Kms.Provision.Calls.{
  Free-Stays, IsNew, IsNew-Stays, SetupCall, IsMade, KeyCalls, KeyMade, provision-Runs,
}
use keyobject_aws_kms.Kms.Provision.Valid.{
  IsGood, Good, alias_for-namespace, setup_manifest-validate_manifest,
}

-- The service has given the key an ARN of the account and the region that names its id.
abbrev pub is_placed_arn : Place → Metadata → Option KeyArn → Bool
is_placed_arn place metadata none = false
is_placed_arn place metadata (some parts) =
    is_in_place place (some parts) && text_eq metadata.key_id parts.key_id

abbrev pub is_placed : Place → Metadata → Bool
is_placed place metadata = is_placed_arn place metadata (parse_key_arn metadata.arn)

-- A key was created elsewhere.
abbrev pub Misplaced : SetupOptions → Text → History → Type 0
Misplaced opts run_id h =
    (w : Wanted) × (metadata : Metadata) × IsNew opts run_id w h metadata
    × (is_placed opts.place metadata ≡ false)

SetupCall-Stays :
    (opts : SetupOptions) (run_id : Text) (w : Wanted) (alias : Text) (c : Command)
    → Stays (λ h. SetupCall opts run_id w alias h c)
SetupCall-Stays opts run_id w alias (create_key spec text tags) h g p (same, tagged, real, free) =
    (same, tagged, real, Free-Stays opts alias h g p free)
SetupCall-Stays opts run_id w alias (create_alias name id) h g p
      (same, real, (metadata, new, named), enabled) =
    (
      same,
      real,
      (metadata, IsNew-Stays opts run_id w metadata h g p new, named),
      Enabled-Stays opts.aws id h g p enabled,
    )
SetupCall-Stays opts run_id w alias (delete_alias name) h g p r = r
SetupCall-Stays opts run_id w alias (schedule_key_deletion id window) h g p r = r
SetupCall-Stays opts run_id w alias (describe_key id) h g p r = tt
SetupCall-Stays opts run_id w alias (list_resource_tags id) h g p r = tt
SetupCall-Stays opts run_id w alias (get_resources key value) h g p r = tt
SetupCall-Stays opts run_id w alias list_keys h g p r = tt
SetupCall-Stays opts run_id w alias get_caller_identity h g p r = tt
SetupCall-Stays opts run_id w alias (sleep n) h g p r = tt

module _ (lower_case : Text → Text) (opts : SetupOptions) (run_id : Text) where
  -- The calls of `setup`: those for one of the wanted keys.
  abbrev pub Calls : List Wanted → History → Request → Type 0
  Calls wanted h r = (w : Wanted) × In w wanted × KeyCalls lower_case opts run_id w h r

  pub Calls-Stays : (wanted : List Wanted) (c : Request) → Stays (λ h. Calls wanted h c)
  Calls-Stays wanted c h g p (w, inside, (sent, call_)) = (
    w,
    inside,
    (sent, SetupCall-Stays opts run_id w (alias_for lower_case run_id w) c.command h g p call_),
  )

  pub KeyMade-Stays :
      (w : Wanted) (r : Provisioned) → Stays (λ h. KeyMade lower_case opts run_id w h r)
  KeyMade-Stays w (unavailable x) h g p m = m
  KeyMade-Stays w (created c) h g p m = record {
    of_wanted = m.of_wanted;
    has_alias = m.has_alias;
    has_tags = m.has_tags;
    is_new = λ real.
        let (metadata, new, arn, id) = m.is_new real in
        (metadata, IsNew-Stays opts run_id w metadata h g p new, arn, id);
  }

  abbrev pub Results : List Wanted → History → List Wanted → List Provisioned → Type 0
  Results wanted =
      Outputs (Calls wanted) (Calls-Stays wanted) (λ w h r. KeyMade lower_case opts run_id w h r)
        KeyMade-Stays

  placed :
      (w : Wanted) (c : Created) (h : History) (metadata : Metadata) (o : Option KeyArn)
      → includes opts.roles w.role ≡ true
      → IsMade opts run_id w (alias_for lower_case run_id w) h c
      → c.arn ≡ metadata.arn
      → c.key_id ≡ metadata.key_id
      → parse_key_arn metadata.arn ≡ o
      → is_placed_arn opts.place metadata o ≡ true
      → IsGood opts.place run_id opts.roles c
  placed w c h metadata none role m arn id e is = absurd (cc is)
  placed w c h metadata (some parts) role m arn id e is = record {
    parts = parts;
    has_parts = ap parse_key_arn arn ∙ e;
    inside = ground arith;
    has_id = id ∙ text_eq_sound metadata.key_id parts.key_id (ground arith);
    has_role = rw m.of_wanted role;
    in_namespace = rw m.has_alias (alias_for-namespace lower_case run_id w);
    has_tags = m.has_tags ∙ ap (λ x. expected_tags run_id x.role x.spec) (sym m.of_wanted);
  }

  Good-result :
      (w : Wanted) (r : Provisioned) (h : History)
      → opts.aws.dry_run ≡ false
      → includes opts.roles w.role ≡ true
      → KeyMade lower_case opts run_id w h r
      → Good opts.place run_id opts.roles r ⊎ Misplaced opts run_id h
  Good-result w (unavailable x) h real role m = inl tt
  Good-result w (created c) h real role m =
      let (metadata, new, arn, id) = m.is_new real in
      elim (Bool-cases (is_placed opts.place metadata)) [
        | inl is ↦ inl (placed w c h metadata (parse_key_arn metadata.arn) role m arn id refl is)
        | inr not_ ↦ inr (w, metadata, new, not_)
      ]

  Good-Results :
      (wanted ws : List Wanted) (rs : List Provisioned) (h : History)
      → opts.aws.dry_run ≡ false
      → All (λ w. includes opts.roles w.role ≡ true) ws
      → Results wanted h ws rs
      → All (Good opts.place run_id opts.roles) rs ⊎ Misplaced opts run_id h
  Good-Results wanted [] [] h real roles r = inl tt
  Good-Results wanted [] (x ∷ rs) h real roles r = absurd r
  Good-Results wanted (w ∷ ws) [] h real roles r = absurd r
  Good-Results wanted (w ∷ ws) (x ∷ rs) h real roles r = elim (Good-result w x h real roles.0 r.0) [
    | inr bad ↦ inr bad
    | inl good ↦ elim (Good-Results wanted ws rs h real roles.1 r.1) [
      | inl goods ↦ inl (good, goods)
      | inr bad ↦ inr bad
    ]
  ]

  -- What `setup` returns.
  abbrev pub SetUp : History → Manifest → Type 0
  SetUp h m =
      (opts.aws.dry_run ≡ true) ⊎ (validate_manifest opts.place m ≡ none) ⊎ Misplaced opts run_id h

  set_up :
      (wanted : List Wanted) (rs : List Provisioned) (h : History)
      → is_run_id run_id ≡ true
      → valid_roles (listed opts.roles) ≡ some opts.roles
      → All (λ w. includes opts.roles w.role ≡ true) wanted
      → Results wanted h wanted rs
      → SetUp h (setup_manifest opts run_id rs)
  set_up wanted rs h run roles inside r = elim (Bool-cases opts.aws.dry_run) [
    | inl dry ↦ inl dry
    | inr real ↦ elim (Good-Results wanted wanted rs h real inside r) [
      | inl good ↦ inr (inl (setup_manifest-validate_manifest opts run_id rs run roles good))
      | inr bad ↦ inr (inr bad)
    ]
  ]

  All-provision-Runs :
      (wanted ws : List Wanted) (h : History)
      → ((w : Wanted) → In w ws → In w wanted)
      → All
          (λ w.
            Runs
              (Calls wanted)
              (KeyMade lower_case opts run_id w)
              h
              (provision lower_case opts run_id w))
          ws
  All-provision-Runs wanted [] h inside = tt
  All-provision-Runs wanted (w ∷ ws) h inside = (
    Runs-imp (KeyCalls lower_case opts run_id w) (Calls wanted) (KeyMade lower_case opts run_id w)
        (KeyMade lower_case opts run_id w) (λ g c q. (w, inside w (inl refl), q)) (λ g r m. m)
        (provision lower_case opts run_id w) h (provision-Runs lower_case opts run_id w h),
    All-provision-Runs wanted ws h (λ v i. inside v (inr i)),
  )

  -- What `setup` asks for, and the results that its manifest is made of.
  pub Results-Runs :
      (schedule : List ℕ) (wanted : List Wanted) (h : History)
      → Runs
          (Calls wanted)
          (λ g m.
            (rs : List Provisioned) × (m ≡ setup_manifest opts run_id rs)
            × Results wanted g wanted rs)
          h
          (setup lower_case opts schedule run_id wanted)
  unfolding setup
  Results-Runs schedule wanted h =
      Runs-bind (Calls wanted) (λ g rs. Results wanted g wanted rs)
        (λ g m.
          (rs : List Provisioned) × (m ≡ setup_manifest opts run_id rs)
          × Results wanted g wanted rs)
        (λ rs. done (setup_manifest opts run_id rs))
        (map_limit schedule wanted opts.concurrency (provision lower_case opts run_id)) h
        (map_limit-Runs (Calls wanted) (Calls-Stays wanted)
          (λ w g r. KeyMade lower_case opts run_id w g r) KeyMade-Stays schedule wanted
          opts.concurrency (provision lower_case opts run_id) h
          (All-provision-Runs wanted wanted h (λ w i. i)))
        (λ g p rs r. (rs, refl, r))

  -- `setup`, for all replies and all interleavings, with a run id of the right form and keys of the
  -- chosen roles. It deletes nothing. It creates a key only for one of the wanted keys, with the tags of
  -- the run and after a reply has shown that the run's alias for it is free, and gives that alias only
  -- to a key of that creation that a reply has shown enabled. When it returns and was not a dry run, its
  -- manifest passes `validateManifest`, unless the service has given a key an ARN outside the account
  -- and the region, or one that does not name its id.
  pub setup-Runs :
      (schedule : List ℕ) (wanted : List Wanted) (h : History)
      → is_run_id run_id ≡ true
      → valid_roles (listed opts.roles) ≡ some opts.roles
      → All (λ w. includes opts.roles w.role ≡ true) wanted
      → Runs (Calls wanted) SetUp h (setup lower_case opts schedule run_id wanted)
  setup-Runs schedule wanted h run roles inside =
      Runs-imp (Calls wanted) (Calls wanted) _ SetUp (λ g c q. q)
        (λ g m (rs, same, r). subst (SetUp g) (sym same) (set_up wanted rs g run roles inside r))
        (setup lower_case opts schedule run_id wanted) h (Results-Runs schedule wanted h)
