-- ===== src/Lifecycle/Github/Verified.antt =====
-- What a release was shown to be, and the comparison of its assets with the payload (releaseView and
-- verifyRemoteAssets of scripts/release-lifecycle.mjs).
use keyobject_aws_kms.Prelude.{
  ◌≡◌, refl, subst, ◌⊎◌, inl, inr, true, false, Option, none, some, List, [], ◌∷◌, All, Text, codes,
  text_eq, text_eq_sound, map,
}
use keyobject_aws_kms.Effects.{done, attempt, ◌>>=◌}
use keyobject_aws_kms.Effects.Logic.{
  Seen, Seen-⊑, ◌⊑◌, ⊑_trans, same, newer, Runs, Runs-if, Runs-bind, Runs-grow,
}
use keyobject_aws_kms.Effects.Calls.{Runs-sys}
use keyobject_aws_kms.Release.Version.{sorted, texts_eq}
use keyobject_aws_kms.Lifecycle.Machine.{
  Completed, Release, Tools, Request, run, list_directory, mkdir, remove, answered, History, Duties,
  command, succeeded, parsed,
}
use keyobject_aws_kms.Lifecycle.Rules.{rules, Ran, command-Ran}
use keyobject_aws_kms.Lifecycle.Payload.{digest, expected_payload}
use keyobject_aws_kms.Lifecycle.Payload.Evidence.{HasDigest, HasDigest-⊑, Inspected, Inspected-⊑}
use keyobject_aws_kms.Lifecycle.Payload.Inspected.{texts_eq_sound, digest-HasDigest}
use keyobject_aws_kms.Lifecycle.Github.{
  is_not_found, gh, view_arguments, create_arguments, upload_arguments, download_arguments,
  publish_arguments, assets_match, assert_asset_names, viewed, release_view, compare_assets,
  verify_remote_assets,
}

module _ (tools : Tools) (directory version tag : Text) where
  abbrev pub expected : List Text
  expected = expected_payload version true

  -- `gh release view` showed this release.
  abbrev pub Shown : Release → History → Type 0
  Shown release h =
      (result : Completed) × Seen (answered (run gh (view_arguments tag)) result) h
      × (succeeded result ≡ true)
      × (tools.parse_release result.stdout ≡ some release)

  -- `gh release view` failed, and the release was not found.
  abbrev pub Missing : History → Type 0
  Missing h =
      (result : Completed) × Seen (answered (run gh (view_arguments tag)) result) h
      × (succeeded result ≡ false)
      × (is_not_found result.stderr ≡ true)

  abbrev pub Draft : History → Type 0
  Draft h = (release : Release) × Shown release h × (release.is_draft ≡ true)

  -- The downloaded file has the digest of the one in the payload.
  abbrev pub IsSameFile : Text → History → Text → Type 0
  IsSameFile downloaded h name =
      (value : Text) × HasDigest tools (tools.join downloaded name) value h
      × HasDigest tools (tools.join directory name) value h

  -- The assets of a release that was shown are the expected ones, they were downloaded, and every one
  -- is the same as in the payload.
  pub record Verified (release : Release) (h : History) : Type 0 where
    pub shown : Shown release h
    pub assets : assets_match (sorted release.assets) expected false ≡ true
    pub downloaded : Text
    pub result : Completed
    pub downloads : Seen (answered (run gh (download_arguments tag downloaded)) result) h
    pub arrived : succeeded result ≡ true
    pub names : List Text
    pub listed : Seen (answered (list_directory downloaded) names) h
    pub exact : sorted names ≡ expected
    pub same_files : All (IsSameFile downloaded h) expected

  abbrev pub AnyVerified : History → Type 0
  AnyVerified h = (release : Release) × Verified release h

  -- A release is created only where none was found, its assets are uploaded, and replaced, only where
  -- none was found or a draft was shown, and it is published only after its assets were verified; and
  -- all of this only after the payload was inspected. Other calls of `gh` only read.
  abbrev pub IsCall : History → List Text → Type 0
  IsCall h args =
      (args ≡ view_arguments tag)
      ⊎ ((path : Text) × (args ≡ download_arguments tag path))
      ⊎ ((path : Text) × (args ≡ create_arguments tag path) × Missing h)
      ⊎ ((args ≡ upload_arguments tag (map (tools.join directory) expected))
          × (Missing h ⊎ Draft h))
      ⊎ ((path : Text) × (args ≡ publish_arguments tag path) × AnyVerified h)

  abbrev pub Permitted : History → Request → Type 0
  Permitted h (run name args) =
      (name ≡ codes "tar")
      ⊎ ((name ≡ gh) × Inspected tools directory version true h × IsCall h args)
  Permitted h _ = Unit

  abbrev pub guarded : Duties
  guarded = rules Permitted

  pub Shown-⊑ : (release : Release) {h g : History} → h ⊑ g → Shown release h → Shown release g
  Shown-⊑ release p (r, seen, s, e) = (r, Seen-⊑ _ p seen, s, e)

  -- What a view says of the release.
  abbrev pub IsView : History → Unit {0} → Option Release → Type 0
  IsView g t none = Missing g
  IsView g t (some release) = Shown release g

  -- The payload was inspected.
  abbrev pub Ready : History → Type 0
  Ready h = Inspected tools directory version true h

  pub release_view-IsView :
      (h : History) → Ready h → Runs guarded IsView h tt (release_view tools tag)
  unfolding release_view viewed attempt
  release_view-IsView h ready =
      Runs-bind guarded (Ran Permitted gh (view_arguments tag) true) IsView (viewed tools)
        (command gh (view_arguments tag) true) h tt
        (command-Ran Permitted gh (view_arguments tag) true h (inr (refl, ready, inl refl)))
        (λ g p t result (seen, any).
          Runs-if guarded IsView g tt (succeeded result) _ _
            (λ s. by_parse g result seen s (tools.parse_release result.stdout) refl)
            (λ f.
              Runs-if guarded IsView g tt (is_not_found result.stderr) _ _
                (λ n. (result, seen, f, n)) (λ n. tt)))
    where
      by_parse :
          (g : History) (result : Completed)
          → Seen (answered (run gh (view_arguments tag)) result) g
          → succeeded result ≡ true
          → (o : Option Release) → tools.parse_release result.stdout ≡ o
          → Runs guarded IsView g tt (parsed o >>= (λ release. done (some release)))
      by_parse g result seen s none e = tt
      by_parse g result seen s (some release) e = (result, seen, s, e)

  IsSameFile-⊑ :
      (downloaded : Text) (names : List Text) {h g : History}
      → h ⊑ g
      → All (IsSameFile downloaded h) names
      → All (IsSameFile downloaded g) names
  IsSameFile-⊑ downloaded [] p x = tt
  IsSameFile-⊑ downloaded (name ∷ names) p ((value, remote, mine), rest) = (
    (value, HasDigest-⊑ tools _ value p remote, HasDigest-⊑ tools _ value p mine),
    IsSameFile-⊑ downloaded names p rest,
  )

  digest-guarded :
      (path : Text) (h : History)
      → Runs guarded (λ g t value. HasDigest tools path value g) h tt (digest tools path)
  digest-guarded =
      digest-HasDigest tools Permitted (λ h path. tt) (λ h path. tt) (λ h args. inl refl)

  compare_assets-IsSameFile :
      (downloaded : Text) (names : List Text) (h : History)
      → Runs guarded
          (λ g t u. All (IsSameFile downloaded g) names)
          h
          tt
          (compare_assets tools downloaded directory names)
  unfolding compare_assets
  compare_assets-IsSameFile downloaded [] h = tt
  compare_assets-IsSameFile downloaded (name ∷ names) h =
      Runs-bind guarded (λ g t value. HasDigest tools (tools.join downloaded name) value g) Post _
        (digest tools (tools.join downloaded name)) h tt (digest-guarded _ h)
        (λ g1 p1 t remote r.
          Runs-bind guarded (λ g t value. HasDigest tools (tools.join directory name) value g) Post
            _ (digest tools (tools.join directory name)) g1 tt (digest-guarded _ g1)
            (λ g2 p2 t mine m.
              Runs-if guarded Post g2 tt (text_eq remote mine) _ _
                (λ e.
                  let equal : remote ≡ mine = text_eq_sound remote mine e in
                  Runs-grow guarded (λ g t u. All (IsSameFile downloaded g) names) Post
                    (compare_assets tools downloaded directory names) g2 tt
                    (compare_assets-IsSameFile downloaded names g2)
                    (λ g p t u x. (
                      (
                        mine,
                        HasDigest-⊑ tools _ mine (⊑_trans p2 p) (
                            subst (λ v. HasDigest tools (tools.join downloaded name) v g1) equal r),
                        HasDigest-⊑ tools _ mine p m,
                      ),
                      x,
                    )))
                (λ e. tt)))
    where
      Post : History → Unit {0} → Unit {0} → Type 0
      Post g t u = All (IsSameFile downloaded g) (name ∷ names)

  pub verify_remote_assets-Verified :
      (release : Release) (temporary : Text) (h : History)
      → Ready h
      → Shown release h
      → Runs guarded
          (λ g t u. Verified release g)
          h
          tt
          (verify_remote_assets tools release tag expected directory temporary)
  unfolding verify_remote_assets assert_asset_names
  verify_remote_assets-Verified release temporary h ready shown =
      Runs-bind guarded (λ g t u. assets_match (sorted release.assets) expected false ≡ true) Post _
        _ h tt
        (Runs-if guarded _ h tt (assets_match (sorted release.assets) expected false) _ _ (λ e. e)
          (λ e. tt))
        (λ g1 p1 t u assets.
          Runs-sys guarded Post g1 tt (remove downloaded) _ tt
            (λ u.
              Runs-sys guarded Post _ tt (mkdir downloaded) _ tt
                (λ u.
                  Runs-bind guarded (Ran Permitted gh (download_arguments tag downloaded) false)
                    Post _ (command gh (download_arguments tag downloaded) false) _ tt
                    (command-Ran Permitted gh (download_arguments tag downloaded) false _ (
                      inr (
                        refl,
                        Inspected-⊑ tools directory version true (newer _ (newer _ p1)) ready,
                        inr (inl (downloaded, refl)),
                      )))
                    (λ g2 p2 t result (downloads, arrived).
                      Runs-sys guarded Post g2 tt (list_directory downloaded) _ tt
                        (λ names.
                          Runs-if guarded Post _ tt (texts_eq (sorted names) expected) _ _
                            (λ exact.
                              Runs-grow guarded (λ g t u. All (IsSameFile downloaded g) expected)
                                Post (compare_assets tools downloaded directory expected) _ tt
                                (compare_assets-IsSameFile downloaded expected _)
                                (λ g p t u files. record {
                                  shown =
                                      Shown-⊑ release
                                        (⊑_trans p1 (
                                          ⊑_trans (⊑_trans (newer _ (newer _ same)) p2)
                                            (⊑_trans (newer _ same) p)))
                                        shown;
                                  assets = assets;
                                  downloaded = downloaded;
                                  result = result;
                                  arrived = arrived;
                                  downloads = Seen-⊑ _ (⊑_trans (newer _ same) p) downloads;
                                  names = names;
                                  listed = Seen-⊑ _ p (inl refl);
                                  exact = texts_eq_sound _ _ exact;
                                  same_files = files;
                                }))
                            (λ e. tt))
                        (λ e. tt)))
                (λ e. tt))
            (λ e. tt))
    where
      downloaded : Text
      downloaded = tools.join temporary (codes "assets")

      Post : History → Unit {0} → Unit {0} → Type 0
      Post g t u = Verified release g

  pub Verified-⊑ :
      (release : Release) {h g : History} → h ⊑ g → Verified release h → Verified release g
  Verified-⊑ release p v = record {
    shown = Shown-⊑ release p v.shown;
    assets = v.assets;
    downloaded = v.downloaded;
    result = v.result;
    arrived = v.arrived;
    downloads = Seen-⊑ _ p v.downloads;
    names = v.names;
    listed = Seen-⊑ _ p v.listed;
    exact = v.exact;
    same_files = IsSameFile-⊑ v.downloaded expected p v.same_files;
  }
