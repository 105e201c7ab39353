-- ===== src/Lifecycle/Github/Published.antt =====
-- When a release is created, uploaded to and published (publishGithubRelease of
-- scripts/release-lifecycle.mjs).
use keyobject_aws_kms.Prelude.{
  ◌≡◌, refl, ◌⊎◌, inl, inr, true, false, Option, none, some, List, [], Text, map,
}
use keyobject_aws_kms.Effects.{finally, ◌>>=◌}
use keyobject_aws_kms.Effects.Logic.{
  Seen, Seen-⊑, ◌⊑◌, ⊑_trans, same, newer, Runs, Runs-if, Runs-bind, Runs-attempt, Runs-grow,
}
use keyobject_aws_kms.Effects.Calls.{Runs-sys}
use keyobject_aws_kms.Release.Version.{sorted}
use keyobject_aws_kms.Lifecycle.Machine.{
  Completed, Release, Tools, run, write_file, mkdtemp, remove, answered, History, Duties, command,
  succeeded, sys,
}
use keyobject_aws_kms.Lifecycle.Rules.{rules, Any, Ran, command-Ran}
use keyobject_aws_kms.Lifecycle.Notes.{extract_release_notes}
use keyobject_aws_kms.Lifecycle.Payload.{inspect_payload}
use keyobject_aws_kms.Lifecycle.Payload.Evidence.{Inspected-⊑}
use keyobject_aws_kms.Lifecycle.Payload.Inspected.{inspect_payload-Inspected}
use keyobject_aws_kms.Lifecycle.Github.{
  gh, create_arguments, upload_arguments, publish_arguments, assets_match, assert_asset_names,
  release_view, verify_remote_assets, publish_uploaded, upload, publish_over, required_notes,
  publish_github_release,
}
use keyobject_aws_kms.Lifecycle.Github.Verified.{
  expected, Missing, Draft, Verified, Permitted, guarded, Shown-⊑, IsView, Ready,
  release_view-IsView, verify_remote_assets-Verified, Verified-⊑,
}

module _ (tools : Tools) (directory version tag : Text) where
  -- The release was published before, or `gh` has published it; its assets were verified.
  abbrev pub Published : History → Type 0
  Published h =
      (release : Release) × Verified tools directory version tag release h
      × ((release.is_draft ≡ false)
          ⊎ ((path : Text) × (result : Completed) × Seen
                (answered (run gh (publish_arguments tag path)) result) h
              × (succeeded result ≡ true)))

  abbrev owed : Duties
  owed = guarded tools directory version tag

  abbrev Ends : History → Unit {0} → Unit {0} → Type 0
  Ends g t u = Published g

  module _ (notes_path temporary : Text) where
    publish_uploaded-Published :
        (o : Option Release) (h : History)
        → Ready tools directory version tag h
        → IsView tools directory version tag h tt o
        → Runs owed Ends h tt (publish_uploaded tools directory version tag notes_path temporary o)
    unfolding publish_uploaded
    publish_uploaded-Published none h ready view = tt
    publish_uploaded-Published (some release) h ready view =
        Runs-bind owed (λ g t u. Verified tools directory version tag release g) Ends _
          (verify_remote_assets tools release tag (expected tools directory version tag) directory
            temporary)
          h tt
          (verify_remote_assets-Verified tools directory version tag release temporary h ready view)
          (λ g p t u v.
            Runs-bind owed
              (Ran (Permitted tools directory version tag) gh (publish_arguments tag notes_path)
                false)
              Ends _ (command gh (publish_arguments tag notes_path) false) g tt
              (command-Ran (Permitted tools directory version tag) gh
                (publish_arguments tag notes_path) false g
                (inr (
                  refl,
                  Inspected-⊑ tools directory version true p ready,
                  inr (inr (inr (inr (notes_path, refl, (release, v))))),
                )))
              (λ g2 p2 t result (seen, success). (
                release,
                Verified-⊑ tools directory version tag release p2 v,
                inr (notes_path, result, seen, success),
              )))

    upload-Published :
        (h : History)
        → Ready tools directory version tag h
        → Missing tools directory version tag h ⊎ (Draft tools directory version tag) h
        → Runs owed Ends h tt (upload tools directory version tag notes_path temporary)
    unfolding upload
    upload-Published h ready open_ =
        Runs-bind owed (Ran (Permitted tools directory version tag) gh arguments false) Ends _
          (command gh arguments false) h tt
          (command-Ran (Permitted tools directory version tag) gh arguments false h
            (inr (refl, ready, inr (inr (inr (inl (refl, open_)))))))
          (λ g p t result seen.
            Runs-bind owed (IsView tools directory version tag) Ends _ (release_view tools tag) g tt
              (release_view-IsView tools directory version tag g
                (Inspected-⊑ tools directory version true p ready))
              (λ g2 p2 t o view.
                publish_uploaded-Published o g2
                  (Inspected-⊑ tools directory version true (⊑_trans p p2) ready) view))
      where
        arguments : List Text
        arguments =
            upload_arguments tag (map (tools.join directory) (expected tools directory version tag))

    publish_over-Published :
        (o : Option Release) (h : History)
        → Ready tools directory version tag h
        → IsView tools directory version tag h tt o
        → Runs owed Ends h tt (publish_over tools directory version tag notes_path temporary o)
    unfolding publish_over assert_asset_names
    publish_over-Published none h ready missing =
        Runs-bind owed
          (Ran (Permitted tools directory version tag) gh (create_arguments tag notes_path) false)
          Ends _ (command gh (create_arguments tag notes_path) false) h tt
          (command-Ran (Permitted tools directory version tag) gh (create_arguments tag notes_path)
            false h (inr (refl, ready, inr (inr (inl (notes_path, refl, missing))))))
          (λ g p t result seen.
            upload-Published g (Inspected-⊑ tools directory version true p ready)
              (inl (missing.0, Seen-⊑ _ p missing.1, missing.2, missing.3)))
    publish_over-Published (some release) h ready shown =
        Runs-if owed Ends h tt release.is_draft _ _
          (λ d.
            Runs-bind owed Any Ends _ _ h tt
              (Runs-if owed Any h tt
                (assets_match (sorted release.assets) (expected tools directory version tag) true) _
                _ (λ e. tt) (λ e. tt))
              (λ g p t u x.
                upload-Published g (Inspected-⊑ tools directory version true p ready)
                  (inr (release, Shown-⊑ tools directory version tag release p shown, d))))
          (λ d.
            Runs-grow owed (λ g t u. Verified tools directory version tag release g) Ends
              (verify_remote_assets tools release tag (expected tools directory version tag)
                directory temporary)
              h tt
              (verify_remote_assets-Verified tools directory version tag release temporary h ready
                shown)
              (λ g p t u v. (release, v, inl d)))

  Published-⊑ : {h g : History} → h ⊑ g → Published h → Published g
  Published-⊑ p (release, v, inl d) =
      (release, Verified-⊑ tools directory version tag release p v, inl d)
  Published-⊑ p (release, v, inr (path, result, seen, success)) = (
    release,
    Verified-⊑ tools directory version tag release p v,
    inr (path, result, Seen-⊑ _ p seen, success),
  )

  notes_Ready :
      (notes : Option Text) (h : History)
      → Ready tools directory version tag h
      → Runs owed
          (λ g t notes. Ready tools directory version tag g)
          h
          tt
          (required_notes tools notes)
  unfolding required_notes
  notes_Ready none h ready = tt
  notes_Ready (some notes) h ready = ready

  over-Published :
      (notes_path temporary : Text) (h : History)
      → Ready tools directory version tag h
      → Runs owed Ends h tt (
          finally
            (release_view tools tag
              >>= publish_over tools directory version tag notes_path temporary)
            (sys (remove temporary)))
  over-Published notes_path temporary h ready =
      Runs-attempt owed (λ g t e. Unit) Ends Ends _ _
        (release_view tools tag >>= publish_over tools directory version tag notes_path temporary) h
        tt
        (Runs-bind owed (IsView tools directory version tag) Ends _ (release_view tools tag) h tt
          (release_view-IsView tools directory version tag h ready)
          (λ g p t o view.
            publish_over-Published notes_path temporary o g
              (Inspected-⊑ tools directory version true p ready) view))
        (λ g p t u published.
          Runs-sys owed Ends g tt (remove temporary) _ tt
            (λ u. Published-⊑ (newer _ same) published) (λ e. tt))
        (λ g p t e x. Runs-sys owed Ends g tt (remove temporary) _ tt (λ u. tt) (λ e. tt))

  -- Whatever `gh`, `tar` and the file system answer, publishGithubRelease runs only `tar` and `gh`, and
  -- `gh` only after the payload was inspected. It tells `gh` to publish the release only after a view has
  -- shown a release whose assets have the expected names and, downloaded, are the expected files, each
  -- with the digest of the file in the payload. It uploads, replacing assets, only after a view has found
  -- no release or shown a draft, and creates a release only after a view has found none. It returns only
  -- if a release with assets so verified was shown as published or `gh` has published it. It never runs
  -- out of fuel.
  pub publish_github_release-Published :
      (changelog : Text)
      → Runs
          (rules (Permitted tools directory version tag))
          (λ g t u. Published g)
          []
          tt
          (publish_github_release tools directory version tag changelog)
  unfolding publish_github_release
  publish_github_release-Published changelog =
      Runs-bind owed (λ g t packages. Ready tools directory version tag g) Ends _
        (inspect_payload tools directory version true) [] tt
        (inspect_payload-Inspected tools (Permitted tools directory version tag) (λ h path. tt)
          (λ h path. tt) (λ h args. inl refl) directory version true [])
        (λ g1 p1 t packages ready.
          Runs-bind owed (λ g t notes. Ready tools directory version tag g) Ends _
            (required_notes tools (extract_release_notes changelog version)) g1 tt
            (notes_Ready (extract_release_notes changelog version) g1 ready)
            (λ g2 p2 t notes ready2.
              Runs-sys owed Ends g2 tt (mkdtemp _) _ tt
                (λ temporary.
                  Runs-sys owed Ends _ tt (write_file _ _) _ tt
                    (λ u.
                      over-Published _ temporary _
                        (Inspected-⊑ tools directory version true (newer _ (newer _ same)) ready2))
                    (λ e. tt))
                (λ e. tt)))
