-- ===== src/Release/Tests.antt =====
-- Runs of syncReleaseVersion and checkRelease of scripts/release-version.mjs on concrete files.
use keyobject_aws_kms.Prelude.{◌++◌, false, ◌∷◌, ◌≡◌, refl, some, map, Text, codes, text_eq}
use keyobject_aws_kms.Release.Version.{
  ok, lookup, native_packages, assert_stable_version, parse_manifest,
}
use keyobject_aws_kms.Release.Sync.{Files, State, prefix, read_release_state, sync_release_version}
use keyobject_aws_kms.Release.Check.{count_headings, is_incomplete, check_release}
use keyobject_aws_kms.Release.Check.Accepted.{check_release-sync_release_version}
use keyobject_aws_kms.Release.Sync.Coherent.{IsCoherent, sync_release_version-IsCoherent}

abbrev files_of : Text → Text → Text → Files
files_of version native cmake = record {
  manifest = some (record {
    name = some (codes "@keyobject/aws-kms");
    version = some version;
    dependencies = some (map (λ name. (name, some native)) native_packages);
  });
  cmake = cmake;
}

abbrev files : Files
files = files_of (codes "1.1.0") (codes "1.0.0") (codes "project(awskms VERSION 1.0.0)")

abbrev written : Files
written = files_of (codes "1.1.0") (codes "1.1.0") (codes "project(awskms VERSION 1.1.0)")

synchronized : sync_release_version files ≡ ok written
unfolding sync_release_version text_eq assert_stable_version parse_manifest prefix
synchronized = refl

sync_release_version-IsCoherent_example :
    (before : State) × (read_release_state files ≡ ok before)
    × IsCoherent written before.manifest.version
sync_release_version-IsCoherent_example = sync_release_version-IsCoherent files written synchronized

abbrev changelog : Text
changelog = codes "# Changelog" ++ (10 ∷ codes "## [1.1.0](u) (2026-01-31)")

abbrev readme : Text
readme = codes "# Keys"

abbrev before : State
before = record {
  cmake = record { start = 23; version = codes "1.0.0" };
  manifest = record {
    version = codes "1.1.0";
    dependencies = map (λ name. (name, some (codes "1.0.0"))) native_packages;
  };
}

state_read : read_release_state files ≡ ok before
unfolding read_release_state text_eq assert_stable_version parse_manifest lookup
state_read = refl

one_heading : count_headings (codes "1.1.0") changelog ≡ 1
unfolding count_headings
one_heading = refl

ready : is_incomplete readme ≡ false
unfolding is_incomplete
ready = refl

check_release-sync_release_version_example :
    check_release written changelog readme (codes "v1.1.0") ≡ ok (codes "1.1.0")
check_release-sync_release_version_example =
    check_release-sync_release_version files written before changelog readme state_read synchronized
      one_heading ready

-- A link may hold U+2028, and a second heading is counted.
count_headings_test :
    count_headings
      (codes "1.1.0")
      (codes "## [1.1.0](a" ++ (8232 ∷ codes "## b) (2026-01-31)\n## 1.1.0 (2026-02-01)"))
    ≡ 2
unfolding count_headings keyobject_aws_kms.Kms.Manifest.strip_prefix
count_headings_test = refl
