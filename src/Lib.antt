-- ===== src/Lib.antt =====
-- The JavaScript of the repository: the command line of the npm package, the script that
-- creates and removes the KMS keys of the integration tests, and the versions of a release.
--
-- The parts and their files:
--
-- npm/core/bin/awskms.js
--   Cli.NodeOptions      parseNodeOptions, hasOpenSSLConfig, withoutOpenSSLConfig and
--                        nodeOptionsWithConfig. A string is the list of its code points; the
--                        lexer's variables args, current, quote and escaped are the record Lexer.
--   Cli.Command          parseReplaceOption, existingConfigSources, requireConfigPermission,
--                        environmentWithConfig, isNodeTarget and the children that are started. A
--                        function that may end the process returns a Step; the process state it
--                        reads is the record Process. spawnSync, toLowerCase and the functions of
--                        npm/core/index.js that it calls are parameters.
--   Cli.Dispatch         The switch on the command, and the exit status.
-- scripts/aws-cli.mjs, scripts/real-kms-keys.mjs
--   Kms.Program          A program that calls the AWS command line is a tree of calls, with a branch
--                        for each reply: awsTry and awsTryAsync make one call each, none in a dry run.
--                        Program.Logic says which calls a program makes and what it returns, for
--                        all replies; Program.After relates programs that follow one another.
--   Kms.MapLimit         mapLimit(items, limit, fn). A schedule, a list of positions, says whose call
--                        is answered next; what it leaves over is finished in order. A schedule is
--                        finite and each step of it is one call or one end of an item, so no fuel is
--                        needed. A limit is positive, which parseArgs checks; Main turns the number that
--                        was checked into one.
--   Kms.Manifest         parseKeyArn and the manifest's data.
--   Kms.Validation       validateManifest and readManifest.
--   Kms.Teardown         verifyOwnedTarget, describeAliasAsync and the preflight of teardown.
--   Kms.Cleanup          scheduleDeletion and teardown from its list of targets on.
--   Kms.Setup            makeRunId, aliasFor, withRetry, pollUntil and isUnsupportedSpec. The loops run
--                        on the number of attempts left: five behind the first, and thirty.
--   Kms.Provision        setup, and the function that it runs for each wanted key.
--   Kms.Arguments        parseArgs.
--   Kms.Main             status and main; what main finds around it is the record Host.
--   Kms.Collect          sweepTagged, collectTargets and the whole of teardown.
--
-- npm/core/index.js
--   Runtime.Host         The process and the functions of Node without side effect are the record Host;
--                        the calls of node:fs, of the clock, of require.resolve and process.dlopen are
--                        requests, answered in any way. The variables of the module are the record
--                        Session.
--   Runtime.Target       targetKey and moduleNotFound.
--   Runtime.Metadata, Runtime.Satellite
--                        The checks of a platform package and resolveSatellite.
--   Runtime.Directory, Runtime.Rendezvous
--                        The private directory: assertPrivateDirectory, noFollowRead, readRendezvous;
--                        rendezvousRoot, publishRendezvous and privateTempDirectory.
--   Runtime.File         writePrivateFile, awaitPrivateFile and validatePrivateFile. Both loops run on
--                        fuel; five seconds in nanoseconds are enough where the clock goes on.
--   Runtime.Config       quoteOpenSSLConfigValue and renderConfig.
--   Runtime.Entry        modulePath, opensslConfigPath, register and isSupported; Entry.Exports calls
--                        them one after another, Entry.Promises says what they promise.
-- scripts/release-lifecycle.mjs
--   Lifecycle.Machine    The requests of the script, which are the calls of other programs and of node:fs,
--                        and the record Tools of what has no side effect: the JSON parser, the hashes,
--                        node:path and localeCompare. The function command.
--   Lifecycle.Payload    The payload of a release: expectedPayload, inspectPayload and inspectAttestationBundle.
--   Lifecycle.Attestation
--                        stageAttestationBundle, reuseAttestationBundle and comparePayloads.
--   Lifecycle.Notes      extractReleaseNotes.
--   Lifecycle.Npm        waitForNpm. A round asks for one package after the other, and the request that a
--                        mismatch aborts is one that fails. The loop runs on fuel; one round more than
--                        the timeout has milliseconds is enough where the clock goes on during sleeps.
--   Lifecycle.Clock      What is supposed of Date.now: it never goes back, and it goes on while the script
--                        sleeps. Other readings may be equal.
--   Lifecycle.Artifacts  findPriorReleaseArtifact.
--   Lifecycle.Github     releaseView, assertAssetNames, verifyRemoteAssets and publishGithubRelease.
--   Lifecycle.Rules      The scripts that are only told which requests they make and when.
--
-- Effects is the language of these scripts, trees of requests with variables and errors; Effects.Logic
-- says which requests a script makes and how it ends for all answers, Effects.Run runs it on one host,
-- Effects.Calls are the requests that succeed or fail, and Effects.Clock the readings of the clock.
--
-- scripts/release-version.mjs
--   Release.Version      assertStableVersion and parseManifest; a step returns a value or its error.
--   Release.Sync         parseCmake, readReleaseState and syncReleaseVersion, from files to files.
--   Release.Check        the README, the changelog, prepareRelease, checkRelease and parseTag.
--
-- teardown reads the manifest (Validation), collects its targets (Collect), lets every target pass
-- the preflight (Teardown) and deletes aliases and keys (Cleanup), each phase under mapLimit.
--
-- Prelude holds the shared names: tests on numbers, lists, and texts.
--
-- Not modelled: what is printed, the JSON parser (a parsed reply or manifest is a record in which a
-- missing property is none), the network, and the texts of error messages beyond a fixed word. The
-- provider in C and C++ is in another language. Of scripts/release-lifecycle.mjs
-- selectPackage, requireDiscussionCategory and main are not modelled, nor are the other release scripts.
pub mod Prelude
pub mod Cli
pub mod Effects
pub mod Kms
pub mod Lifecycle
pub mod Runtime
pub mod Release
