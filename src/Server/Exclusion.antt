-- ===== src/Server/Exclusion.antt =====
-- handlers.go: `handleExclude` and `handleRemoveExclusion`, which set and remove the annotation that
-- takes a VM out of the analysis.
use ovro.Prelude.{String, Option, none, some, if◌then◌else◌}
use ovro.Types.{annotation_exclude}
use ovro.Platform.{annotation, Platform}
use ovro.Server.{Server, Response, http_error, write_json, status_only, key}

module _ {F : Type 0} (P : Platform F) where
  -- Both handlers: patch the annotation, and answer with a status or with 500.
  unfoldable pub patch_exclusion :
      Server P.World
      → Option String
      → String
      → String
      → String
      → String
      → P.World
      → Response F × P.World
  patch_exclusion s value failure done namespace name w =
      let (e, w') = P.patch_vm (key namespace name) (annotation annotation_exclude value) w in
      let answer : Response F × P.World = elim e [
        | none ↦ (write_json (status_only done), w')
        | some text ↦ (http_error 500 failure, w')
      ] in
      if s.dynamic_client then answer else (http_error 500 "internal server error", w)

  unfoldable pub handle_exclude : Server P.World → String → String → P.World → Response F × P.World
  unfolding patch_exclusion
  handle_exclude s namespace name w =
      patch_exclusion s (some "true") "failed to exclude VM" "excluded" namespace name w

  unfoldable pub handle_remove_exclusion :
      Server P.World → String → String → P.World → Response F × P.World
  unfolding patch_exclusion
  handle_remove_exclusion s namespace name w =
      patch_exclusion s none "failed to remove exclusion" "monitoring resumed" namespace name w
