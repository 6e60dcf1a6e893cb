-- ===== src/Controllers/Services/Twins.antt =====
-- `syncEndpointsHandler` and `patchEndpoints` of pkg/controllers/service_controller.go, written out, and
-- against the shape of endpoints.
use tensile_kube.Prelude.{String, Bool, Option, none, some, List, [], ◌∷◌, ◌≡◌, refl, if◌then◌else◌}
use tensile_kube.Prelude.Run.{Result, ok, err}
use tensile_kube.Api.{Endpoints, ApiError}
use tensile_kube.Controllers.Global.{check_global_label_equal, filter_common}
use tensile_kube.Controllers.Common.{is_not_found}
use tensile_kube.Controllers.Services.{
  endpoints, LowerCall, create_lower, patch_lower, Answered, error_of, patch_object, create_copy,
  update_copy, sync_handler,
}

module _ (same : String → String → Bool)
    (merge_patch : Endpoints → Endpoints → Result ApiError String) (a : Answered Endpoints) where
  unfoldable pub patch_endpoints :
      Endpoints → Endpoints → List (LowerCall Endpoints) × Option ApiError
  patch_endpoints lower clone =
      if same lower.subsets clone.subsets
      then ([], none)
      else if check_global_label_equal lower.meta clone.meta
      then elim (merge_patch lower clone) [
        | err e ↦ ([], some e)
        | ok patch ↦ (patch_lower lower.meta.namespace lower.meta.name patch ∷ [], error_of a.patch)
      ]
      else ([], none)

  -- After the key was computed.
  unfoldable pub sync_endpoints_handler : Endpoints → List (LowerCall Endpoints) × Option ApiError
  unfolding patch_endpoints filter_common
  sync_endpoints_handler e = elim a.client [
    | err failed ↦
        (if is_not_found failed
          then (
            create_lower e.meta.namespace (record e { meta = filter_common e.meta }) ∷ [],
            error_of a.create,
          )
          else ([], some failed))
    | ok lower ↦ patch_endpoints lower (record e {
      meta = record (filter_common e.meta) { resource_version = lower.meta.resource_version };
    })
  ]

  -- The handler of endpoints is the generic one at the shape of endpoints.
  sync_endpoints_handler-sync_handler :
      (e : Endpoints) → sync_handler (endpoints same merge_patch) a e ≡ sync_endpoints_handler e
  unfolding sync_endpoints_handler sync_handler create_copy update_copy patch_object endpoints
  sync_endpoints_handler-sync_handler e = refl
