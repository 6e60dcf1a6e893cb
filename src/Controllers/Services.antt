-- ===== src/Controllers/Services.antt =====
-- pkg/controllers/service_controller.go: services and endpoints of the upper cluster are kept in the
-- lower one. The code has each function twice, once for each kind; `Shape` says what differs.
pub mod Delivery
pub mod Twins
use tensile_kube.Prelude.{
  String, Bool, true, false, ◌&&◌, Option, none, some, List, [], ◌∷◌, ◌++◌, ◌==◌, if◌then◌else◌,
}
use tensile_kube.Prelude.Dict.{Dict}
use tensile_kube.Prelude.Run.{Result, ok, err}
use tensile_kube.Api.{ObjectMeta, Service, Endpoints, ApiError, not_found, other}
use tensile_kube.Controllers.Global.{
  is_object_global, check_global_label_equal, filter_common, filter_service, ensure_namespace,
}
use tensile_kube.Controllers.Common.{is_not_found, is_deleting}

-- `filter` makes the copy of an upper object, or fails; `adopt lower copy` takes over what the lower
-- object keeps; `same` compares what is compared before a patch; `merge_patch` is the library's.
pub record Shape (O : Type 0) : Type 0 where
  pub meta : O → ObjectMeta
  pub filter : O → Result ApiError O
  pub adopt : O → O → O
  pub same : O → O → Bool
  pub merge_patch : O → O → Result ApiError String

unfoldable pub service_copy : Service × Bool → Result ApiError Service
service_copy (copy, true) = ok copy
service_copy (copy, false) = err (other "json")

-- The parameters are `reflect.DeepEqual` on specs and statuses, `json.Marshal` and the patch library.
unfoldable pub services :
    (Service → Service → Bool)
    → (Dict String → Option String)
    → (Service → Service → Result ApiError String)
    → Shape Service
unfolding filter_service service_copy
services same marshal merge_patch = record {
  meta = λ o. o.meta;
  filter = λ o. service_copy (filter_service marshal o);
  adopt = λ lower copy. record copy {
    meta = record copy.meta { resource_version = lower.meta.resource_version };
    cluster_ip = lower.cluster_ip;
  };
  same = same;
  merge_patch = merge_patch;
}

-- The parameters are `reflect.DeepEqual` on subsets and the patch library.
unfoldable pub endpoints :
    (String → String → Bool) → (Endpoints → Endpoints → Result ApiError String) → Shape Endpoints
unfolding filter_common
endpoints same merge_patch = record {
  meta = λ o. o.meta;
  filter = λ o. ok (record o { meta = filter_common o.meta });
  adopt = λ lower copy. record copy {
    meta = record copy.meta { resource_version = lower.meta.resource_version };
  };
  same = λ lower copy. same lower.subsets copy.subsets;
  merge_patch = merge_patch;
}

pub data LowerCall (O : Type 0) : Type 0 where
  create_namespace : String → LowerCall O
  delete_lower : String → String → LowerCall O
  create_lower : String → O → LowerCall O
  patch_lower : String → String → String → LowerCall O

-- What is done to the queue, in order.
pub data QueueOp : Type 0 where
  forget add_rate_limited : QueueOp

-- The answers of the listers and of the two API servers for the key.
pub record Answered (O : Type 0) : Type 0 where
  pub namespace : Result ApiError (Unit {0})
  pub namespace_created : Result ApiError (Unit {0})
  pub lister : Result ApiError O
  pub master : Result ApiError O
  pub client : Result ApiError O
  pub delete : Result ApiError (Unit {0})
  pub create : Result ApiError O
  pub patch : Result ApiError O

abbrev pub error_of {ℓ} : {A : Type ℓ} → Result ApiError A → Option ApiError
error_of (ok a) = none
error_of (err e) = some e

module _ {O : Type 0} (shape : Shape O) (a : Answered O) where
  -- `patchService` and `patchEndpoints`: the call, and the error.
  unfoldable pub patch_object : O → O → List (LowerCall O) × Option ApiError
  patch_object lower copy =
      if shape.same lower copy
      then ([], none)
      else if check_global_label_equal (shape.meta lower) (shape.meta copy)
      then elim (shape.merge_patch lower copy) [
        | err e ↦ ([], some e)
        | ok text ↦ (
          patch_lower (shape.meta lower).namespace (shape.meta lower).name text ∷ [],
          error_of a.patch,
        )
      ]
      else ([], none)

  unfoldable pub create_copy : O → List (LowerCall O) × Option ApiError
  create_copy object = elim (shape.filter object) [
    | err e ↦ ([], some e)
    | ok copy ↦ (create_lower (shape.meta object).namespace copy ∷ [], error_of a.create)
  ]

  unfoldable pub update_copy : O → O → List (LowerCall O) × Option ApiError
  unfolding patch_object
  update_copy object lower = elim (shape.filter object) [
    | err e ↦ ([], some e)
    | ok copy ↦ patch_object lower (shape.adopt lower copy)
  ]

  -- `syncServiceHandler` and `syncEndpointsHandler`, after their key was computed.
  unfoldable pub sync_handler : O → List (LowerCall O) × Option ApiError
  unfolding create_copy update_copy
  sync_handler object = elim a.client [
    | err e ↦ if is_not_found e then create_copy object else ([], some e)
    | ok lower ↦ update_copy object lower
  ]

  -- The end of the handler, and then the end of `syncService`, whose own error is nil.
  unfoldable pub sync_present : O → List (LowerCall O) × List QueueOp
  unfolding sync_handler
  sync_present object =
      let (calls, failed) = sync_handler object in
      (calls, elim failed [ none ↦ forget ∷ [] | some e ↦ add_rate_limited ∷ forget ∷ [] ])

  unfoldable pub delete_absent : String → String → List (LowerCall O) × List QueueOp
  delete_absent namespace name = (
    delete_lower namespace name ∷ [],
    elim a.delete [
      | ok u ↦ forget ∷ []
      | err e ↦ if is_not_found e then forget ∷ [] else add_rate_limited ∷ []
    ],
  )

  unfoldable pub sync_found : String → String → O → List (LowerCall O) × List QueueOp
  unfolding sync_present delete_absent
  sync_found namespace name object =
      if is_deleting (shape.meta object) then delete_absent namespace name else sync_present object

  unfoldable pub sync_listed : String → String → List (LowerCall O) × List QueueOp
  unfolding sync_found
  sync_listed namespace name = elim a.lister [
    | ok object ↦ sync_found namespace name object
    | err e ↦
        (if is_not_found e
          then elim a.master [
            | ok object ↦ sync_found namespace name object
            | err e ↦
                if is_not_found e then delete_absent namespace name else ([], add_rate_limited ∷ [])
          ]
          else ([], add_rate_limited ∷ []))
  ]

  abbrev namespace_calls : String → Bool → List (LowerCall O)
  namespace_calls namespace b = if b then create_namespace namespace ∷ [] else []

  -- `syncService` and `syncEndpoints`, from the point where the key is split.
  unfoldable pub sync_lower : String → String → List (LowerCall O) × List QueueOp
  unfolding sync_listed ensure_namespace
  sync_lower namespace name =
      let (created, failed) = ensure_namespace a.namespace a.namespace_created in
      elim failed [
        | some e ↦ (namespace_calls namespace created, add_rate_limited ∷ [])
        | none ↦ (
          namespace_calls namespace created ++ (sync_listed namespace name).0,
          (sync_listed namespace name).1,
        )
      ]

unfoldable pub should_enqueue_lower : ObjectMeta → Bool
should_enqueue_lower obj =
    if obj.namespace == "kube-system"
    then false
    else if obj.name == "kubernetes"
    then false
    else true

-- The handlers; `key_of` is `MetaNamespaceKeyFunc`, and the result is the keys that are enqueued.
module _ (key_of : ObjectMeta → Result ApiError String) where
  abbrev enqueued : Bool → ObjectMeta → List String
  enqueued b meta = if b then elim (key_of meta) [ err e ↦ [] | ok key ↦ key ∷ [] ] else []

  unfoldable pub lower_added : ObjectMeta → List String
  unfolding should_enqueue_lower
  lower_added meta = enqueued (should_enqueue_lower meta) meta

  unfoldable pub lower_updated : ObjectMeta → List String
  unfolding should_enqueue_lower
  lower_updated meta = enqueued (should_enqueue_lower meta && is_object_global meta) meta

-- `gc`: the deletions, by the answer of the upper lister for each listed service.
unfoldable pub gc_services :
    (Service → Result ApiError Service) → List (Option Service) → List (LowerCall Service)
unfolding should_enqueue_lower
gc_services upper [] = []
gc_services upper (none ∷ ss) = gc_services upper ss
gc_services upper (some s ∷ ss) =
    let rest = gc_services upper ss in
    if should_enqueue_lower s.meta && is_object_global s.meta
    then elim (upper s) [
      | ok found ↦ rest
      | err e ↦ if is_not_found e then delete_lower s.meta.namespace s.meta.name ∷ rest else rest
    ]
    else rest

-- What the two listers and servers answer for a namespace and a name; `split` is
-- `SplitMetaNamespaceKey`.
module _ (split : String → Option (String × String)) where
  abbrev sync_split :
      {O : Type 0}
      → Shape O
      → (String → String → Answered O)
      → String
      → List (LowerCall O) × List QueueOp
  sync_split shape answers key = elim (split key) [
    | none ↦ ([], forget ∷ [])
    | some (namespace, name) ↦ sync_lower shape (answers namespace name) namespace name
  ]

  unfoldable pub sync_service :
      Shape Service
      → (String → String → Answered Service)
      → String
      → List (LowerCall Service) × List QueueOp
  unfolding sync_lower
  sync_service shape answers key = sync_split shape answers key

  unfoldable pub sync_endpoints :
      Shape Endpoints
      → (String → String → Answered Endpoints)
      → String
      → List (LowerCall Endpoints) × List QueueOp
  unfolding sync_lower
  sync_endpoints shape answers key = sync_split shape answers key

module _ (key_of : ObjectMeta → Result ApiError String) where
  unfoldable pub service_added : Service → List String
  unfolding lower_added
  service_added s = lower_added key_of s.meta

  unfoldable pub service_updated : Service → Service → List String
  unfolding lower_updated
  service_updated old new = lower_updated key_of new.meta

  unfoldable pub endpoints_added : Endpoints → List String
  unfolding lower_added
  endpoints_added e = lower_added key_of e.meta

  unfoldable pub endpoints_updated : Endpoints → Endpoints → List String
  unfolding lower_updated
  endpoints_updated old new = lower_updated key_of new.meta
