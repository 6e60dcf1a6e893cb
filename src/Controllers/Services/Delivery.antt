-- ===== src/Controllers/Services/Delivery.antt =====
-- When an object of the lower cluster is as the upper cluster wants it, and how failures are retried.
use tensile_kube.Prelude.{
  String, ◌≡◌, false, ◌&&◌, Option, none, some, List, [], ◌∷◌, arith, if◌then◌else◌,
}
use tensile_kube.Prelude.Run.{ok, err}
use tensile_kube.Api.{ApiError}
use tensile_kube.Controllers.Global.{is_object_global, check_global_label_equal}
use tensile_kube.Controllers.Common.{is_deleting}
use tensile_kube.Controllers.Services.{
  Shape, LowerCall, create_namespace, delete_lower, create_lower, patch_lower, forget,
  add_rate_limited, Answered, patch_object, update_copy, sync_handler, sync_present, sync_found,
  sync_listed, sync_lower,
}

module _ {O : Type 0} (shape : Shape O) (apply_patch : String → O → O) where
  -- What the lower cluster should hold for an upper object that is not being deleted.
  abbrev pub wanted : O → Option O → Option O
  wanted copy none = some copy
  wanted copy (some lower) =
      if shape.same lower (shape.adopt lower copy)
      then some lower
      else if is_object_global (shape.meta lower)
          && is_object_global (shape.meta (shape.adopt lower copy))
      then some (shape.adopt lower copy)
      else some lower

  -- What it holds after the calls, where those that fail have no effect.
  abbrev pub after : Answered O → List (LowerCall O) → Option O → Option O
  after a [] c = c
  after a (create_namespace ns ∷ calls) c = after a calls c
  after a (delete_lower ns name ∷ calls) c = elim a.delete [
    | ok u ↦ after a calls none
    | err e ↦ after a calls c
  ]
  after a (create_lower ns o ∷ calls) c = elim a.create [
    | ok u ↦ after a calls (some o)
    | err e ↦ after a calls c
  ]
  after a (patch_lower ns name text ∷ calls) c = elim a.patch [
    | ok u ↦ after a calls (elim c [ none ↦ none | some o ↦ some (apply_patch text o) ])
    | err e ↦ after a calls c
  ]

module _ {O : Type 0} (shape : Shape O) where
  -- An object of the lower cluster that is not marked as global is never patched.
  pub sync_handler-unmarked :
      (a : Answered O) (lower object : O)
      → a.client ≡ ok lower
      → is_object_global (shape.meta lower) ≡ false
      → (sync_handler shape a object).0 ≡ []
  unfolding sync_handler update_copy patch_object check_global_label_equal
  sync_handler-unmarked a lower object seen unmarked = ground arith

-- When the handler of a present object fails, its key is added again under the rate limit and then
-- forgotten, so that the limiter starts anew each time and never delays further.
pub sync_lower-retry :
    {O : Type 0} (shape : Shape O) (a : Answered O) (object : O) (namespace name : String)
    (e : ApiError)
    → a.namespace ≡ ok tt
    → a.lister ≡ ok object
    → is_deleting (shape.meta object) ≡ false
    → (sync_handler shape a object).1 ≡ some e
    → sync_lower shape a namespace name
      ≡ ((sync_handler shape a object).0, add_rate_limited ∷ forget ∷ [])
unfolding sync_lower sync_listed sync_found sync_present
sync_lower-retry shape a object namespace name e there listed present failed = ground arith
