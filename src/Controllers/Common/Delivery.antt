-- ===== src/Controllers/Common/Delivery.antt =====
-- What the garbage collection deletes, and which updates reach the queue.
use tensile_kube.Prelude.{
  String, ◌≡◌, refl, Bool, true, false, ◌&&◌, Option, none, some, List, [], ◌∷◌, map, arith, ◌==◌,
  filter_by,
}
use tensile_kube.Prelude.Dict.{Dict}
use tensile_kube.Prelude.Run.{Result, ok, err}
use tensile_kube.Api.{ObjectMeta, Secret, ApiError, not_found, other}
use tensile_kube.Controllers.Global.{is_object_global}
use tensile_kube.Controllers.Common.{
  Kind, is_not_found, ObjectCall, delete_object, Views, gc_object, gc_objects,
  should_enqueue_add_secret, should_enqueue_update_secret, secret_updated,
}

-- The answer of a lister whose cache is up to date, or a failure of another kind.
abbrev pub fresh {ℓ} : {O : Type ℓ} → Option String → Option O → Result ApiError O
fresh (some e) o = err (other e)
fresh none none = err not_found
fresh none (some o) = ok o

module _ {O : Type 0} (kind : Kind O) where
  abbrev pub is_orphan : (O → Views O) → O → Bool
  is_orphan vs o =
      is_object_global (kind.meta o)
      && elim (vs o).master [ ok upper ↦ false | err e ↦ is_not_found e ]

  abbrev pub present : List (Option O) → List O
  present [] = []
  present (none ∷ os) = present os
  present (some o ∷ os) = o ∷ present os

  abbrev deletion : O → ObjectCall O
  deletion o = delete_object (kind.meta o).namespace (kind.meta o).name

  -- The garbage collection deletes exactly the listed global objects that the upper cluster does not
  -- have, in the order of the list.
  gc_objects-filter_by :
      (vs : O → Views O) (os : List (Option O))
      → gc_objects kind vs os ≡ map deletion (filter_by (is_orphan vs) (present os))
  unfolding gc_objects gc_object
  gc_objects-filter_by vs [] = refl
  gc_objects-filter_by vs (none ∷ os) = gc_objects-filter_by vs os
  gc_objects-filter_by vs (some o ∷ os) = ground (arith, gc_objects-filter_by vs os)

-- An update of a secret reaches the queue only where the new secret is global, outside kube-system and no
-- service account token.
secret_updated-enqueued :
    (deep_equal : Option (Dict String) → Option (Dict String) → Bool)
    (key_of : ObjectMeta → Result ApiError String) (old new : Secret) (key : String)
    → secret_updated deep_equal key_of old new ≡ key ∷ []
    → (is_object_global new.meta ≡ true)
      × ((new.meta.namespace == "kube-system") ≡ false)
      × ((new.type == "kubernetes.io/service-account-token") ≡ false)
      × (key_of new.meta ≡ ok key)
unfolding secret_updated should_enqueue_update_secret should_enqueue_add_secret
secret_updated-enqueued deep_equal key_of old new key h = ground arith
