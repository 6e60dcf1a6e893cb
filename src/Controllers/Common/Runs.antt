-- ===== src/Controllers/Common/Runs.antt =====
-- pkg/controllers/common_controller.go: the runs for one key, one after the other, on what each has left in
-- the cache of the lower lister.
use tensile_kube.Prelude.{
  String, ◌≡◌, refl, Option, none, some, List, [], ◌∷◌, ◌++◌, map, arith, if◌then◌else◌, All, ◌∙◌,
  ap,
}
use tensile_kube.Prelude.Run.{Result, ok, err}
use tensile_kube.Api.{ConfigMap, Secret, ApiError, not_found}
use tensile_kube.Controllers.Global.{is_object_global}
use tensile_kube.Controllers.Common.{
  Kind, config_maps, secrets, ObjectCall, update_object, Views, sync_object, cached_object,
  update_in_client, update_config_map, update_secret,
}

module _ {O : Type 0} (kind : Kind O) where
  -- One version of the object in the upper cluster, and what the API server answers in the run for it.
  abbrev pub view :
      (O → Result ApiError (Unit {0})) → (O → Result ApiError O) → Option O → O → Views O
  view delete update cached m = record {
    master = ok m;
    client = elim cached [ none ↦ err not_found | some c ↦ ok c ];
    delete = delete m;
    update = update m;
  }

  module _ (delete : O → Result ApiError (Unit {0})) (update : O → Result ApiError O)
      (namespace name : String) where
    -- The calls of the runs for some versions, and the cached object after them.
    abbrev pub runs : List O → Option O → List (ObjectCall O) × Option O
    runs [] cached = ([], cached)
    runs (m ∷ ms) cached =
        let v = view delete update cached m in
        let (calls, last) = runs ms (cached_object kind v namespace name) in
        ((sync_object kind v namespace name).0 ++ calls, last)

  abbrev pub sent : O → O → ObjectCall O
  sent c m = update_object (kind.meta m).namespace (kind.update c m)

  abbrev pub IsLiving : O → Type 0
  IsLiving m = (kind.meta m).deletion_timestamp ≡ none

  module _ (delete : O → Result ApiError (Unit {0})) (update : O → Result ApiError O)
      (namespace name : String)
      (again : (c m x : O) → kind.update (kind.update c m) x ≡ kind.update c x)
      (keeps : (c m : O)
        → is_object_global (kind.meta (kind.update c m)) ≡ is_object_global (kind.meta c)) where
    abbrev calls_for : O → List O → List (ObjectCall O)
    calls_for c ms = if is_object_global (kind.meta c) then [] else map (sent c) ms

    run-one :
        (c m : O)
        → IsLiving m
        → ((sync_object kind (view delete update (some c) m) namespace name).0
            ≡ calls_for c (m ∷ []))
          × (cached_object kind (view delete update (some c) m) namespace name
              ≡ some (kind.update c m))
    unfolding sync_object cached_object update_in_client
    run-one c m living = (ground (arith, keeps c m), ground arith)

    sent-update : (c m : O) (ms : List O) → map (sent (kind.update c m)) ms ≡ map (sent c) ms
    sent-update c m [] = refl
    sent-update c m (x ∷ ms) = rw (again c m x, sent-update c m ms) refl

    calls_for-update :
        (c m : O) (ms : List O)
        → calls_for c (m ∷ []) ++ calls_for (kind.update c m) ms ≡ calls_for c (m ∷ ms)
    calls_for-update c m ms = rw (keeps c m, sent-update c m ms) (ground arith)

    runs-calls_for :
        (ms : List O) (c : O)
        → All IsLiving ms
        → (runs delete update namespace name ms (some c)).0 ≡ calls_for c ms
    runs-calls_for [] c living = ground arith
    runs-calls_for (m ∷ ms) c (l, living) =
        let (calls, cached) = run-one c m l in
        rw (calls, cached, runs-calls_for ms (kind.update c m) living) (calls_for-update c m ms)

    runs-cached :
        (ms : List O) (c m : O)
        → All IsLiving (ms ++ (m ∷ []))
        → (runs delete update namespace name (ms ++ (m ∷ [])) (some c)).1 ≡ some (kind.update c m)
    runs-cached [] c m (l, u) = (run-one c m l).1
    runs-cached (x ∷ ms) c m (l, living) =
        ap (λ o. (runs delete update namespace name (ms ++ (m ∷ [])) o).1) (run-one c x l).1
        ∙ runs-cached ms (kind.update c x) m living
        ∙ ap some (again c x m)

    -- The calls of the runs for the versions and then for one more, and the cached object after them.
    runs-last :
        (ms : List O) (c m : O)
        → All IsLiving (ms ++ (m ∷ []))
        → runs delete update namespace name (ms ++ (m ∷ [])) (some c)
          ≡ (calls_for c (ms ++ (m ∷ [])), some (kind.update c m))
    runs-last ms c m living =
        λ i. (runs-calls_for (ms ++ (m ∷ [])) c living i, runs-cached ms c m living i)

-- Runs of a key in which the upper lister answers with versions of a config map, one after the other, none of
-- them being deleted, and the informer does not refresh the lower object in between. Afterwards the cache of the
-- lower lister has the lower object with the labels and the data of the last version. The calls are one
-- update for each version, in their order, with its labels and data; but none at all where the lower object
-- carries the global mark, so that the server never gets what the cache has. The same holds of a
-- secret, with its type. What the server answers makes no difference.
pub runs-sent :
    (delete : ConfigMap → Result ApiError (Unit {0}))
    (update : ConfigMap → Result ApiError ConfigMap)
    (delete_secret : Secret → Result ApiError (Unit {0}))
    (update_secret_answer : Secret → Result ApiError Secret)
    (namespace name secret_namespace secret_name : String) (cms : List ConfigMap)
    (lower upper : ConfigMap) (secs : List Secret) (low up : Secret)
    → All (IsLiving config_maps) (cms ++ (upper ∷ []))
    → All (IsLiving secrets) (secs ++ (up ∷ []))
    → (runs config_maps delete update namespace name (cms ++ (upper ∷ [])) (some lower) ≡ (
      if is_object_global lower.meta
          then []
          else map
              (λ (m : ConfigMap).
                update_object m.meta.namespace
                  (record m { meta = record lower.meta { labels = m.meta.labels } }))
              (cms ++ (upper ∷ [])),
      some (record upper { meta = record lower.meta { labels = upper.meta.labels } }),
    ))
      × (runs secrets delete_secret update_secret_answer secret_namespace secret_name
            (secs ++ (up ∷ []))
            (some low)
          ≡ (
            if is_object_global low.meta
                then []
                else map
                    (λ (m : Secret).
                      update_object m.meta.namespace
                        (record m { meta = record low.meta { labels = m.meta.labels } }))
                    (secs ++ (up ∷ [])),
            some (record up { meta = record low.meta { labels = up.meta.labels } }),
          ))
unfolding config_maps secrets update_config_map update_secret is_object_global
runs-sent delete update delete_secret update_secret_answer namespace name secret_namespace
      secret_name cms lower upper secs low up cl sl =
    (
      runs-last config_maps delete update namespace name (λ c m x. refl) (λ c m. refl) cms lower
          upper cl,
      runs-last secrets delete_secret update_secret_answer secret_namespace secret_name
          (λ c m x. refl) (λ c m. refl) secs low up sl,
    )
