-- ===== src/Provider/PodEvents/Life.antt =====
-- The capacity of the virtual node through the life of a pod of the lower cluster alone.
use tensile_kube.Prelude.{
  String, ◌≡◌, inl, inr, refl, ◌∙◌, ap, sym, subst, Bool-cases, true, false, Option, none, some,
  List, [], ◌∷◌, arith, ◌==◌, if◌then◌else◌,
}
use tensile_kube.Prelude.Dict.{Dict, NodupKeys, lookup}
use tensile_kube.Prelude.Int.{ℤ, ◌+ℤ◌, ◌-ℤ◌}
use tensile_kube.Api.{Pod}
use tensile_kube.Common.Resource.{Quantity, IsExact, add_resource, sub_resource}
use tensile_kube.Common.Resource.Amounts.{exclusive}
use tensile_kube.Common.Resource.Capacity.{Holds, add_resource-Holds, sub_resource-Holds}
use tensile_kube.Provider.Needs.{pod_stopped}
use tensile_kube.Provider.Nodes.Capacity.{Holds-congr}
use tensile_kube.Provider.PodEvents.Numbers.{given, unused}
use tensile_kube.Provider.PodEvents.Moves.{
  is_bound, is_counted, Move, amount, use_of, as_one-Plain, use_counted, use_uncounted,
  stopped-phase, quiet, update-Holds,
}
use tensile_kube.Provider.PodEvents.{
  PodLibrary, get_request_from_pod, as_one, take_room, give_room, update_vk_capacity_from_pod,
}

module _ {Q : Type 0} (qs : Quantity Q) (exact : IsExact qs) (lib : PodLibrary Q)
    (no_pods : (p : Pod) → lookup "pods" (lib.requests p) ≡ none)
    (nodup : (p : Pod) → NodupKeys (lib.requests p)) where
  take_room-vk :
      (vk : Option (Dict Q)) (pod : Pod)
      → (take_room qs lib pod vk).vk ≡ (
          if is_bound pod
          then sub_resource qs (as_one qs lib (get_request_from_pod qs lib pod)) vk
          else vk)
  unfolding take_room sub_resource
  take_room-vk none pod = ground arith
  take_room-vk (some capacity) pod = ground arith

  give_room-vk :
      (vk : Option (Dict Q)) (pod : Pod)
      → (give_room qs lib pod vk).vk ≡ (
          if is_counted pod
          then add_resource qs (as_one qs lib (get_request_from_pod qs lib pod)) vk
          else vk)
  unfolding give_room add_resource
  give_room-vk none pod = ground arith
  give_room-vk (some capacity) pod = ground arith

  take_room-Holds :
      (vk : Option (Dict Q)) (total : String → ℤ) (pod : Pod)
      → pod_stopped pod ≡ false
      → Holds qs exact vk total
      → Holds qs exact
          (take_room qs lib pod vk).vk
          (λ j. total j -ℤ use_of qs exact lib no_pods nodup pod j)
  take_room-Holds vk total pod fresh h =
      subst (λ v. Holds qs exact v (λ j. total j -ℤ use_of qs exact lib no_pods nodup pod j))
        (sym (take_room-vk vk pod))
        (elim (Bool-cases (is_bound pod)) [
          | inl bound ↦
              rw (bound, fresh)
                (sub_resource-Holds qs exact vk total _
                  (as_one-Plain qs exact lib no_pods nodup pod) h)
          | inr free ↦ rw (free) (Holds-congr qs exact _ _ _ (λ j. sym (unused (total j))) h)
        ])

  give_room-Holds :
      (vk : Option (Dict Q)) (total : String → ℤ) (pod : Pod)
      → Holds qs exact vk (λ j. total j -ℤ use_of qs exact lib no_pods nodup pod j)
      → Holds qs exact (give_room qs lib pod vk).vk total
  give_room-Holds vk total pod h =
      subst (λ v. Holds qs exact v total) (sym (give_room-vk vk pod))
        (elim (Bool-cases (is_counted pod)) [
          | inl counted ↦ rw (counted) (
              Holds-congr qs exact _ _ _
                (λ j.
                  ap (λ u. (total j -ℤ u) +ℤ amount qs exact lib no_pods nodup pod j)
                    (use_counted qs exact lib no_pods nodup pod j counted)
                  ∙ given (total j) (amount qs exact lib no_pods nodup pod j)
                  ∙ unused (total j))
                (add_resource-Holds qs exact vk _ _ (as_one-Plain qs exact lib no_pods nodup pod)
                  h))
          | inr free ↦ rw (free) (
              Holds-congr qs exact _ _ _
                (λ j.
                  ap (λ u. total j -ℤ u) (use_uncounted qs exact lib no_pods nodup pod j free)
                  ∙ unused (total j))
                h)
        ])

  -- The updates of a pod, from its first version on, and the last version.
  abbrev pub run_updates : Pod → List Pod → Option (Dict Q) → Option (Dict Q)
  run_updates old [] vk = vk
  run_updates old (new ∷ more) vk =
      run_updates new more (update_vk_capacity_from_pod qs lib old new vk).0

  abbrev pub last_of : Pod → List Pod → Pod
  last_of p [] = p
  last_of p (q ∷ more) = last_of q more

  abbrev pub Moves : Pod → List Pod → Type 0
  Moves old [] = Unit
  Moves old (new ∷ more) = Move qs lib old new × Moves new more

  updates-Holds :
      (vk : Option (Dict Q)) (total : String → ℤ) (old : Pod) (more : List Pod)
      → Moves old more
      → Holds qs exact vk (λ j. total j -ℤ use_of qs exact lib no_pods nodup old j)
      → Holds qs exact
          (run_updates old more vk)
          (λ j. total j -ℤ use_of qs exact lib no_pods nodup (last_of old more) j)
  updates-Holds vk total old [] moves h = h
  updates-Holds vk total old (new ∷ more) (move, moves) h =
      updates-Holds (update_vk_capacity_from_pod qs lib old new vk).0 total new more moves
        (update-Holds qs exact lib no_pods nodup vk total old new move h)

  -- What `life-Holds` of Handlers says of the handlers, of the room that they take and give.
  pub room-Holds :
      (vk : Option (Dict Q)) (total : String → ℤ) (pod : Pod) (more : List Pod)
      → pod_stopped pod ≡ false
      → Moves pod more
      → Holds qs exact vk total
      → Holds qs exact
          (give_room qs lib
            (last_of pod more)
            (run_updates pod more (take_room qs lib pod vk).vk)).vk
          total
  room-Holds vk total pod more fresh moves h =
      give_room-Holds _ total (last_of pod more)
        (updates-Holds _ total pod more moves (take_room-Holds vk total pod fresh h))

  -- What `life-leaks` of Handlers says of the handlers.
  pub room-leaks :
      (vk : Option (Dict Q)) (total : String → ℤ) (pod ended : Pod)
      → is_counted pod ≡ true
      → (pod.status.phase == "Pending") ≡ true
      → is_bound ended ≡ true
      → pod_stopped ended ≡ true
      → Holds qs exact vk total
      → Holds qs exact
          (give_room qs lib ended
            (update_vk_capacity_from_pod qs lib pod ended (take_room qs lib pod vk).vk).0).vk
          (λ j. total j -ℤ amount qs exact lib no_pods nodup pod j)
  room-leaks vk total pod ended counted pending bound stopped h =
      let taken_vk = (take_room qs lib pod vk).vk in
      subst (λ v. Holds qs exact v (λ j. total j -ℤ amount qs exact lib no_pods nodup pod j))
        (sym (
          give_room-vk (update_vk_capacity_from_pod qs lib pod ended taken_vk).0 ended
          ∙ rw (bound, stopped)
              (quiet qs exact lib no_pods nodup taken_vk pod ended
                (ground (arith, stopped-phase qs exact lib no_pods nodup ended stopped))
                (ground arith)
                (ground (arith, exclusive pod.status.phase "Pending" "Running" refl pending)))))
        (Holds-congr qs exact _ _ _
          (λ j. ap (λ u. total j -ℤ u) (use_counted qs exact lib no_pods nodup pod j counted))
          (take_room-Holds vk total pod (ground arith) h))
