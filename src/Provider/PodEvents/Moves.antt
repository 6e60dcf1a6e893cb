-- ===== src/Provider/PodEvents/Moves.antt =====
-- The updates of a pod of the lower cluster alone, and how the virtual node keeps the books.
use tensile_kube.Prelude.{
  String, ◌≡◌, inl, inr, refl, ◌∙◌, ap, sym, subst, Bool-cases, Bool, true, false, not, ◌&&◌,
  Option, none, arith, ◌==◌, eq_iff,
}
use tensile_kube.Prelude.Dict.{Dict, NodupKeys, lookup}
use tensile_kube.Prelude.Int.{ℤ, pos, ◌+ℤ◌, ◌-ℤ◌}
use tensile_kube.Api.{Pod}
use tensile_kube.Common.Resource.{
  Quantity, IsExact, Resource, quota, convert_resource, add_resource, sub_resource, equal_resource,
}
use tensile_kube.Common.Resource.Amounts.{exclusive, held, Plain, held-convert_resource}
use tensile_kube.Common.Resource.Capacity.{Holds, add_resource-Holds, sub_resource-Holds}
use tensile_kube.Provider.Needs.{pod_stopped}
use tensile_kube.Provider.Nodes.Capacity.{Holds-congr, of_resource, convert-Plain}
use tensile_kube.Provider.PodEvents.Numbers.{used_if, taken, given, exchanged, exchanged_pods}
use tensile_kube.Provider.PodEvents.{
  PodLibrary, get_request_from_pod, as_one, is_bound_now, is_stopped_now, is_changed, new_request,
  bind_step, stop_step, update_vk_capacity_from_pod,
}

-- The pod has a node.
abbrev pub is_bound : Pod → Bool
is_bound pod = not (pod.spec.node_name == "")

-- It has a node and has not ended there for good.
abbrev pub is_counted : Pod → Bool
is_counted pod = is_bound pod && not (pod_stopped pod)

-- The updates of a regular life: a pod waits for a node, gets one, goes on there with the same requests
-- or with changed ones that are not equal while it runs, and stops after it has run.
module _ {Q : Type 0} (qs : Quantity Q) (lib : PodLibrary Q) where
  pub data Move (old new : Pod) : Type 0 where
    waits :
        is_bound old ≡ false
        → is_bound new ≡ false
        → (old.status.phase == "Running") ≡ false
        → (new.status.phase == "Running") ≡ false
        → Move old new
    binds :
        is_bound old ≡ false
        → is_counted new ≡ true
        → (old.status.phase == "Running") ≡ false
        → is_changed qs lib old new ≡ false
        → Move old new
    goes_on :
        is_counted old ≡ true
        → is_counted new ≡ true
        → is_changed qs lib old new ≡ false
        → lib.requests old ≡ lib.requests new
        → Move old new
    resizes :
        is_counted old ≡ true
        → is_counted new ≡ true
        → is_changed qs lib old new ≡ true
        → equal_resource qs lib.equal
            (get_request_from_pod qs lib old)
            (get_request_from_pod qs lib new)
          ≡ false
        → Move old new
    stops :
        is_counted old ≡ true
        → (old.status.phase == "Running") ≡ true
        → is_bound new ≡ true
        → pod_stopped new ≡ true
        → is_changed qs lib old new ≡ false
        → lib.requests old ≡ lib.requests new
        → Move old new
    rests :
        pod_stopped old ≡ true
        → pod_stopped new ≡ true
        → is_bound old ≡ true
        → is_bound new ≡ true
        → Move old new

module _ {Q : Type 0} (qs : Quantity Q) (exact : IsExact qs) (lib : PodLibrary Q)
    (no_pods : (p : Pod) → lookup "pods" (lib.requests p) ≡ none)
    (nodup : (p : Pod) → NodupKeys (lib.requests p)) where
  -- What the pod takes of each resource while it counts.
  abbrev pub amount : Pod → String → ℤ
  amount p = of_resource qs exact (as_one qs lib (get_request_from_pod qs lib p))

  abbrev pub use_of : Pod → String → ℤ
  use_of p j = used_if (is_counted p) (amount p j)

  pub as_one-Plain : (p : Pod) → Plain qs (as_one qs lib (get_request_from_pod qs lib p))
  unfolding as_one get_request_from_pod
  as_one-Plain p =
      let c = convert-Plain qs exact (lib.requests p) in
      record {
        nodup = c.nodup;
        no_cpu = c.no_cpu;
        no_memory = c.no_memory;
        no_pods = c.no_pods;
        no_storage = c.no_storage;
      }

  bind_step-Holds :
      (vk : Option (Dict Q)) (f : String → ℤ) (old new : Pod)
      → is_bound_now qs lib old new ≡ true
      → Holds qs exact vk f
      → Holds qs exact (bind_step qs lib old new vk) (λ j. f j -ℤ amount new j)
  unfolding bind_step
  bind_step-Holds vk f old new b h =
      rw (b) (sub_resource-Holds qs exact vk f _ (as_one-Plain new) h)

  stop_step-Holds :
      (vk : Option (Dict Q)) (f : String → ℤ) (old new : Pod)
      → is_stopped_now qs lib old new ≡ true
      → Holds qs exact vk f
      → Holds qs exact (stop_step qs lib old new vk) (λ j. f j +ℤ amount new j)
  unfolding stop_step
  stop_step-Holds vk f old new b h =
      rw (b) (add_resource-Holds qs exact vk f _ (as_one-Plain new) h)

  pub use_counted : (p : Pod) (j : String) → is_counted p ≡ true → use_of p j ≡ amount p j
  use_counted p j c = rw (c) refl

  pub use_uncounted : (p : Pod) (j : String) → is_counted p ≡ false → use_of p j ≡ pos 0
  use_uncounted p j c = rw (c) refl

  pub stopped-phase : (p : Pod) → pod_stopped p ≡ true → (p.status.phase == "Running") ≡ false
  unfolding pod_stopped
  stopped-phase p s = elim (Bool-cases (p.status.phase == "Succeeded")) [
    | inl succeeded ↦ exclusive p.status.phase "Succeeded" "Running" refl succeeded
    | inr differs ↦ exclusive p.status.phase "Failed" "Running" refl (ground arith)
  ]

  pub same_amount :
      (old new : Pod) (j : String)
      → lib.requests old ≡ lib.requests new
      → amount old j ≡ amount new j
  unfolding get_request_from_pod
  same_amount old new j e =
      ap (λ r. of_resource qs exact (as_one qs lib (convert_resource qs r)) j) e

  -- Without a changed request, the update is its first two steps.
  two_steps :
      (vk : Option (Dict Q)) (old new : Pod)
      → is_changed qs lib old new ≡ false
      → (update_vk_capacity_from_pod qs lib old new vk).0
        ≡ stop_step qs lib old new (bind_step qs lib old new vk)
  unfolding update_vk_capacity_from_pod
  two_steps vk old new c = rw (c) refl

  pub no_bind :
      (vk : Option (Dict Q)) (old new : Pod)
      → is_bound_now qs lib old new ≡ false
      → bind_step qs lib old new vk ≡ vk
  unfolding bind_step
  no_bind vk old new b = rw (b) refl

  pub no_stop :
      (vk : Option (Dict Q)) (old new : Pod)
      → is_stopped_now qs lib old new ≡ false
      → stop_step qs lib old new vk ≡ vk
  unfolding stop_step
  no_stop vk old new b = rw (b) refl

  pub quiet :
      (vk : Option (Dict Q)) (old new : Pod)
      → is_changed qs lib old new ≡ false
      → is_bound_now qs lib old new ≡ false
      → is_stopped_now qs lib old new ≡ false
      → (update_vk_capacity_from_pod qs lib old new vk).0 ≡ vk
  quiet vk old new c b s =
      two_steps vk old new c
      ∙ ap (stop_step qs lib old new) (no_bind vk old new b)
      ∙ no_stop vk old new s

  resized :
      (vk : Option (Dict Q)) (old new : Pod)
      → is_changed qs lib old new ≡ true
      → is_bound_now qs lib old new ≡ false
      → is_stopped_now qs lib old new ≡ false
      → equal_resource qs lib.equal
          (get_request_from_pod qs lib old)
          (get_request_from_pod qs lib new)
        ≡ false
      → (update_vk_capacity_from_pod qs lib old new vk).0
        ≡ sub_resource qs
            (get_request_from_pod qs lib new)
            (add_resource qs (get_request_from_pod qs lib old) vk)
  unfolding update_vk_capacity_from_pod new_request bind_step stop_step
  resized vk old new c b s e = rw (c, b, s, e, new_request, bind_step, stop_step) refl

  request_pods : (p : Pod) → of_resource qs exact (get_request_from_pod qs lib p) "pods" ≡ pos 0
  unfolding get_request_from_pod quota
  request_pods p =
      ap qs.value
        (held-convert_resource qs "pods" (lib.requests p) (nodup p) ∙ rw (no_pods p, quota) refl)
      ∙ exact.value-zero

  held-as_one :
      (r : Resource Q) (j : String)
      → (j == "pods") ≡ false
      → held qs j (as_one qs lib r) ≡ held qs j r
  unfolding as_one
  held-as_one r j other = ground arith

  request-Plain : (p : Pod) → Plain qs (get_request_from_pod qs lib p)
  unfolding get_request_from_pod
  request-Plain p = convert-Plain qs exact (lib.requests p)

  -- But for the pods, what a pod takes is its request.
  amount-others :
      (p : Pod) (j : String)
      → (j == "pods") ≡ false
      → amount p j ≡ of_resource qs exact (get_request_from_pod qs lib p) j
  amount-others p j other = ap qs.value (held-as_one (get_request_from_pod qs lib p) j other)

  amount-pods : (old new : Pod) → amount old "pods" ≡ amount new "pods"
  unfolding as_one
  amount-pods old new = refl

  amount-exchanged :
      (total : ℤ) (old new : Pod) (j : String)
      → (((total -ℤ amount old j) +ℤ of_resource qs exact (get_request_from_pod qs lib old) j)
          -ℤ of_resource qs exact (get_request_from_pod qs lib new) j)
        ≡ (total -ℤ amount new j)
  amount-exchanged total old new j = elim (Bool-cases (j == "pods")) [
    | inl same ↦
        subst
          (λ j.
            (((total -ℤ amount old j) +ℤ of_resource qs exact (get_request_from_pod qs lib old) j)
              -ℤ of_resource qs exact (get_request_from_pod qs lib new) j)
            ≡ (total -ℤ amount new j))
          (sym ((eq_iff j "pods").0 same))
          (rw (request_pods old, request_pods new)
            (exchanged_pods total (amount old "pods") ∙ ap (λ u. total -ℤ u) (amount-pods old new)))
    | inr other ↦
        rw (sym (amount-others old j other), sym (amount-others new j other))
          (exchanged total (amount old j) (amount new j))
  ]

  -- Each update of a regular life keeps the books: the virtual node has a total less what the pod uses,
  -- before and after, where the requests of a pod list no pods and no name twice.
  pub update-Holds :
      (vk : Option (Dict Q)) (total : String → ℤ) (old new : Pod)
      → Move qs lib old new
      → Holds qs exact vk (λ j. total j -ℤ use_of old j)
      → Holds qs exact
          (update_vk_capacity_from_pod qs lib old new vk).0
          (λ j. total j -ℤ use_of new j)
  unfolding update_vk_capacity_from_pod
  update-Holds vk total old new (waits bo bn ro rn) h =
      subst (λ v. Holds qs exact v (λ j. total j -ℤ use_of new j))
        (sym (quiet vk old new (ground arith) (ground arith) (ground arith)))
        (Holds-congr qs exact _ _ _
          (λ j.
            ap (λ u. total j -ℤ u)
              (use_uncounted old j (ground arith) ∙ sym (use_uncounted new j (ground arith))))
          h)
  update-Holds vk total old new (binds bo cn ro same) h =
      subst (λ v. Holds qs exact v (λ j. total j -ℤ use_of new j))
        (sym (
          two_steps vk old new same ∙ no_stop (bind_step qs lib old new vk) old new (ground arith)))
        (Holds-congr qs exact _ _ _
          (λ j.
            ap (λ u. (total j -ℤ u) -ℤ amount new j) (use_uncounted old j (ground arith))
            ∙ taken (total j) (amount new j)
            ∙ ap (λ u. total j -ℤ u) (sym (use_counted new j cn)))
          (bind_step-Holds vk _ old new (ground arith) h))
  update-Holds vk total old new (goes_on co cn same e) h =
      subst (λ v. Holds qs exact v (λ j. total j -ℤ use_of new j))
        (sym (quiet vk old new same (ground arith) (ground arith)))
        (Holds-congr qs exact _ _ _
          (λ j.
            ap (λ u. total j -ℤ u)
              (use_counted old j co ∙ same_amount old new j e ∙ sym (use_counted new j cn)))
          h)
  update-Holds vk total old new (resizes co cn changed differ) h =
      subst (λ v. Holds qs exact v (λ j. total j -ℤ use_of new j))
        (sym (resized vk old new changed (ground arith) (ground arith) differ))
        (Holds-congr qs exact _ _ _
          (λ j.
            ap
              (λ u.
                ((total j -ℤ u) +ℤ of_resource qs exact (get_request_from_pod qs lib old) j)
                -ℤ of_resource qs exact (get_request_from_pod qs lib new) j)
              (use_counted old j co)
            ∙ amount-exchanged (total j) old new j
            ∙ ap (λ u. total j -ℤ u) (sym (use_counted new j cn)))
          (sub_resource-Holds qs exact _ _ _ (request-Plain new)
            (add_resource-Holds qs exact vk _ _ (request-Plain old) h)))
  update-Holds vk total old new (stops co ro bn sn same e) h =
      subst (λ v. Holds qs exact v (λ j. total j -ℤ use_of new j))
        (sym (
          two_steps vk old new same
          ∙ ap (stop_step qs lib old new) (no_bind vk old new (ground arith))))
        (Holds-congr qs exact _ _ _
          (λ j.
            ap (λ u. (total j -ℤ u) +ℤ amount new j)
              (use_counted old j co ∙ same_amount old new j e)
            ∙ given (total j) (amount new j)
            ∙ ap (λ u. total j -ℤ u) (sym (use_uncounted new j (ground arith))))
          (stop_step-Holds vk _ old new (ground arith) h))
  update-Holds vk total old new (rests so sn bo bn) h =
      subst (λ v. Holds qs exact v (λ j. total j -ℤ use_of new j))
        (sym (
          quiet vk old new (ground (arith, stopped-phase new sn)) (ground arith)
            (ground (arith, stopped-phase old so))))
        (Holds-congr qs exact _ _ _
          (λ j.
            ap (λ u. total j -ℤ u)
              (use_uncounted old j (ground arith) ∙ sym (use_uncounted new j (ground arith))))
          h)
