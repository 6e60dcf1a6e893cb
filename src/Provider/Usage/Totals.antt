-- ===== src/Provider/Usage/Totals.antt =====
-- The capacity that `ConfigureNode` gives to the virtual node, as numbers.
use tensile_kube.Prelude.{
  String, ◌≡◌, refl, ◌∙◌, ap, sym, Bool, true, false, List, [], ◌∷◌, All, if◌then◌else◌, none,
}
use tensile_kube.Prelude.Dict.{NodupKeys, make_if_nil}
use tensile_kube.Prelude.Int.{ℤ, pos, ◌+ℤ◌, ◌-ℤ◌, int_laws, eq_of_parts}
use tensile_kube.Prelude.Run.{Result, ok}
use tensile_kube.Api.{Pod, ApiError}
use tensile_kube.Common.Resource.{
  Quantity, IsExact, Resource, new_resource, combine, add_to, sub_from, convert_resource,
  set_capacity_to_node,
}
use tensile_kube.Common.Resource.Amounts.{
  held, Plain, combine-Plain, new_resource-Plain, held-new_resource, held-convert_resource,
}
use tensile_kube.Common.Resource.Capacity.{
  Holds, value-held, value-set_capacity, add_zero, sub_zero, set_capacity-NodupKeys,
}
use tensile_kube.Provider.Nodes.{LowerNode}
use tensile_kube.Provider.Nodes.Capacity.{convert-Plain, of_node, of_resource}
use tensile_kube.Provider.PodEvents.{PodLibrary, get_request_from_pod, as_one}
use tensile_kube.Provider.PodEvents.Moves.{amount, as_one-Plain}
use tensile_kube.Prelude.Dict.{lookup}
use tensile_kube.Provider.Usage.{
  counts, is_usable, sum_requests, get_resource_from_pods, sum_nodes, configure_node,
}

plus_assoc : (a b c : ℤ) → ((a +ℤ b) +ℤ c) ≡ (a +ℤ (b +ℤ c))
plus_assoc a b c = omega (int_laws, eq_of_parts ((a +ℤ b) +ℤ c) (a +ℤ (b +ℤ c)))

zero_plus : (a : ℤ) → (pos 0 +ℤ a) ≡ a
zero_plus a = omega (int_laws, eq_of_parts (pos 0 +ℤ a) a)

-- The sum of a number over the elements that pass a test.
abbrev pub sum_if {ℓ} : {A : Type ℓ} → (A → Bool) → (A → ℤ) → List A → ℤ
sum_if p f [] = pos 0
sum_if p f (x ∷ xs) = (if p x then f x else pos 0) +ℤ sum_if p f xs

module _ {Q : Type 0} (qs : Quantity Q) (exact : IsExact qs) (lib : PodLibrary Q) where
  added :
      (j : String) (r nc : Resource Q)
      → NodupKeys (make_if_nil nc.custom)
      → qs.value (held qs j (add_to qs r nc))
        ≡ (of_resource qs exact r j +ℤ of_resource qs exact nc j)
  unfolding add_to
  added j r nc u = value-held qs exact qs.add (λ a b. a +ℤ b) exact.value-add add_zero j r nc u

  -- One round of either loop.
  step :
      (b : Bool) (r nc : Resource Q)
      → Plain qs r
      → Plain qs nc
      → Plain qs (if b then add_to qs r nc else r)
        × ((j : String)
            → of_resource qs exact (if b then add_to qs r nc else r) j
              ≡ (of_resource qs exact r j +ℤ (if b then of_resource qs exact nc j else pos 0)))
  unfolding add_to
  step true r nc p q = (combine-Plain qs qs.add r nc p q, λ j. added j r nc q.nodup)
  step false r nc p q = (p, λ j. sym (add_zero (of_resource qs exact r j)))

  sum_nodes-total :
      (ns : List (LowerNode Q)) (r : Resource Q)
      → All (λ (n : LowerNode Q). NodupKeys n.capacity) ns
      → Plain qs r
      → Plain qs (sum_nodes qs lib ns r)
        × ((j : String)
            → of_resource qs exact (sum_nodes qs lib ns r) j ≡ (
                of_resource qs exact r j
                +ℤ sum_if (is_usable qs lib) (λ n. of_node qs exact n j) ns))
  unfolding sum_nodes
  sum_nodes-total [] r u p = (p, λ j. sym (add_zero (of_resource qs exact r j)))
  sum_nodes-total (n ∷ ns) r (u, us) p =
      let (q, now) =
        step (is_usable qs lib n) r (convert_resource qs n.capacity) p
          (convert-Plain qs exact n.capacity) in
      let (rest, later) =
        sum_nodes-total ns
          (if is_usable qs lib n then add_to qs r (convert_resource qs n.capacity) else r) us q in
      (
        rest,
        λ j.
            later j
            ∙ ap (λ v. v +ℤ sum_if (is_usable qs lib) (λ n. of_node qs exact n j) ns)
                (now j
                  ∙ ap (λ v. of_resource qs exact r j +ℤ (if is_usable qs lib n then v else pos 0))
                      (ap qs.value (held-convert_resource qs j n.capacity u)))
            ∙ plus_assoc _ _ _,
      )

  module _ (no_pods : (p : Pod) → lookup "pods" (lib.requests p) ≡ none)
      (nodup : (p : Pod) → NodupKeys (lib.requests p)) where
    sum_requests-total :
        (counted : Pod → Bool) (ps : List Pod) (r : Resource Q)
        → Plain qs r
        → Plain qs (sum_requests qs lib counted ps r)
          × ((j : String)
              → of_resource qs exact (sum_requests qs lib counted ps r) j ≡ (
                  of_resource qs exact r j
                  +ℤ sum_if counted (λ p. amount qs exact lib no_pods nodup p j) ps))
    unfolding sum_requests
    sum_requests-total counted [] r p = (p, λ j. sym (add_zero (of_resource qs exact r j)))
    sum_requests-total counted (pod ∷ ps) r p =
        let request = as_one qs lib (get_request_from_pod qs lib pod) in
        let (q, now) =
          step (counted pod) r request p (as_one-Plain qs exact lib no_pods nodup pod) in
        let (rest, later) =
          sum_requests-total counted ps (if counted pod then add_to qs r request else r) q in
        (
          rest,
          λ j.
              later j
              ∙ ap (λ v. v +ℤ sum_if counted (λ p. amount qs exact lib no_pods nodup p j) ps)
                  (now j)
              ∙ plus_assoc _ _ _,
        )

    -- `ConfigureNode` gives the virtual node, of each resource, what the ready and schedulable nodes have
    -- together, less the requests of the pods that have a node of that kind and have not ended. The
    -- pods that the virtual kubelet itself has sent count too. No capacity and no request lists a
    -- name twice, and no request lists pods.
    pub configure_node-total :
        (node_of : String → Result ApiError (LowerNode Q)) (ns : List (LowerNode Q)) (ps : List Pod)
        → All (λ (n : LowerNode Q). NodupKeys n.capacity) ns
        → Holds qs exact (configure_node qs lib node_of (ok ns) (ok ps)) (λ j.
          sum_if (is_usable qs lib) (λ n. of_node qs exact n j) ns
          -ℤ sum_if (counts qs lib node_of) (λ p. amount qs exact lib no_pods nodup p j) ps)
    unfolding configure_node get_resource_from_pods sub_from
    configure_node-total node_of ns ps u =
        let (p, nodes) = sum_nodes-total ns (new_resource qs) u (new_resource-Plain qs) in
        let (q, pods) =
          sum_requests-total (counts qs lib node_of) ps (new_resource qs) (new_resource-Plain qs) in
        let fresh : (j : String) → of_resource qs exact (new_resource qs) j ≡ pos 0 =
          λ j. ap qs.value (held-new_resource qs j) ∙ exact.value-zero in
        let held_nodes = sum_nodes qs lib ns (new_resource qs) in
        let used = sum_requests qs lib (counts qs lib node_of) ps (new_resource qs) in
        let of_nodes : String → ℤ = λ j. sum_if (is_usable qs lib) (λ n. of_node qs exact n j) ns in
        let of_pods : String → ℤ =
          λ j. sum_if (counts qs lib node_of) (λ p. amount qs exact lib no_pods nodup p j) ps in
        record {
          capacity = set_capacity_to_node qs (combine qs qs.sub held_nodes used);
          there = refl;
          nodup = set_capacity-NodupKeys qs exact (combine qs qs.sub held_nodes used);
          amounts = λ j.
              value-set_capacity qs exact j (combine qs qs.sub held_nodes used)
                (combine-Plain qs qs.sub held_nodes used p q)
              ∙ value-held qs exact qs.sub (λ a b. a -ℤ b) exact.value-sub sub_zero j held_nodes
                  used q.nodup
              ∙ ap (λ v. v -ℤ of_resource qs exact used j)
                  (nodes j ∙ ap (λ v. v +ℤ of_nodes j) (fresh j) ∙ zero_plus (of_nodes j))
              ∙ ap (λ v. of_nodes j -ℤ v)
                  (pods j ∙ ap (λ v. v +ℤ of_pods j) (fresh j) ∙ zero_plus (of_pods j));
        }
