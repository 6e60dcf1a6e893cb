-- ===== src/Provider/Nodes/Capacity.antt =====
-- What the handlers of node events do to the resources of the virtual node, against what a node
-- contributes: its capacity less what is used on it, while it is ready and schedulable.
use tensile_kube.Prelude.{
  String, ◌≡◌, ◌∙◌, ap, sym, subst, Bool-cases, inl, inr, Bool, true, false, not, ◌&&◌, ◌||◌,
  Option, arith, if◌then◌else◌,
}
use tensile_kube.Prelude.Dict.{Dict, NodupKeys}
use tensile_kube.Prelude.Int.{ℤ, ◌+ℤ◌, ◌-ℤ◌}
use tensile_kube.Common.Resource.{
  Quantity, IsExact, Resource, quota, new_resource, convert_resource, add_resource, sub_resource,
}
use tensile_kube.Common.Resource.Amounts.{
  held, Plain, held-convert_resource, convert_loop-Plain, new_resource-Plain,
}
use tensile_kube.Common.Resource.Capacity.{Holds, add_resource-Holds, sub_resource-Holds}
use tensile_kube.Provider.Nodes.Numbers.{
  twice, if_true, if_false, contribution_on, update_number, gain_number, lose_number,
  contribution_if,
}
use tensile_kube.Provider.Nodes.{LowerNode, ready, gain, lose, resize, update_vk_capacity_from_node}

module _ {Q : Type 0} (qs : Quantity Q) (exact : IsExact qs) where
  pub Holds-congr :
      (vk : Option (Dict Q)) (f g : String → ℤ)
      → ((j : String) → f j ≡ g j)
      → Holds qs exact vk f
      → Holds qs exact vk g
  Holds-congr vk f g e h = record {
    capacity = h.capacity;
    there = h.there;
    nodup = h.nodup;
    amounts = λ j. h.amounts j ∙ e j;
  }

  -- The number of a resource that the capacity of a node has.
  abbrev pub of_node : LowerNode Q → String → ℤ
  of_node n j = qs.value (quota qs j n.capacity)

  abbrev pub of_resource : Resource Q → String → ℤ
  of_resource r j = qs.value (held qs j r)

  -- What a node adds to the virtual node: nothing unless it is ready and schedulable.
  abbrev pub contribution : Resource Q → LowerNode Q → String → ℤ
  contribution used n j =
      contribution_if (ready qs n) n.unschedulable (of_node n j -ℤ of_resource used j)

  pub convert-Plain : (capacity : Dict Q) → Plain qs (convert_resource qs capacity)
  unfolding convert_resource
  convert-Plain capacity = convert_loop-Plain qs capacity (new_resource qs) (new_resource-Plain qs)

  pub plus_node :
      (vk : Option (Dict Q)) (f : String → ℤ) (n : LowerNode Q)
      → NodupKeys n.capacity
      → Holds qs exact vk f
      → Holds qs exact
          (add_resource qs (convert_resource qs n.capacity) vk)
          (λ j. f j +ℤ of_node n j)
  plus_node vk f n u h =
      Holds-congr _ _ _ (λ j. ap (λ q. f j +ℤ qs.value q) (held-convert_resource qs j n.capacity u))
        (add_resource-Holds qs exact vk f _ (convert-Plain n.capacity) h)

  pub minus_node :
      (vk : Option (Dict Q)) (f : String → ℤ) (n : LowerNode Q)
      → NodupKeys n.capacity
      → Holds qs exact vk f
      → Holds qs exact
          (sub_resource qs (convert_resource qs n.capacity) vk)
          (λ j. f j -ℤ of_node n j)
  minus_node vk f n u h =
      Holds-congr _ _ _ (λ j. ap (λ q. f j -ℤ qs.value q) (held-convert_resource qs j n.capacity u))
        (sub_resource-Holds qs exact vk f _ (convert-Plain n.capacity) h)

  gain-Holds :
      (vk : Option (Dict Q)) (f : String → ℤ) (used : Resource Q) (old new : LowerNode Q)
      → Plain qs used
      → NodupKeys new.capacity
      → Holds qs exact vk f
      → Holds qs exact (gain qs used old new vk) (λ j.
        gain_number
          (ready qs old)
          (ready qs new)
          old.unschedulable
          new.unschedulable
          (f j)
          (of_node new j)
          (of_resource used j))
  unfolding gain
  gain-Holds vk f used old new p u h =
      elim (Bool-cases
        ((old.unschedulable && not new.unschedulable) || (ready qs new && not (ready qs old)))) [
          | inl met ↦ rw met (sub_resource-Holds qs exact _ _ used p (plus_node vk f new u h))
          | inr unmet ↦ rw unmet h
        ]

  lose-Holds :
      (vk : Option (Dict Q)) (f : String → ℤ) (used : Resource Q) (old new : LowerNode Q)
      → Plain qs used
      → NodupKeys old.capacity
      → Holds qs exact vk f
      → Holds qs exact (lose qs used old new vk) (λ j.
        lose_number
          (ready qs old)
          (ready qs new)
          old.unschedulable
          new.unschedulable
          (f j)
          (of_node old j)
          (of_resource used j))
  unfolding lose
  lose-Holds vk f used old new p u h =
      elim (Bool-cases
        ((not old.unschedulable && new.unschedulable) || (ready qs old && not (ready qs new)))) [
          | inl met ↦ rw met (minus_node _ _ old u (add_resource-Holds qs exact vk f used p h))
          | inr unmet ↦ rw unmet h
        ]

  update_pointwise :
      (used : Resource Q) (old new : LowerNode Q) (f : String → ℤ)
      → new.capacity ≡ old.capacity
      → (old.unschedulable && new.unschedulable) ≡ false
      → (j : String)
      → (if not (ready qs old) && not (ready qs new)
          then f j
          else lose_number
              (ready qs old)
              (ready qs new)
              old.unschedulable
              new.unschedulable
              (gain_number
                (ready qs old)
                (ready qs new)
                old.unschedulable
                new.unschedulable
                (f j)
                (of_node new j)
                (of_resource used j))
              (of_node old j)
              (of_resource used j))
        ≡ ((f j -ℤ contribution used old j) +ℤ contribution used new j)
  update_pointwise used old new f same flags j = rw same (
      update_number (ready qs old) (ready qs new) old.unschedulable new.unschedulable (f j)
        (of_node old j) (of_resource used j) flags)

  -- When a node of the lower cluster becomes ready or not, or is cordoned or uncordoned, while its capacity
  -- stays, `updateVKCapacityFromNode` takes off the virtual node what the node contributed and
  -- adds what it contributes now, in each resource. The node is not unschedulable throughout.
  pub update-contribution :
      (deep_equal : Dict Q → Dict Q → Bool) (vk : Option (Dict Q)) (f : String → ℤ)
      (used : Resource Q) (old new : LowerNode Q)
      → Plain qs used
      → NodupKeys old.capacity
      → new.capacity ≡ old.capacity
      → deep_equal old.capacity new.capacity ≡ true
      → deep_equal old.allocatable new.allocatable ≡ true
      → (old.unschedulable && new.unschedulable) ≡ false
      → Holds qs exact vk f
      → Holds qs exact
          (update_vk_capacity_from_node qs deep_equal used old new vk)
          (λ j. (f j -ℤ contribution used old j) +ℤ contribution used new j)
  unfolding update_vk_capacity_from_node resize
  update-contribution deep_equal vk f used old new p u same c a flags h =
      let v : NodupKeys new.capacity = subst (λ (m : Dict Q). NodupKeys m) (sym same) u in
      let lost_there = lose-Holds _ _ used old new p u (gain-Holds vk f used old new p v h) in
      elim (Bool-cases (not (ready qs old) && not (ready qs new))) [
        | inl neither ↦ rw neither (
            Holds-congr vk f _
              (λ j. if_true _ neither ∙ update_pointwise used old new f same flags j) h)
        | inr one ↦
            rw (one, c, a)
              (Holds-congr _ _ _
                (λ j. if_false _ one ∙ update_pointwise used old new f same flags j) lost_there)
      ]

  -- When a ready node is uncordoned and its capacity changes in the same update, its new capacity is
  -- added twice: the virtual node gets what the node contributes now, and on top of that
  -- the difference between the new capacity and the old one.
  pub update-twice :
      (deep_equal : Dict Q → Dict Q → Bool) (vk : Option (Dict Q)) (f : String → ℤ)
      (used : Resource Q) (old new : LowerNode Q)
      → Plain qs used
      → NodupKeys old.capacity
      → NodupKeys new.capacity
      → ready qs old ≡ true
      → ready qs new ≡ true
      → old.unschedulable ≡ true
      → new.unschedulable ≡ false
      → deep_equal old.capacity new.capacity ≡ false
      → Holds qs exact vk f
      → Holds qs exact
          (update_vk_capacity_from_node qs deep_equal used old new vk)
          (λ j. (f j +ℤ contribution used new j) +ℤ (of_node new j -ℤ of_node old j))
  unfolding update_vk_capacity_from_node gain lose resize
  update-twice deep_equal vk f used old new p u v r s o n c h =
      let run : update_vk_capacity_from_node qs deep_equal used old new vk
          ≡ sub_resource qs (convert_resource qs old.capacity) (
              add_resource qs (convert_resource qs new.capacity)
                (sub_resource qs used (add_resource qs (convert_resource qs new.capacity) vk))) =
        ground arith in
      let now : (j : String) → (of_node new j -ℤ of_resource used j) ≡ contribution used new j =
        λ j. contribution_on (of_node new j -ℤ of_resource used j) s n in
      subst
        (λ (x : Option (Dict Q)).
          Holds qs exact x
            (λ j. (f j +ℤ contribution used new j) +ℤ (of_node new j -ℤ of_node old j)))
        (sym run)
        (Holds-congr _ _ _
          (λ j.
            twice (f j) (of_node new j) (of_resource used j) (of_node old j)
            ∙ ap (λ x. (f j +ℤ x) +ℤ (of_node new j -ℤ of_node old j)) (now j))
          (minus_node _ _ old u (
            plus_node _ _ new v (sub_resource-Holds qs exact _ _ used p (plus_node vk f new v h)))))
