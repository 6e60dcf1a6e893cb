-- ===== src/Common/Resource/Capacity.antt =====
-- The capacity of the virtual node, as numbers: `AddResource` adds and `SubResource` subtracts.
use tensile_kube.Prelude.{
  String, ◌≡◌, refl, ◌∙◌, ap, sym, Option, none, some, [], ◌∷◌, arith, eq_iff, Option-cases, inl,
  inr,
}
use tensile_kube.Prelude.Dict.{
  Dict, lookup, make_if_nil, NodupKeys, lookup-insert_all, insert_all, insert-NodupKeys,
}
use tensile_kube.Prelude.Int.{ℤ, pos, ◌+ℤ◌, ◌-ℤ◌, int_laws, eq_of_parts}
use tensile_kube.Common.Resource.{
  Quantity, IsExact, Resource, new_resource, quota, combine_custom, combine, add_to, sub_from,
  shown, set_capacity_to_node, convert_resource, add_resource, sub_resource,
}
use tensile_kube.Common.Resource.Amounts.{
  flip, held, Plain, lookup-combine_custom, combine-Plain, held-convert_resource,
  convert_loop-Plain, new_resource-Plain,
}

-- The standard part of the capacity.
abbrev base : {Q : Type 0} → Quantity Q → Resource Q → Dict Q
base qs r =
    ("cpu", shown qs r.cpu)
    ∷ ("memory", shown qs r.memory)
    ∷ ("pods", shown qs r.pods)
    ∷ ("ephemeral-storage", shown qs r.ephemeral_storage)
    ∷ []

module _ {Q : Type 0} (qs : Quantity Q) where
  quota_congr : (j : String) (m n : Dict Q) → lookup j m ≡ lookup j n → quota qs j m ≡ quota qs j n
  unfolding quota
  quota_congr j m n h = rw (h, quota)

  quota-none : (j : String) (m : Dict Q) → lookup j m ≡ none → quota qs j m ≡ qs.zero
  unfolding quota
  quota-none j m h = rw (h, quota)

  quota-some : (j : String) (m : Dict Q) (q : Q) → lookup j m ≡ some q → quota qs j m ≡ q
  unfolding quota
  quota-some j m q h = rw (h, quota)

module _ {Q : Type 0} (qs : Quantity Q) (exact : IsExact qs) where
  value-shown : (q : Q) → qs.value (shown qs q) ≡ qs.value q
  value-shown q = ground (arith, exact.value-zero, exact.value_is_zero q)

  -- Without a custom quantity of that name.
  value-base :
      (j : String) (r : Resource Q)
      → lookup j (make_if_nil r.custom) ≡ none
      → qs.value (quota qs j (base qs r)) ≡ qs.value (held qs j r)
  unfolding quota lookup
  value-base j r absent =
      rw (flip "cpu" j, flip "memory" j, flip "pods" j, flip "ephemeral-storage" j, quota)
        (ground (
          arith,
          value-shown r.cpu,
          value-shown r.memory,
          value-shown r.pods,
          value-shown r.ephemeral_storage,
        ))

  held_custom :
      (j : String) (q : Q) (r : Resource Q)
      → Plain qs r
      → lookup j (make_if_nil r.custom) ≡ some q
      → held qs j r ≡ q
  unfolding quota
  held_custom j q r p found =
      ground
        (arith, eq_iff j "cpu", eq_iff j "memory", eq_iff j "pods", eq_iff j "ephemeral-storage")

  pub value-set_capacity :
      (j : String) (r : Resource Q)
      → Plain qs r
      → qs.value (quota qs j (set_capacity_to_node qs r)) ≡ qs.value (held qs j r)
  unfolding set_capacity_to_node
  value-set_capacity j r p =
      let all = lookup-insert_all j (make_if_nil r.custom) (base qs r) p.nodup in
      elim (Option-cases (lookup j (make_if_nil r.custom))) [
        | inl absent ↦ ap qs.value (quota_congr qs j _ _ (all ∙ rw absent)) ∙ value-base j r absent
        | inr (q, found) ↦
            ap qs.value (quota-some qs j _ q (all ∙ rw found) ∙ sym (held_custom j q r p found))
      ]

  value-combined :
      (op : Q → Q → Q) (j : String) (capacity : Dict Q) (resource : Resource Q)
      → Plain qs resource
      → qs.value (
          quota qs j
            (set_capacity_to_node qs (combine qs op (convert_resource qs capacity) resource)))
        ≡ qs.value (held qs j (combine qs op (convert_resource qs capacity) resource))
  unfolding convert_resource
  value-combined op j capacity resource p =
      value-set_capacity j (combine qs op (convert_resource qs capacity) resource) (
        combine-Plain qs op (convert_resource qs capacity) resource
          (convert_loop-Plain qs capacity (new_resource qs) (new_resource-Plain qs)) p)

pub add_zero : (a : ℤ) → (a +ℤ pos 0) ≡ a
add_zero a = omega (int_laws, eq_of_parts (a +ℤ pos 0) a)

pub sub_zero : (a : ℤ) → (a -ℤ pos 0) ≡ a
sub_zero a = omega (int_laws, eq_of_parts (a -ℤ pos 0) a)

sub-add : (a b : ℤ) → ((a +ℤ b) -ℤ b) ≡ a
sub-add a b = omega (int_laws, eq_of_parts ((a +ℤ b) -ℤ b) a)

-- An operation on quantities, and the one on numbers that it stands for.
module _ {Q : Type 0} (qs : Quantity Q) (exact : IsExact qs) (op : Q → Q → Q) (num : ℤ → ℤ → ℤ)
    (law : (a b : Q) → qs.value (op a b) ≡ num (qs.value a) (qs.value b))
    (unit : (a : ℤ) → num a (pos 0) ≡ a) where
  value-quota :
      (j : String) (r nc : Resource Q)
      → NodupKeys (make_if_nil nc.custom)
      → qs.value (quota qs j (make_if_nil (combine_custom qs op (make_if_nil nc.custom) r.custom)))
        ≡ num
            (qs.value (quota qs j (make_if_nil r.custom)))
            (qs.value (quota qs j (make_if_nil nc.custom)))
  value-quota j r nc u =
      let combined = lookup-combine_custom qs op j (make_if_nil nc.custom) r.custom u in
      let old = quota qs j (make_if_nil r.custom) in
      elim (Option-cases (lookup j (make_if_nil nc.custom))) [
        | inl absent ↦
            ap qs.value (quota_congr qs j _ _ (combined ∙ rw absent))
            ∙ sym (
                ap (num (qs.value old)) (ap qs.value (quota-none qs j _ absent) ∙ exact.value-zero)
                ∙ unit (qs.value old))
        | inr (q, found) ↦
            ap qs.value (quota-some qs j _ (op old q) (combined ∙ rw found))
            ∙ law old q
            ∙ sym (ap (num (qs.value old)) (ap qs.value (quota-some qs j _ q found)))
      ]

  pub value-held :
      (j : String) (r nc : Resource Q)
      → NodupKeys (make_if_nil nc.custom)
      → qs.value (held qs j (combine qs op r nc))
        ≡ num (qs.value (held qs j r)) (qs.value (held qs j nc))
  unfolding combine
  value-held j r nc u = ground (
    arith,
    law r.cpu nc.cpu,
    law r.memory nc.memory,
    law r.pods nc.pods,
    law r.ephemeral_storage nc.ephemeral_storage,
    value-quota j r nc u,
  )

  -- The capacity afterwards.
  value-capacity :
      (j : String) (capacity : Dict Q) (resource : Resource Q)
      → NodupKeys capacity
      → Plain qs resource
      → qs.value (
          quota qs j
            (set_capacity_to_node qs (combine qs op (convert_resource qs capacity) resource)))
        ≡ num (qs.value (quota qs j capacity)) (qs.value (held qs j resource))
  value-capacity j capacity resource u p =
      value-combined qs exact op j capacity resource p
      ∙ value-held j (convert_resource qs capacity) resource p.nodup
      ∙ ap (λ x. num (qs.value x) (qs.value (held qs j resource)))
          (held-convert_resource qs j capacity u)

module _ {Q : Type 0} (qs : Quantity Q) (exact : IsExact qs) where
  -- On a node that is there, `AddResource` adds to each of its resources, the custom ones included, what
  -- the resource holds, and `SubResource` subtracts it. No name is listed twice, and no custom resource has
  -- a standard name.
  add_resource-value :
      (j : String) (capacity : Dict Q) (resource : Resource Q)
      → NodupKeys capacity
      → Plain qs resource
      → (more : Dict Q) × (less : Dict Q) × (add_resource qs resource (some capacity) ≡ some more)
        × (sub_resource qs resource (some capacity) ≡ some less)
        × (qs.value (quota qs j more)
            ≡ (qs.value (quota qs j capacity) +ℤ qs.value (held qs j resource)))
        × (qs.value (quota qs j less)
            ≡ (qs.value (quota qs j capacity) -ℤ qs.value (held qs j resource)))
  unfolding add_resource sub_resource add_to sub_from
  add_resource-value j capacity resource u p = (
    set_capacity_to_node qs (combine qs qs.add (convert_resource qs capacity) resource),
    set_capacity_to_node qs (combine qs qs.sub (convert_resource qs capacity) resource),
    refl,
    refl,
    value-capacity qs exact qs.add (λ a b. a +ℤ b) exact.value-add add_zero j capacity resource u p,
    value-capacity qs exact qs.sub (λ a b. a -ℤ b) exact.value-sub sub_zero j capacity resource u p,
  )

  insert_all-NodupKeys : (xs m : Dict Q) → NodupKeys m → NodupKeys (insert_all xs m)
  unfolding insert_all
  insert_all-NodupKeys [] m u = u
  insert_all-NodupKeys ((k, q) ∷ xs) m u = insert_all-NodupKeys xs _ (insert-NodupKeys k q m u)

  pub set_capacity-NodupKeys : (r : Resource Q) → NodupKeys (set_capacity_to_node qs r)
  unfolding set_capacity_to_node lookup
  set_capacity-NodupKeys r =
      insert_all-NodupKeys (make_if_nil r.custom) (base qs r) (refl, (refl, (refl, (refl, tt))))

  -- What was added to the virtual node and is then subtracted, as for a node of the lower cluster that
  -- joins and leaves, is gone: each resource has its old value.
  pub sub_resource-add_resource :
      (j : String) (capacity : Dict Q) (resource : Resource Q)
      → NodupKeys capacity
      → Plain qs resource
      → (after : Dict Q) × (sub_resource qs resource (add_resource qs resource (some capacity))
          ≡ some after)
        × (qs.value (quota qs j after) ≡ qs.value (quota qs j capacity))
  unfolding add_resource sub_resource add_to sub_from
  sub_resource-add_resource j capacity resource u p =
      let added =
        set_capacity_to_node qs (combine qs qs.add (convert_resource qs capacity) resource) in
      (
        set_capacity_to_node qs (combine qs qs.sub (convert_resource qs added) resource),
        refl,
        value-capacity qs exact qs.sub (λ a b. a -ℤ b) exact.value-sub sub_zero j added resource
              (set_capacity-NodupKeys (combine qs qs.add (convert_resource qs capacity) resource)) p
            ∙ ap (λ v. v -ℤ qs.value (held qs j resource))
                (value-capacity qs exact qs.add (λ a b. a +ℤ b) exact.value-add add_zero j capacity
                  resource u p)
            ∙ sub-add (qs.value (quota qs j capacity)) (qs.value (held qs j resource)),
      )

  -- The virtual node is there, and these are its resources.
  pub record Holds (vk : Option (Dict Q)) (f : String → ℤ) : Type 0 where
    pub capacity : Dict Q
    pub there : vk ≡ some capacity
    pub nodup : NodupKeys capacity
    pub amounts : (j : String) → qs.value (quota qs j capacity) ≡ f j

  pub add_resource-Holds :
      (vk : Option (Dict Q)) (f : String → ℤ) (resource : Resource Q)
      → Plain qs resource
      → Holds vk f
      → Holds (add_resource qs resource vk) (λ j. f j +ℤ qs.value (held qs j resource))
  unfolding add_resource add_to
  add_resource-Holds vk f resource p h =
      let r = combine qs qs.add (convert_resource qs h.capacity) resource in
      record {
        capacity = set_capacity_to_node qs r;
        there = rw (h.there, add_resource);
        nodup = set_capacity-NodupKeys r;
        amounts = λ j.
            value-capacity qs exact qs.add (λ a b. a +ℤ b) exact.value-add add_zero j h.capacity
              resource h.nodup p
            ∙ ap (λ v. v +ℤ qs.value (held qs j resource)) (h.amounts j);
      }

  pub sub_resource-Holds :
      (vk : Option (Dict Q)) (f : String → ℤ) (resource : Resource Q)
      → Plain qs resource
      → Holds vk f
      → Holds (sub_resource qs resource vk) (λ j. f j -ℤ qs.value (held qs j resource))
  unfolding sub_resource sub_from
  sub_resource-Holds vk f resource p h =
      let r = combine qs qs.sub (convert_resource qs h.capacity) resource in
      record {
        capacity = set_capacity_to_node qs r;
        there = rw (h.there, sub_resource);
        nodup = set_capacity-NodupKeys r;
        amounts = λ j.
            value-capacity qs exact qs.sub (λ a b. a -ℤ b) exact.value-sub sub_zero j h.capacity
              resource h.nodup p
            ∙ ap (λ v. v -ℤ qs.value (held qs j resource)) (h.amounts j);
      }
