-- ===== src/Provider/Nodes/Members.antt =====
-- The nodes of the lower cluster together: any sequence of the events of pkg/provider/provider.go by
-- which they join, change and leave, in any interleaving.
use tensile_kube.Prelude.{
  String, ◌≡◌, ◌∙◌, refl, ap, sym, true, false, not, ◌&&◌, Bool, Option, List, [], ◌∷◌, ◌++◌,
}
use tensile_kube.Prelude.Dict.{Dict, NodupKeys}
use tensile_kube.Prelude.Int.{ℤ, pos, ◌+ℤ◌, ◌-ℤ◌, int_laws, eq_of_parts}
use tensile_kube.Common.Resource.{Quantity, IsExact, Resource}
use tensile_kube.Common.Resource.Amounts.{Plain}
use tensile_kube.Common.Resource.Capacity.{Holds, add_resource-Holds, sub_resource-Holds}
use tensile_kube.Provider.Nodes.{
  LowerNode, ready, node_added, node_deleted, update_vk_capacity_from_node,
}
use tensile_kube.Provider.Nodes.Capacity.{
  Holds-congr, of_node, of_resource, contribution, plus_node, minus_node, update-contribution,
}

joined_number : (f t n u : ℤ) → (((f +ℤ t) +ℤ n) -ℤ u) ≡ (f +ℤ ((n -ℤ u) +ℤ t))
joined_number f t n u = omega (int_laws, eq_of_parts (((f +ℤ t) +ℤ n) -ℤ u) (f +ℤ ((n -ℤ u) +ℤ t)))

changed_number : (f t c d : ℤ) → (((f +ℤ (c +ℤ t)) -ℤ c) +ℤ d) ≡ (f +ℤ (d +ℤ t))
changed_number f t c d = omega (int_laws, eq_of_parts (((f +ℤ (c +ℤ t)) -ℤ c) +ℤ d) (f +ℤ (d +ℤ t)))

left_number : (f t n u : ℤ) → (((f +ℤ ((n -ℤ u) +ℤ t)) -ℤ n) +ℤ u) ≡ (f +ℤ t)
left_number f t n u = omega (int_laws, eq_of_parts (((f +ℤ ((n -ℤ u) +ℤ t)) -ℤ n) +ℤ u) (f +ℤ t))

swapped : (a b c : ℤ) → (a +ℤ (b +ℤ c)) ≡ (b +ℤ (a +ℤ c))
swapped a b c = omega (int_laws, eq_of_parts (a +ℤ (b +ℤ c)) (b +ℤ (a +ℤ c)))

twice_number :
    (f n u : ℤ) → (((((f +ℤ n) -ℤ u) -ℤ pos 0) +ℤ (n -ℤ u))) ≡ ((f +ℤ (n -ℤ u)) +ℤ (n -ℤ u))
twice_number f n u =
    omega
      (int_laws, eq_of_parts ((((f +ℤ n) -ℤ u) -ℤ pos 0) +ℤ (n -ℤ u)) ((f +ℤ (n -ℤ u)) +ℤ (n -ℤ u)))

-- A node, and what the pods use on it that the upper cluster did not send.
pub record Member (Q : Type 0) : Type 0 where
  pub node : LowerNode Q
  pub used : Resource Q

module _ {Q : Type 0} (qs : Quantity Q) (exact : IsExact qs) where
  abbrev pub of_member : Member Q → String → ℤ
  of_member m = contribution qs exact m.used m.node

  -- What the nodes contribute together.
  abbrev pub total : List (Member Q) → String → ℤ
  total [] j = pos 0
  total (m ∷ ms) j = of_member m j +ℤ total ms j

  total-middle :
      (front back : List (Member Q)) (m : Member Q) (j : String)
      → total (front ++ m ∷ back) j ≡ (of_member m j +ℤ total (front ++ back) j)
  total-middle [] back m j = refl
  total-middle (x ∷ front) back m j =
      ap (λ t. of_member x j +ℤ t) (total-middle front back m j)
      ∙ swapped (of_member x j) (of_member m j) (total (front ++ back) j)

  abbrev pub is_in : Member Q → Bool
  is_in m = ready qs m.node && not m.node.unschedulable

  abbrev pub WellFormed : Member Q → Type 0
  WellFormed m = Plain qs m.used × NodupKeys m.node.capacity

  module _ (deep_equal : Dict Q → Dict Q → Bool) (start : Option (Dict Q))
      (first : List (Member Q)) where
    -- The virtual node after some events, by the members that there are then, from when it was configured
    -- as `start` with the members `first`. A member joins and leaves while it is ready and schedulable;
    -- in between it becomes ready or not, and schedulable or not, with the same capacity, and is not
    -- unschedulable on both sides of an update.
    pub data Reach : List (Member Q) → Option (Dict Q) → Type 0 where
      configured : Reach first start
      joins :
          (front back : List (Member Q)) (vk : Option (Dict Q)) (m : Member Q)
          → WellFormed m
          → is_in m ≡ true
          → Reach (front ++ back) vk
          → Reach (front ++ m ∷ back) (node_added qs m.used m.node vk)
      changes :
          (front back : List (Member Q)) (vk : Option (Dict Q)) (m : Member Q) (new : LowerNode Q)
          → WellFormed m
          → new.capacity ≡ m.node.capacity
          → deep_equal m.node.capacity new.capacity ≡ true
          → deep_equal m.node.allocatable new.allocatable ≡ true
          → (m.node.unschedulable && new.unschedulable) ≡ false
          → Reach (front ++ m ∷ back) vk
          → Reach
              (front ++ record m { node = new } ∷ back)
              (update_vk_capacity_from_node qs deep_equal m.used m.node new vk)
      leaves :
          (front back : List (Member Q)) (vk : Option (Dict Q)) (m : Member Q)
          → WellFormed m
          → is_in m ≡ true
          → Reach (front ++ m ∷ back) vk
          → Reach (front ++ back) (node_deleted qs m.used m.node vk)

    contribution_in :
        (m : Member Q) (j : String)
        → is_in m ≡ true
        → of_member m j ≡ (of_node qs exact m.node j -ℤ of_resource qs exact m.used j)
    contribution_in m j inside = rw inside refl

    -- Whatever nodes of the lower cluster join, change and leave after the virtual node was configured, and
    -- in whatever order (`Reach`), it has of each resource what the nodes that are there contribute: the
    -- capacity less what is used, of those that are ready and schedulable, and on top of that what it had
    -- besides when it was configured. A node joins and leaves while it is ready and schedulable, its
    -- capacity and what is used on it stay, and it is not unschedulable on both sides of an update.
    pub members-Holds :
        (f : String → ℤ) (ms : List (Member Q)) (vk : Option (Dict Q))
        → Holds qs exact start (λ j. f j +ℤ total first j)
        → Reach ms vk
        → Holds qs exact vk (λ j. f j +ℤ total ms j)
    unfolding node_added node_deleted
    members-Holds f _ _ h configured = h
    members-Holds f _ _ h (joins front back vk m (p, u) inside before) =
        Holds-congr qs exact _ _ _
          (λ j.
            joined_number (f j) (total (front ++ back) j) (of_node qs exact m.node j)
              (of_resource qs exact m.used j)
            ∙ ap (λ c. f j +ℤ (c +ℤ total (front ++ back) j)) (sym (contribution_in m j inside))
            ∙ ap (λ t. f j +ℤ t) (sym (total-middle front back m j)))
          (sub_resource-Holds qs exact _ _ m.used p
            (plus_node qs exact vk _ m.node u (members-Holds f (front ++ back) vk h before)))
    members-Holds f _ _ h (changes front back vk m new (p, u) same c a flags before) =
        let after : Member Q = record m { node = new } in
        Holds-congr qs exact _ _ _
          (λ j.
            ap (λ t. ((f j +ℤ t) -ℤ of_member m j) +ℤ of_member after j)
              (total-middle front back m j)
            ∙ changed_number (f j) (total (front ++ back) j) (of_member m j) (of_member after j)
            ∙ ap (λ t. f j +ℤ t) (sym (total-middle front back after j)))
          (update-contribution qs exact deep_equal vk _ m.used m.node new p u same c a flags
            (members-Holds f (front ++ m ∷ back) vk h before))
    members-Holds f _ _ h (leaves front back vk m (p, u) inside before) =
        Holds-congr qs exact _ _ _
          (λ j.
            ap (λ t. ((f j +ℤ t) -ℤ of_node qs exact m.node j) +ℤ of_resource qs exact m.used j)
              (total-middle front back m j
                ∙ ap (λ c. c +ℤ total (front ++ back) j) (contribution_in m j inside))
            ∙ left_number (f j) (total (front ++ back) j) (of_node qs exact m.node j)
                (of_resource qs exact m.used j))
          (add_resource-Holds qs exact _ _ m.used p
            (minus_node qs exact vk _ m.node u (members-Holds f (front ++ m ∷ back) vk h before)))

  -- A node that joins before it is ready is counted twice once it is: the handler of a node that joins
  -- adds its capacity whether it is ready or not, and the update by which it becomes ready, while it is
  -- schedulable and its capacity stays, adds it again.
  pub unready_join-twice :
      (deep_equal : Dict Q → Dict Q → Bool) (vk : Option (Dict Q)) (f : String → ℤ) (m : Member Q)
      (new : LowerNode Q)
      → WellFormed m
      → ready qs m.node ≡ false
      → ready qs new ≡ true
      → m.node.unschedulable ≡ false
      → new.unschedulable ≡ false
      → new.capacity ≡ m.node.capacity
      → deep_equal m.node.capacity new.capacity ≡ true
      → deep_equal m.node.allocatable new.allocatable ≡ true
      → Holds qs exact vk f
      → Holds qs exact
          (update_vk_capacity_from_node qs deep_equal m.used m.node new
            (node_added qs m.used m.node vk))
          (λ j.
            (f j +ℤ of_member (record m { node = new }) j) +ℤ of_member (record m { node = new }) j)
  unfolding node_added
  unready_join-twice deep_equal vk f m new (p, u) unready now uncordoned still same c a h =
      Holds-congr qs exact _ _ _
        (λ j.
          rw (unready, now, still, same)
            (twice_number (f j) (of_node qs exact m.node j) (of_resource qs exact m.used j)))
        (update-contribution qs exact deep_equal _ _ m.used m.node new p u same c a (rw uncordoned)
          (sub_resource-Holds qs exact _ _ m.used p (plus_node qs exact vk f m.node u h)))
