-- ===== src/Builder/Silent.antt =====
-- Which trees the builders (libparsex/src/model_builder.cpp) take without a warning.
use parse_x.Base.{
  List, [], ◌∷◌, ◌++◌, Bool, true, false, not, ◌&&◌, ◌||◌, ◌≡◌, refl, ap, sym, ◌∙◌, ◌↔◌, ◌⊎◌, inl,
  inr, In, here, there, is_empty, arith, nil_of_append, length, length-append,
}
use mathlib.Core.List.{append-nil}
use parse_x.Base.Text.{Text, codes, text_eq_iff}
use parse_x.Model.{ParsedFile}
use parse_x.Model.Raw.{RawSpan, RawNode, tag_name, text}
use parse_x.Builder.{
  Family, cluster, ecu_instance, frame, pdu, signal, signal_group, other, family_of, build_subtree,
}
use parse_x.Builder.Numbers.{DoubleReader}
use parse_x.Builder.Nodes.{
  two_tags, extract_short_name, short_name_of_ref, find_descendants, ref_short_names,
  controller_short_names,
}
use parse_x.Builder.Elements.{
  Warnings, warn_if, populate_common_fields, frame_pdu_mapping, pdu_signal_mapping, build_cluster,
  build_ecu_instance, build_frame, build_pdu, build_signal, build_signal_group,
}
use parse_x.Builder.Gather.{gather}
use parse_x.Builder.Order.{nodes_of, below}
use parse_x.Builder.Complete.{
  HasChild, HasBelow, HasName, true-ne_false, two_tags-HasBelow, is_empty-map,
  extract_short_name-HasName, found_baudrate-HasBelow, has_child-HasChild, In-two_tags,
  In-find_descendants, named_only_iff,
}
use parse_x.Builder.Warnings.{warnings_in, build_subtree-warnings, warn_if-nil}

-- Some node below refers to an element, by a short name that is not empty.
abbrev pub HasRef : Text → RawNode → Type 0
HasRef tag n =
    (m : RawNode) × In m (below n) × (tag_name m ≡ tag) × ¬ (short_name_of_ref (text m) ≡ [])

abbrev pub HasNamed : Text → RawNode → Type 0
HasNamed tag n = (m : RawNode) × In m (below n) × (tag_name m ≡ tag) × HasName m

-- What each family needs.
pub IsComplete : Family → RawNode → Type 0
IsComplete cluster n = HasName n × HasBelow (codes "BAUDRATE") n
IsComplete ecu_instance n =
    HasName n
    × ((HasNamed (codes "CAN-CONTROLLER") n ⊎ HasNamed (codes "CAN-COMMUNICATION-CONTROLLER") n)
        ⊎ HasRef (codes "CHANNEL-REF") n)
IsComplete frame n =
    (HasName n × (HasChild (codes "LENGTH") n ⊎ HasChild (codes "FRAME-LENGTH") n))
    × (HasBelow (codes "FRAME-PDU") n ⊎ HasBelow (codes "PDU-TO-FRAME-MAPPING") n)
IsComplete pdu n =
    (HasName n × HasChild (codes "LENGTH") n)
    × (HasBelow (codes "PDU-SIGNAL-MAPPING") n ⊎ HasBelow (codes "I-SIGNAL-TO-I-PDU-MAPPING") n)
IsComplete signal n = HasName n × (tag_name n ≡ codes "I-SIGNAL" → HasChild (codes "LENGTH") n)
IsComplete signal_group n =
    HasName n × (HasRef (codes "I-SIGNAL-REF") n ⊎ HasRef (codes "SYSTEM-SIGNAL-REF") n)
IsComplete other n = Unit

iff_trans {a b c} : {A : Type a} {B : Type b} {C : Type c} → A ↔ B → B ↔ C → A ↔ C
iff_trans f g = (λ x. g.0 (f.0 x), λ z. f.1 (g.1 z))

iff_pair {a b c d} :
    {A : Type a} {B : Type b} {C : Type c} {D : Type d} → A ↔ B → C ↔ D → (A × C) ↔ (B × D)
iff_pair f g = (λ x. (f.0 x.0, g.0 x.1), λ y. (f.1 y.0, g.1 y.1))

iff_sum {a b c d} :
    {A : Type a} {B : Type b} {C : Type c} {D : Type d} → A ↔ B → C ↔ D → (A ⊎ C) ↔ (B ⊎ D)
iff_sum f g = (
  λ x. elim x [ inl p ↦ inl (f.0 p) | inr p ↦ inr (g.0 p) ],
  λ y. elim y [ inl p ↦ inl (f.1 p) | inr p ↦ inr (g.1 p) ],
)

or_iff : (a b : Bool) → (not (a || b) ≡ false) ↔ ((a ≡ true) ⊎ (b ≡ true))
or_iff a b = ground arith

and_iff : (a b : Bool) → ((a && b) ≡ false) ↔ ((a ≡ false) ⊎ (b ≡ false))
and_iff a b = ground arith

not_iff : (a : Bool) → (not a ≡ false) ↔ (a ≡ true)
not_iff a = ground arith

-- One more test: no warning so far, and the test does not fail.
then_test :
    {P Q : Type 0} (b : Bool) (ws : Warnings) (m : Text) (s : RawSpan)
    → (ws ≡ []) ↔ P
    → (b ≡ false) ↔ Q
    → (warn_if b ws m s ≡ []) ↔ (P × Q)
then_test b ws m s p q = iff_trans (warn_if-nil b ws m s) (iff_pair p q)

populate-HasName : (n : RawNode) → ((populate_common_fields n []).1 ≡ []) ↔ HasName n
unfolding populate_common_fields
populate-HasName n =
    iff_trans (warn_if-nil _ [] _ _)
      (λ h. (extract_short_name-HasName n).0 h.1, λ h. (refl, (extract_short_name-HasName n).1 h))

is_empty-ne : (t : Text) → (is_empty t ≡ false) ↔ (¬ (t ≡ []))
is_empty-ne [] = (λ h. absurd (cc), λ h. absurd (h refl))
is_empty-ne (c ∷ t) = (λ h e. absurd (cc), λ h. refl)

ref_short_names-HasRef :
    (n : RawNode) (tag : Text) → (is_empty (ref_short_names n tag) ≡ false) ↔ HasRef tag n
unfolding ref_short_names
ref_short_names-HasRef n tag =
    iff_trans (named_only_iff (λ r. short_name_of_ref (text r)) (find_descendants n tag)) (
      λ h.
          let k = (In-find_descendants n tag h.0).0 h.1 in
          (h.0, k.0, k.1, (is_empty-ne (short_name_of_ref (text h.0))).0 h.2),
      λ h. (
        h.0,
        (In-find_descendants n tag h.0).1 (h.1, h.2),
        (is_empty-ne (short_name_of_ref (text h.0))).1 h.3,
      ),
    )

controller_short_names-HasNamed :
    (n : RawNode)
    → (is_empty (controller_short_names n) ≡ false)
      ↔ (HasNamed (codes "CAN-CONTROLLER") n ⊎ HasNamed (codes "CAN-COMMUNICATION-CONTROLLER") n)
unfolding controller_short_names
controller_short_names-HasNamed n =
    iff_trans
      (named_only_iff extract_short_name
        (two_tags n (codes "CAN-CONTROLLER") (codes "CAN-COMMUNICATION-CONTROLLER")))
      (
        λ h.
            found
              ((In-two_tags n (codes "CAN-CONTROLLER") (codes "CAN-COMMUNICATION-CONTROLLER") h.0).0
                h.1)
              ((extract_short_name-HasName h.0).0 h.2),
        back,
      )
  where
    found :
        {m : RawNode}
        → (In m (below n) × (tag_name m ≡ codes "CAN-CONTROLLER"))
          ⊎ (In m (below n) × (tag_name m ≡ codes "CAN-COMMUNICATION-CONTROLLER"))
        → HasName m
        → HasNamed (codes "CAN-CONTROLLER") n ⊎ HasNamed (codes "CAN-COMMUNICATION-CONTROLLER") n
    found {m} (inl h) k = inl (m, h.0, h.1, k)
    found {m} (inr h) k = inr (m, h.0, h.1, k)

    back :
        HasNamed (codes "CAN-CONTROLLER") n ⊎ HasNamed (codes "CAN-COMMUNICATION-CONTROLLER") n
        → (m : RawNode) × In m
            (two_tags n (codes "CAN-CONTROLLER") (codes "CAN-COMMUNICATION-CONTROLLER"))
          × (is_empty (extract_short_name m) ≡ false)
    back (inl (m, i, e, k)) =
        (m, (In-two_tags n _ _ m).1 (inl (i, e)), (extract_short_name-HasName m).1 k)
    back (inr (m, i, e, k)) =
        (m, (In-two_tags n _ _ m).1 (inr (i, e)), (extract_short_name-HasName m).1 k)

is_empty-append : {A : Type 0} (xs ys : List A) → is_empty (xs ++ ys) ≡ (is_empty xs && is_empty ys)
is_empty-append [] ys = refl
is_empty-append (x ∷ xs) ys = refl

bit_length_test :
    (a b : Bool) {P Q : Type 0} → (a ≡ true) ↔ P → (b ≡ true) ↔ Q → ((a && not b) ≡ false) ↔ (P → Q)
bit_length_test true true p q = (λ h x. q.0 refl, λ h. refl)
bit_length_test true false p q =
    (λ h. absurd (cc), λ h. absurd (true-ne_false (sym (q.1 (h (p.0 refl))))))
bit_length_test false b p q = (λ h x. absurd (true-ne_false (sym (p.1 x))), λ h. refl)

-- One node's warnings are none if and only if it has what its family needs.
warnings_in-IsComplete :
    (reader : DoubleReader) (f : Family) (n : RawNode)
    → (warnings_in reader f n ≡ []) ↔ IsComplete f n
unfolding warnings_in IsComplete build_cluster build_ecu_instance build_frame build_pdu build_signal
    build_signal_group
warnings_in-IsComplete reader cluster n =
    then_test _ _ _ _ (populate-HasName n) (found_baudrate-HasBelow n)
warnings_in-IsComplete reader ecu_instance n = then_test _ _ _ _ (populate-HasName n) (
    iff_trans (and_iff _ _)
      (iff_sum (controller_short_names-HasNamed n) (ref_short_names-HasRef n _)))
warnings_in-IsComplete reader frame n =
    then_test _ _ _ _
      (then_test _ _ _ _ (populate-HasName n)
        (iff_trans (or_iff _ _) (iff_sum (has_child-HasChild n _) (has_child-HasChild n _))))
      (rw
        (is_empty-map frame_pdu_mapping
          (two_tags n (codes "FRAME-PDU") (codes "PDU-TO-FRAME-MAPPING")))
        (two_tags-HasBelow n _ _))
warnings_in-IsComplete reader pdu n =
    then_test _ _ _ _
      (then_test _ _ _ _ (populate-HasName n) (iff_trans (not_iff _) (has_child-HasChild n _)))
      (rw
        (is_empty-map pdu_signal_mapping
          (two_tags n (codes "PDU-SIGNAL-MAPPING") (codes "I-SIGNAL-TO-I-PDU-MAPPING")))
        (two_tags-HasBelow n _ _))
warnings_in-IsComplete reader signal n =
    then_test _ _ _ _ (populate-HasName n)
      (bit_length_test _ _ (text_eq_iff (tag_name n) _) (has_child-HasChild n _))
warnings_in-IsComplete reader signal_group n = then_test _ _ _ _ (populate-HasName n) (
    rw
      (is_empty-append (ref_short_names n (codes "I-SIGNAL-REF"))
        (ref_short_names n (codes "SYSTEM-SIGNAL-REF")))
      (iff_trans (and_iff _ _) (iff_sum (ref_short_names-HasRef n _) (ref_short_names-HasRef n _))))
warnings_in-IsComplete reader other n = (λ h. tt, λ h. refl)

gather-nil {ℓ} :
    {A : Type ℓ} {B : Type 0} (f : A → List B) (xs : List A)
    → (gather f xs ≡ []) ↔ ((x : A) → In x xs → f x ≡ [])
unfolding gather
gather-nil f [] = (λ h x k. elim k [ ], λ h. refl)
gather-nil f (x ∷ xs) = (
  λ h y k.
      let r = nil_of_append (f x) (gather f xs) h in
      elim k [ here e ↦ ap f e ∙ r.0 | there k' ↦ (gather-nil f xs).0 r.1 y k' ],
  λ h. ap (λ z. z ++ gather f xs) (h x (here refl)) ∙ (gather-nil f xs).1 (λ y k. h y (there k)),
)

length-nil : {A : Type 0} (xs : List A) → length xs ≡ 0 → xs ≡ []
length-nil [] h = refl
length-nil (x ∷ xs) h = absurd (omega arith)

append-cancel : {A : Type 0} (xs ys : List A) → (xs ++ ys ≡ xs) ↔ (ys ≡ [])
append-cancel xs ys = (
  λ h. length-nil ys (omega (arith, length-append xs ys, ap length h)),
  λ h. ap (λ z. xs ++ z) h ∙ append-nil xs,
)

-- The walk over a tree adds no warning if and only if each node of it that is of one of the six
-- families has what its family needs: a short name (as the reference check reads it); for a cluster
-- a BAUDRATE below it; for an ECU a controller with a short name or a CHANNEL-REF that names a
-- channel; for a frame a LENGTH or FRAME-LENGTH child and a PDU mapping; for a PDU a LENGTH child
-- and a signal mapping; for an I-SIGNAL a LENGTH child; for a signal group a reference to a signal.
pub build_subtree-IsComplete :
    (reader : DoubleReader) (n : RawNode) (file : ParsedFile)
    → ((build_subtree reader n file).warnings ≡ file.warnings)
      ↔ ((m : RawNode) → In m (nodes_of n) → IsComplete (family_of m) m)
build_subtree-IsComplete reader n file = rw (build_subtree-warnings reader n file) (
    iff_trans (append-cancel file.warnings _) (
      iff_trans (gather-nil (λ m. warnings_in reader (family_of m) m) (nodes_of n)) (
        λ h m k. (warnings_in-IsComplete reader (family_of m) m).0 (h m k),
        λ h m k. (warnings_in-IsComplete reader (family_of m) m).1 (h m k),
      )))
