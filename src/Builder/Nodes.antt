-- ===== src/Builder/Nodes.antt =====
-- The readers of nodes in libparsex/src/model_builder.cpp: children and descendants by tag, texts,
-- short names and references. A vector the source appends to is the list of what is appended.
pub mod Names
use parse_x.Base.{
  ℕ, ◌-◌, Bool, true, false, Option, none, some, List, [], ◌∷◌, ◌++◌, ◌==◌, ◌&&◌, ◌||◌, not, leb,
  if◌then◌else◌, is_empty, map, value_or,
}
use parse_x.Base.Text.{Text, codes, text_eq}
use parse_x.Model.{ByteOrder, most_significant_byte_first, least_significant_byte_first}
use parse_x.Model.Raw.{RawNode, RawNodes, node, nil, cons, tag_name, text, children}
use parse_x.Validator.Tree.{trim_text}

-- One character of `asciiUpperCopy`.
abbrev upper : ℕ → ℕ
upper c = if leb b'a' c && leb c b'z' then c - 32 else c

unfoldable pub ascii_upper_copy : Text → Text
ascii_upper_copy text = map upper text

abbrev pub has_tag : Text → RawNode → Bool
has_tag tag n = text_eq (tag_name n) tag

abbrev pub first_tagged : Text → List RawNode → Option RawNode
first_tagged tag [] = none
first_tagged tag (child ∷ rest) = if has_tag tag child then some child else first_tagged tag rest

unfoldable pub find_child : RawNode → Text → Option RawNode
find_child n tag = first_tagged tag (children n)

unfoldable mutual
  pub collect_descendants : Text → RawNode → List RawNode
  collect_descendants tag (node t a x s c) = collect_children tag c

  pub collect_children : Text → RawNodes → List RawNode
  collect_children tag nil = []
  collect_children tag (cons child rest) =
      (if has_tag tag child then child ∷ [] else [])
      ++ (collect_descendants tag child ++ collect_children tag rest)

unfoldable pub find_descendants : RawNode → Text → List RawNode
find_descendants n tag = collect_descendants tag n

abbrev pub front : List RawNode → Option RawNode
front [] = none
front (n ∷ rest) = some n

unfoldable pub find_descendant : RawNode → Text → Option RawNode
find_descendant n tag = front (find_descendants n tag)

abbrev pub trimmed_text : Option RawNode → Option Text
trimmed_text none = none
trimmed_text (some n) = some (trim_text (text n))

unfoldable pub child_text : RawNode → Text → Option Text
child_text n tag = trimmed_text (find_child n tag)

-- The text after the last '/', or `acc` if there is none.
unfoldable pub after_slash : Text → Text → Text
after_slash acc [] = acc
after_slash acc (c ∷ cs) = if c == b'/' then after_slash cs cs else after_slash acc cs

unfoldable pub short_name_of_ref : Text → Text
short_name_of_ref ref = let text = trim_text ref in after_slash text text

unfoldable pub parse_byte_order : Text → ByteOrder
parse_byte_order raw =
    if text_eq (ascii_upper_copy (trim_text raw)) (codes "LEAST-SIGNIFICANT-BYTE-FIRST")
    then least_significant_byte_first
    else most_significant_byte_first

abbrev starts_sint : Text → Bool
starts_sint (s ∷ i ∷ n ∷ t ∷ rest) = text_eq (s ∷ i ∷ n ∷ t ∷ []) (codes "SINT")
starts_sint _ = false

abbrev starts_s_digit : Text → Bool
starts_s_digit (s ∷ d ∷ rest) = s == b'S' && (leb b'0' d && leb d b'9')
starts_s_digit _ = false

unfoldable pub is_signed_base_type : Text → Bool
is_signed_base_type base_type_ref =
    let name = ascii_upper_copy (short_name_of_ref base_type_ref) in
    starts_sint name || starts_s_digit name

unfoldable pub extract_short_name : RawNode → Text
extract_short_name n = value_or (child_text n (codes "SHORT-NAME")) []

-- The texts that are not empty.
unfoldable pub named_only : List Text → List Text
named_only [] = []
named_only (name ∷ rest) = if is_empty name then named_only rest else name ∷ named_only rest

unfoldable pub ref_short_names : RawNode → Text → List Text
ref_short_names n ref_tag =
    named_only (map (λ r. short_name_of_ref (text r)) (find_descendants n ref_tag))

-- The loop over two tags that channels and controllers share.
abbrev pub two_tags : RawNode → Text → Text → List RawNode
two_tags n first second = find_descendants n first ++ find_descendants n second

unfoldable pub channel_short_names : RawNode → List Text
channel_short_names n =
    named_only (
      map extract_short_name (two_tags n (codes "PHYSICAL-CHANNEL") (codes "CAN-PHYSICAL-CHANNEL")))

unfoldable pub controller_short_names : RawNode → List Text
controller_short_names n = named_only (
    map extract_short_name
      (two_tags n (codes "CAN-CONTROLLER") (codes "CAN-COMMUNICATION-CONTROLLER")))
