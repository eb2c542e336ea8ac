-- ===== src/Loader/Spans.antt =====
-- The spans of a loaded tree, and the invariant of the loader's state that keeps them
-- (libparsex/src/loader.cpp).
use parse_x.Base.{
  ℕ, ◌≤◌, ◌<◌, Bool, true, false, Option, none, some, List, [], ◌∷◌, ◌≡◌, refl, ◌⊎◌, inl, inr,
  arith, if◌then◌else◌,
}
use parse_x.Base.Text.{Text}
use parse_x.Model.Raw.{RawNode, RawNodes, node, nil, cons, span}
use parse_x.Loader.Encoding.{RawEncodingClass}
use parse_x.Loader.Scanner.{StartTagBounds}
use parse_x.Loader.Markup.{IsStartTag, IsEndTag}
use parse_x.Loader.Lines.{IsLineOf, line_number_at-IsLineOf}
use parse_x.Loader.{RawOpen, opened_node, close_node, add_child}

-- A start tag with the name opens at the place, which is in the line.
pub record IsPlaced (bytes : Text) (encoding : RawEncodingClass) (name : Text) (start line : ℕ)
    : Type 0 where
  pub tag : StartTagBounds
  pub starts : tag.open_pos ≡ start
  pub start_tag : IsStartTag bytes encoding name start tag
  pub in_line : IsLineOf bytes encoding start line

-- The end is that of the start tag, which is self-closed, or that of an end tag with the name that
-- opens at `hi` or later.
abbrev pub IsEnded : Text → RawEncodingClass → Text → StartTagBounds → ℕ → ℕ → Type 0
IsEnded bytes encoding name tag hi end =
    ((tag.self_closed ≡ true) × (end ≡ tag.tag_end_pos))
    ⊎ ((tag.self_closed ≡ false) × IsEndTag bytes encoding name hi end)

abbrev pub start_of : RawNode → ℕ
start_of n = (span n).start_offset

abbrev pub end_of : RawNode → ℕ
end_of n = (span n).end_offset

-- Every span of the tree is placed and ended; the children's are in order, one after the other, after
-- the end of their parent's start tag and before its end tag.
unfoldable mutual
  pub IsSpanned : Text → RawEncodingClass → RawNode → Type 0
  IsSpanned bytes encoding (node t a x s c) =
      (placed : IsPlaced bytes encoding t s.start_offset s.line_number) × (hi : ℕ) × Between bytes
        encoding placed.tag.tag_end_pos c hi
      × IsEnded bytes encoding t placed.tag hi s.end_offset

  pub Between : Text → RawEncodingClass → ℕ → RawNodes → ℕ → Type 0
  Between bytes encoding lo nil hi = lo ≤ hi
  Between bytes encoding lo (cons child rest) hi =
      (lo ≤ start_of child)
      × IsSpanned bytes encoding child
      × Between bytes encoding (end_of child) rest hi

module _ (bytes : Text) (encoding : RawEncodingClass) where
  placed-lt :
      (name : Text) (start line : ℕ) (p : IsPlaced bytes encoding name start line)
      → start < p.tag.tag_end_pos
  placed-lt name start line p = omega (arith, p.starts, p.start_tag.past_name)

  ended-le :
      (name : Text) (tag : StartTagBounds) (hi end : ℕ)
      → tag.tag_end_pos ≤ hi
      → IsEnded bytes encoding name tag hi end
      → tag.tag_end_pos ≤ end
  ended-le name tag hi end k (inl e) = omega (arith, e.1)
  ended-le name tag hi end k (inr e) = omega (arith, e.1.from_cursor, e.1.past_name)

  mutual
    unfolding IsSpanned Between

    pub IsSpanned-lt : (n : RawNode) → IsSpanned bytes encoding n → start_of n < end_of n
    IsSpanned-lt (node t a x s c) (placed, hi, held, ended) =
        let before = placed-lt t s.start_offset s.line_number placed in
        let after =
          ended-le t placed.tag hi s.end_offset (Between-le placed.tag.tag_end_pos c hi held)
            ended in
        omega arith

    pub Between-le : (lo : ℕ) (c : RawNodes) (hi : ℕ) → Between bytes encoding lo c hi → lo ≤ hi
    Between-le lo nil hi h = h
    Between-le lo (cons child rest) hi h =
        omega (arith, h.0, IsSpanned-lt child h.1, Between-le (end_of child) rest hi h.2)

  pub Between-raise :
      (lo : ℕ) (c : RawNodes) (hi hi' : ℕ)
      → hi ≤ hi'
      → Between bytes encoding lo c hi
      → Between bytes encoding lo c hi'
  unfolding Between
  Between-raise lo nil hi hi' k h = omega arith
  Between-raise lo (cons child rest) hi hi' k h =
      (h.0, h.1, Between-raise (end_of child) rest hi hi' k h.2)

  pub Between-add_child :
      (lo : ℕ) (c : RawNodes) (n : RawNode) (hi : ℕ)
      → Between bytes encoding lo c (start_of n)
      → IsSpanned bytes encoding n
      → end_of n ≤ hi
      → Between bytes encoding lo (add_child c n) hi
  unfolding Between add_child
  Between-add_child lo nil n hi h k e = (h, k, e)
  Between-add_child lo (cons child rest) n hi h k e =
      (h.0, h.1, Between-add_child (end_of child) rest n hi h.2 k e)

  -- An open node when the scan is at `hi`: its end is open, or that of a self-closed tag.
  pub record IsOpen (hi : ℕ) (o : RawOpen) : Type 0 where
    pub placed : IsPlaced bytes encoding o.tag_name o.span.start_offset o.span.line_number
    pub holds : Between bytes encoding placed.tag.tag_end_pos o.children hi
    pub end_known :
        ((placed.tag.self_closed ≡ false) × (o.span.end_offset ≡ o.span.start_offset))
        ⊎ ((placed.tag.self_closed ≡ true)
            × (o.span.end_offset ≡ placed.tag.tag_end_pos)
            × (o.span.end_offset ≤ hi))

  unfoldable pub AllOpen : ℕ → List RawOpen → Type 0
  AllOpen hi [] = Unit
  AllOpen hi (o ∷ rest) = IsOpen hi o × AllOpen o.span.start_offset rest

  abbrev pub RootSpanned : Option RawNode → Type 0
  RootSpanned none = Unit
  RootSpanned (some n) = IsSpanned bytes encoding n

  pub IsOpen-raise : (hi hi' : ℕ) (o : RawOpen) → hi ≤ hi' → IsOpen hi o → IsOpen hi' o
  IsOpen-raise hi hi' o k h = record {
    placed = h.placed;
    holds = Between-raise h.placed.tag.tag_end_pos o.children hi hi' k h.holds;
    end_known = elim h.end_known [ inl e ↦ inl e | inr r ↦ inr (r.0, r.1, omega (arith, r.2)) ];
  }

  pub AllOpen-raise :
      (hi hi' : ℕ) (stack : List RawOpen) → hi ≤ hi' → AllOpen hi stack → AllOpen hi' stack
  unfolding AllOpen
  AllOpen-raise hi hi' [] k h = tt
  AllOpen-raise hi hi' (o ∷ rest) k h = (IsOpen-raise hi hi' o k h.0, h.1)

  -- A new node, opened by a start tag.
  pub opened_node-IsOpen :
      (name : Text) (attributes : List (Text × Text)) (cursor : ℕ) (b : StartTagBounds)
      → IsStartTag bytes encoding name cursor b
      → IsOpen b.tag_end_pos (opened_node bytes encoding name attributes b)
  unfolding Between
  opened_node-IsOpen name attributes cursor b h = record {
    placed = record {
      tag = b;
      starts = refl;
      start_tag = record {
        from_cursor = omega arith;
        opens = h.opens;
        named = h.named;
        name_ends = h.name_ends;
        rest = h.rest;
        past_name = h.past_name;
        inside = h.inside;
      };
      in_line = line_number_at-IsLineOf bytes encoding b.open_pos;
    };
    holds = omega arith;
    end_known = known b.self_closed refl;
  }
    where
      known :
          (closed : Bool)
          → b.self_closed ≡ closed
          → ((b.self_closed ≡ false)
              × ((if closed then b.tag_end_pos else b.open_pos) ≡ b.open_pos))
            ⊎ ((b.self_closed ≡ true)
                × ((if closed then b.tag_end_pos else b.open_pos) ≡ b.tag_end_pos)
                × ((if closed then b.tag_end_pos else b.open_pos) ≤ b.tag_end_pos))
      known false e = inl (e, refl)
      known true e = inr (e, refl, omega arith)

  -- A closed node, whose end is that of its end tag or of its self-closed start tag.
  pub close_node-end_tag :
      (o : RawOpen) (cursor end : ℕ)
      → IsOpen cursor o
      → o.span.end_offset ≡ o.span.start_offset
      → IsEndTag bytes encoding o.tag_name cursor end
      → IsSpanned bytes encoding (close_node o end)
  unfolding IsSpanned
  close_node-end_tag o cursor end h same e =
      (h.placed, cursor, h.holds, inr (not_closed h.end_known, e))
    where
      after : o.span.start_offset < h.placed.tag.tag_end_pos
      after = placed-lt o.tag_name o.span.start_offset o.span.line_number h.placed

      not_closed :
          ((h.placed.tag.self_closed ≡ false) × (o.span.end_offset ≡ o.span.start_offset))
            ⊎ ((h.placed.tag.self_closed ≡ true)
                × (o.span.end_offset ≡ h.placed.tag.tag_end_pos)
                × (o.span.end_offset ≤ cursor))
          → h.placed.tag.self_closed ≡ false
      not_closed (inl k) = k.0
      not_closed (inr k) = absurd (omega (arith, k.1, after, same))

  pub close_node-self_closed :
      (o : RawOpen) (hi : ℕ)
      → IsOpen hi o
      → ¬ (o.span.end_offset ≡ o.span.start_offset)
      → IsSpanned bytes encoding (close_node o o.span.end_offset) × (o.span.end_offset ≤ hi)
  unfolding IsSpanned
  close_node-self_closed o hi h ne = elim h.end_known [
    | inl e ↦ absurd (ne e.1)
    | inr r ↦ ((h.placed, hi, h.holds, inl (r.0, r.1)), r.2)
  ]
