-- ===== src/Loader/State.antt =====
-- The loader's state after each event (libparsex/src/loader.cpp).
use parse_x.Base.{
  ℕ, suc, ◌-◌, ◌≤◌, true, false, Option, none, some, List, [], ◌∷◌, ◌≡◌, inl, inr, arith, length,
  ◌==◌,
}
use parse_x.Base.Text.{Text}
use parse_x.Model.Raw.{RawNode}
use parse_x.Loader.Encoding.{RawEncodingClass}
use parse_x.Loader.Scanner.Ensures.{Ensures, gives, if_Ensures, then-Ensures}
use parse_x.Loader.Scanner.Tags.{scan_start_tag-IsStartTag}
use parse_x.Loader.Scanner.EndTags.{scan_end_tag-IsEndTag}
use parse_x.Loader.Spans.{
  IsSpanned, start_of, end_of, IsSpanned-lt, Between-add_child, IsOpen, AllOpen, RootSpanned,
  AllOpen-raise, opened_node-IsOpen, close_node-end_tag, close_node-self_closed,
}
use parse_x.Loader.{
  RawOpen, LoaderState, Namespace, Attribute, SaxEvent, start_element, characters, end_element,
  enter, opened_node, close_node, close_top, attributes_of, qualified_name, leave, on_start_element,
  on_characters, on_end_element, on_event, on_events, start_state,
}

-- How many elements are open after the events.
unfoldable pub depth_after : List SaxEvent → ℕ → ℕ
depth_after [] d = d
depth_after (start_element p l n a ∷ events) d = depth_after events (suc d)
depth_after (characters chars ∷ events) d = depth_after events d
depth_after (end_element ∷ events) d = depth_after events (d - 1)

abbrev depth_step : SaxEvent → ℕ → ℕ
depth_step (start_element p l n a) d = suc d
depth_step (characters chars) d = d
depth_step end_element d = d - 1

module _ (bytes : Text) (encoding : RawEncodingClass) where
  -- At most `d` nodes are open, they enclose each other up to the cursor, and a finished root has
  -- its spans right.
  pub record IsSound (d : ℕ) (state : LoaderState) : Type 0 where
    pub opens : AllOpen bytes encoding state.cursor state.stack
    pub root_spanned : RootSpanned bytes encoding state.root
    pub short : length state.stack ≤ d

  enter-IsSound :
      (name : Text) (o : RawOpen) (cursor end : ℕ) (stack : List RawOpen) (root : Option RawNode)
      (d : ℕ)
      → IsOpen bytes encoding end o
      → cursor ≤ o.span.start_offset
      → IsSound d (record { cursor = cursor; stack = stack; root = root })
      → IsSound (suc d) (enter o end (record { cursor = cursor; stack = stack; root = root }))
  unfolding AllOpen
  enter-IsSound name o cursor end [] none d h k s = record {
    opens = (h, tt);
    root_spanned = tt;
    short = omega arith;
  }
  enter-IsSound name o cursor end [] (some r) d h k s = record {
    opens = tt;
    root_spanned = s.root_spanned;
    short = omega arith;
  }
  enter-IsSound name o cursor end (top ∷ rest) root d h k s = record {
    opens = (h, AllOpen-raise bytes encoding cursor o.span.start_offset (top ∷ rest) k s.opens);
    root_spanned = s.root_spanned;
    short = omega (arith, s.short);
  }

  on_start_element-IsSound :
      (prefix : Option Text) (local_name : Text) (namespaces : List Namespace)
      (attributes : List Attribute) (d : ℕ) (state : LoaderState)
      → IsSound d state
      → Ensures
          (IsSound (suc d))
          (on_start_element bytes encoding prefix local_name namespaces attributes state)
  unfolding on_start_element
  on_start_element-IsSound prefix local_name namespaces attributes d state s =
      let name = qualified_name prefix local_name in
      then-Ensures (scan_start_tag-IsStartTag bytes encoding name state.cursor) (λ b k. gives (
        enter-IsSound name (opened_node bytes encoding name (attributes_of attributes namespaces) b)
          state.cursor b.tag_end_pos state.stack state.root d
          (opened_node-IsOpen bytes encoding name (attributes_of attributes namespaces) state.cursor
            b k)
          k.from_cursor s))

  on_characters-stack :
      (chars : Text) (cursor : ℕ) (stack : List RawOpen) (root : Option RawNode) (d : ℕ)
      → IsSound d (record { cursor = cursor; stack = stack; root = root })
      → IsSound d (
          on_characters bytes encoding chars
            (record { cursor = cursor; stack = stack; root = root }))
  unfolding on_characters AllOpen
  on_characters-stack chars cursor [] root d s = s
  on_characters-stack chars cursor (top ∷ rest) root d s = record {
    opens = (
      record {
        placed = s.opens.0.placed;
        holds = s.opens.0.holds;
        end_known = s.opens.0.end_known;
      },
      s.opens.1,
    );
    root_spanned = s.root_spanned;
    short = omega (arith, s.short);
  }

  leave-IsSound :
      (n : RawNode) (cursor : ℕ) (rest : List RawOpen) (root : Option RawNode) (d : ℕ)
      → IsSpanned bytes encoding n
      → end_of n ≤ cursor
      → AllOpen bytes encoding (start_of n) rest
      → RootSpanned bytes encoding root
      → length rest ≤ d
      → IsSound d (leave n cursor rest root)
  unfolding leave AllOpen
  leave-IsSound n cursor [] root d h e opens r k = record {
    opens = tt;
    root_spanned = h;
    short = omega arith;
  }
  leave-IsSound n cursor (parent ∷ rest) root d h e opens r k = record {
    opens = (
      record {
        placed = opens.0.placed;
        holds =
            Between-add_child bytes encoding opens.0.placed.tag.tag_end_pos parent.children n cursor
              opens.0.holds h e;
        end_known = elim opens.0.end_known [
          | inl q ↦ inl q
          | inr q ↦ inr (q.0, q.1, omega (arith, q.2, before))
        ];
      },
      opens.1,
    );
    root_spanned = r;
    short = omega (arith, k);
  }
    where
      before : start_of n ≤ cursor
      before = omega (arith, e, IsSpanned-lt bytes encoding n h)

  close_top-IsSound :
      (top : RawOpen) (rest : List RawOpen) (state : LoaderState) (d : ℕ)
      → AllOpen bytes encoding state.cursor (top ∷ rest)
      → RootSpanned bytes encoding state.root
      → suc (length rest) ≤ d
      → Ensures (IsSound (d - 1)) (close_top bytes encoding top rest state)
  unfolding AllOpen
  close_top-IsSound top rest state d opens root k =
      if_Ensures (top.span.end_offset == top.span.start_offset)
        (λ same.
          then-Ensures (scan_end_tag-IsEndTag bytes encoding top.tag_name state.cursor) (λ end e.
            gives (
              leave-IsSound (close_node top end) end rest state.root (d - 1)
                (close_node-end_tag bytes encoding top state.cursor end opens.0 (eq same) e)
                (omega arith) opens.1 root (omega arith))))
        (λ f.
          let r = close_node-self_closed bytes encoding top state.cursor opens.0 (ne f) in
          gives (
            leave-IsSound (close_node top top.span.end_offset) state.cursor rest state.root (d - 1)
              r.0 r.1 opens.1 root (omega arith)))
    where
      eq :
          (top.span.end_offset == top.span.start_offset) ≡ true
          → top.span.end_offset ≡ top.span.start_offset
      eq t = ground (arith, t)

      ne :
          (top.span.end_offset == top.span.start_offset) ≡ false
          → ¬ (top.span.end_offset ≡ top.span.start_offset)
      ne f e = absurd (ground (arith, f, e))

  on_end_element-stack :
      (cursor : ℕ) (stack : List RawOpen) (root : Option RawNode) (d : ℕ)
      → IsSound d (record { cursor = cursor; stack = stack; root = root })
      → Ensures
          (IsSound (d - 1))
          (on_end_element bytes encoding (record { cursor = cursor; stack = stack; root = root }))
  unfolding on_end_element
  on_end_element-stack cursor [] root d s =
      gives (record { opens = s.opens; root_spanned = s.root_spanned; short = omega arith })
  on_end_element-stack cursor (top ∷ rest) root d s =
      close_top-IsSound top rest (record { cursor = cursor; stack = top ∷ rest; root = root }) d
        s.opens s.root_spanned s.short

  on_event-IsSound :
      (event : SaxEvent) (d : ℕ) (state : LoaderState)
      → IsSound d state
      → Ensures (IsSound (depth_step event d)) (on_event bytes encoding event state)
  unfolding on_event
  on_event-IsSound (start_element prefix local_name namespaces attributes) d state s =
      on_start_element-IsSound prefix local_name namespaces attributes d state s
  on_event-IsSound (characters chars) d state s =
      gives (on_characters-stack chars state.cursor state.stack state.root d s)
  on_event-IsSound end_element d state s =
      on_end_element-stack state.cursor state.stack state.root d s

  pub on_events-IsSound :
      (events : List SaxEvent) (d : ℕ) (state : LoaderState)
      → IsSound d state
      → Ensures (IsSound (depth_after events d)) (on_events bytes encoding events state)
  unfolding on_events depth_after
  on_events-IsSound [] d state s = gives s
  on_events-IsSound (start_element p l n a ∷ events) d state s =
      then-Ensures (on_event-IsSound (start_element p l n a) d state s)
        (λ t k. on_events-IsSound events (suc d) t k)
  on_events-IsSound (characters chars ∷ events) d state s =
      then-Ensures (on_event-IsSound (characters chars) d state s)
        (λ t k. on_events-IsSound events d t k)
  on_events-IsSound (end_element ∷ events) d state s =
      then-Ensures (on_event-IsSound end_element d state s)
        (λ t k. on_events-IsSound events (d - 1) t k)

  pub start_state-IsSound : IsSound 0 start_state
  unfolding AllOpen
  start_state-IsSound = record { opens = tt; root_spanned = tt; short = omega arith }
