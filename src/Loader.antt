-- ===== src/Loader.antt =====
-- The span-tracking loader (libparsex/src/loader.cpp): the callbacks that libxml2 drives as the steps
-- of a state, over a raw scan of the same bytes. The parser itself is a parameter: the events it
-- reports for the bytes of a file. The nodes that are open are a stack, the innermost first, and a
-- node joins its parent's children when it is closed.
pub mod Encoding
pub mod Scanner
pub mod Markup
pub mod Lines
pub mod Spans
pub mod State
pub mod Run
use parse_x.Base.{
  ℕ, zero, suc, ◌+◌, ◌*◌, Bool, true, false, Option, none, some, List, [], ◌∷◌, ◌++◌, ◌==◌, ◌||◌,
  ◌&&◌, ltb, if◌then◌else◌, length, map, is_empty, value_or,
}
use parse_x.Base.Text.{Text, codes, drop_while_end}
use parse_x.Base.Decimal.{to_string}
use parse_x.Model.Raw.{RawSpan, RawNode, RawNodes, node, nil, cons}
use Encoding.{RawEncodingClass, single_byte, utf16_le, utf16_be, take, detect_encoding_class}
use Scanner.{
  Scan, ok, raised, exhausted, ScanError, and_then_scan, StartTagBounds, scan_start_tag,
  scan_end_tag,
}

unfoldable pub count_breaks : RawEncodingClass → Text → ℕ
count_breaks single_byte [] = 0
count_breaks single_byte (c ∷ s) =
    let rest = count_breaks single_byte s in if c == 10 then suc rest else rest
count_breaks utf16_le (a ∷ b ∷ s) =
    let rest = count_breaks utf16_le s in if a == 10 && b == 0 then suc rest else rest
count_breaks utf16_le _ = 0
count_breaks utf16_be (a ∷ b ∷ s) =
    let rest = count_breaks utf16_be s in if a == 0 && b == 10 then suc rest else rest
count_breaks utf16_be _ = 0

unfoldable pub line_number_at : Text → RawEncodingClass → ℕ → ℕ
line_number_at bytes encoding offset = count_breaks encoding (take offset bytes) + 1

unfoldable pub qualified_name : Option Text → Text → Text
qualified_name none local_name = local_name
qualified_name (some prefix) local_name = prefix ++ b':' ∷ local_name

-- A node whose end tag has not come yet.
pub record RawOpen : Type 0 where
  pub tag_name : Text
  pub attributes : List (Text × Text)
  pub text : Text
  pub span : RawSpan
  pub children : RawNodes

pub record LoaderState : Type 0 where
  pub cursor : ℕ
  pub stack : List RawOpen
  pub root : Option RawNode

-- What libxml2 reports, with names, prefixes and values as text.
pub record Attribute : Type 0 where
  pub prefix : Option Text
  pub local_name : Text
  pub value : Text

pub record Namespace : Type 0 where
  pub prefix : Option Text
  pub href : Option Text

pub data SaxEvent : Type 0 where
  start_element : Option Text → Text → List Namespace → List Attribute → SaxEvent
  characters : Text → SaxEvent
  end_element : SaxEvent

unfoldable pub attributes_of : List Attribute → List Namespace → List (Text × Text)
attributes_of attributes namespaces =
    map (λ a. (qualified_name a.prefix a.local_name, a.value)) attributes
    ++ map
        (λ n.
          (codes "xmlns" ++ elim n.prefix [ none ↦ [] | some p ↦ b':' ∷ p ], value_or n.href []))
        namespaces

-- A document element, or a child of the innermost open node; a second document element is skipped.
abbrev pub enter : RawOpen → ℕ → LoaderState → LoaderState
enter entered cursor state = elim state.stack [
  | [] ↦ elim state.root [
    | none ↦ record state { cursor = cursor; stack = entered ∷ [] }
    | some r ↦ record state { cursor = cursor }
  ]
  | ◌∷◌ top rest ↦ record state { cursor = cursor; stack = entered ∷ top ∷ rest }
]

abbrev pub close_node : RawOpen → ℕ → RawNode
close_node o end_offset =
    node o.tag_name o.attributes o.text (record o.span { end_offset = end_offset }) o.children

unfoldable pub add_child : RawNodes → RawNode → RawNodes
add_child nil n = cons n nil
add_child (cons child rest) n = cons child (add_child rest n)

-- The closed node joins the node below it on the stack, or is the root.
unfoldable pub leave : RawNode → ℕ → List RawOpen → Option RawNode → LoaderState
leave closed cursor [] root = record { cursor = cursor; stack = []; root = some closed }
leave closed cursor (parent ∷ rest) root = record {
  cursor = cursor;
  stack = record parent { children = add_child parent.children closed } ∷ rest;
  root = root;
}

module _ (bytes : Text) (encoding : RawEncodingClass) where
  abbrev pub opened_node : Text → List (Text × Text) → StartTagBounds → RawOpen
  opened_node tag_name attributes b = record {
    tag_name = tag_name;
    attributes = attributes;
    text = [];
    span = record {
      start_offset = b.open_pos;
      end_offset = if b.self_closed then b.tag_end_pos else b.open_pos;
      line_number = line_number_at bytes encoding b.open_pos;
    };
    children = nil;
  }

  unfoldable pub on_start_element :
      Option Text → Text → List Namespace → List Attribute → LoaderState → Scan LoaderState
  on_start_element prefix local_name namespaces attributes state =
      let name = qualified_name prefix local_name in
      and_then_scan (scan_start_tag bytes encoding name state.cursor) (λ b.
        ok (enter (opened_node name (attributes_of attributes namespaces) b) b.tag_end_pos state))

  unfoldable pub on_characters : Text → LoaderState → LoaderState
  on_characters chars state = elim state.stack [
    | [] ↦ state
    | ◌∷◌ top rest ↦ record state { stack = record top { text = top.text ++ chars } ∷ rest }
  ]

  -- `end_offset == start_offset` says that the end is not known yet.
  abbrev pub close_top : RawOpen → List RawOpen → LoaderState → Scan LoaderState
  close_top top rest state =
      if top.span.end_offset == top.span.start_offset
      then and_then_scan (scan_end_tag bytes encoding top.tag_name state.cursor)
          (λ end. ok (leave (close_node top end) end rest state.root))
      else ok (leave (close_node top top.span.end_offset) state.cursor rest state.root)

  unfoldable pub on_end_element : LoaderState → Scan LoaderState
  on_end_element state = elim state.stack [
    | [] ↦ ok state
    | ◌∷◌ top rest ↦ close_top top rest state
  ]

  unfoldable pub on_event : SaxEvent → LoaderState → Scan LoaderState
  on_event (start_element prefix local_name namespaces attributes) state =
      on_start_element prefix local_name namespaces attributes state
  on_event (characters chars) state = ok (on_characters chars state)
  on_event end_element state = on_end_element state

  unfoldable pub on_events : List SaxEvent → LoaderState → Scan LoaderState
  on_events [] state = ok state
  on_events (event ∷ events) state = and_then_scan (on_event event state) (on_events events)

-- The first error that libxml2 reports.
pub record LibxmlErrorCapture : Type 0 where
  pub message : Text
  pub line : ℕ
  pub column : ℕ
  pub has_error : Bool

pub record LibxmlError : Type 0 where
  pub message : Option Text
  pub line : ℕ
  pub int2 : ℕ

unfoldable pub on_libxml_error : LibxmlError → LibxmlErrorCapture → LibxmlErrorCapture
on_libxml_error error capture = elim error.message [
  | none ↦ capture
  | some message ↦
      if capture.has_error
      then capture
      else record { message = message; line = error.line; column = error.int2; has_error = true }
]

unfoldable pub capture_errors : List LibxmlError → LibxmlErrorCapture → LibxmlErrorCapture
capture_errors [] capture = capture
capture_errors (error ∷ errors) capture = capture_errors errors (on_libxml_error error capture)

unfoldable pub syntax_detail : LibxmlErrorCapture → Text
syntax_detail capture =
    let message = drop_while_end (λ c. c == 10 || (c == 13 || c == 32)) capture.message in
    let place =
      if ltb 0 capture.line
      then (codes " at line "
          ++ (to_string capture.line
              ++ (if ltb 0 capture.column
                  then codes ", column " ++ to_string capture.column
                  else [])))
      else [] in
    codes "malformed XML" ++ (place ++ (if is_empty message then [] else codes ": " ++ message))

-- What libxml2 makes of the bytes.
pub record SaxParse : Type 0 where
  pub events : List SaxEvent
  pub errors : List LibxmlError
  pub well_formed : Bool

pub data LoadResult : Type 0 where
  loaded : RawNode → LoadResult
  utf32_input no_document_element out_of_fuel : LoadResult
  scan_failed : ScanError → LoadResult
  syntax_error : Text → LoadResult

-- The tree so far, in which a node that is still open ends where its span says.
unfoldable pub tree_of : List RawOpen → Option RawNode → Option RawNode
tree_of [] root = root
tree_of (top ∷ rest) root = tree_of_child (close_node top top.span.end_offset) rest
  where
    tree_of_child : RawNode → List RawOpen → Option RawNode
    tree_of_child n [] = some n
    tree_of_child n (parent ∷ more) =
        tree_of_child
          (close_node (record parent { children = add_child parent.children n })
            parent.span.end_offset)
          more

abbrev pub start_state : LoaderState
start_state = record { cursor = 0; stack = []; root = none }

abbrev no_errors : LibxmlErrorCapture
no_errors = record { message = []; line = 0; column = 0; has_error = false }

-- The checks after the parse: is the text well-formed, is there a tree.
abbrev pub result_of : Bool → Option RawNode → Text → LoadResult
result_of true none detail = no_document_element
result_of true (some root) detail = loaded root
result_of false root detail = syntax_error detail

abbrev pub finish : SaxParse → Scan LoaderState → LoadResult
finish parse (raised e) = scan_failed e
finish parse exhausted = out_of_fuel
finish parse (ok state) =
    result_of parse.well_formed (tree_of state.stack state.root)
      (syntax_detail (capture_errors parse.errors no_errors))

abbrev pub load_with : (Text → SaxParse) → Text → Option RawEncodingClass → LoadResult
load_with libxml bytes none = utf32_input
load_with libxml bytes (some encoding) =
    finish (libxml bytes) (on_events bytes encoding (libxml bytes).events start_state)

unfoldable pub load_raw_document_from_memory : (Text → SaxParse) → Text → LoadResult
load_raw_document_from_memory libxml bytes = load_with libxml bytes (detect_encoding_class bytes)
