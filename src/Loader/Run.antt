-- ===== src/Loader/Run.antt =====
-- The loader from the first event to the last (libparsex/src/loader.cpp).
use parse_x.Base.{
  ℕ, subst, ◌≤◌, Bool, true, false, Option, none, some, List, [], ◌∷◌, ◌≡◌, ◌≢◌, sym, ◌∙◌, ap,
  arith, length,
}
use parse_x.Base.Text.{Text}
use parse_x.Model.Raw.{RawNode}
use parse_x.Loader.Encoding.{RawEncodingClass, detect_encoding_class}
use parse_x.Loader.Scanner.{Scan, ok, raised, exhausted}
use parse_x.Loader.Scanner.Ensures.{Ensures, gives}
use parse_x.Loader.Spans.{IsSpanned, RootSpanned}
use parse_x.Loader.{
  RawOpen, LoaderState, SaxParse, loaded, out_of_fuel, tree_of, start_state, result_of, load_with,
  finish, load_raw_document_from_memory,
}
use parse_x.Loader.State.{depth_after, IsSound, on_events-IsSound, start_state-IsSound}

module _ (bytes : Text) (encoding : RawEncodingClass) where
  state_of-IsSpanned :
      (parse : SaxParse) (stack : List RawOpen) (root : Option RawNode) (n : RawNode)
      → length stack ≤ 0
      → RootSpanned bytes encoding root
      → tree_of stack root ≡ some n
      → IsSpanned bytes encoding n
  unfolding tree_of
  state_of-IsSpanned parse (o ∷ stack) root n h r e = absurd (omega arith)
  state_of-IsSpanned parse [] none n h r e = absurd (cc)
  state_of-IsSpanned parse [] (some m) n h r e = subst (IsSpanned bytes encoding) (some_inj e) r
    where
      some_inj : {m n : RawNode} → some m ≡ some n → m ≡ n
      some_inj e = cc

  result_of-loaded :
      (b : Bool) (o : Option RawNode) (detail : Text) (n : RawNode)
      → result_of b o detail ≡ loaded n
      → o ≡ some n
  result_of-loaded true none detail n e = absurd (cc)
  result_of-loaded true (some m) detail n e = cc
  result_of-loaded false o detail n e = absurd (cc)

  result_of-total :
      (b : Bool) (o : Option RawNode) (detail : Text) → result_of b o detail ≢ out_of_fuel
  result_of-total true none detail e = absurd (cc)
  result_of-total true (some m) detail e = absurd (cc)
  result_of-total false o detail e = absurd (cc)

  finish-total :
      {P : LoaderState → Type 0} (parse : SaxParse) (scan : Scan LoaderState)
      → Ensures P scan
      → finish parse scan ≢ out_of_fuel
  finish-total parse (ok state) h k = result_of-total parse.well_formed _ _ k
  finish-total parse (raised e) h k = absurd (cc)
  finish-total parse exhausted h k = elim h [ ]

  finish-IsSpanned :
      (parse : SaxParse) (scan : Scan LoaderState) (d : ℕ) (n : RawNode)
      → Ensures (IsSound bytes encoding d) scan
      → d ≡ 0
      → finish parse scan ≡ loaded n
      → IsSpanned bytes encoding n
  finish-IsSpanned parse (ok state) d n (gives s) z e =
      state_of-IsSpanned parse state.stack state.root n (omega (arith, s.short)) s.root_spanned
        (result_of-loaded parse.well_formed _ _ n e)
  finish-IsSpanned parse (raised r) d n h z e = absurd (cc)
  finish-IsSpanned parse exhausted d n h z e = elim h [ ]

-- Loading a file from memory ends: no loop of the scanner runs longer than the fuel that the file's
-- length gives it, whatever libxml2 reports for the bytes.
pub load_raw_document_from_memory-total :
    (libxml : Text → SaxParse) (bytes : Text)
    → load_raw_document_from_memory libxml bytes ≢ out_of_fuel
unfolding load_raw_document_from_memory
load_raw_document_from_memory-total libxml bytes = cases (detect_encoding_class bytes)
  where
    cases : (o : Option RawEncodingClass) → load_with libxml bytes o ≢ out_of_fuel
    cases none k = absurd (cc)
    cases (some encoding) k =
        finish-total bytes encoding (libxml bytes) _
          (on_events-IsSound bytes encoding (libxml bytes).events 0 start_state
            (start_state-IsSound bytes encoding))
          k

-- Where a file loads, and libxml2 reports an end for each element it has begun, every node of the
-- tree has the span and the line of its tags. The span begins with a start tag of the node's name; it
-- ends with that tag where the tag is self-closed, and otherwise with an end tag of the name. The line
-- is one more than the line feeds before the start. The spans of the children come after the start
-- tag, in order and without overlap, and before the end tag.
pub load_raw_document_from_memory-IsSpanned :
    (libxml : Text → SaxParse) (bytes : Text) (encoding : RawEncodingClass) (n : RawNode)
    → detect_encoding_class bytes ≡ some encoding
    → depth_after (libxml bytes).events 0 ≡ 0
    → load_raw_document_from_memory libxml bytes ≡ loaded n
    → IsSpanned bytes encoding n
unfolding load_raw_document_from_memory
load_raw_document_from_memory-IsSpanned libxml bytes encoding n e z h =
    finish-IsSpanned bytes encoding (libxml bytes) _ (depth_after (libxml bytes).events 0) n
      (on_events-IsSound bytes encoding (libxml bytes).events 0 start_state
        (start_state-IsSound bytes encoding))
      z (ap (load_with libxml bytes) (sym e) ∙ h)
