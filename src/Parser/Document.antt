-- ===== src/Parser/Document.antt =====
-- A parsed document as the loader, the release table and the builders make it
-- (`parseBytes` of libparsex/src/parser.cpp).
use parse_x.Base.{Option, none, some, ◌≡◌, refl, sym, ◌∙◌, subst}
use parse_x.Base.Text.{Text, codes}
use parse_x.Model.{ParsedFile}
use parse_x.Model.Raw.{RawNode, RawNodes, node, nil, cons}
use parse_x.Loader.{
  SaxParse, LoadResult, loaded, utf32_input, no_document_element, out_of_fuel, scan_failed,
  syntax_error, load_raw_document_from_memory,
}
use parse_x.Loader.Encoding.{RawEncodingClass, detect_encoding_class}
use parse_x.Loader.Spans.{IsSpanned}
use parse_x.Loader.State.{depth_after}
use parse_x.Loader.Run.{load_raw_document_from_memory-IsSpanned}
use parse_x.Builder.{
  Family, cluster, ecu_instance, frame, pdu, signal, signal_group, other, family_of, push_element,
  build_subtree, build_subtrees,
}
use parse_x.Builder.Numbers.{DoubleReader}
use parse_x.Builder.Order.{nodes_of}
use parse_x.Builder.Families.{HasFamilies, build_subtree-HasFamilies}
use parse_x.Parser.Release.{HasRelease, detected-HasRelease}
use parse_x.Parser.{
  parsed_file, detect_schema_filename, resolve_release, empty_file, build_file, with_release,
  with_filename, parse_document, parse_bytes,
}

-- The file that a document is, with its release and its elements.
pub record IsFileOf (reader : DoubleReader) (path : Text) (root : RawNode) (file : ParsedFile)
    : Type 0 where
  pub document : file.raw_document ≡ some root
  pub source : file.source_path ≡ path
  pub release : HasRelease root file.autosar_release
  pub families : HasFamilies reader (nodes_of root) (empty_file file.autosar_release path) file

push_element-release :
    (reader : DoubleReader) (f : Family) (n : RawNode) (file : ParsedFile)
    → (push_element reader f n file).autosar_release ≡ file.autosar_release
unfolding push_element
push_element-release reader cluster n file = refl
push_element-release reader ecu_instance n file = refl
push_element-release reader frame n file = refl
push_element-release reader pdu n file = refl
push_element-release reader signal n file = refl
push_element-release reader signal_group n file = refl
push_element-release reader other n file = refl

mutual
  unfolding build_subtree build_subtrees

  build_subtree-release :
      (reader : DoubleReader) (n : RawNode) (file : ParsedFile)
      → (build_subtree reader n file).autosar_release ≡ file.autosar_release
  build_subtree-release reader (node t a x s c) file =
      build_subtrees-release reader c
        (push_element reader (family_of (node t a x s c)) (node t a x s c) file)
      ∙ push_element-release reader (family_of (node t a x s c)) (node t a x s c) file

  build_subtrees-release :
      (reader : DoubleReader) (c : RawNodes) (file : ParsedFile)
      → (build_subtrees reader c file).autosar_release ≡ file.autosar_release
  build_subtrees-release reader nil file = refl
  build_subtrees-release reader (cons child rest) file =
      build_subtrees-release reader rest (build_subtree reader child file)
      ∙ build_subtree-release reader child file

push_element-source :
    (reader : DoubleReader) (f : Family) (n : RawNode) (file : ParsedFile)
    → (push_element reader f n file).source_path ≡ file.source_path
unfolding push_element
push_element-source reader cluster n file = refl
push_element-source reader ecu_instance n file = refl
push_element-source reader frame n file = refl
push_element-source reader pdu n file = refl
push_element-source reader signal n file = refl
push_element-source reader signal_group n file = refl
push_element-source reader other n file = refl

mutual
  unfolding build_subtree build_subtrees

  build_subtree-source :
      (reader : DoubleReader) (n : RawNode) (file : ParsedFile)
      → (build_subtree reader n file).source_path ≡ file.source_path
  build_subtree-source reader (node t a x s c) file =
      build_subtrees-source reader c
        (push_element reader (family_of (node t a x s c)) (node t a x s c) file)
      ∙ push_element-source reader (family_of (node t a x s c)) (node t a x s c) file

  build_subtrees-source :
      (reader : DoubleReader) (c : RawNodes) (file : ParsedFile)
      → (build_subtrees reader c file).source_path ≡ file.source_path
  build_subtrees-source reader nil file = refl
  build_subtrees-source reader (cons child rest) file =
      build_subtrees-source reader rest (build_subtree reader child file)
      ∙ build_subtree-source reader child file

module _ (libxml : Text → SaxParse) (reader : DoubleReader) where
  built_families :
      (path : Text) (root : RawNode) (release : Text)
      → HasFamilies reader
          (nodes_of root)
          (empty_file release path)
          (build_file libxml reader path root release)
  built_families path root release =
      let h = build_subtree-HasFamilies reader root (empty_file release path) in
      record {
        clusters_eq = h.clusters_eq;
        ecu_instances_eq = h.ecu_instances_eq;
        frames_eq = h.frames_eq;
        pdus_eq = h.pdus_eq;
        signals_eq = h.signals_eq;
        signal_groups_eq = h.signal_groups_eq;
      }

  build_file-IsFileOf :
      (path : Text) (root : RawNode) (filename release : Text)
      → detect_schema_filename root ≡ some filename
      → resolve_release filename ≡ some release
      → IsFileOf reader path root (build_file libxml reader path root release)
  build_file-IsFileOf path root filename release d r =
      let same = build_subtree-release reader root (empty_file release path) in
      record {
        document = refl;
        source = build_subtree-source reader root (empty_file release path);
        release =
            subst (HasRelease root) (sym same) (detected-HasRelease root filename release d r);
        families =
            subst
              (λ z.
                HasFamilies reader (nodes_of root) (empty_file z path)
                  (build_file libxml reader path root release))
              (sym same) (built_families path root release);
      }

  with_release-IsFileOf :
      (path : Text) (root : RawNode) (filename : Text) (o : Option Text) (file : ParsedFile)
      → detect_schema_filename root ≡ some filename
      → resolve_release filename ≡ o
      → with_release libxml reader path root filename o ≡ parsed_file file
      → IsFileOf reader path root file
  with_release-IsFileOf path root filename none file d r h = absurd (cc)
  with_release-IsFileOf path root filename (some release) file d r h =
      subst (IsFileOf reader path root) (parsed_inj h)
        (build_file-IsFileOf path root filename release d r)
    where
      parsed_inj : {f g : ParsedFile} → parsed_file f ≡ parsed_file g → f ≡ g
      parsed_inj e = cc

  with_filename-IsFileOf :
      (path : Text) (root : RawNode) (o : Option Text) (file : ParsedFile)
      → detect_schema_filename root ≡ o
      → with_filename libxml reader path root o ≡ parsed_file file
      → IsFileOf reader path root file
  with_filename-IsFileOf path root none file d h = absurd (cc)
  with_filename-IsFileOf path root (some filename) file d h =
      with_release-IsFileOf path root filename (resolve_release filename) file d refl h

  parse_document-cases :
      (path : Text) (result : LoadResult) (file : ParsedFile)
      → parse_document libxml reader path result ≡ parsed_file file
      → (root : RawNode) × (result ≡ loaded root) × IsFileOf reader path root file
  unfolding parse_document
  parse_document-cases path (loaded root) file h =
      (root, refl, with_filename-IsFileOf path root (detect_schema_filename root) file refl h)
  parse_document-cases path utf32_input file h = absurd (cc)
  parse_document-cases path no_document_element file h = absurd (cc)
  parse_document-cases path out_of_fuel file h = absurd (cc)
  parse_document-cases path (scan_failed e) file h = absurd (cc)
  parse_document-cases path (syntax_error d) file h = absurd (cc)

  -- Where `parseBytes` gives a file, and libxml2 reports an end for each element it has begun: the
  -- file has a document whose nodes have the spans and lines of their tags in the bytes, its path is
  -- "<buffer>", and its six families are what the builders make, in order, of the document's nodes with
  -- each family's tags. Its release is that of a schema file which AUTOSAR distributes, and which the
  -- document names as the second word of its first xsi:schemaLocation.
  pub parse_bytes-IsFileOf :
      (bytes : Text) (encoding : RawEncodingClass) (file : ParsedFile)
      → detect_encoding_class bytes ≡ some encoding
      → depth_after (libxml bytes).events 0 ≡ 0
      → parse_bytes libxml reader bytes ≡ parsed_file file
      → (root : RawNode) × IsSpanned bytes encoding root
        × IsFileOf reader (codes "<buffer>") root file
  unfolding parse_bytes
  parse_bytes-IsFileOf bytes encoding file e d h =
      let r =
        parse_document-cases (codes "<buffer>") (load_raw_document_from_memory libxml bytes) file
          h in
      (r.0, load_raw_document_from_memory-IsSpanned libxml bytes encoding r.0 e d r.1, r.2)
