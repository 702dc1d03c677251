-- ===== src/JoinExec/Inspect/Gathering.antt =====
-- pkg/joinexec/walk.go: what a walk has gathered, as parts of the list of what stands in the document.
use openvaultdb_go.Base.{
  String, List, [], ◌∷◌, ◌++◌, Bool, true, false, ◌||◌, ◌≡◌, refl, sym, ◌∙◌, append_assoc,
  append-nil,
}
use openvaultdb_go.JoinExec.Walker.{WalkedSource, Document, Walker}
use openvaultdb_go.JoinExec.Walk.Found.{
  Item, read, subquery_found, null_found, in_scope, field_named, identified, qualified, note,
  note_all,
}

abbrev pub reads : List Item → List WalkedSource
reads [] = []
reads (read s ∷ is) = s ∷ reads is
reads (_ ∷ is) = reads is

abbrev pub any_subquery : List Item → Bool
any_subquery [] = false
any_subquery (subquery_found ∷ is) = true
any_subquery (_ ∷ is) = any_subquery is

abbrev pub any_null : List Item → Bool
any_null [] = false
any_null (null_found ∷ is) = true
any_null (_ ∷ is) = any_null is

abbrev pub scope_of : List Item → List String
scope_of [] = []
scope_of (in_scope name ∷ is) = name ∷ scope_of is
scope_of (_ ∷ is) = scope_of is

abbrev pub fields_of : List Item → List String
fields_of [] = []
fields_of (field_named name ∷ is) = name ∷ fields_of is
fields_of (_ ∷ is) = fields_of is

abbrev pub identifiers_of : List Item → List String
identifiers_of [] = []
identifiers_of (identified name ∷ is) = name ∷ identifiers_of is
identifiers_of (_ ∷ is) = identifiers_of is

abbrev pub qualifiers_of : List Item → List String
qualifiers_of [] = []
qualifiers_of (qualified name ∷ is) = name ∷ qualifiers_of is
qualifiers_of (_ ∷ is) = qualifiers_of is

abbrev pub document_of : List Item → Document
document_of is = record {
  sources = reads is;
  has_subquery = any_subquery is;
  has_null = any_null is;
}

abbrev gathered : List Item → Walker → Walker
gathered is w = record {
  doc = record {
    sources = w.doc.sources ++ reads is;
    has_subquery = w.doc.has_subquery || any_subquery is;
    has_null = w.doc.has_null || any_null is;
  };
  scope = w.scope ++ scope_of is;
  fields = w.fields ++ fields_of is;
  identifiers = w.identifiers ++ identifiers_of is;
  qualifiers = w.qualifiers ++ qualifiers_of is;
  nest = w.nest;
}

or_false : (b : Bool) → b || false ≡ b
or_false true = refl
or_false false = refl

or_true : (b : Bool) → true ≡ b || true
or_true true = refl
or_true false = refl

pub note_all-gathered : (is : List Item) (w : Walker) → note_all is w ≡ gathered is w
note_all-gathered [] w = λ k. record {
  doc = record {
    sources = sym (append-nil w.doc.sources) k;
    has_subquery = sym (or_false w.doc.has_subquery) k;
    has_null = sym (or_false w.doc.has_null) k;
  };
  scope = sym (append-nil w.scope) k;
  fields = sym (append-nil w.fields) k;
  identifiers = sym (append-nil w.identifiers) k;
  qualifiers = sym (append-nil w.qualifiers) k;
  nest = w.nest;
}
note_all-gathered (read s ∷ is) w = note_all-gathered is (note (read s) w) ∙ (λ k.
    record (gathered is w) {
      doc = record (gathered is w).doc {
        sources = append_assoc w.doc.sources (s ∷ []) (reads is) k;
      };
    })
note_all-gathered (subquery_found ∷ is) w = note_all-gathered is (note subquery_found w) ∙ (λ k.
    record (gathered is w) {
      doc = record (gathered is w).doc { has_subquery = or_true w.doc.has_subquery k };
    })
note_all-gathered (null_found ∷ is) w = note_all-gathered is (note null_found w) ∙ (λ k.
    record (gathered is w) {
      doc = record (gathered is w).doc { has_null = or_true w.doc.has_null k };
    })
note_all-gathered (in_scope n ∷ is) w =
    note_all-gathered is (note (in_scope n) w)
    ∙ (λ k. record (gathered is w) { scope = append_assoc w.scope (n ∷ []) (scope_of is) k })
note_all-gathered (field_named n ∷ is) w =
    note_all-gathered is (note (field_named n) w)
    ∙ (λ k. record (gathered is w) { fields = append_assoc w.fields (n ∷ []) (fields_of is) k })
note_all-gathered (identified n ∷ is) w = note_all-gathered is (note (identified n) w) ∙ (λ k.
    record (gathered is w) {
      identifiers = append_assoc w.identifiers (n ∷ []) (identifiers_of is) k;
    })
note_all-gathered (qualified n ∷ is) w = note_all-gathered is (note (qualified n) w) ∙ (λ k.
    record (gathered is w) { qualifiers = append_assoc w.qualifiers (n ∷ []) (qualifiers_of is) k })
